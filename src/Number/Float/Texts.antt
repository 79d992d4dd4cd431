-- ===== src/Number/Float/Texts.antt =====
-- Floats as the grammar of JSON has them, and what `NumberAny::decode` of
-- crates/jiter/src/number_decoder.rs makes of them.
use jiter.Prelude.{
  ℕ, ◌+◌, ◌-◌, ◌≤◌, ◌<◌, ◌≡◌, ◌∙◌, refl, ap, Bool, true, false, ◌||◌, some, ◌∷◌, ◌++◌, append_assoc,
  arith, Bytes, length, drop, ◌==◌,
}
use jiter.Prelude.Slices.{get_elem?-drop_cons, drop-cons}
use jiter.Errors.{ok}
use jiter.Parse.Reads.{Behind}
use jiter.Number.Libs.{NumberLibs}
use jiter.Number.Table.{is_digit, int_char_map, int_char_map-is_digit}
use jiter.Number.Chunk.{IntChunk, is_float_byte, parse_small, decode_int_chunk_fallback}
use jiter.Number.Chunk.Laws.{Digits, int_chunk_loop-ends, chunk_end}
use jiter.Number.IntParse.{IntParse, after_digit, after_zero, parse}
use jiter.Number.IntParse.Value.{
  Nonzero, minus, lead, small_bound, parse-after_digit, drop-after_digit, digit_lt,
}
use jiter.Number.Float.{NumberAny, any_of, decode_float, float_first, lexical, decode_any}

-- Digits, one at least, with a sign in front or not.
pub data ExponentText : Bytes → Type 0 where
  unsigned : (d : ℕ) (ds : Bytes) → Digits (d ∷ ds) → ExponentText (d ∷ ds)
  signed :
      (s d : ℕ) (ds : Bytes)
      → (s == b'+' || s == b'-') ≡ true
      → Digits (d ∷ ds)
      → ExponentText (s ∷ (d ∷ ds))

-- A fraction, an exponent, or both.
pub data FractionText : Bytes → Type 0 where
  fraction : (d : ℕ) (ds : Bytes) → Digits (d ∷ ds) → FractionText (b'.' ∷ (d ∷ ds))
  exponent :
      (e : ℕ) (t : Bytes) → (e == b'e' || e == b'E') ≡ true → ExponentText t → FractionText (e ∷ t)
  fraction_exponent :
      (d : ℕ) (ds : Bytes) (e : ℕ) (t : Bytes)
      → Digits (d ∷ ds)
      → (e == b'e' || e == b'E') ≡ true
      → ExponentText t
      → FractionText (b'.' ∷ (d ∷ (ds ++ (e ∷ t))))

-- What stands behind the first byte of a number whose first digit is `c`.
abbrev pub trail : Bool → ℕ → Bytes → Bytes
trail true c t = t
trail false c t = c ∷ t

-- A float by its first byte and the bytes behind it, with at most 18 digits in front of its point.
pub data FloatText : ℕ → Bytes → Type 0 where
  below_one :
      (positive : Bool) {t : Bytes}
      → FractionText t
      → FloatText (lead positive b'0') (trail positive b'0' t)
  above_one :
      (positive : Bool) (c : ℕ) (ds t : Bytes)
      → Nonzero c
      → Digits ds
      → length (c ∷ ds) ≤ 18
      → FractionText t
      → FloatText (lead positive c) (trail positive c (ds ++ t))

-- The documented behaviour of `from_lexical_partial_with_options` with the format of JSON: it reads a
-- float of JSON to its end, whatever stands behind it.
pub record LexicalReads (L : NumberLibs) : Type 0 where
  pub float_value : Bytes → L.Float
  pub reads :
      (c : ℕ) (t rest : Bytes)
      → FloatText c t
      → Behind rest
      → L.from_lexical_partial (c ∷ (t ++ rest)) ≡ some (float_value (c ∷ t), length t + 1)

pub FractionText-first :
    (t : Bytes) → FractionText t → (c : ℕ) × (cs : Bytes) × (t ≡ c ∷ cs) × (is_float_byte c ≡ true)
FractionText-first _ (fraction d ds h) = (b'.', d ∷ ds, refl, refl)
FractionText-first _ (exponent e t h x) = (e, t, refl, ground arith)
FractionText-first _ (fraction_exponent d ds e t h k x) = (b'.', d ∷ (ds ++ (e ∷ t)), refl, refl)

float_byte-no_digit : (c : ℕ) → is_float_byte c ≡ true → is_digit c ≡ false
float_byte-no_digit c h = ground arith

small_chunk-float :
    (c : ℕ) (ds rest bytes : Bytes) (index d : ℕ)
    → drop index bytes ≡ ds ++ (d ∷ rest)
    → Digits ds
    → is_float_byte d ≡ true
    → c < 10
    → length ds < 18
    → parse_small bytes index c ≡ (IntChunk.float, index + length ds)
unfolding decode_int_chunk_fallback chunk_end
small_chunk-float c ds rest bytes index d e h f l k =
    int_chunk_loop-ends 18 ds (d ∷ rest) bytes index c e h (float_byte-no_digit d f) k
      (omega (arith, small_bound c 17 ds h l (omega arith)))
    ∙ rw f refl

pub lead-trail :
    (positive : Bool) (c : ℕ) (t rest : Bytes)
    → lead positive c ∷ (trail positive c t ++ rest) ≡ minus positive ++ (c ∷ (t ++ rest))
lead-trail true c t rest = refl
lead-trail false c t rest = refl

module _ (L : NumberLibs) where
  open L use {Float, BigInt, from_lexical_partial}

  after_digit-float :
      (bytes : Bytes) (start index : ℕ) (positive : Bool) (c end : ℕ)
      → parse_small bytes index c ≡ (IntChunk.float, end)
      → after_digit L bytes start positive index c ≡ ok (IntParse.float, end)
  unfolding after_digit
  after_digit-float bytes start index positive c end r =
      rw (ap (λ t. t.0) r, after_digit, ap (λ t. t.1) r) refl

  parse-zero_float :
      (positive : Bool) (bytes : Bytes) (i d : ℕ) (rest : Bytes)
      → drop i bytes ≡ minus positive ++ (b'0' ∷ (d ∷ rest))
      → is_float_byte d ≡ true
      → parse L bytes i (lead positive b'0') ≡ ok (IntParse.float, i + length (minus positive) + 1)
  unfolding parse after_zero
  parse-zero_float true bytes i d rest e f =
      let z : i + 0 + 1 ≡ i + 1 = omega arith in
      let g = get_elem?-drop_cons (i + 1) bytes (drop-cons i bytes e) in rw (g, z) (ground arith)
  parse-zero_float false bytes i d rest e f =
      let e1 = drop-cons i bytes e in
      let g = get_elem?-drop_cons (i + 1) bytes e1 in
      let h = get_elem?-drop_cons (i + 1 + 1) bytes (drop-cons (i + 1) bytes e1) in
      rw (g, h) (ground arith)

  -- The integer decoder sees a float.
  parse-FloatText :
      {c : ℕ} {t : Bytes}
      → FloatText c t
      → (bytes : Bytes) (i : ℕ) (rest : Bytes) → drop i bytes ≡ c ∷ (t ++ rest)
      → (j : ℕ) × (parse L bytes i c ≡ ok (IntParse.float, j))
  parse-FloatText (below_one positive {t} x) bytes i rest e =
      let (d, cs, q, f) = FractionText-first t x in
      let e' : drop i bytes ≡ minus positive ++ (b'0' ∷ (d ∷ (cs ++ rest))) =
        e ∙ lead-trail positive b'0' t rest ∙ ap (λ y. minus positive ++ (b'0' ∷ (y ++ rest))) q in
      (_, parse-zero_float positive bytes i d (cs ++ rest) e' f)
  parse-FloatText (above_one positive c ds t n h l x) bytes i rest e =
      let (d, cs, q, f) = FractionText-first t x in
      let k = i + length (minus positive) + 1 in
      let e' : drop i bytes ≡ minus positive ++ (c ∷ (ds ++ (d ∷ (cs ++ rest)))) =
        e
        ∙ lead-trail positive c (ds ++ t) rest
        ∙ ap (λ y. minus positive ++ (c ∷ y))
            (append_assoc ds t rest ∙ ap (λ y. ds ++ (y ++ rest)) q) in
      let e2 = drop-after_digit L positive c (ds ++ (d ∷ (cs ++ rest))) bytes i e' in
      (
        k + length ds,
        parse-after_digit L positive c (ds ++ (d ∷ (cs ++ rest))) bytes i e' n
            ∙ after_digit-float bytes i k positive (c - 48) (k + length ds) (
                small_chunk-float (c - 48) ds (cs ++ rest) bytes k d e2 h f (digit_lt c n)
                  (omega arith)),
      )

  -- The float decoder hands the bytes to `lexical_parse_float`.
  decode_float-lexical :
      (positive : Bool) (bytes : Bytes) (i c : ℕ) (rest : Bytes) (inf_nan : Bool)
      → drop i bytes ≡ minus positive ++ (c ∷ rest)
      → is_digit c ≡ true
      → decode_float L bytes i (lead positive c) inf_nan
        ≡ lexical L bytes i (lead positive c) inf_nan (from_lexical_partial (drop i bytes))
  unfolding decode_float float_first
  decode_float-lexical true bytes i c rest inf_nan e d =
      let m : int_char_map c ≡ true = int_char_map-is_digit c ∙ d in
      let n : c == b'N' ≡ false = ground arith in
      let s : c == b'-' ≡ false = ground arith in rw (n, s, m) refl
  decode_float-lexical false bytes i c rest inf_nan e d =
      let m : int_char_map c ≡ true = int_char_map-is_digit c ∙ d in
      rw (get_elem?-drop_cons (i + 1) bytes (drop-cons i bytes e), m) refl

  FloatText-digit :
      {c : ℕ} {t : Bytes}
      → FloatText c t
      → (positive : Bool) × (d : ℕ) × (cs : Bytes) × (c ≡ lead positive d)
        × ((rest : Bytes) → c ∷ (t ++ rest) ≡ minus positive ++ (d ∷ (cs ++ rest)))
        × (is_digit d ≡ true)
  FloatText-digit (below_one positive {t} x) =
      (positive, b'0', t, refl, lead-trail positive b'0' t, refl)
  FloatText-digit (above_one positive c ds t n h l x) =
      (positive, c, ds ++ t, refl, lead-trail positive c (ds ++ t), ground arith)

  any_of-float :
      (bytes : Bytes) (i c j k : ℕ) (inf_nan : Bool) (f : Float)
      → parse L bytes i c ≡ ok (IntParse.float, j)
      → decode_float L bytes i c inf_nan ≡ ok (f, k)
      → decode_any L bytes i c inf_nan ≡ ok (NumberAny.float f, k)
  unfolding decode_any any_of
  any_of-float bytes i c j k inf_nan f e d = rw (e, d) refl

  lexical-some :
      (bytes : Bytes) (i c n : ℕ) (inf_nan : Bool) (f : Float)
      → from_lexical_partial (drop i bytes) ≡ some (f, n)
      → lexical L bytes i c inf_nan (from_lexical_partial (drop i bytes)) ≡ ok (f, n + i)
  unfolding lexical
  lexical-some bytes i c n inf_nan f e = rw e refl

  -- A float is read to its end as the value that `lexical_parse_float` gives it.
  pub decode_any-FloatText :
      (laws : LexicalReads L) {c : ℕ} {t : Bytes}
      → FloatText c t
      → (bytes : Bytes) (i : ℕ) (rest : Bytes) (inf_nan : Bool) → drop i bytes ≡ c ∷ (t ++ rest)
      → Behind rest
      → decode_any L bytes i c inf_nan
        ≡ ok (NumberAny.float (laws.float_value (c ∷ t)), i + 1 + length t)
  decode_any-FloatText laws {c} {t} x bytes i rest inf_nan e b =
      let (j, p) = parse-FloatText x bytes i rest e in
      let (positive, d, cs, q, r, h) = FloatText-digit x in
      let v = laws.float_value (c ∷ t) in
      let k : length t + 1 + i ≡ i + 1 + length t = omega arith in
      any_of-float bytes i c j (i + 1 + length t) inf_nan v p (
        rw q (decode_float-lexical positive bytes i d (cs ++ rest) inf_nan (e ∙ r rest) h)
        ∙ lexical-some bytes i c (length t + 1) inf_nan v (rw e (laws.reads c t rest x b))
        ∙ ap (λ y. ok (v, y)) k)
