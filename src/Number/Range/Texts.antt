-- ===== src/Number/Range/Texts.antt =====
-- What `NumberRange` of crates/jiter/src/number_decoder.rs makes of the numbers of JSON.
use jiter.Prelude.{
  ℕ, zero, suc, ◌+◌, ◌≤◌, ◌<◌, ◌≡◌, ◌∙◌, refl, ap, Bool, true, false, ◌||◌, some, [], ◌∷◌, ◌++◌,
  append_assoc, arith, Bytes, length, length-append, drop, get_elem?, ◌==◌,
}
use jiter.Prelude.Slices.{get_elem?-drop_cons, get_elem?-drop_nil, drop-cons, drop-append}
use jiter.Errors.{JsonResult, ok}
use jiter.Parse.Reads.{Behind}
use jiter.Number.Table.{is_digit, int_char_map-is_digit}
use jiter.Number.Chunk.Laws.{Digits}
use jiter.Number.IntParse.Big.{IntEnds}
use jiter.Number.IntParse.Value.{Nonzero, minus, lead}
use jiter.Number.Float.Texts.{
  FloatText, below_one, above_one, trail, lead-trail, FractionText-first,
}
use jiter.Number.Chunk.{is_float_byte}
use jiter.Number.Range.{
  NumberRange, range_float, int_range, float_range, range_digits, range_zero, range_first,
  decode_range,
}
use jiter.Number.Range.Fractions.{range_float-FractionText}

-- How `decode` tests the byte.
float_byte_lem :
    (c : ℕ) (x : Bool) → is_float_byte c ≡ x → (c == b'.' || (c == b'e' || c == b'E')) ≡ x
float_byte_lem c x h = ground arith

length-trail :
    (positive : Bool) (c : ℕ) (t : Bytes)
    → length (trail positive c t) ≡ length (minus positive) + length t
length-trail true c t = omega arith
length-trail false c t = omega arith

module _ (bytes : Bytes) where
  -- The digits behind the first one.
  range_digits-Digits :
      (start n : ℕ) (ds rest : Bytes) (index end : ℕ) (r : JsonResult (NumberRange × ℕ))
      → drop index bytes ≡ ds ++ rest
      → Digits ds
      → length ds < n
      → end ≡ index + length ds
      → ((m : ℕ) → range_digits (suc m) bytes start end ≡ r)
      → range_digits n bytes start index ≡ r
  unfolding range_digits
  range_digits-Digits start zero ds rest index end r e h l k f = absurd (omega arith)
  range_digits-Digits start (suc n) [] rest index end r e h l k f =
      let z : index ≡ end = omega arith in rw z (f n)
  range_digits-Digits start (suc n) (d ∷ ds) rest index end r e (h, hs) l k f =
      rw (range_digits, get_elem?-drop_cons index bytes e, int_char_map-is_digit d, h)
        (range_digits-Digits start n ds rest (index + 1) end r (drop-cons index bytes e) hs
          (omega arith) (omega arith) f)

  -- What follows the digits in front of a fraction or an exponent, and behind an integer.
  digits_end-float :
      (start index c : ℕ) (rest : Bytes)
      → drop index bytes ≡ c ∷ rest
      → is_float_byte c ≡ true
      → (m : ℕ) → range_digits (suc m) bytes start index ≡ range_float bytes start index c
  unfolding range_digits
  digits_end-float start index c rest e f m =
      let d : is_digit c ≡ false = ground arith in
      rw
        (
          range_digits,
          get_elem?-drop_cons index bytes e,
          int_char_map-is_digit c,
          d,
          float_byte_lem c _ f,
        )
        refl

  digits_end-int :
      (start index : ℕ) (rest : Bytes)
      → drop index bytes ≡ rest
      → IntEnds rest
      → (m : ℕ) → range_digits (suc m) bytes start index ≡ int_range start index
  unfolding range_digits
  digits_end-int start index [] e h m = rw (range_digits, get_elem?-drop_nil index bytes e) refl
  digits_end-int start index (c ∷ cs) e (d, f) m =
      rw
        (
          range_digits,
          get_elem?-drop_cons index bytes e,
          int_char_map-is_digit c,
          d,
          float_byte_lem c _ f,
        )
        refl

  -- The first byte behind the sign.
  decode_range-first :
      (positive : Bool) (i c j : ℕ) (rest : Bytes) (inf_nan : Bool)
      → drop i bytes ≡ minus positive ++ (c ∷ rest)
      → is_digit c ≡ true
      → j ≡ i + length (minus positive)
      → decode_range bytes i (lead positive c) inf_nan
        ≡ range_first bytes i positive inf_nan j (some c)
  unfolding decode_range
  decode_range-first true i c j rest inf_nan e d k =
      let m : c == b'N' ≡ false = ground arith in
      let n : c == b'-' ≡ false = ground arith in
      let l : j ≡ i = omega arith in rw (m, n, l, get_elem?-drop_cons i bytes e) refl
  decode_range-first false i c j rest inf_nan e d k =
      let l : j ≡ i + 1 = omega arith in
      rw (l, get_elem?-drop_cons (i + 1) bytes (drop-cons i bytes e)) refl

  first_of_zero :
      (start : ℕ) (positive inf_nan : Bool) (i : ℕ)
      → range_first bytes start positive inf_nan i (some b'0')
        ≡ range_zero bytes start (i + 1) (get_elem? bytes (i + 1))
  unfolding range_first
  first_of_zero start positive inf_nan i = refl

  first_above_zero :
      (start : ℕ) (positive inf_nan : Bool) (i c : ℕ)
      → Nonzero c
      → range_first bytes start positive inf_nan i (some c) ≡ range_digits 18 bytes start (i + 1)
  unfolding range_first
  first_above_zero start positive inf_nan i c h =
      let n : c == b'0' ≡ false = ground arith in
      let m : c == b'I' ≡ false = ground arith in rw (n, m, h) refl

  zero-float :
      (start index c : ℕ) (rest : Bytes)
      → drop index bytes ≡ c ∷ rest
      → is_float_byte c ≡ true
      → range_zero bytes start index (get_elem? bytes index) ≡ range_float bytes start index c
  unfolding range_zero
  zero-float start index c rest e f =
      rw (get_elem?-drop_cons index bytes e, float_byte_lem c _ f) refl

  zero-int :
      (start index : ℕ) (rest : Bytes)
      → drop index bytes ≡ rest
      → IntEnds rest
      → range_zero bytes start index (get_elem? bytes index) ≡ int_range start index
  unfolding range_zero
  zero-int start index [] e h = rw (get_elem?-drop_nil index bytes e) refl
  zero-int start index (c ∷ cs) e (d, f) =
      rw (get_elem?-drop_cons index bytes e, float_byte_lem c _ f, d) refl

  behind_sign :
      (positive : Bool) (i c : ℕ) (rest : Bytes)
      → drop i bytes ≡ minus positive ++ (c ∷ rest)
      → drop (i + length (minus positive) + 1) bytes ≡ rest
  behind_sign positive i c rest e =
      drop-cons (i + length (minus positive)) bytes (drop-append (minus positive) i bytes e)

  -- An integer without a fraction and an exponent.
  pub decode_range-Digits :
      (positive : Bool) (c : ℕ) (ds : Bytes) (i j : ℕ) (rest : Bytes) (inf_nan : Bool)
      → drop i bytes ≡ minus positive ++ (c ∷ (ds ++ rest))
      → Nonzero c
      → Digits ds
      → length (c ∷ ds) ≤ 18
      → IntEnds rest
      → j ≡ i + length (minus positive) + 1 + length ds
      → decode_range bytes i (lead positive c) inf_nan ≡ int_range i j
  decode_range-Digits positive c ds i j rest inf_nan e n h l b k =
      let o = i + length (minus positive) in
      let e' = behind_sign positive i c (ds ++ rest) e in
      decode_range-first positive i c o (ds ++ rest) inf_nan e (ground arith) refl
      ∙ first_above_zero i positive inf_nan o c n
      ∙ range_digits-Digits i 18 ds rest (o + 1) j (int_range i j) e' h (omega arith) k
          (digits_end-int i j rest (rw k (drop-append ds (o + 1) bytes e')) b)

  pub decode_range-zero :
      (positive : Bool) (i j : ℕ) (rest : Bytes) (inf_nan : Bool)
      → drop i bytes ≡ minus positive ++ (b'0' ∷ rest)
      → IntEnds rest
      → j ≡ i + length (minus positive) + 1
      → decode_range bytes i (lead positive b'0') inf_nan ≡ int_range i j
  decode_range-zero positive i j rest inf_nan e b k =
      let o = i + length (minus positive) in
      rw k (
        decode_range-first positive i b'0' o rest inf_nan e refl refl
        ∙ first_of_zero i positive inf_nan o
        ∙ zero-int i (o + 1) rest (behind_sign positive i b'0' rest e) b)

  -- A float.
  pub decode_range-FloatText :
      {c : ℕ} {t : Bytes}
      → FloatText c t
      → (i j : ℕ) (rest : Bytes) (inf_nan : Bool) → drop i bytes ≡ c ∷ (t ++ rest)
      → Behind rest
      → j ≡ i + 1 + length t
      → decode_range bytes i c inf_nan ≡ float_range i (ok j)
  decode_range-FloatText (below_one positive {t} x) i j rest inf_nan e b k =
      let (d, cs, q, f) = FractionText-first t x in
      let o = i + length (minus positive) in
      let e' = e ∙ lead-trail positive b'0' t rest in
      let e1 = behind_sign positive i b'0' (t ++ rest) e' in
      decode_range-first positive i b'0' o (t ++ rest) inf_nan e' refl refl
      ∙ first_of_zero i positive inf_nan o
      ∙ zero-float i (o + 1) d (cs ++ rest) (e1 ∙ ap (λ y. y ++ rest) q) f
      ∙ range_float-FractionText bytes i x d cs q (o + 1) j rest e1 b
          (omega (arith, length-trail positive b'0' t))
  decode_range-FloatText (above_one positive c ds t n h l x) i j rest inf_nan e b k =
      let (d, cs, q, f) = FractionText-first t x in
      let o = i + length (minus positive) in
      let e' : drop i bytes ≡ minus positive ++ (c ∷ (ds ++ (t ++ rest))) =
        e
        ∙ lead-trail positive c (ds ++ t) rest
        ∙ ap (λ y. minus positive ++ (c ∷ y)) (append_assoc ds t rest) in
      let e1 = behind_sign positive i c (ds ++ (t ++ rest)) e' in
      let end = o + 1 + length ds in
      let e2 = drop-append ds (o + 1) bytes e1 in
      decode_range-first positive i c o (ds ++ (t ++ rest)) inf_nan e' (ground arith) refl
      ∙ first_above_zero i positive inf_nan o c n
      ∙ range_digits-Digits i 18 ds (t ++ rest) (o + 1) end (float_range i (ok j)) e1 h
          (omega arith) refl
          λ m.
            digits_end-float i end d (cs ++ rest) (e2 ∙ ap (λ y. y ++ rest) q) f m
            ∙ range_float-FractionText bytes i x d cs q end j rest e2 b
                (omega (arith, length-trail positive c (ds ++ t), length-append ds t))
