-- ===== src/Value/NumberTexts.antt =====
-- The numbers of JSON that crates/jiter/src/value.rs reads as integers and floats.
use jiter.Prelude.{
  get_elem?, ℕ, ◌+◌, ◌≤◌, ◌≡◌, refl, true, false, [], ◌∷◌, ◌++◌, arith, Bytes, Bool, length, drop,
  ◌||◌, ◌==◌,
}
use jiter.Prelude.Int.{pos, -ℤ◌}
use jiter.Prelude.Slices.{drop-cons, get_elem?-drop_cons, get_elem?-drop_nil}
use jiter.Errors.{ok}
use jiter.Parse.{is_whitespace, is_ascii_digit}
use jiter.Parse.Reads.{Behind}
use jiter.Number.Libs.{NumberLibs}
use jiter.Number.Chunk.Laws.{Digits, decimal}
use jiter.Number.IntParse.{NumberInt, IntParse, parse, after_zero}
use jiter.Number.IntParse.Big.{IntEnds}
use jiter.Number.IntParse.Value.{Nonzero, parse-i64}
use jiter.Number.Float.Texts.{FloatText, below_one, above_one, LexicalReads, decode_any-FloatText}
use jiter.Number.Float.{NumberAny, decode_any}
use jiter.Value.Data.{JsonValue, int, float}
use jiter.Value.Grammar.{count}
use jiter.Value.Take.{number_value}

-- The integers of at most 18 digits, without a leading zero.
pub data IntText {F B : Type 0} : ℕ → Bytes → JsonValue F B → Type 0 where
  zero_text : IntText b'0' [] (int (pos 0))
  minus_zero_text : IntText b'-' (b'0' ∷ []) (int (pos 0))
  positive_text :
      {c : ℕ} {ds : Bytes}
      → Nonzero c
      → Digits ds
      → length (c ∷ ds) ≤ 18
      → IntText c ds (int (pos (decimal 0 (c ∷ ds))))
  negative_text :
      {c : ℕ} {ds : Bytes}
      → Nonzero c
      → Digits ds
      → length (c ∷ ds) ≤ 18
      → IntText b'-' (c ∷ ds) (int (-ℤ◌ (pos (decimal 0 (c ∷ ds)))))

-- These integers, and floats with the values that `lexical_parse_float` gives them.
pub data NumberText {F B : Type 0} (float_value : Bytes → F)
    : ℕ → Bytes → JsonValue F B → Type 0 where
  int_text : {c : ℕ} {t : Bytes} {v : JsonValue F B} → IntText c t v → NumberText float_value c t v
  float_text :
      {c : ℕ} {t : Bytes} → FloatText c t → NumberText float_value c t (float (float_value (c ∷ t)))

pub Behind-IntEnds : (rest : Bytes) → Behind rest → IntEnds rest
unfolding is_whitespace
Behind-IntEnds [] h = tt
Behind-IntEnds (c ∷ cs) h = (ground arith, ground arith)

module _ (L : NumberLibs) where
  open L use {Float, BigInt}

  decode_any-int :
      (bytes : Bytes) (i c j : ℕ) (inf_nan : Bool) (n : NumberInt BigInt)
      → parse L bytes i c ≡ ok (IntParse.int n, j)
      → decode_any L bytes i c inf_nan ≡ ok (NumberAny.int n, j)
  unfolding decode_any
  decode_any-int bytes i c j inf_nan n e = rw e refl

  after_zero-int :
      (bytes : Bytes) (i : ℕ) (rest : Bytes)
      → drop i bytes ≡ rest
      → IntEnds rest
      → after_zero L (get_elem? bytes i) i ≡ ok (IntParse.int (NumberInt.int (pos 0)), i)
  unfolding after_zero
  after_zero-int bytes i [] e h = rw (get_elem?-drop_nil i bytes e) refl
  after_zero-int bytes i (c ∷ cs) e h = rw (get_elem?-drop_cons i bytes e) (ground arith)

  parse-zero :
      (bytes : Bytes) (i : ℕ) (rest : Bytes)
      → drop i bytes ≡ b'0' ∷ rest
      → IntEnds rest
      → parse L bytes i b'0' ≡ ok (IntParse.int (NumberInt.int (pos 0)), i + 1)
  unfolding parse
  parse-zero bytes i rest e h = after_zero-int bytes (i + 1) rest (drop-cons i bytes e) h

  parse-minus_zero :
      (bytes : Bytes) (i : ℕ) (rest : Bytes)
      → drop i bytes ≡ b'-' ∷ (b'0' ∷ rest)
      → IntEnds rest
      → parse L bytes i b'-' ≡ ok (IntParse.int (NumberInt.int (pos 0)), i + 1 + 1)
  unfolding parse
  parse-minus_zero bytes i rest e h =
      let e1 = drop-cons i bytes e in
      rw (get_elem?-drop_cons (i + 1) bytes e1)
        (after_zero-int bytes (i + 1 + 1) rest (drop-cons (i + 1) bytes e1) h)

  abbrev pub Reads : Bytes → ℕ → ℕ → ℕ → Bool → JsonValue Float BigInt → Type 0
  Reads bytes i c j inf_nan v =
      (n : NumberAny Float BigInt) × (number_value n ≡ v)
      × (decode_any L bytes i c inf_nan ≡ ok (n, j))

  decode_any-IntText :
      {c : ℕ} {t : Bytes} {v : JsonValue Float BigInt}
      → IntText c t v
      → (bytes : Bytes) (i j : ℕ) (rest : Bytes) (inf_nan : Bool) → drop i bytes ≡ c ∷ (t ++ rest)
      → Behind rest
      → j ≡ i + 1 + length t
      → Reads bytes i c j inf_nan v
  unfolding number_value
  decode_any-IntText zero_text bytes i j rest inf_nan e b k =
      let m : j ≡ i + 1 = omega arith in
      (
        NumberAny.int (NumberInt.int (pos 0)),
        refl,
        rw m (
            decode_any-int bytes i b'0' (i + 1) inf_nan _
              (parse-zero bytes i rest e (Behind-IntEnds rest b))),
      )
  decode_any-IntText minus_zero_text bytes i j rest inf_nan e b k =
      let m : j ≡ i + 1 + 1 = omega arith in
      (
        NumberAny.int (NumberInt.int (pos 0)),
        refl,
        rw m (
            decode_any-int bytes i b'-' (i + 1 + 1) inf_nan _
              (parse-minus_zero bytes i rest e (Behind-IntEnds rest b))),
      )
  decode_any-IntText (positive_text {c} {ds} h d l) bytes i j rest inf_nan e b k =
      let m : j ≡ i + 0 + length (c ∷ ds) = omega arith in
      (
        NumberAny.int (NumberInt.int (pos (decimal 0 (c ∷ ds)))),
        refl,
        rw m (
            decode_any-int bytes i c _ inf_nan _
              (parse-i64 L true c ds rest bytes i e h d (Behind-IntEnds rest b) l)),
      )
  decode_any-IntText (negative_text {c} {ds} h d l) bytes i j rest inf_nan e b k = (
    NumberAny.int (NumberInt.int (-ℤ◌ (pos (decimal 0 (c ∷ ds))))),
    refl,
    rw k (
        decode_any-int bytes i b'-' _ inf_nan _
          (parse-i64 L false c ds rest bytes i e h d (Behind-IntEnds rest b) l)),
  )

IntText-first :
    {F B : Type 0} {c : ℕ} {t : Bytes} {v : JsonValue F B}
    → IntText c t v
    → (is_ascii_digit c || c == b'-') ≡ true
IntText-first zero_text = refl
IntText-first minus_zero_text = refl
IntText-first (positive_text h d l) = ground arith
IntText-first (negative_text h d l) = refl

IntText-count : {F B : Type 0} {c : ℕ} {t : Bytes} {v : JsonValue F B} → IntText c t v → count v ≡ 1
unfolding count
IntText-count zero_text = refl
IntText-count minus_zero_text = refl
IntText-count (positive_text h d l) = refl
IntText-count (negative_text h d l) = refl

FloatText-first : {c : ℕ} {t : Bytes} → FloatText c t → (is_ascii_digit c || c == b'-') ≡ true
FloatText-first (below_one true x) = refl
FloatText-first (below_one false x) = refl
FloatText-first (above_one true c ds t n h l x) = ground arith
FloatText-first (above_one false c ds t n h l x) = refl

pub NumberText-first :
    {F B : Type 0} {float_value : Bytes → F} {c : ℕ} {t : Bytes} {v : JsonValue F B}
    → NumberText float_value c t v
    → (is_ascii_digit c || c == b'-') ≡ true
NumberText-first (int_text h) = IntText-first h
NumberText-first (float_text h) = FloatText-first h

pub NumberText-count :
    {F B : Type 0} {float_value : Bytes → F} {c : ℕ} {t : Bytes} {v : JsonValue F B}
    → NumberText float_value c t v
    → count v ≡ 1
unfolding count
NumberText-count (int_text h) = IntText-count h
NumberText-count (float_text h) = refl

pub decode_any-NumberText :
    (L : NumberLibs) (laws : LexicalReads L) {c : ℕ} {t : Bytes} {v : JsonValue L.Float L.BigInt}
    → NumberText laws.float_value c t v
    → (bytes : Bytes) (i : ℕ) (rest : Bytes) (inf_nan : Bool) → drop i bytes ≡ c ∷ (t ++ rest)
    → Behind rest
    → Reads L bytes i c (i + 1 + length t) inf_nan v
unfolding number_value
decode_any-NumberText L laws (int_text h) bytes i rest inf_nan e b =
    decode_any-IntText L h bytes i _ rest inf_nan e b refl
decode_any-NumberText L laws (float_text {c} {t} h) bytes i rest inf_nan e b = (
  NumberAny.float (laws.float_value (c ∷ t)),
  refl,
  decode_any-FloatText L laws h bytes i rest inf_nan e b,
)
