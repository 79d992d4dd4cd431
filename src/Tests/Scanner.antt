-- ===== src/Tests/Scanner.antt =====
-- A float parser that meets what crates/jiter/src/number_decoder.rs relies on.
use jiter.Prelude.{
  ℕ, ◌+◌, ◌≡◌, ◌∙◌, refl, ap, Bool, true, false, ◌||◌, Option, some, [], ◌∷◌, ◌++◌, arith, Bytes,
  length, All, All-append, within, ◌==◌, if◌then◌else◌,
}
use jiter.Parse.{is_whitespace}
use jiter.Parse.Reads.{Behind}
use jiter.Number.Libs.{NumberLibs}
use jiter.Number.Chunk.Laws.{Digits}
use jiter.Number.Float.Texts.{
  ExponentText, unsigned, signed, FractionText, fraction, exponent, fraction_exponent, FloatText,
  below_one, above_one, LexicalReads,
}
use jiter.Tests.Numbers.{libs}

-- A reader of floats that takes all bytes that a float can have, and leaves their value out.
abbrev is_float_part : ℕ → Bool
is_float_part c =
    within b'0' b'9' c || c == b'+' || c == b'-' || c == b'.' || c == b'e' || c == b'E'

pub part_length : Bytes → ℕ
part_length [] = 0
part_length (c ∷ cs) = let rest = part_length cs in if is_float_part c then rest + 1 else 0

abbrev pub read_parts : Bytes → Option (Unit {0} × ℕ)
read_parts bytes = some (tt, part_length bytes)

abbrev pub scanning : NumberLibs
scanning = record libs { from_lexical_partial = read_parts }

abbrev Parts : Bytes → Type 0
Parts = All (λ c. is_float_part c ≡ true)

part_length-Parts : (t rest : Bytes) → Parts t → Behind rest → part_length (t ++ rest) ≡ length t
unfolding part_length is_whitespace
part_length-Parts [] [] p b = refl
part_length-Parts [] (c ∷ cs) p b = ground arith
part_length-Parts (c ∷ t) rest (h, p) b = rw h (omega (arith, part_length-Parts t rest p b))

Digits-Parts : (ds : Bytes) → Digits ds → Parts ds
Digits-Parts [] d = tt
Digits-Parts (c ∷ ds) (h, d) = (ground arith, Digits-Parts ds d)

ExponentText-Parts : {t : Bytes} → ExponentText t → Parts t
ExponentText-Parts (unsigned d ds h) = Digits-Parts (d ∷ ds) h
ExponentText-Parts (signed s d ds k h) = (ground arith, Digits-Parts (d ∷ ds) h)

FractionText-Parts : {t : Bytes} → FractionText t → Parts t
FractionText-Parts (fraction d ds h) = (refl, Digits-Parts (d ∷ ds) h)
FractionText-Parts (exponent e t k x) = (ground arith, ExponentText-Parts x)
FractionText-Parts (fraction_exponent d ds e t h k x) = (
  refl,
  All-append _ (d ∷ ds) (e ∷ t) (Digits-Parts (d ∷ ds) h) (ground arith, ExponentText-Parts x),
)

FloatText-Parts : {c : ℕ} {t : Bytes} → FloatText c t → Parts (c ∷ t)
FloatText-Parts (below_one true x) = (refl, FractionText-Parts x)
FloatText-Parts (below_one false x) = (refl, (refl, FractionText-Parts x))
FloatText-Parts (above_one true c ds t n h l x) =
    (ground arith, All-append _ ds t (Digits-Parts ds h) (FractionText-Parts x))
FloatText-Parts (above_one false c ds t n h l x) =
    (refl, (ground arith, All-append _ ds t (Digits-Parts ds h) (FractionText-Parts x)))

pub read_parts-reads :
    (c : ℕ) (t rest : Bytes)
    → FloatText c t
    → Behind rest
    → read_parts (c ∷ (t ++ rest)) ≡ some (tt, length t + 1)
read_parts-reads c t rest x b =
    let e : length (c ∷ t) ≡ length t + 1 = omega arith in
    ap (λ n. some (tt, n)) (part_length-Parts (c ∷ t) rest (FloatText-Parts x) b ∙ e)

abbrev pub scans : LexicalReads scanning
scans = record { float_value = λ t. tt; reads = read_parts-reads }
