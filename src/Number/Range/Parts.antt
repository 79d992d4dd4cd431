-- ===== src/Number/Range/Parts.antt =====
-- The fractions and exponents of crates/jiter/src/number_decoder.rs: where they end.
use jiter.Prelude.{
  ℕ, ◌+◌, ◌≤◌, ◌<◌, ◌||◌, Option, none, some, [], ◌∷◌, arith, Bytes, get_elem?, drop, ◌==◌, ◌≡◌,
  length, length-drop, Option-cases, inl, inr, get_elem?-bound,
}
use jiter.Errors.Ensures.{Ensures, returns, refuses, Ensures-next, Ensures-test, Ensures-weaken}
use jiter.Number.Table.{is_digit}
use jiter.Number.Range.{
  skip_digits, need_digit, exponent_digits, exponent_sign, consume_exponential, decimal_from,
  consume_decimal,
}

-- An index behind another one, in the data or at its end.
abbrev pub Inside : Bytes → ℕ → ℕ → Type 0
Inside bytes index end = (index < end) × (end ≤ length bytes)

skip_digits-le :
    (cs : Bytes) (index : ℕ)
    → (index ≤ skip_digits cs index) × (skip_digits cs index ≤ index + length cs)
unfolding skip_digits
skip_digits-le [] index = omega arith
skip_digits-le (c ∷ cs) index = ground (arith, skip_digits-le cs (index + 1))

need_digit-Ensures :
    (bytes : Bytes) (index : ℕ)
    → Ensures (λ _. index < length bytes) (need_digit (get_elem? bytes index) index)
need_digit-Ensures bytes index = elim (Option-cases (get_elem? bytes index)) [
  | inl e ↦ rw e refuses
  | inr (c, e) ↦
      rw e (Ensures-test (is_digit c) (λ _. returns (get_elem?-bound bytes index e)) (λ _. refuses))
]

exponent_digits-Ensures :
    (bytes : Bytes) (index : ℕ) → Ensures (Inside bytes index) (exponent_digits bytes index)
unfolding exponent_digits
exponent_digits-Ensures bytes index = Ensures-next (need_digit-Ensures bytes index) λ u h. returns (
    omega
      (arith, skip_digits-le (drop (index + 1) bytes) (index + 1), length-drop (index + 1) bytes))

exponent_sign-Ensures :
    (bytes : Bytes) (index : ℕ) (o : Option ℕ)
    → Ensures (Inside bytes index) (exponent_sign bytes index o)
unfolding exponent_sign
exponent_sign-Ensures bytes index none = refuses
exponent_sign-Ensures bytes index (some c) =
    Ensures-test (c == b'-' || c == b'+')
      (λ _. Ensures-weaken (exponent_digits-Ensures bytes (index + 1)) λ end h. (omega arith, h.1))
      λ _. Ensures-test (is_digit c) (λ _. exponent_digits-Ensures bytes index) (λ _. refuses)

pub consume_exponential-Ensures :
    (bytes : Bytes) (index : ℕ) → Ensures (Inside bytes index) (consume_exponential bytes index)
unfolding consume_exponential
consume_exponential-Ensures bytes index = exponent_sign-Ensures bytes index (get_elem? bytes index)

decimal_from-Ensures :
    (bytes cs : Bytes) (index : ℕ)
    → index + length cs ≡ length bytes
    → Ensures (λ end. (index ≤ end) × (end ≤ length bytes)) (decimal_from bytes cs index)
unfolding decimal_from
decimal_from-Ensures bytes [] index l = returns (omega arith)
decimal_from-Ensures bytes (c ∷ cs) index l =
    Ensures-test (is_digit c)
      (λ _.
        Ensures-weaken (decimal_from-Ensures bytes cs (index + 1) (omega arith))
          λ end h. (omega arith, h.1))
      λ _.
        Ensures-test (c == b'e' || c == b'E')
          (λ _.
            Ensures-weaken (consume_exponential-Ensures bytes (index + 1))
              λ end h. (omega arith, h.1))
          (λ _. returns (omega arith))

pub consume_decimal-Ensures :
    (bytes : Bytes) (index : ℕ) → Ensures (Inside bytes index) (consume_decimal bytes index)
unfolding consume_decimal
consume_decimal-Ensures bytes index = Ensures-next (need_digit-Ensures bytes index) λ u h.
    Ensures-weaken
      (decimal_from-Ensures bytes (drop (index + 1) bytes) (index + 1)
        (omega (arith, length-drop (index + 1) bytes)))
      λ end k. (omega arith, k.1)
