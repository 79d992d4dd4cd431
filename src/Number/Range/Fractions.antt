-- ===== src/Number/Range/Fractions.antt =====
-- What `consume_decimal` and `consume_exponential` of crates/jiter/src/number_decoder.rs make of the
-- fractions and exponents of JSON.
use jiter.Prelude.{
  ℕ, ◌+◌, ◌≡◌, ◌∙◌, refl, ap, true, false, ◌||◌, [], ◌∷◌, ◌++◌, append_assoc, arith, Bytes, length,
  length-append, drop, ◌==◌,
}
use jiter.Prelude.Slices.{get_elem?-drop_cons, drop-cons, drop-append}
use jiter.Errors.{ok}
use jiter.Parse.{is_whitespace}
use jiter.Parse.Reads.{Behind}
use jiter.Number.Table.{is_digit}
use jiter.Number.Chunk.Laws.{Digits}
use jiter.Number.Float.Texts.{
  ExponentText, unsigned, signed, FractionText, fraction, exponent, fraction_exponent,
}
use jiter.Number.Range.{
  skip_digits, exponent_digits, exponent_sign, consume_exponential, decimal_from, consume_decimal,
  range_float, float_range,
}

skip_digits-Digits :
    (ds rest : Bytes) (index : ℕ)
    → Digits ds
    → Behind rest
    → skip_digits (ds ++ rest) index ≡ index + length ds
unfolding skip_digits is_whitespace
skip_digits-Digits [] [] index h b = omega arith
skip_digits-Digits [] (c ∷ cs) index h b = ground arith
skip_digits-Digits (d ∷ ds) rest index (h, hs) b =
    rw h (skip_digits-Digits ds rest (index + 1) hs b ∙ omega arith)

module _ (bytes : Bytes) where
  exponent_digits-Digits :
      (d : ℕ) (ds rest : Bytes) (i : ℕ)
      → drop i bytes ≡ d ∷ (ds ++ rest)
      → Digits (d ∷ ds)
      → Behind rest
      → exponent_digits bytes i ≡ ok (i + 1 + length ds)
  unfolding exponent_digits
  exponent_digits-Digits d ds rest i e (h, hs) b =
      rw
        (
          get_elem?-drop_cons i bytes e,
          h,
          drop-cons i bytes e,
          skip_digits-Digits ds rest (i + 1) hs b,
        )
        refl

  consume_exponential-ExponentText :
      {t : Bytes}
      → ExponentText t
      → (i j : ℕ) (rest : Bytes) → drop i bytes ≡ t ++ rest
      → Behind rest
      → j ≡ i + length t
      → consume_exponential bytes i ≡ ok j
  unfolding consume_exponential exponent_sign
  consume_exponential-ExponentText (unsigned d ds (h, hs)) i j rest e b k =
      let l : j ≡ i + 1 + length ds = omega arith in
      let s : (d == b'-' || d == b'+') ≡ false = ground arith in
      rw (get_elem?-drop_cons i bytes e, s, h, exponent_digits-Digits d ds rest i e (h, hs) b, l)
        refl
  consume_exponential-ExponentText (signed s d ds h hs) i j rest e b k =
      let l : j ≡ i + 1 + 1 + length ds = omega arith in
      let s : (s == b'-' || s == b'+') ≡ true = ground arith in
      rw
        (
          get_elem?-drop_cons i bytes e,
          s,
          exponent_digits-Digits d ds rest (i + 1) (drop-cons i bytes e) hs b,
          l,
        )
        refl

  decimal_from-Digits :
      (ds rest : Bytes) (index : ℕ)
      → Digits ds
      → Behind rest
      → decimal_from bytes (ds ++ rest) index ≡ ok (index + length ds)
  unfolding decimal_from is_whitespace
  decimal_from-Digits [] [] index h b = ground arith
  decimal_from-Digits [] (c ∷ cs) index h b = ground arith
  decimal_from-Digits (d ∷ ds) rest index (h, hs) b =
      rw h (decimal_from-Digits ds rest (index + 1) hs b ∙ ap ok (omega arith))

  decimal_from-exponent :
      (ds : Bytes) (c : ℕ) (rest : Bytes) (index : ℕ)
      → Digits ds
      → (c == b'e' || c == b'E') ≡ true
      → decimal_from bytes (ds ++ (c ∷ rest)) index
        ≡ consume_exponential bytes (index + length ds + 1)
  unfolding decimal_from
  decimal_from-exponent [] c rest index h x =
      let d : is_digit c ≡ false = ground arith in
      let z : index + 1 ≡ index + 0 + 1 = omega arith in rw (d, x, z) refl
  decimal_from-exponent (d ∷ ds) c rest index (h, hs) x = rw h (
      decimal_from-exponent ds c rest (index + 1) hs x
      ∙ ap (consume_exponential bytes) (omega arith))

  -- A fraction or an exponent, to its end.
  pub range_float-FractionText :
      (start : ℕ) {t : Bytes}
      → FractionText t
      → (c : ℕ) (cs : Bytes) → t ≡ c ∷ cs
      → (i j : ℕ) (rest : Bytes) → drop i bytes ≡ t ++ rest
      → Behind rest
      → j ≡ i + length t
      → range_float bytes start i c ≡ float_range start (ok j)
  unfolding consume_decimal
  range_float-FractionText start (fraction d ds (h, hs)) c cs q i j rest e b k =
      let m : c ≡ b'.' = cc in
      let e1 = drop-cons i bytes e in
      let l : j ≡ i + 1 + 1 + length ds = omega arith in
      rw
        (
          m,
          get_elem?-drop_cons (i + 1) bytes e1,
          h,
          drop-cons (i + 1) bytes e1,
          decimal_from-Digits ds rest (i + 1 + 1) hs b,
          l,
        )
        refl
  range_float-FractionText start (exponent x t h y) c cs q i j rest e b k =
      let m : c ≡ x = cc in
      let n : x == b'.' ≡ false = ground arith in
      rw
        (
          m,
          n,
          consume_exponential-ExponentText y (i + 1) j rest (drop-cons i bytes e) b (omega arith),
        )
        refl
  range_float-FractionText start (fraction_exponent d ds x t (h, hs) y z) c cs q i j rest e b k =
      let m : c ≡ b'.' = cc in
      let e0 : drop i bytes ≡ b'.' ∷ (d ∷ (ds ++ (x ∷ (t ++ rest)))) = e ∙ simp append_assoc in
      let e1 = drop-cons i bytes e0 in
      let e2 = drop-cons (i + 1) bytes e1 in
      let e3 = drop-cons (i + 1 + 1 + length ds) bytes (drop-append ds (i + 1 + 1) bytes e2) in
      rw
        (
          m,
          get_elem?-drop_cons (i + 1) bytes e1,
          h,
          e2,
          decimal_from-exponent ds x (t ++ rest) (i + 1 + 1) hs y,
          consume_exponential-ExponentText z (i + 1 + 1 + length ds + 1) j rest e3 b
              (omega (arith, length-append ds (x ∷ t))),
        )
        refl
