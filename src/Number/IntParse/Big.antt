-- ===== src/Number/IntParse/Big.antt =====
-- The chunked loop of `IntParse::parse` in crates/jiter/src/number_decoder.rs over more digits than
-- one chunk holds.
use native.Mathlib.Nat.{pow-le-pow_right}
use jiter.Prelude.{
  ℕ, zero, suc, ◌+◌, ◌-◌, ◌*◌, ◌^◌, ◌≤◌, ◌<◌, ◌≡◌, ◌∙◌, refl, ap, sym, Bool, true, false, some,
  none, [], ◌∷◌, ◌++◌, inl, inr, ◌⊎◌, append_assoc, arith, Bytes, length, take, drop, get_elem?,
  ◌==◌, every_from, every_below, take-append-drop, length-take_of_le, All-take, All-drop,
  if◌then◌else◌, length-drop,
}
use jiter.Prelude.Slices.{drop-append}
use jiter.Prelude.Int.{ℤ, pos, -ℤ◌, u64_mod}
use jiter.Errors.{ok}
use jiter.Number.Chunk.{ongoing, done, is_float_byte, decode_int_chunk_fallback, parse_big}
use jiter.Number.Chunk.Laws.{
  Digits, decimal, NoDigit, chunk_end, int_chunk_loop-ends, int_chunk_loop-fills, decimal-append,
  decimal-shift,
}
use jiter.Number.Table.{is_digit}
use jiter.Number.Libs.{NumberLibs, BigIntLaws}
use jiter.Number.IntParse.{int, big_int, ongoing_chunk_multiplier, pow_10, big_loop, max_digits}

-- The bytes behind an integer: no digit, no fraction and no exponent.
abbrev pub IntEnds : Bytes → Type 0
IntEnds [] = Unit
IntEnds (c ∷ cs) = (is_digit c ≡ false) × (is_float_byte c ≡ false)

abbrev pub signed : Bool → ℕ → ℤ
signed true n = pos n
signed false n = -ℤ◌ (pos n)

pub IntEnds-NoDigit : (rest : Bytes) → IntEnds rest → NoDigit rest
IntEnds-NoDigit [] h = tt
IntEnds-NoDigit (c ∷ cs) h = h.0

pub chunk_end-done : (rest : Bytes) (value : ℕ) → IntEnds rest → chunk_end rest value ≡ done value
unfolding chunk_end
chunk_end-done [] value h = refl
chunk_end-done (c ∷ cs) value h = rw (h.1)

pub ten_pow_le : (k m : ℕ) → k ≤ m → 10 ^ k ≤ 10 ^ m
ten_pow_le k m h = pow-le-pow_right (omega arith) h

small_chunk : (k : ℕ) → k ≤ 18 → (0 + 1) * 10 ^ k ≤ u64_mod
small_chunk k h = omega (arith, ten_pow_le k 18 h)

pow_10_table :
    every_from 0 18 (λ k. elim (get_elem? pow_10 k) [ some p ↦ p == 10 ^ k | none ↦ false ]) ≡ true
unfolding every_from pow_10
pow_10_table = refl

pow_10_lem : (k : ℕ) → k < 18 → get_elem? pow_10 k ≡ some (10 ^ k)
pow_10_lem k h = ground (arith, every_below 18 _ k pow_10_table h)

pub lt-or-ge : (a b : ℕ) → (a < b) ⊎ (b ≤ a)
lt-or-ge a b = omega arith

-- A chunk that the digits end in, and one that they fill.
big_chunk-ends :
    (ds rest bytes : Bytes) (index : ℕ)
    → drop index bytes ≡ ds ++ rest
    → Digits ds
    → IntEnds rest
    → length ds < 18
    → parse_big bytes index ≡ (done (decimal 0 ds), index + length ds)
unfolding decode_int_chunk_fallback
big_chunk-ends ds rest bytes index e d s l =
    int_chunk_loop-ends 18 ds rest bytes index 0 e d (IntEnds-NoDigit rest s) l
      (small_chunk (length ds) (omega arith))
    ∙ rw (chunk_end-done rest (decimal 0 ds) s)

big_chunk-fills :
    (ds rest bytes : Bytes) (index : ℕ)
    → drop index bytes ≡ ds ++ rest
    → Digits ds
    → length ds ≡ 18
    → parse_big bytes index ≡ (ongoing (decimal 0 ds), index + 18)
unfolding decode_int_chunk_fallback
big_chunk-fills ds rest bytes index e d l =
    rw l at (int_chunk_loop-fills ds rest bytes index 0 e d (small_chunk (length ds) (omega arith)))

module _ (L : NumberLibs) (laws : BigIntLaws L) where
  open L use {BigInt, mul_u64, add_u64, neg}
  open laws use {value, value-mul_u64, value-add_u64, value-neg}

  with_sign : Bool → BigInt → BigInt
  with_sign positive b = if positive then b else neg b

  value-with_sign :
      (positive : Bool) (b : BigInt) (n : ℕ)
      → value b ≡ pos n
      → value (with_sign positive b) ≡ signed positive n
  unfolding with_sign
  value-with_sign true b n h = h
  value-with_sign false b n h = value-neg b ∙ ap -ℤ◌ h

  -- One more chunk behind the digits of `n`.
  value_push :
      (b : BigInt) (n : ℕ) (ds : Bytes)
      → value b ≡ pos n
      → value (add_u64 (mul_u64 b (10 ^ length ds)) (decimal 0 ds)) ≡ pos (decimal n ds)
  value_push b n ds h = rw (decimal-shift n ds) (
      value-add_u64 (mul_u64 b (10 ^ length ds)) (n * 10 ^ length ds) (decimal 0 ds)
        (value-mul_u64 b n (10 ^ length ds) h))

  abbrev pub BigResult : Bytes → ℕ → Bool → ℕ → BigInt → ℕ → ℕ → Bytes → Type 0
  BigResult bytes start positive index big fuel n ds =
      (b : BigInt) × (big_loop L fuel bytes start positive big index
        ≡ ok (int (big_int b), index + length ds))
      × (value b ≡ signed positive (decimal n ds))

  big_loop-done :
      (fuel : ℕ) (ds rest bytes : Bytes) (start index : ℕ) (positive : Bool) (big : BigInt) (n : ℕ)
      → drop index bytes ≡ ds ++ rest
      → Digits ds
      → IntEnds rest
      → length ds < 18
      → index + length ds ≤ start + max_digits
      → value big ≡ pos n
      → BigResult bytes start positive index big (suc fuel) n ds
  unfolding big_loop with_sign
  big_loop-done fuel ds rest bytes start index positive big n e d s l m v =
      let total = add_u64 (mul_u64 big (10 ^ length ds)) (decimal 0 ds) in
      let c = big_chunk-ends ds rest bytes index e d s l in
      let k : index + length ds - index ≡ length ds = omega arith in
      (
        with_sign positive total,
        rw (ap (λ r. r.0) c, ap (λ r. r.1) c, k, pow_10_lem (length ds) l) (ground arith),
        value-with_sign positive total (decimal n ds) (value_push big n ds v),
      )

  big_loop-ongoing :
      (fuel : ℕ) (ds rest bytes : Bytes) (start index : ℕ) (positive : Bool) (big : BigInt)
      → drop index bytes ≡ ds ++ rest
      → Digits ds
      → length ds ≡ 18
      → index + 18 ≤ start + max_digits
      → big_loop L (suc fuel) bytes start positive big index
        ≡ big_loop L fuel bytes start positive
            (add_u64 (mul_u64 big ongoing_chunk_multiplier) (decimal 0 ds))
            (index + 18)
  unfolding big_loop
  big_loop-ongoing fuel ds rest bytes start index positive big e d l m =
      let c = big_chunk-fills ds rest bytes index e d l in
      rw (ap (λ r. r.0) c, ap (λ r. r.1) c) (ground arith)

  -- With fuel for every chunk, the loop gives the integer that all its digits stand for.
  pub big_loop-Digits :
      (fuel : ℕ) (ds rest bytes : Bytes) (start index : ℕ) (positive : Bool) (big : BigInt) (n : ℕ)
      → drop index bytes ≡ ds ++ rest
      → Digits ds
      → IntEnds rest
      → length ds < 18 * fuel
      → index + length ds ≤ start + max_digits
      → value big ≡ pos n
      → BigResult bytes start positive index big fuel n ds
  big_loop-Digits zero ds rest bytes start index positive big n e d s f m v = absurd (omega arith)
  big_loop-Digits (suc fuel) ds rest bytes start index positive big n e d s f m v =
      elim (lt-or-ge (length ds) 18) [
        | inl l ↦ big_loop-done fuel ds rest bytes start index positive big n e d s l m v
        | inr g ↦
            let d1 = take 18 ds in
            let d2 = drop 18 ds in
            let whole : d1 ++ d2 ≡ ds = take-append-drop 18 ds in
            let l1 : length d1 ≡ 18 = length-take_of_le 18 ds g in
            let l2 : length d2 ≡ length ds - 18 = length-drop 18 ds in
            let e1 : drop index bytes ≡ d1 ++ (d2 ++ rest) =
              e ∙ ap (λ t. t ++ rest) (sym whole) ∙ append_assoc d1 d2 rest in
            let ongoing =
              big_loop-ongoing fuel d1 (d2 ++ rest) bytes start index positive big e1
                (All-take _ 18 ds d) l1 (omega arith) in
            let e2 : drop (index + 18) bytes ≡ d2 ++ rest =
              rw l1 at (drop-append d1 index bytes e1) in
            let v1 = rw l1 at (value_push big n d1 v) in
            let (b, r, h) =
              big_loop-Digits fuel d2 rest bytes start (index + 18) positive
                (add_u64 (mul_u64 big (10 ^ 18)) (decimal 0 d1)) (decimal n d1) e2
                (All-drop _ 18 ds d) s (omega arith) (omega arith) v1 in
            let i : index + 18 + length d2 ≡ index + length ds = omega arith in
            (
              b,
              ongoing ∙ r ∙ ap (λ k. ok (int (big_int b), k)) i,
              h ∙ ap (signed positive) (sym (decimal-append n d1 d2) ∙ ap (decimal n) whole),
            )
      ]
