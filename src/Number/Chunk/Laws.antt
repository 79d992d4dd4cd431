-- ===== src/Number/Chunk/Laws.antt =====
-- The value that a chunk of digits stands for, and that no `u64` wraps on the way.
use native.Mathlib.Nat.{pow-suc, one-le-pow, mul-le-mul_left}
use jiter.Prelude.{
  ℕ, zero, suc, ◌+◌, ◌-◌, ◌*◌, ◌^◌, ◌≤◌, ◌<◌, ◌≡◌, refl, ap, true, false, [], ◌∷◌, ◌++◌, arith,
  Bytes, length, drop, All, if◌then◌else◌,
}
use jiter.Prelude.Slices.{drop-cons, get_elem?-drop_cons, get_elem?-drop_nil}
use jiter.Prelude.Int.{u64_mod}
use jiter.Number.Table.{is_digit, int_char_map-is_digit, digit_value_lem}
use jiter.Number.Chunk.{IntChunk, ongoing, done, float, is_float_byte, push_digit, int_chunk_loop}

abbrev pub Digits : Bytes → Type 0
Digits = All (λ c. is_digit c ≡ true)

-- The decimal number that digits stand for, behind the digits of `n`.
unfoldable pub decimal : ℕ → Bytes → ℕ
decimal n [] = n
decimal n (c ∷ cs) = decimal (n * 10 + (c - 48)) cs

-- The bytes start with no digit.
abbrev pub NoDigit : Bytes → Type 0
NoDigit [] = Unit
NoDigit (c ∷ cs) = is_digit c ≡ false

-- How a chunk ends before `rest`.
unfoldable pub chunk_end : Bytes → ℕ → IntChunk
chunk_end [] value = done value
chunk_end (c ∷ cs) value = if is_float_byte c then float else done value

one-le-ten_pow : (k : ℕ) → 1 ≤ 10 ^ k
one-le-ten_pow k = one-le-pow k 10 (omega arith)

-- One more digit moves the bound of a value from one power of ten to the next.
digit_bound :
    (value c k : ℕ)
    → is_digit c ≡ true
    → (value * 10 + (c - 48) + 1) * 10 ^ k ≤ (value + 1) * 10 ^ suc k
digit_bound value c k h =
    let le : value * 10 + (c - 48) + 1 ≤ (value + 1) * 10 = ground arith in
    rw (pow-suc 10 k) (grind (arith, le))

pub decimal-bound : (n : ℕ) (ds : Bytes) → Digits ds → decimal n ds < (n + 1) * 10 ^ length ds
unfolding decimal
decimal-bound n [] d = omega arith
decimal-bound n (c ∷ cs) (h, d) =
    omega (arith, decimal-bound (n * 10 + (c - 48)) cs d, digit_bound n c (length cs) h)

push_digit_exact :
    (value c : ℕ)
    → is_digit c ≡ true
    → value * 10 + 10 ≤ u64_mod
    → push_digit value c ≡ value * 10 + (c - 48)
unfolding push_digit
push_digit_exact value c h b = ground (arith, digit_value_lem c h)

ten_le : (value k : ℕ) → (value + 1) * 10 ^ suc k ≤ u64_mod → value * 10 + 10 ≤ u64_mod
ten_le value k b = omega (
  arith,
  mul-le-mul_left ((value + 1) * 10) (one-le-ten_pow k),
  ap (λ (t : ℕ). (value + 1) * t) (pow-suc 10 k),
)

-- Digits that end within the rounds: the chunk ends with what follows them.
pub int_chunk_loop-ends :
    (n : ℕ) (ds rest bytes : Bytes) (index value : ℕ)
    → drop index bytes ≡ ds ++ rest
    → Digits ds
    → NoDigit rest
    → length ds < n
    → (value + 1) * 10 ^ length ds ≤ u64_mod
    → int_chunk_loop n bytes index value ≡ (chunk_end rest (decimal value ds), index + length ds)
unfolding int_chunk_loop decimal chunk_end
int_chunk_loop-ends zero ds rest bytes index value e d s l b = absurd (omega arith)
int_chunk_loop-ends (suc n) [] [] bytes index value e d s l b =
    ground (arith, get_elem?-drop_nil index bytes e)
int_chunk_loop-ends (suc n) [] (r ∷ rest) bytes index value e d s l b =
    ground (arith, get_elem?-drop_cons index bytes e, int_char_map-is_digit r)
int_chunk_loop-ends (suc n) (c ∷ ds) rest bytes index value e (h, d) s l b =
    let v = value * 10 + (c - 48) in
    let exact : push_digit value c ≡ v = push_digit_exact value c h (ten_le value (length ds) b) in
    ground (
      arith,
      get_elem?-drop_cons index bytes e,
      int_char_map-is_digit c,
      exact,
      ap (λ w. int_chunk_loop n bytes (index + 1) w) exact,
      int_chunk_loop-ends n ds rest bytes (index + 1) v (drop-cons index bytes e) d s (omega arith)
          (omega (arith, digit_bound value c (length ds) h)),
    )

-- As many digits as there are rounds: the chunk goes on behind them.
pub int_chunk_loop-fills :
    (ds rest bytes : Bytes) (index value : ℕ)
    → drop index bytes ≡ ds ++ rest
    → Digits ds
    → (value + 1) * 10 ^ length ds ≤ u64_mod
    → int_chunk_loop (length ds) bytes index value ≡ (ongoing (decimal value ds), index + length ds)
unfolding int_chunk_loop decimal
int_chunk_loop-fills [] rest bytes index value e d b = ground arith
int_chunk_loop-fills (c ∷ ds) rest bytes index value e (h, d) b =
    let v = value * 10 + (c - 48) in
    let exact : push_digit value c ≡ v = push_digit_exact value c h (ten_le value (length ds) b) in
    ground (
      arith,
      get_elem?-drop_cons index bytes e,
      int_char_map-is_digit c,
      exact,
      ap (λ w. int_chunk_loop (length ds) bytes (index + 1) w) exact,
      int_chunk_loop-fills ds rest bytes (index + 1) v (drop-cons index bytes e) d
          (omega (arith, digit_bound value c (length ds) h)),
    )

pub decimal-append : (n : ℕ) (xs ys : Bytes) → decimal n (xs ++ ys) ≡ decimal (decimal n xs) ys
unfolding decimal
decimal-append n [] ys = refl
decimal-append n (c ∷ cs) ys = decimal-append (n * 10 + (c - 48)) cs ys

decimal-add : (n m : ℕ) (ds : Bytes) → decimal (n + m) ds ≡ n * 10 ^ length ds + decimal m ds
unfolding decimal
decimal-add n m [] = omega arith
decimal-add n m (c ∷ cs) =
    let e : (n + m) * 10 + (c - 48) ≡ n * 10 + (m * 10 + (c - 48)) = omega arith in
    rw e (
      omega (
        arith,
        decimal-add (n * 10) (m * 10 + (c - 48)) cs,
        ap (λ (t : ℕ). n * t) (pow-suc 10 (length cs)),
      ))

-- The digits of a chunk that is read from 0 stand behind those read before it.
pub decimal-shift : (n : ℕ) (ds : Bytes) → decimal n ds ≡ n * 10 ^ length ds + decimal 0 ds
decimal-shift n ds = let e : n + 0 ≡ n = omega arith in rw e at (decimal-add n 0 ds)
