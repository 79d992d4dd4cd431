-- ===== src/Prelude/Bits.antt =====
-- `|` on numbers whose binary digits are apart.
use Prim.Native.Nat.{
  ℕ, zero, suc, ◌+◌, ◌*◌, ◌/◌, ◌%◌, ◌≤◌, ◌<◌, bit_or, bit_or-bitwise, digits, max,
}
use jiter.Prelude.{◌≡◌, refl, ◌∙◌, arith}

abbrev or_digits : ℕ → ℕ → ℕ → ℕ
or_digits = digits (λ b. b) max

max_zero : (a : ℕ) → max 0 a ≡ a
max_zero a = omega arith

-- Twice a number: its lowest digit is that of the other number.
or_digits-double :
    (n x y b : ℕ)
    → x ≡ y * 2
    → x ≤ n
    → ((m : ℕ) → y ≤ m → or_digits m y (b / 2) ≡ y + b / 2)
    → or_digits n x b ≡ x + b
or_digits-double zero x y b e h k = omega arith
or_digits-double (suc n) zero y b e h k = omega arith
or_digits-double (suc n) (suc x) y b e h k =
    let half : suc x / 2 ≡ y = omega arith in
    let even : suc x % 2 ≡ 0 = omega arith in
    rw (half, even, k n (omega arith), max_zero (b % 2)) (omega arith)

-- The numbers below `m` are apart from the multiples of `m`.
abbrev Apart : ℕ → Type 0
Apart m = (n c b : ℕ) → b < m → c * m ≤ n → or_digits n (c * m) b ≡ c * m + b

or_digits-zero : (n x : ℕ) → x ≤ n → or_digits n x 0 ≡ x
or_digits-zero zero x h = omega arith
or_digits-zero (suc n) zero h = refl
or_digits-zero (suc n) (suc x) h = rw (or_digits-zero n (suc x / 2) (omega arith)) (omega arith)

Apart-double : (m : ℕ) → Apart m → Apart (m * 2)
Apart-double m k n c b l h =
    let e : c * (m * 2) ≡ (c * m) * 2 = grind arith in
    or_digits-double n (c * (m * 2)) (c * m) b e h λ n' h'. k n' c (b / 2) (omega arith) h'

Apart-one : Apart 1
Apart-one n c b l h =
    let e : b ≡ 0 = omega arith in rw (e, or_digits-zero n (c * 1) h) (omega arith)

-- A number of at most ten digits put behind another one.
pub bit_or-lem : (c b : ℕ) → b < 1024 → bit_or (c * 1024) b ≡ c * 1024 + b
bit_or-lem c b h =
    (λ i. bit_or-bitwise (c * 1024) b i)
    ∙ Apart-double 512
        (Apart-double 256 (
          Apart-double 128 (
            Apart-double 64 (
              Apart-double 32 (
                Apart-double 16
                  (Apart-double 8 (Apart-double 4 (Apart-double 2 (Apart-double 1 Apart-one)))))))))
        (c * 1024) c b h (omega arith)
