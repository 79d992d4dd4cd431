-- ===== src/Prelude/Int.antt =====
-- Signed integers over the native numbers, under the library's names, and `i64` values.
use Prim.Native.Nat.{ℕ, zero, suc, ◌-◌, ◌<◌}
use mathlib.Core.Path.{◌≡◌}
use native.Mathlib.Omega.{arith}
use jiter.Prelude.Tests.{ltb, ◌==◌, if◌then◌else◌}

-- `negsuc n` is -(n + 1).
pub data ℤ : Type 0 where
  pos : ℕ → ℤ
  negsuc : ℕ → ℤ

-- The mathematical opposite.
abbrev pub -ℤ◌ : ℤ → ℤ
-ℤ◌ (pos zero) = pos zero
-ℤ◌ (pos (suc n)) = negsuc n
-ℤ◌ (negsuc n) = pos (suc n)

abbrev pub i64_half : ℕ
i64_half = 9_223_372_036_854_775_808

abbrev pub u64_mod : ℕ
u64_mod = 18_446_744_073_709_551_616

-- `value as i64` of a `u64`.
unfoldable pub as_i64 : ℕ → ℤ
as_i64 n = if ltb n i64_half then pos n else negsuc (u64_mod - n - 1)

-- `-value` of an `i64`, which leaves `i64::MIN` alone.
unfoldable pub neg_i64 : ℤ → ℤ
neg_i64 (pos n) = -ℤ◌ (pos n)
neg_i64 (negsuc n) = if n == i64_half - 1 then negsuc n else pos (suc n)

pub as_i64-pos : (n : ℕ) → n < i64_half → as_i64 n ≡ pos n
unfolding as_i64
as_i64-pos n h = ground arith
