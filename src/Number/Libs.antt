-- ===== src/Number/Libs.antt =====
-- What crates/jiter/src/number_decoder.rs takes from other crates: the float parser of
-- `lexical_parse_float`, and the big integers of `num_bigint`.
use jiter.Prelude.{ℕ, ◌+◌, ◌*◌, ◌≡◌, Bytes, Option}
use jiter.Prelude.Int.{ℤ, pos, -ℤ◌}

pub record NumberLibs : Type 1 where
  -- `f64`, its three special values, and `f64::from_lexical_partial_with_options`: the float in
  -- front of the bytes with its length, or nothing for an error.
  pub Float : Type 0
  pub infinity : Float
  pub neg_infinity : Float
  pub nan : Float
  pub from_lexical_partial : Bytes → Option (Float × ℕ)
  -- `BigInt` with the operations that the decoder applies.
  pub BigInt : Type 0
  pub from_u64 : ℕ → BigInt
  pub mul_u64 : BigInt → ℕ → BigInt
  pub add_u64 : BigInt → ℕ → BigInt
  pub neg : BigInt → BigInt

-- The documented behaviour of `BigInt`: exact integer arithmetic.
pub record BigIntLaws (L : NumberLibs) : Type 0 where
  pub value : L.BigInt → ℤ
  pub value-from_u64 : (n : ℕ) → value (L.from_u64 n) ≡ pos n
  pub value-mul_u64 :
      (b : L.BigInt) (n m : ℕ) → value b ≡ pos n → value (L.mul_u64 b m) ≡ pos (n * m)
  pub value-add_u64 :
      (b : L.BigInt) (n m : ℕ) → value b ≡ pos n → value (L.add_u64 b m) ≡ pos (n + m)
  pub value-neg : (b : L.BigInt) → value (L.neg b) ≡ (-ℤ◌ (value b))
