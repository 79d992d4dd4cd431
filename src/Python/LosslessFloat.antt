-- ===== src/Python/LosslessFloat.antt =====
-- `LosslessFloat` of crates/jiter/src/py_lossless_float.rs: the bytes of a float, and its methods.
-- PyO3 and the `decimal` module of Python are parameters.
pub mod Checks
use jiter.Prelude.{ℕ, Bytes, Option, none, some, ◌++◌}
use jiter.Prelude.Text.{codes}
use jiter.Number.Libs.{NumberLibs}
use jiter.Strings.Utf8.{invalid_utf8}
use jiter.Jiter.{Jiter, JiterResult, J, new, with_allow_inf_nan}
use jiter.Jiter.Errors.{jiter_description}
use jiter.Jiter.Next.{next_float, finish}

-- `PyResult`, with the two outcomes that `JiterResult` has beside it.
pub data Answer (A : Type 0) : Type 0 where
  made : A → Answer A
  raised : Bytes → Answer A
  panic out_of_fuel : Answer A

-- The operator `?`.
infixl 5 ◌>>=◌
abbrev pub ◌>>=◌ : {A B : Type 0} → Answer A → (A → Answer B) → Answer B
made a >>= f = f a
raised text >>= f = raised text
panic >>= f = panic
out_of_fuel >>= f = out_of_fuel

pub record LosslessFloat : Type 0 where
  pub raw : Bytes

abbrev pub new_unchecked : Bytes → LosslessFloat
new_unchecked raw_bytes = record { raw = raw_bytes }

-- `get_decimal_type`, and the call of the type with a text.
pub record DecimalModule : Type 1 where
  pub Object : Type 0
  pub Class : Type 0
  pub decimal_type : Answer Class
  pub call : Class → Bytes → Answer Object

-- `.map_err(|e| PyValueError::new_err(e.description(&jiter)))?`, which hands the iterator on.
unfoldable pub or_raise :
    {A B : Type 0} → (Bytes → Bytes) → JiterResult A × Jiter → (A → Jiter → Answer B) → Answer B
unfolding jiter_description
or_raise debug (JiterResult.ok a, j) f = f a j
or_raise debug (JiterResult.err e, j) f = raised (jiter_description debug e j)
or_raise debug (JiterResult.panic, j) f = panic
or_raise debug (JiterResult.out_of_fuel, j) f = out_of_fuel

module _ (L : NumberLibs) (debug : Bytes → Bytes) where
  abbrev pub reader : LosslessFloat → Jiter
  reader s = with_allow_inf_nan (new s.raw)

  -- `__float__`.
  unfoldable pub as_float : LosslessFloat → Answer L.Float
  unfolding or_raise next_float finish
  as_float s =
      or_raise debug (next_float L (reader s)) λ f j. or_raise debug (finish j) λ u k. made f

  -- `new`.
  unfoldable pub checked_new : Bytes → Answer LosslessFloat
  unfolding as_float
  checked_new raw_bytes = let s = new_unchecked raw_bytes in as_float s >>= λ f. made s

-- `__bytes__`, `__str__` and `__repr__`.
abbrev pub as_bytes : LosslessFloat → Bytes
as_bytes s = s.raw

abbrev pub utf8_or : Bytes → Option ℕ → Answer Bytes
utf8_or bytes none = made bytes
utf8_or bytes (some valid_up_to) = raised (codes "Invalid UTF-8")

unfoldable pub str_of : LosslessFloat → Answer Bytes
unfolding invalid_utf8
str_of s = utf8_or s.raw (invalid_utf8 s.raw)

unfoldable pub repr : LosslessFloat → Answer Bytes
unfolding str_of
repr s = str_of s >>= λ text. made (codes "LosslessFloat(" ++ (text ++ codes ")"))

unfoldable pub as_decimal : (D : DecimalModule) → LosslessFloat → Answer D.Object
unfolding str_of
as_decimal D s = D.decimal_type >>= λ class. str_of s >>= λ text. D.call class text
