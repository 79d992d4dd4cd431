-- ===== src/Errors.antt =====
-- The error types of crates/jiter/src/errors.rs, the results that carry them, and `PartialMode` of
-- crates/jiter/src/lib.rs.
pub mod Position
pub mod Display
pub mod Ensures
use jiter.Prelude.{ℕ, Bool, true, false, Bytes}

pub data JsonErrorType : Type 0 where
  float_expecting_int : JsonErrorType
  duplicate_key : Bytes → JsonErrorType
  internal_error : Bytes → JsonErrorType
  eof_while_parsing_list eof_while_parsing_object : JsonErrorType
  eof_while_parsing_string eof_while_parsing_value : JsonErrorType
  expected_colon expected_list_comma_or_end expected_object_comma_or_end : JsonErrorType
  expected_some_ident expected_some_value : JsonErrorType
  invalid_escape invalid_number number_out_of_range invalid_unicode_code_point : JsonErrorType
  control_character_while_parsing_string key_must_be_a_string : JsonErrorType
  lone_leading_surrogate_in_hex_escape trailing_comma trailing_characters : JsonErrorType
  unexpected_end_of_hex_escape recursion_limit_exceeded : JsonErrorType

pub record JsonError : Type 0 where
  pub error_type : JsonErrorType
  pub index : ℕ

-- `JsonError::new` and the macro `json_error!`.
abbrev pub json_error : JsonErrorType → ℕ → JsonError
json_error t i = record { error_type = t; index = i }

-- `Result<T, JsonError>`, and two outcomes beside it: a panic of the program, and `out_of_fuel`,
-- which has no counterpart in the program, where the fuel of a loop is spent.
pub data JsonResult {ℓ} (A : Type ℓ) : Type ℓ where
  ok : A → JsonResult A
  err : JsonError → JsonResult A
  panic out_of_fuel : JsonResult A

-- The macro `json_err!`.
abbrev pub json_err {ℓ} : {A : Type ℓ} → JsonErrorType → ℕ → JsonResult A
json_err t i = err (json_error t i)

-- The operator `?`.
infixl 5 ◌>>=◌
abbrev pub ◌>>=◌ {ℓ κ} :
    {A : Type ℓ} {B : Type κ} → JsonResult A → (A → JsonResult B) → JsonResult B
ok a >>= f = f a
err e >>= f = err e
panic >>= f = panic
out_of_fuel >>= f = out_of_fuel

-- `Result::map` and `Result::map_err`.
abbrev pub map_ok {ℓ κ} : {A : Type ℓ} {B : Type κ} → (A → B) → JsonResult A → JsonResult B
map_ok f r = r >>= λ a. ok (f a)

abbrev pub map_err {ℓ} : {A : Type ℓ} → (JsonError → JsonError) → JsonResult A → JsonResult A
map_err f (ok a) = ok a
map_err f (err e) = err (f e)
map_err f panic = panic
map_err f out_of_fuel = out_of_fuel

-- The match of `JsonError::allowed_if_partial`.
unfoldable pub is_partial_type : JsonErrorType → Bool
is_partial_type eof_while_parsing_list = true
is_partial_type eof_while_parsing_object = true
is_partial_type eof_while_parsing_string = true
is_partial_type eof_while_parsing_value = true
is_partial_type expected_list_comma_or_end = true
is_partial_type expected_object_comma_or_end = true
is_partial_type _ = false

unfoldable pub allowed_if_partial : JsonError → Bool
unfolding is_partial_type
allowed_if_partial e = is_partial_type e.error_type

pub data PartialMode : Type 0 where
  off on trailing_strings : PartialMode

-- `From<bool> for PartialMode`.
unfoldable pub partial_mode_from : Bool → PartialMode
partial_mode_from true = on
partial_mode_from false = off

unfoldable pub is_active : PartialMode → Bool
is_active off = false
is_active on = true
is_active trailing_strings = true

unfoldable pub allow_trailing_str : PartialMode → Bool
allow_trailing_str off = false
allow_trailing_str on = false
allow_trailing_str trailing_strings = true

abbrev pub default_recursion_limit : ℕ
default_recursion_limit = 200

pub data JsonType : Type 0 where
  null bool int float string array object : JsonType

pub data JiterErrorType : Type 0 where
  of_json : JsonErrorType → JiterErrorType
  wrong_type : (expected actual : JsonType) → JiterErrorType

pub record JiterError : Type 0 where
  pub error_type : JiterErrorType
  pub index : ℕ

-- `From<JsonError> for JiterError`.
abbrev pub jiter_error_from : JsonError → JiterError
jiter_error_from e = record { error_type = of_json e.error_type; index = e.index }

-- `JiterError::wrong_type`.
abbrev pub jiter_wrong_type : JsonType → JsonType → ℕ → JiterError
jiter_wrong_type expected actual i = record { error_type = wrong_type expected actual; index = i }
