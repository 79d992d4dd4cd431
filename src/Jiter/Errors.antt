-- ===== src/Jiter/Errors.antt =====
-- `wrong_type`, `wrong_num` and `maybe_number_error` of crates/jiter/src/jiter.rs, and the messages of
-- its errors.
use jiter.Prelude.Text.{codes}
use jiter.Errors.Position.{LinePosition}
use jiter.Errors.Display.{jiter_error_type_text, position_text}
use jiter.Prelude.{Bytes, ◌++◌, ℕ, Bool, true, false, ◌||◌, ◌==◌, if◌then◌else◌}
use jiter.Errors.{
  JiterError, JsonErrorType, JsonError, JsonResult, expected_some_value, json_error, JsonType,
  jiter_error_from, jiter_wrong_type, float_expecting_int,
}
use jiter.Parse.{Peek, is_num, consume_number}
use jiter.Number.Libs.{NumberLibs}
use jiter.Number.Float.{NumberAny, decode_any}
use jiter.Jiter.{Jiter, JiterResult, error_position}

-- `error_type == JsonErrorType::FloatExpectingInt`.
unfoldable pub is_float_expecting_int : JsonErrorType → Bool
is_float_expecting_int float_expecting_int = true
is_float_expecting_int _ = false

module _ (L : NumberLibs) where
  open L use {Float, BigInt}

  -- The match of `wrong_num` on the number that a clone of the parser reads.
  unfoldable pub actual_type :
      {A : Type 0} → JsonType → ℕ → JsonResult (NumberAny Float BigInt) → JiterResult A
  actual_type expected index (JsonResult.ok (NumberAny.int n)) =
      JiterResult.err (jiter_wrong_type expected JsonType.int index)
  actual_type expected index (JsonResult.ok (NumberAny.float x)) =
      JiterResult.err (jiter_wrong_type expected JsonType.float index)
  actual_type expected index (JsonResult.err e) = JiterResult.err (jiter_error_from e)
  actual_type expected index JsonResult.panic = JiterResult.panic
  actual_type expected index JsonResult.out_of_fuel = JiterResult.out_of_fuel

  unfoldable pub wrong_num : {A : Type 0} → ℕ → JsonType → Jiter → JiterResult A
  unfolding actual_type
  wrong_num first expected j =
      actual_type expected j.parser.index
        (consume_number (decode_any L) first j.allow_inf_nan j.parser).0

  unfoldable pub wrong_type : {A : Type 0} → JsonType → Peek → Jiter → JiterResult A
  unfolding wrong_num is_num
  wrong_type {A} expected c j =
      let found : JsonType → JiterResult A =
        λ actual. JiterResult.err (jiter_wrong_type expected actual j.parser.index) in
      if c == b't' || c == b'f'
      then found JsonType.bool
      else if c == b'n'
      then found JsonType.null
      else if c == b'"'
      then found JsonType.string
      else if c == b'['
      then found JsonType.array
      else if c == b'{'
      then found JsonType.object
      else if is_num c
      then wrong_num c expected j
      else JiterResult.err (jiter_error_from (json_error expected_some_value j.parser.index))

  unfoldable pub maybe_number_error :
      {A : Type 0} → JsonType → Peek → JsonError → Jiter → JiterResult A
  unfolding is_num wrong_type
  maybe_number_error expected c e j =
      if is_num c then JiterResult.err (jiter_error_from e) else wrong_type expected c j

  -- The closure of `known_int`.
  unfoldable pub int_error : {A : Type 0} → Peek → JsonError → Jiter → JiterResult A
  unfolding is_float_expecting_int maybe_number_error
  int_error c e j =
      if is_float_expecting_int e.error_type
      then JiterResult.err (jiter_wrong_type JsonType.int JsonType.float j.parser.index)
      else maybe_number_error JsonType.int c e j

-- `JiterError::get_position` and `JiterError::description`, of crates/jiter/src/errors.rs.
unfoldable pub jiter_position : JiterError → Jiter → LinePosition
unfolding error_position
jiter_position e j = error_position e.index j

unfoldable pub jiter_description : (Bytes → Bytes) → JiterError → Jiter → Bytes
unfolding jiter_error_type_text position_text jiter_position
jiter_description debug e j =
    jiter_error_type_text debug e.error_type ++ (codes " at " ++ position_text (jiter_position e j))
