-- ===== src/Python/Libs.antt =====
-- What crates/jiter/src/python.rs calls of PyO3, and the modes that it takes.
use jiter.Prelude.{ℕ, Bool, Option, List, [], ◌∷◌, Bytes, if◌then◌else◌}
use jiter.Errors.{
  JsonResult, ok, json_err, internal_error, PartialMode, off, on, trailing_strings,
  partial_mode_from,
}
use jiter.Parse.{bytes_eq}
use jiter.Number.Libs.{NumberLibs}
use jiter.Number.Float.{NumberAny}
use jiter.StringCache.{PyStrings}
use jiter.StringCache.Mode.{
  StringCacheMode, ModeArgument, from_bool, from_str, other, Extracted, extracted, value_error,
  type_error,
}

-- A Python object, or the text of the exception that is raised.
pub data PyResult (A : Type 0) : Type 0 where
  made : A → PyResult A
  raised : Bytes → PyResult A

-- `PyAny` with what makes one: a list of values may fail, a number too, and `PyDict_SetItem` tells by `none`
-- that it did. `decimal` is `get_decimal_type` and the call of the type, and `lossless` the object of
-- a `LosslessFloat`.
pub record PyObjects (L : NumberLibs) (P : PyStrings) : Type 1 where
  pub Object : Type 0
  pub none : Object
  pub bool : Bool → Object
  pub string : P.PyString → Object
  pub number : NumberAny L.Float L.BigInt → PyResult Object
  pub lossless : Bytes → PyResult Object
  pub decimal : Bytes → PyResult Object
  pub empty_list : Object
  pub list : List Object → PyResult Object
  pub Dict : Type 0
  pub empty_dict : Dict
  pub set_item : P.PyString → Object → Dict → Option Dict
  pub dict : Dict → Object

-- `map_err(|e| py_err_to_json_err(&e, parser.index))`.
unfoldable pub py_result : {A : Type 0} → PyResult A → ℕ → JsonResult A
py_result (made a) index = ok a
py_result (raised text) index = json_err (internal_error text) index

-- `FloatMode` of crates/jiter/src/py_lossless_float.rs.
pub data FloatMode : Type 0 where
  float decimal lossless_float : FloatMode

abbrev float_name : Bytes
float_name = b'f' ∷ b'l' ∷ b'o' ∷ b'a' ∷ b't' ∷ []

abbrev decimal_name : Bytes
decimal_name = b'd' ∷ b'e' ∷ b'c' ∷ b'i' ∷ b'm' ∷ b'a' ∷ b'l' ∷ []

abbrev lossless_float_name : Bytes
lossless_float_name =
    b'l' ∷ b'o' ∷ b's' ∷ b's' ∷ b'l' ∷ b'e' ∷ b's' ∷ b's' ∷ b'-' ∷ b'f' ∷ b'l' ∷ b'o' ∷ b'a' ∷ b't'
    ∷ []

unfoldable pub extract_float_mode : ModeArgument → Extracted FloatMode
unfolding bytes_eq
extract_float_mode (from_bool mode) = type_error
extract_float_mode (from_str name) =
    if bytes_eq name float_name
    then extracted float
    else if bytes_eq name decimal_name
    then extracted decimal
    else if bytes_eq name lossless_float_name
    then extracted lossless_float
    else value_error
extract_float_mode other = type_error

abbrev off_name : Bytes
off_name = b'o' ∷ b'f' ∷ b'f' ∷ []

abbrev on_name : Bytes
on_name = b'o' ∷ b'n' ∷ []

abbrev trailing_strings_name : Bytes
trailing_strings_name =
    b't' ∷ b'r' ∷ b'a' ∷ b'i' ∷ b'l' ∷ b'i' ∷ b'n' ∷ b'g' ∷ b'-' ∷ b's' ∷ b't' ∷ b'r' ∷ b'i' ∷ b'n'
    ∷ b'g' ∷ b's' ∷ []

unfoldable pub extract_partial_mode : ModeArgument → Extracted PartialMode
unfolding bytes_eq partial_mode_from
extract_partial_mode (from_bool mode) = extracted (partial_mode_from mode)
extract_partial_mode (from_str name) =
    if bytes_eq name off_name
    then extracted off
    else if bytes_eq name on_name
    then extracted on
    else if bytes_eq name trailing_strings_name
    then extracted trailing_strings
    else value_error
extract_partial_mode other = type_error

-- The fields of `PythonParse`.
pub record PythonParse : Type 0 where
  pub allow_inf_nan : Bool
  pub cache_mode : StringCacheMode
  pub partial_mode : PartialMode
  pub catch_duplicate_keys : Bool
  pub float_mode : FloatMode
