-- ===== src/Python/Numbers.antt =====
-- `MaybeParseNumber` of crates/jiter/src/python.rs.
pub mod Runs
use jiter.Prelude.{ℕ, Bool, true, false, Option, none, some, Bytes, if◌then◌else◌}
use jiter.Prelude.Slices.{get_range}
use jiter.Errors.{JsonResult, ok, err, panic, out_of_fuel, ◌>>=◌}
use jiter.Parse
use jiter.Parse.{Peek, Parser, M, consume_number}
use jiter.Number.Libs.{NumberLibs}
use jiter.Number.Float.{NumberAny, decode_any}
use jiter.Number.Range.{NumberRange, decode_range}
use jiter.StringCache.{PyStrings}
use jiter.Python.Libs.{PyObjects, PyResult, py_result, FloatMode, float, decimal, lossless_float}
use jiter.Value.Take.{number_error}

module _ {L : NumberLibs} {P : PyStrings} (O : PyObjects L P) where
  open O use {Object}

  -- `.map_err(..)?` behind a call of PyO3.
  unfoldable pub converted : {A : Type 0} → PyResult A → M A
  unfolding py_result
  converted r p = (py_result r p.index, p)

  unfoldable pub parse_number_lossy : Peek → Bool → M Object
  unfolding number_error decode_any converted
  parse_number_lossy c inf_nan p =
      Parse.and_then (number_error c (consume_number (decode_any L) c inf_nan p))
        λ n. converted (O.number n)

  -- An integer is decoded again from its own bytes.
  unfoldable pub int_of : Bytes → Peek → Bool → M Object
  unfolding decode_any converted
  int_of bytes c inf_nan p =
      Parse.and_then (decode_any L bytes 0 c inf_nan, p) λ n. converted (O.number n.0)

  -- `parser.slice(number_range.range).unwrap()`, and what the mode makes of the bytes.
  unfoldable pub sliced : (Bytes → PyResult Object) → Peek → Bool → Bool → Option Bytes → M Object
  unfolding int_of converted
  sliced make c inf_nan is_int none p = (panic, p)
  sliced make c inf_nan is_int (some bytes) p =
      if is_int then int_of bytes c inf_nan p else converted (make bytes) p

  unfoldable pub parse_number_range : (Bytes → PyResult Object) → Peek → Bool → M Object
  unfolding number_error decode_range sliced
  parse_number_range make c inf_nan p =
      Parse.and_then (number_error c (consume_number decode_range c inf_nan p))
        λ range q. sliced make c inf_nan range.is_int (get_range q.bytes range.from range.to) q

  unfoldable pub parse_number : FloatMode → Peek → Bool → M Object
  unfolding parse_number_lossy parse_number_range
  parse_number float = parse_number_lossy
  parse_number decimal = parse_number_range O.decimal
  parse_number lossless_float = parse_number_range O.lossless
