-- ===== src/Number/Float.antt =====
-- `NumberFloat` and `NumberAny` of crates/jiter/src/number_decoder.rs.
pub mod Steps
pub mod Texts
use jiter.Prelude.{
  ℕ, ◌+◌, Bool, true, false, Option, some, none, Bytes, get_elem?, drop, ◌==◌, if◌then◌else◌,
}
use jiter.Errors.{
  JsonResult, ok, err, panic, out_of_fuel, json_err, map_ok, ◌>>=◌, invalid_number,
  eof_while_parsing_value,
}
use jiter.Number.Table.{int_char_map}
use jiter.Number.Libs.{NumberLibs}
use jiter.Number.IntParse.{NumberInt, IntParse, float_inf, float_nan, parse}
use jiter.Number.Range.{NumberRange, consume_inf, allowed_nan, decode_range}

pub data NumberAny (F B : Type 0) : Type 0 where
  int : NumberInt B → NumberAny F B
  float : F → NumberAny F B

module _ (L : NumberLibs) where
  open L use {Float, infinity, neg_infinity, nan, from_lexical_partial, BigInt}

  unfoldable pub consume_inf_f64 : Bytes → ℕ → Bool → Bool → JsonResult (Float × ℕ)
  unfolding consume_inf
  consume_inf_f64 bytes index positive allow_inf_nan =
      map_ok (λ end. (if positive then infinity else neg_infinity, end))
        (consume_inf bytes index positive allow_inf_nan)

  unfoldable pub consume_nan : Bytes → ℕ → Bool → JsonResult (Float × ℕ)
  unfolding allowed_nan
  consume_nan bytes index allow_inf_nan =
      map_ok (λ end. (nan, end)) (allowed_nan bytes index allow_inf_nan)

  -- The error of a second parse by `NumberRange`, which is not to succeed.
  abbrev pub unreachable_ok : JsonResult (NumberRange × ℕ) → JsonResult (Float × ℕ)
  unreachable_ok (ok _) = panic
  unreachable_ok (err e) = err e
  unreachable_ok panic = panic
  unreachable_ok out_of_fuel = out_of_fuel

  unfoldable pub lexical : Bytes → ℕ → ℕ → Bool → Option (Float × ℕ) → JsonResult (Float × ℕ)
  unfolding decode_range
  lexical bytes start first allow_inf_nan (some (f, n)) = ok (f, n + start)
  lexical bytes start first allow_inf_nan none =
      unreachable_ok (decode_range bytes start first allow_inf_nan)

  -- The match on `first2`, at `index`.
  unfoldable pub float_first : Bytes → ℕ → ℕ → Bool → Bool → ℕ → Option ℕ → JsonResult (Float × ℕ)
  unfolding lexical consume_inf_f64
  float_first bytes start first allow_inf_nan positive index none =
      json_err eof_while_parsing_value index
  float_first bytes start first allow_inf_nan positive index (some c) =
      if int_char_map c
      then lexical bytes start first allow_inf_nan (from_lexical_partial (drop start bytes))
      else if c == b'I'
      then consume_inf_f64 bytes index positive allow_inf_nan
      else json_err invalid_number index

  -- `AbstractNumberDecoder for NumberFloat`.
  unfoldable pub decode_float : Bytes → ℕ → ℕ → Bool → JsonResult (Float × ℕ)
  unfolding float_first consume_nan
  decode_float bytes index first allow_inf_nan =
      if first == b'N'
      then consume_nan bytes index allow_inf_nan
      else if first == b'-'
      then float_first bytes index first allow_inf_nan false (index + 1)
          (get_elem? bytes (index + 1))
      else float_first bytes index first allow_inf_nan true index (some first)

  abbrev pub as_any : Float × ℕ → NumberAny Float BigInt × ℕ
  as_any (f, index) = (float f, index)

  -- The match on what `IntParse::parse` found.
  unfoldable pub any_of :
      Bytes → ℕ → ℕ → Bool → IntParse BigInt × ℕ → JsonResult (NumberAny Float BigInt × ℕ)
  any_of bytes start first allow_inf_nan (IntParse.int n, index) = ok (int n, index)
  any_of bytes start first allow_inf_nan (IntParse.float, index) =
      map_ok as_any (decode_float bytes start first allow_inf_nan)
  any_of bytes start first allow_inf_nan (float_inf positive, index) =
      map_ok as_any (consume_inf_f64 bytes index positive allow_inf_nan)
  any_of bytes start first allow_inf_nan (float_nan, index) =
      map_ok as_any (consume_nan bytes index allow_inf_nan)

  -- `AbstractNumberDecoder for NumberAny`.
  unfoldable pub decode_any : Bytes → ℕ → ℕ → Bool → JsonResult (NumberAny Float BigInt × ℕ)
  unfolding any_of parse decode_float
  decode_any bytes index first allow_inf_nan =
      parse L bytes index first >>= any_of bytes index first allow_inf_nan
