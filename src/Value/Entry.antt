-- ===== src/Value/Entry.antt =====
-- The entry points of crates/jiter/src/value.rs, with the decoders that it names.
use jiter.Prelude.{Bool, Bytes, if◌then◌else◌, []}
use jiter.Errors.{JsonResult, PartialMode, off, is_active, default_recursion_limit}
use jiter.Parse.{Peek, Parser, new, M, pure, ◌>>=◌, peek, finish}
use jiter.Number.Libs.{NumberLibs}
use jiter.Number.Float.{decode_any}
use jiter.Strings.Decode.{StringOutput, of_tape, of_data, decode}
use jiter.Value.Data.{JsonValue}
use jiter.Value.Take.{Config, take_value}
use jiter.Value.Skip.{take_value_skip}
use jiter.Strings.Decode
use jiter.Number.Range

-- `From<StringOutput> for Cow<str>`, and for `String`: both have the text of either case.
unfoldable pub cow_from : StringOutput → Bytes
cow_from (of_tape s ascii) = s
cow_from (of_data s ascii) = s

unfoldable pub string_from : StringOutput → Bytes
string_from (of_tape s ascii) = s
string_from (of_data s ascii) = s

abbrev pub default_config : Bool → PartialMode → Config
default_config inf_nan mode = record {
  recursion_limit = default_recursion_limit;
  allow_inf_nan = inf_nan;
  allow_partial = mode;
}

-- `take_value_skip`, with its decoders and the default limit.
unfoldable pub skip_value : Bool → Peek → M (Unit {0})
unfolding take_value_skip Decode.decode_range Range.decode_range
skip_value = take_value_skip Decode.decode_range Range.decode_range default_recursion_limit

module _ (L : NumberLibs) where
  open L use {Float, BigInt}

  abbrev pub Value : Type 0
  Value = JsonValue Float BigInt

  unfoldable pub take_value_borrowed : Config → Peek → M Value
  unfolding decode decode_any cow_from take_value
  take_value_borrowed = take_value (decode []) (decode_any L) cow_from

  unfoldable pub take_value_owned : Config → Peek → M Value
  unfolding decode decode_any string_from take_value
  take_value_owned = take_value (decode []) (decode_any L) string_from

  -- `JsonValue::parse_with_config`, and `JsonValue::parse`.
  unfoldable pub parse_with_config : Bytes → Bool → PartialMode → JsonResult Value × Parser
  unfolding peek take_value_borrowed finish is_active
  parse_with_config bytes inf_nan mode =
      (peek >>= take_value_borrowed (default_config inf_nan mode) >>= λ v.
      if is_active mode then pure v else (finish >>= λ u. pure v))
        (new bytes)

  unfoldable pub parse : Bytes → Bool → JsonResult Value × Parser
  unfolding parse_with_config
  parse bytes inf_nan = parse_with_config bytes inf_nan off

  -- `JsonValue::parse_owned`.
  unfoldable pub parse_owned : Bytes → Bool → PartialMode → JsonResult Value × Parser
  unfolding peek take_value_owned finish
  parse_owned bytes inf_nan mode =
      (peek >>= take_value_owned (default_config inf_nan mode) >>= λ v. finish >>= λ u. pure v)
        (new bytes)
