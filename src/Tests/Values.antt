-- ===== src/Tests/Values.antt =====
-- Tests of crates/jiter/src/value.rs and crates/jiter/src/jiter.rs.
use jiter.Prelude.{◌<◌, ◌≡◌, refl, false, Bytes}
use jiter.Prelude.Int.{pos, as_i64}
use jiter.Errors.{ok, json_err, off, on, trailing_strings, eof_while_parsing_list}
use jiter.Parse.{
  eat_whitespace, eat_from, is_whitespace, array_first, array_step, object_first, object_step,
  consume_number, consume_string, consume_ident,
}
use jiter.Number.Table.{int_char_map, digit_value}
use jiter.Number.Chunk.{decode_int_chunk_fallback}
use jiter.Strings.Table.{json_ascii, char_type}
use jiter.Parse.{new}
use jiter.Parse.Runs.{Runs}
use jiter.Value.Total.{skip_value-Runs, parse_with_config-Runs}
use jiter.Jiter
use jiter.Jiter.Next.{next_skip}
use jiter.Jiter.Total.{Answers, next_skip-Answers}
use jiter.Value.Data.{null, int, str, array, object, no_value, value_then, no_entry, entry_then}
use jiter.Value.Entry.{skip_value, parse, parse_with_config, parse_owned}
use jiter.Value.Owned.{parse_owned-parse}
use jiter.Tests.Numbers.{libs, lexing, lexed}
use jiter.Prelude.Text.{codes}

-- `{"a": [1, null], "b": "c"}`.
abbrev nested : Bytes
nested = codes "{\"a\": [1, null], \"b\": \"c\"}"

parse-nested :
    (parse libs nested false).0
    ≡ ok (
        object (
          entry_then
            (codes "a")
            (array (value_then (int (pos 1)) (value_then null no_value)))
            (entry_then (codes "b") (str (codes "c")) no_entry)))
unfolding parse eat_whitespace eat_from is_whitespace array_first consume_number
    decode_int_chunk_fallback int_char_map array_step consume_string json_ascii as_i64 digit_value
    char_type object_first object_step consume_ident
parse-nested = refl

parse-eof_in_list : (parse libs (codes "[1, 2") false).0 ≡ json_err eof_while_parsing_list 5
unfolding parse eat_whitespace eat_from is_whitespace array_first consume_number
    decode_int_chunk_fallback int_char_map array_step
parse-eof_in_list = refl

parse_with_config-on :
    (parse_with_config libs (codes "[1, \"ab") false on).0
    ≡ ok (array (value_then (int (pos 1)) no_value))
unfolding parse_with_config eat_whitespace eat_from is_whitespace array_first consume_number
    decode_int_chunk_fallback int_char_map array_step consume_string json_ascii as_i64 digit_value
parse_with_config-on = refl

parse_with_config-trailing_strings :
    (parse_with_config libs (codes "[1, \"ab") false trailing_strings).0
    ≡ ok (array (value_then (int (pos 1)) (value_then (str (codes "ab")) no_value)))
unfolding parse_with_config eat_whitespace eat_from is_whitespace array_first consume_number
    decode_int_chunk_fallback int_char_map array_step consume_string json_ascii as_i64 digit_value
parse_with_config-trailing_strings = refl

parse_owned-parse_example : parse_owned libs nested false off ≡ parse libs nested false
parse_owned-parse_example = parse_owned-parse libs nested false

skip_value-Runs_example :
    Runs (new nested) (λ u q. 0 < q.index) (skip_value false b'{' (new nested))
skip_value-Runs_example = skip_value-Runs false b'{' (new nested) refl

next_skip-Answers_example : Answers (λ u j. 0 < j.parser.index) (next_skip (Jiter.new nested))
next_skip-Answers_example = next_skip-Answers (Jiter.new nested)

parse_with_config-Runs_example :
    Runs (new nested) (λ v q. Unit) (parse_with_config lexing nested false on)
    × Runs (new nested) (λ v q. Unit) (parse_owned lexing nested false on)
parse_with_config-Runs_example = parse_with_config-Runs lexing lexed nested false on
