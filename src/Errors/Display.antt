-- ===== src/Errors/Display.antt =====
-- The messages of crates/jiter/src/errors.rs: its `Display` implementations and `description`.
pub mod Short
use jiter.Prelude.{ℕ, ◌++◌, [], ◌∷◌, Bytes}
use jiter.Prelude.Text.{codes, usize_text}
use jiter.Errors.{
  JsonErrorType, duplicate_key, internal_error, JsonError, JsonType, JiterErrorType, of_json,
  wrong_type, JiterError,
}
use jiter.Errors.Position.{LinePosition, find}
use jiter.Errors

-- `{s:?}` of a string is a function of the standard library, the first argument.
unfoldable pub error_type_text : (Bytes → Bytes) → JsonErrorType → Bytes
error_type_text debug (duplicate_key s) = codes "Detected duplicate key " ++ debug s
error_type_text debug (internal_error s) = codes "Internal error: " ++ debug s
error_type_text debug Errors.float_expecting_int =
    codes "float value was found where an int was expected"
error_type_text debug Errors.eof_while_parsing_list = codes "EOF while parsing a list"
error_type_text debug Errors.eof_while_parsing_object = codes "EOF while parsing an object"
error_type_text debug Errors.eof_while_parsing_string = codes "EOF while parsing a string"
error_type_text debug Errors.eof_while_parsing_value = codes "EOF while parsing a value"
error_type_text debug Errors.expected_colon = codes "expected `:`"
error_type_text debug Errors.expected_list_comma_or_end = codes "expected `,` or `]`"
error_type_text debug Errors.expected_object_comma_or_end = codes "expected `,` or `}`"
error_type_text debug Errors.expected_some_ident = codes "expected ident"
error_type_text debug Errors.expected_some_value = codes "expected value"
error_type_text debug Errors.invalid_escape = codes "invalid escape"
error_type_text debug Errors.invalid_number = codes "invalid number"
error_type_text debug Errors.number_out_of_range = codes "number out of range"
error_type_text debug Errors.invalid_unicode_code_point = codes "invalid unicode code point"
error_type_text debug Errors.control_character_while_parsing_string =
    codes "control character (\\u0000-\\u001F) found while parsing a string"
error_type_text debug Errors.key_must_be_a_string = codes "key must be a string"
error_type_text debug Errors.lone_leading_surrogate_in_hex_escape =
    codes "lone leading surrogate in hex escape"
error_type_text debug Errors.trailing_comma = codes "trailing comma"
error_type_text debug Errors.trailing_characters = codes "trailing characters"
error_type_text debug Errors.unexpected_end_of_hex_escape = codes "unexpected end of hex escape"
error_type_text debug Errors.recursion_limit_exceeded = codes "recursion limit exceeded"

-- `JsonType`.
unfoldable pub json_type_text : JsonType → Bytes
json_type_text JsonType.null = codes "null"
json_type_text JsonType.bool = codes "bool"
json_type_text JsonType.int = codes "int"
json_type_text JsonType.float = codes "float"
json_type_text JsonType.string = codes "string"
json_type_text JsonType.array = codes "array"
json_type_text JsonType.object = codes "object"

unfoldable pub jiter_error_type_text : (Bytes → Bytes) → JiterErrorType → Bytes
unfolding error_type_text json_type_text
jiter_error_type_text debug (of_json t) = error_type_text debug t
jiter_error_type_text debug (wrong_type expected actual) =
    codes "expected " ++ (json_type_text expected ++ (codes " but found " ++ json_type_text actual))

-- `LinePosition`, and its method `short`.
unfoldable pub position_text : LinePosition → Bytes
unfolding usize_text
position_text p = codes "line " ++ (usize_text p.line ++ (codes " column " ++ usize_text p.column))

unfoldable pub short : LinePosition → Bytes
unfolding usize_text
short p = usize_text p.line ++ (b':' ∷ usize_text p.column)

unfoldable pub error_text : (Bytes → Bytes) → JsonError → Bytes
unfolding error_type_text usize_text
error_text debug e =
    error_type_text debug e.error_type ++ (codes " at index " ++ usize_text e.index)

unfoldable pub jiter_error_text : (Bytes → Bytes) → JiterError → Bytes
unfolding jiter_error_type_text usize_text
jiter_error_text debug e =
    jiter_error_type_text debug e.error_type ++ (codes " at index " ++ usize_text e.index)

-- `get_position` and `description` of `JsonError`.
unfoldable pub get_position : JsonError → Bytes → LinePosition
unfolding find
get_position e json_data = find json_data e.index

unfoldable pub description : (Bytes → Bytes) → JsonError → Bytes → Bytes
unfolding error_type_text position_text get_position
description debug e json_data =
    error_type_text debug e.error_type ++ (codes " at " ++ position_text (get_position e json_data))
