-- ===== src/Tests/Decoding.antt =====
-- Tests of crates/jiter/src/string_decoder.rs.
use jiter.Prelude.{leb, ◌+◌, ◌≡◌, refl, true, false, [], ◌∷◌, arith, Bytes}
use jiter.Errors.{ok, json_err, lone_leading_surrogate_in_hex_escape}
use jiter.Errors.Ensures.{Ensures}
use jiter.Strings.Table.{json_ascii, char_type, table_kind, byte_kind, table_kind-byte_kind}
use jiter.Strings.Chunk.{decode_fallback}
use jiter.Strings.Chunk.Laws.{IsChunk, decode_fallback-IsChunk}
use jiter.Strings.Escape.{parse_escape}
use jiter.Strings.Escape.Bounds.{EscapeEnd, parse_escape-Ensures}
use jiter.Strings.Decode.{of_data, of_tape, decode, tape_loop}
use jiter.Strings.Escape.Written.{escape_text, hex_digit, parse_escape-escape_text}
use jiter.Strings.Decode.Sound.{IsDecoded, decode-IsDecoded}
use jiter.Prelude.Text.{codes}

-- "a\u00e9\n" with its escapes written out.
abbrev escaped : Bytes
escaped = codes "\"a\\u00e9\\n\"]"

decode-escaped :
    decode [] escaped 0 false ≡ ok (of_tape (b'a' ∷ 0xC3 ∷ 0xA9 ∷ b'\n' ∷ []) false, 11)
unfolding decode tape_loop json_ascii char_type
decode-escaped = refl

decode_plain : decode [] (codes "\"ab\"") 0 false ≡ ok (of_data (codes "ab") true, 4)
unfolding decode json_ascii char_type
decode_plain = refl

lone_surrogate : parse_escape (codes "uDC00") 0 ≡ json_err lone_leading_surrogate_in_hex_escape 4
unfolding parse_escape
lone_surrogate = refl

decode-IsDecoded_example : Ensures (IsDecoded escaped 0) (decode [] escaped 0 false)
decode-IsDecoded_example = decode-IsDecoded [] escaped 0 false (omega arith)

decode_fallback-IsChunk_example :
    Ensures (λ r. IsChunk escaped 1 true false r.0 r.1 r.2) (decode_fallback escaped 1 true false)
decode_fallback-IsChunk_example = decode_fallback-IsChunk escaped 1 true false

parse_escape-Ensures_example : Ensures (EscapeEnd escaped 3) (parse_escape escaped 3)
parse_escape-Ensures_example = parse_escape-Ensures escaped 3

table_kind-byte_kind_example : table_kind (json_ascii b'"') (char_type b'"') ≡ byte_kind b'"'
table_kind-byte_kind_example = table_kind-byte_kind b'"'

-- U+1F600, behind its `u`, with capitals from the fourth digit on.
abbrev smiley : Bytes
smiley = codes "ud83D\\uDE00\""

parse_escape-escape_text_example : parse_escape smiley 0 ≡ ok (0x1F600, 0 + 10)
unfolding escape_text hex_digit
parse_escape-escape_text_example =
    parse_escape-escape_text (leb 3) 0x1F600 smiley (b'"' ∷ []) 0 (refl, omega arith) refl
