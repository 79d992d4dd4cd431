-- ===== src/Strings/Chunk.antt =====
-- `StringChunk::decode_fallback` of crates/jiter/src/string_decoder.rs: the bytes of a string up to
-- its end or the next backslash.
pub mod Laws
use jiter.Prelude.{ℕ, ◌+◌, Bool, true, false, [], ◌∷◌, Bytes, drop}
use jiter.Errors.{
  JsonResult, ok, json_err, control_character_while_parsing_string, eof_while_parsing_string,
}
use jiter.Strings.Table.{json_ascii, CharType, control_char, quote, backslash, other, char_type}

pub data StringChunk : Type 0 where
  string_end backslash_next : StringChunk

abbrev pub ChunkResult : Type 0
ChunkResult = JsonResult (StringChunk × Bool × ℕ)

-- The loop, over the bytes from `index` on.
unfoldable pub fallback_from : Bytes → ℕ → Bool → Bool → ChunkResult
fallback_from [] index ascii_only true = ok (string_end, ascii_only, index)
fallback_from [] index ascii_only false = json_err eof_while_parsing_string index
fallback_from (c ∷ cs) index ascii_only allow_partial = elim (json_ascii c) [
  | true ↦ fallback_from cs (index + 1) ascii_only allow_partial
  | false ↦ elim (char_type c) [
    | quote ↦ ok (string_end, ascii_only, index)
    | backslash ↦ ok (backslash_next, ascii_only, index)
    | control_char ↦ json_err control_character_while_parsing_string index
    | other ↦ fallback_from cs (index + 1) false allow_partial
  ]
]

unfoldable pub decode_fallback : Bytes → ℕ → Bool → Bool → ChunkResult
unfolding fallback_from
decode_fallback bytes index ascii_only allow_partial =
    fallback_from (drop index bytes) index ascii_only allow_partial

-- `decode_chunk` where the target is not aarch64.
abbrev pub decode_chunk : Bytes → ℕ → Bool → Bool → ChunkResult
decode_chunk = decode_fallback
