-- ===== src/Strings/Decode.antt =====
-- `StringDecoder` and `StringDecoderRange` of crates/jiter/src/string_decoder.rs.
pub mod Sound
pub mod Literal
pub mod RangeLiteral
pub mod Range
use jiter.Prelude.{
  ℕ, zero, suc, ◌+◌, Bool, true, false, not, ◌&&◌, ◌||◌, Option, some, none, [], ◌∷◌, ◌++◌, Bytes,
  length, get_elem?, ◌==◌, if◌then◌else◌,
}
use jiter.Prelude.Slices.{get_range}
use jiter.Errors.{
  JsonResult, ok, panic, out_of_fuel, json_err, ◌>>=◌, eof_while_parsing_string, invalid_escape,
  invalid_unicode_code_point,
}
use jiter.Strings.Chunk.{StringChunk, string_end, backslash_next, decode_chunk, decode_fallback}
use jiter.Strings.Escape.{parse_escape}
use jiter.Strings.Utf8.{encode_utf8, invalid_utf8}

abbrev pub Tape : Type 0
Tape = Bytes

pub data StringOutput : Type 0 where
  of_tape : Bytes → Bool → StringOutput
  of_data : Bytes → Bool → StringOutput

unfoldable pub as_str : StringOutput → Bytes
as_str (of_tape s ascii_only) = s
as_str (of_data s ascii_only) = s

unfoldable pub ascii_only_of : StringOutput → Bool
ascii_only_of (of_tape s ascii_only) = ascii_only
ascii_only_of (of_data s ascii_only) = ascii_only

-- `&data[from..to]`, which panics out of range.
abbrev pub slice_or_panic : Option Bytes → JsonResult Bytes
slice_or_panic (some s) = ok s
slice_or_panic none = panic

abbrev pub at_range : Bytes → ℕ → ℕ → JsonResult Bytes
at_range bytes from to = slice_or_panic (get_range bytes from to)

-- `from_utf8`, or its error at an index counted from `start`.
abbrev pub checked_str : Bytes → ℕ → Option ℕ → JsonResult Bytes
checked_str bytes start none = ok bytes
checked_str bytes start (some valid_up_to) =
    json_err invalid_unicode_code_point (start + valid_up_to + 1)

unfoldable pub to_str : Bytes → Bool → ℕ → JsonResult Bytes
unfolding invalid_utf8
to_str bytes ascii_only start =
    if ascii_only then ok bytes else checked_str bytes start (invalid_utf8 bytes)

-- What an escape with one letter pushes.
unfoldable pub simple_escape : ℕ → Option ℕ
simple_escape c =
    if c == b'"' || c == b'\\' || c == b'/'
    then some c
    else if c == b'b'
    then some 0x08
    else if c == b'f'
    then some 0x0C
    else if c == b'n'
    then some b'\n'
    else if c == b'r'
    then some b'\r'
    else if c == b't'
    then some b'\t'
    else none

-- An escape whose letter stands at `index`: the bytes that it pushes, whether it leaves the flag
-- `ascii_only` alone, and the index behind it.
abbrev pub escape_letter : Bytes → ℕ → ℕ → Option ℕ → JsonResult (Bytes × Bool × ℕ)
escape_letter bytes index c (some pushed) = ok (pushed ∷ [], true, index + 1)
escape_letter bytes index c none =
    if c == b'u'
    then (parse_escape bytes index >>= λ (char, new_index).
        ok (encode_utf8 char, false, new_index + 1))
    else json_err invalid_escape index

abbrev pub escape_at : Bytes → ℕ → Option ℕ → JsonResult (Bytes × Bool × ℕ)
escape_at bytes index (some c) = escape_letter bytes index c (simple_escape c)
escape_at bytes index none = json_err eof_while_parsing_string index

unfoldable pub unescape : Bytes → ℕ → JsonResult (Bytes × Bool × ℕ)
unfolding simple_escape parse_escape encode_utf8
unescape bytes index = escape_at bytes index (get_elem? bytes index)

-- `Ok((StringOutput::Tape(s, ascii_only), index))` behind the last chunk.
unfoldable pub tape_end : Bytes → ℕ → Tape → ℕ → Bool → ℕ → JsonResult (StringOutput × ℕ)
unfolding to_str
tape_end bytes index tape start ascii_only new_index = at_range bytes index new_index >>= λ chunk.
    to_str (tape ++ chunk) ascii_only start >>= λ s. ok (of_tape s ascii_only, new_index + 1)

-- The `loop` of `decode_to_tape`, with a backslash at `index`.
unfoldable pub tape_loop :
    ℕ → Bytes → ℕ → Tape → ℕ → ℕ → Bool → Bool → JsonResult (StringOutput × ℕ)
unfolding unescape tape_end decode_fallback
tape_loop zero bytes index tape start chunk_start ascii_only allow_partial = out_of_fuel
tape_loop (suc fuel) bytes index tape start chunk_start ascii_only allow_partial =
    at_range bytes chunk_start index >>= λ chunk.
    unescape bytes (index + 1) >>= λ (pushed, keeps, index').
    let tape' = (tape ++ chunk) ++ pushed in
    decode_chunk bytes index' (ascii_only && keeps) allow_partial >>= λ (next, ascii', new_index).
    elim next [
      | string_end ↦ tape_end bytes index' tape' start ascii' new_index
      | backslash_next ↦ tape_loop fuel bytes new_index tape' start index' ascii' allow_partial
    ]

-- `decode_to_tape`, which clears the tape. Each round reads two bytes or more.
unfoldable pub decode_to_tape : Bytes → ℕ → Tape → ℕ → Bool → Bool → JsonResult (StringOutput × ℕ)
decode_to_tape bytes index tape start ascii_only allow_partial =
    tape_loop (suc (length bytes)) bytes index [] start start ascii_only allow_partial

-- The match on the first chunk.
unfoldable pub decode_first :
    Bytes → ℕ → Tape → Bool → StringChunk × Bool × ℕ → JsonResult (StringOutput × ℕ)
unfolding decode_to_tape to_str
decode_first bytes start tape allow_partial (string_end, ascii_only, index) =
    at_range bytes start index >>= λ chunk.
    to_str chunk ascii_only start >>= λ s. ok (of_data s ascii_only, index + 1)
decode_first bytes start tape allow_partial (backslash_next, ascii_only, index) =
    decode_to_tape bytes index tape start ascii_only allow_partial

-- `StringDecoder::decode`.
unfoldable pub decode : Tape → Bytes → ℕ → Bool → JsonResult (StringOutput × ℕ)
unfolding decode_first decode_fallback
decode tape bytes index allow_partial =
    decode_chunk bytes (index + 1) true allow_partial
    >>= decode_first bytes (index + 1) tape allow_partial

pub record ByteRange : Type 0 where
  pub from : ℕ
  pub to : ℕ

-- The escape at `index` of `StringDecoderRange`: the index behind it.
abbrev pub skip_letter : Bytes → ℕ → Option ℕ → JsonResult ℕ
skip_letter bytes index none = json_err eof_while_parsing_string index
skip_letter bytes index (some c) =
    if c == b'"'
      || c == b'\\'
      || c == b'/'
      || c == b'b'
      || c == b'f'
      || c == b'n'
      || c == b'r'
      || c == b't'
    then ok (index + 1)
    else if c == b'u'
    then (parse_escape bytes index >>= λ (char, new_index). ok (new_index + 1))
    else json_err invalid_escape index

unfoldable pub skip_escape : Bytes → ℕ → JsonResult ℕ
unfolding parse_escape
skip_escape bytes index = skip_letter bytes index (get_elem? bytes index)

-- The `loop` of `StringDecoderRange::decode`.
unfoldable pub range_loop : ℕ → Bytes → ℕ → ℕ → Bool → JsonResult (ByteRange × ℕ)
unfolding skip_escape decode_fallback
range_loop zero bytes start index allow_partial = out_of_fuel
range_loop (suc fuel) bytes start index allow_partial =
    decode_chunk bytes index true allow_partial >>= λ (next, ascii_only, index'). elim next [
      | string_end ↦ ok (record { from = start; to = index' }, index' + 1)
      | backslash_next ↦ skip_escape bytes (index' + 1) >>= λ after.
          range_loop fuel bytes start after allow_partial
    ]

-- `StringDecoderRange::decode`.
unfoldable pub decode_range : Bytes → ℕ → Bool → JsonResult (ByteRange × ℕ)
decode_range bytes index allow_partial =
    range_loop (suc (length bytes)) bytes (index + 1) (index + 1) allow_partial
