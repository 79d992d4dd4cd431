-- ===== src/Strings/Escape.antt =====
-- `parse_u4` and `parse_escape` of crates/jiter/src/string_decoder.rs: `\u` escapes and their
-- surrogate pairs.
pub mod Bounds
pub mod Written
use jiter.Prelude.{
  ℕ, zero, suc, ◌+◌, ◌-◌, ◌*◌, ◌%◌, bit_and, bit_or, Bool, false, ◌&&◌, ◌||◌, not, Option, some,
  none, [], ◌∷◌, Bytes, length, get_elem?, ltb, leb, within, ◌==◌, if◌then◌else◌,
}
use jiter.Prelude.Slices.{get_range}
use jiter.Errors.{
  JsonResult, ok, json_err, ◌>>=◌, eof_while_parsing_string, invalid_escape,
  lone_leading_surrogate_in_hex_escape, unexpected_end_of_hex_escape,
}
use jiter.Parse.{bytes_eq}

abbrev pub u16_mod : ℕ
u16_mod = 65_536

-- One digit of `parse_u4`.
unfoldable pub hex_value : ℕ → Option ℕ
hex_value c =
    if within b'0' b'9' c
    then some (bit_and c 0x0f)
    else if within b'a' b'f' c
    then some (c - b'a' + 10)
    else if within b'A' b'F' c
    then some (c - b'A' + 10)
    else none

-- The loop of `parse_u4`, with `n = (n << 4) + hex` in a `u16`.
unfoldable pub u4_loop : Bytes → ℕ → ℕ → JsonResult (ℕ × ℕ)
unfolding hex_value
u4_loop [] index n = ok (n, index)
u4_loop (c ∷ cs) index n = elim (hex_value c) [
  | some hex ↦ u4_loop cs (index + 1) ((n * 16 % u16_mod + hex) % u16_mod)
  | none ↦ json_err invalid_escape (index + 1)
]

u4_of : Option Bytes → ℕ → ℕ → JsonResult (ℕ × ℕ)
u4_of (some u4) len index = u4_loop u4 index 0
u4_of none len index = json_err eof_while_parsing_string len

unfoldable pub parse_u4 : Bytes → ℕ → JsonResult (ℕ × ℕ)
unfolding u4_of u4_loop
parse_u4 bytes index = u4_of (get_range bytes (index + 1) (index + 5)) (length bytes) index

-- `char::from_u32`.
unfoldable pub char_from_u32 : ℕ → Option ℕ
char_from_u32 n = if within 0xD800 0xDFFF n || ltb 0x10FFFF n then none else some n

-- `Ok((c, index))` for a `char`, and an error for none.
abbrev pub char_or : JsonResult (ℕ × ℕ) → ℕ → Option ℕ → JsonResult (ℕ × ℕ)
char_or e index (some c) = ok (c, index)
char_or e index none = e

-- The two halves of a pair put together.
unfoldable pub join_surrogates : ℕ → ℕ → ℕ
join_surrogates n n2 = bit_or ((n - 0xD800) * 1024) (n2 - 0xDC00) + 0x1_0000

-- Behind a first half, from the second `\u` on.
unfoldable pub second_half : ℕ → ℕ × ℕ → JsonResult (ℕ × ℕ)
unfolding char_from_u32 join_surrogates
second_half n (n2, index) =
    if not (within 0xDC00 0xDFFF n2)
    then json_err lone_leading_surrogate_in_hex_escape index
    else char_or (json_err eof_while_parsing_string index) index
        (char_from_u32 (join_surrogates n n2))

-- Where less than two bytes are left behind a first half.
abbrev short_pair : Bytes → ℕ → Option ℕ → JsonResult (ℕ × ℕ)
short_pair bytes index none = json_err eof_while_parsing_string (length bytes)
short_pair bytes index (some c) =
    if c == b'\\'
    then json_err eof_while_parsing_string (length bytes)
    else json_err unexpected_end_of_hex_escape (index + 1)

starts_backslash : Bytes → Bool
starts_backslash [] = false
starts_backslash (c ∷ cs) = c == b'\\'

-- The match on the two bytes behind a first half.
abbrev pair_of : Bytes → ℕ → ℕ → Option Bytes → JsonResult (ℕ × ℕ)
pair_of bytes n index (some two) =
    if bytes_eq two (b'\\' ∷ b'u' ∷ [])
    then parse_u4 bytes (index + 2) >>= second_half n
    else if starts_backslash two
    then json_err unexpected_end_of_hex_escape (index + 2)
    else json_err unexpected_end_of_hex_escape (index + 1)
pair_of bytes n index none = short_pair bytes index (get_elem? bytes (index + 1))

-- The match on the first number.
unfoldable pub escape_of : Bytes → ℕ × ℕ → JsonResult (ℕ × ℕ)
unfolding parse_u4 second_half starts_backslash bytes_eq
escape_of bytes (n, index) =
    if within 0xDC00 0xDFFF n
    then json_err lone_leading_surrogate_in_hex_escape index
    else if within 0xD800 0xDBFF n
    then pair_of bytes n index (get_range bytes (index + 1) (index + 3))
    else char_or (json_err invalid_escape index) index (char_from_u32 n)

unfoldable pub parse_escape : Bytes → ℕ → JsonResult (ℕ × ℕ)
unfolding escape_of
parse_escape bytes index = parse_u4 bytes index >>= escape_of bytes
