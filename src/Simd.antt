-- ===== src/Simd.antt =====
-- `decode_string_chunk` of crates/jiter/src/simd_aarch64.rs, with `decode_array` of
-- crates/jiter/src/string_decoder.rs. A vector is the list of its lanes, and the operations on lanes are
-- those that the NEON intrinsics of std::arch are documented to do.
pub mod Mask
pub mod Int
pub mod Agree
use jiter.Prelude.{
  ℕ, zero, suc, ◌+◌, ◌*◌, bit_or, Bool, true, false, ◌&&◌, Option, some, none, [], ◌∷◌, Bytes,
  length, take, drop, replicate, ltb, ◌==◌, if◌then◌else◌,
}
use jiter.Prelude.Slices.{get_range}
use jiter.Errors.{ok, panic, out_of_fuel, json_err, control_character_while_parsing_string}
use jiter.Strings.Table.{json_ascii, CharType, control_char, quote, backslash, other, char_type}
use jiter.Strings.Chunk.{StringChunk, string_end, backslash_next, ChunkResult, decode_fallback}

abbrev pub simd_step : ℕ
simd_step = 16

-- A lane of a comparison: all its bits are set, or none.
abbrev pub flag : Bool → ℕ
flag true = 0xFF
flag false = 0

-- An operation on each lane of two vectors.
abbrev pub lanes : (ℕ → ℕ → ℕ) → Bytes → Bytes → Bytes
lanes f [] ys = []
lanes f (x ∷ xs) [] = []
lanes f (x ∷ xs) (y ∷ ys) = f x y ∷ lanes f xs ys

-- `vcgtq_u8`, `vcltq_u8`, `vceqq_u8` and `vorrq_u8`.
abbrev pub simd_gt_16 : Bytes → Bytes → Bytes
simd_gt_16 = lanes λ a b. flag (ltb b a)

abbrev pub simd_lt_16 : Bytes → Bytes → Bytes
simd_lt_16 = lanes λ a b. flag (ltb a b)

abbrev pub simd_eq_16 : Bytes → Bytes → Bytes
simd_eq_16 = lanes λ a b. flag (a == b)

abbrev pub simd_or_16 : Bytes → Bytes → Bytes
simd_or_16 = lanes bit_or

abbrev pub quote_16 : Bytes
quote_16 = replicate 16 b'"'

abbrev pub backslash_16 : Bytes
backslash_16 = replicate 16 b'\\'

abbrev pub control_16 : Bytes
control_16 = replicate 16 32

abbrev pub ascii_max_16 : Bytes
ascii_max_16 = replicate 16 127

unfoldable pub string_ascii_mask : Bytes → Bytes
string_ascii_mask byte_vec = simd_or_16 (simd_eq_16 byte_vec quote_16) (
    simd_or_16 (simd_eq_16 byte_vec backslash_16)
      (simd_or_16 (simd_gt_16 byte_vec ascii_max_16) (simd_lt_16 byte_vec control_16)))

-- Eight lanes transmuted to a `u64`, on a little-endian target.
unfoldable pub u64_of : Bytes → ℕ
u64_of [] = 0
u64_of (b ∷ bs) = b + 256 * u64_of bs

unfoldable pub is_zero : Bytes → Bool
unfolding u64_of
is_zero vec = (u64_of (take 8 vec) == 0) && (u64_of (drop 8 vec) == 0)

-- The result, if there is one, and the index that is left.
unfoldable pub decode_array : Bytes → ℕ → Bool → Option ChunkResult × ℕ
decode_array [] index ascii_only = (some panic, index)
decode_array (c ∷ cs) index ascii_only =
    if json_ascii c then decode_array cs (index + 1) ascii_only else elim (char_type c) [
      | quote ↦ (some (ok (string_end, ascii_only, index)), index)
      | backslash ↦ (some (ok (backslash_next, ascii_only, index)), index)
      | control_char ↦ (some (json_err control_character_while_parsing_string index), index)
      | other ↦ (none, index + 1)
    ]

-- What follows `decode_array` in the loop.
unfoldable pub array_decoded : (ℕ → ChunkResult) → Option ChunkResult × ℕ → ChunkResult
array_decoded go (some r, index) = r
array_decoded go (none, index) = go index

-- The `while let`, by the rounds left.
unfoldable pub string_chunk_loop : ℕ → Bytes → ℕ → Bool → Bool → ChunkResult
unfolding is_zero string_ascii_mask decode_array array_decoded decode_fallback
string_chunk_loop zero bytes index ascii_only allow_partial = out_of_fuel
string_chunk_loop (suc fuel) bytes index ascii_only allow_partial =
    elim (get_range bytes index (index + simd_step)) [
      | some byte_chunk ↦
          if is_zero (string_ascii_mask byte_chunk)
          then string_chunk_loop fuel bytes (index + simd_step) ascii_only allow_partial
          else array_decoded (λ i. string_chunk_loop fuel bytes i false allow_partial)
              (decode_array byte_chunk index ascii_only)
      | none ↦ decode_fallback bytes index ascii_only allow_partial
    ]

-- Each round reads a byte or more.
unfoldable pub decode_string_chunk : Bytes → ℕ → Bool → Bool → ChunkResult
unfolding string_chunk_loop
decode_string_chunk bytes index ascii_only allow_partial =
    string_chunk_loop (suc (length bytes)) bytes index ascii_only allow_partial
