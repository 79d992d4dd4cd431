-- ===== src/Number/Chunk.antt =====
-- `IntChunk` and `decode_int_chunk_fallback` of crates/jiter/src/number_decoder.rs: up to 18 digits
-- at a time, in a `u64` that wraps.
pub mod Advances
pub mod Laws
use jiter.Prelude.{
  ℕ, zero, suc, ◌+◌, ◌*◌, ◌%◌, Bool, ◌||◌, some, none, Bytes, get_elem?, ◌==◌, if◌then◌else◌,
}
use jiter.Prelude.Int.{u64_mod}
use jiter.Number.Table.{int_char_map, digit_value}

pub data IntChunk : Type 0 where
  ongoing : ℕ → IntChunk
  done : ℕ → IntChunk
  float : IntChunk

-- `matches!(digit, b'.' | b'e' | b'E')`.
abbrev pub is_float_byte : ℕ → Bool
is_float_byte c = c == b'.' || c == b'e' || c == b'E'

-- `value.wrapping_mul(10).wrapping_add((digit & 0x0f) as u64)`.
unfoldable pub push_digit : ℕ → ℕ → ℕ
push_digit value c = (value * 10 % u64_mod + digit_value c) % u64_mod

-- The loop, by the rounds left of `for _ in 0..18`.
unfoldable pub int_chunk_loop : ℕ → Bytes → ℕ → ℕ → IntChunk × ℕ
int_chunk_loop zero bytes index value = (ongoing value, index)
int_chunk_loop (suc n) bytes index value = elim (get_elem? bytes index) [
  | some c ↦
      let rest = int_chunk_loop n bytes (index + 1) (push_digit value c) in
      if int_char_map c
      then rest
      else if is_float_byte c
      then (float, index)
      else (done value, index)
  | none ↦ (done value, index)
]

unfoldable pub decode_int_chunk_fallback : Bytes → ℕ → ℕ → IntChunk × ℕ
unfolding int_chunk_loop
decode_int_chunk_fallback bytes index value = int_chunk_loop 18 bytes index value

-- `IntChunk::parse_small`, and `IntChunk::parse_big` where the target is not aarch64.
abbrev pub parse_small : Bytes → ℕ → ℕ → IntChunk × ℕ
parse_small = decode_int_chunk_fallback

abbrev pub parse_big : Bytes → ℕ → IntChunk × ℕ
parse_big bytes index = decode_int_chunk_fallback bytes index 0
