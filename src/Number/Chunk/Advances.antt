-- ===== src/Number/Chunk/Advances.antt =====
-- How far `decode_int_chunk_fallback` of crates/jiter/src/number_decoder.rs goes.
use jiter.Prelude.{
  ℕ, zero, suc, ◌+◌, ◌≤◌, ◌<◌, ◌≡◌, Bool, true, false, arith, Bytes, get_elem?, Option-cases, inl,
  inr, length, get_elem?-bound, if◌then◌else◌,
}
use jiter.Number.Table.{int_char_map}
use jiter.Number.Chunk.{IntChunk, ongoing, done, is_float_byte, push_digit, int_chunk_loop}

-- How far a chunk goes: by all its rounds where the number is ongoing, and by fewer where it ends.
abbrev pub Advances : ℕ → ℕ → IntChunk × ℕ → Type 0
Advances n index (ongoing v, end) = end ≡ index + n
Advances n index (done v, end) = (index ≤ end) × (end < index + n)
Advances n index (IntChunk.float, end) = index ≤ end

Advances-suc :
    (n index : ℕ) (r : IntChunk × ℕ) → Advances n (index + 1) r → Advances (suc n) index r
Advances-suc n index (ongoing v, end) h = omega arith
Advances-suc n index (done v, end) h = (omega arith, omega arith)
Advances-suc n index (IntChunk.float, end) h = omega arith

Advances-test :
    (n index : ℕ) (b : Bool) (x y : IntChunk × ℕ)
    → Advances n index x
    → Advances n index y
    → Advances n index (if b then x else y)
Advances-test n index true x y hx hy = hx
Advances-test n index false x y hx hy = hy

pub int_chunk_loop-Advances :
    (n : ℕ) (bytes : Bytes) (index value : ℕ)
    → Advances n index (int_chunk_loop n bytes index value)
unfolding int_chunk_loop
int_chunk_loop-Advances zero bytes index value = omega arith
int_chunk_loop-Advances (suc n) bytes index value = elim (Option-cases (get_elem? bytes index)) [
  | inl e ↦ rw (e, int_chunk_loop) (omega arith, omega arith)
  | inr (c, e) ↦
      rw (e, int_chunk_loop)
        (Advances-test (suc n) index (int_char_map c) _ _
          (Advances-suc n index _
            (int_chunk_loop-Advances n bytes (index + 1) (push_digit value c)))
          (Advances-test (suc n) index (is_float_byte c) _ _ (omega arith)
            (omega arith, omega arith)))
]

-- Where a chunk ends is in the data.
int_chunk-test :
    (bytes : Bytes) (b : Bool) (x y : IntChunk × ℕ)
    → x.1 ≤ length bytes
    → y.1 ≤ length bytes
    → (if b then x else y).1 ≤ length bytes
int_chunk-test bytes true x y hx hy = hx
int_chunk-test bytes false x y hx hy = hy

pub int_chunk_loop-le :
    (n : ℕ) (bytes : Bytes) (index value : ℕ)
    → index ≤ length bytes
    → (int_chunk_loop n bytes index value).1 ≤ length bytes
unfolding int_chunk_loop
int_chunk_loop-le zero bytes index value l = l
int_chunk_loop-le (suc n) bytes index value l = elim (Option-cases (get_elem? bytes index)) [
  | inl e ↦ rw (e, int_chunk_loop) l
  | inr (c, e) ↦
      let m = get_elem?-bound bytes index e in
      rw (e, int_chunk_loop)
        (int_chunk-test bytes (int_char_map c) _ _
          (int_chunk_loop-le n bytes (index + 1) (push_digit value c) (omega arith))
          (int_chunk-test bytes (is_float_byte c) _ _ l l))
]
