-- ===== src/Strings/Decode/Range.antt =====
-- The runs of `StringDecoderRange::decode` of crates/jiter/src/string_decoder.rs.
use jiter.Prelude.{
  ℕ, zero, suc, ◌+◌, ◌≤◌, ◌<◌, ◌≡◌, refl, Bool, true, ◌||◌, Option, none, some, arith, Bytes,
  length, get_elem?, ◌==◌,
}
use jiter.Errors.{JsonResult, ok, ◌>>=◌}
use jiter.Errors.Ensures.{Ensures, returns, refuses, Ensures-next, Ensures-test}
use jiter.Strings.Chunk.{StringChunk, string_end, backslash_next}
use jiter.Strings.Chunk.Laws.{IsChunk, decode_fallback-IsChunk}
use jiter.Strings.Escape.Bounds.{parse_escape-Ensures}
use jiter.Strings.Decode.{ByteRange, skip_letter, skip_escape, range_loop, decode_range}
use jiter.Strings.Decode.Sound.{get_elem?-lt, chunk-end}

-- An index behind the escape letter and in the data, or at its end.
abbrev EscapeSkipped : Bytes → ℕ → ℕ → Type 0
EscapeSkipped bytes index after = (index < after) × (after ≤ length bytes)

skip_letter-Ensures :
    (bytes : Bytes) (index : ℕ) (o : Option ℕ)
    → get_elem? bytes index ≡ o
    → Ensures (EscapeSkipped bytes index) (skip_letter bytes index o)
skip_letter-Ensures bytes index none e = refuses
skip_letter-Ensures bytes index (some c) e =
    let lt : index < length bytes = get_elem?-lt bytes index e in
    Ensures-test
      (c == b'"'
        || c == b'\\'
        || c == b'/'
        || c == b'b'
        || c == b'f'
        || c == b'n'
        || c == b'r'
        || c == b't')
      (λ _. returns (omega arith, omega arith))
      λ _.
        Ensures-test (c == b'u')
          (λ _.
            Ensures-next (parse_escape-Ensures bytes index)
              λ r h. returns (omega arith, omega arith))
          (λ _. refuses)

skip_escape-Ensures :
    (bytes : Bytes) (index : ℕ) → Ensures (EscapeSkipped bytes index) (skip_escape bytes index)
unfolding skip_escape
skip_escape-Ensures bytes index = skip_letter-Ensures bytes index (get_elem? bytes index) refl

-- Behind `low`, with a range of the data that starts at `start`.
abbrev pub RangeRead : Bytes → ℕ → ℕ → ByteRange × ℕ → Type 0
RangeRead bytes start low r =
    (low < r.1) × (r.0.from ≡ start) × (start ≤ r.0.to) × (r.0.to ≤ length bytes)

-- A round of the loop behind its chunk, with what the further rounds ensure.
range_round-Ensures :
    (fuel : ℕ) (bytes : Bytes) (start low index : ℕ) (allow_partial : Bool)
    → low ≤ index
    → start ≤ index
    → index ≤ length bytes
    → ((after : ℕ)
        → index < after
        → after ≤ length bytes
        → Ensures (RangeRead bytes start low) (range_loop fuel bytes start after allow_partial))
    → (next : StringChunk) (flag : Bool) (end : ℕ)
    → IsChunk bytes index true allow_partial next flag end
    → Ensures (RangeRead bytes start low) (elim next as (λ _. JsonResult (ByteRange × ℕ)) [
      | string_end ↦ ok (record { from = start; to = end }, end + 1)
      | backslash_next ↦
          skip_escape bytes (end + 1) >>= λ after. range_loop fuel bytes start after allow_partial
    ])
range_round-Ensures fuel bytes start low index allow_partial a g b k string_end flag end c =
    let (x, y) = chunk-end b c in returns (omega arith, refl, omega arith, omega arith)
range_round-Ensures fuel bytes start low index allow_partial a g b k backslash_next flag end c =
    let (x, y) = chunk-end b c in
    Ensures-next (skip_escape-Ensures bytes (end + 1)) λ after h. k after (omega arith) h.1

range_loop-Ensures :
    (fuel : ℕ) (bytes : Bytes) (start low index : ℕ) (allow_partial : Bool)
    → low ≤ index
    → start ≤ index
    → index ≤ length bytes
    → length bytes < fuel + index
    → Ensures (RangeRead bytes start low) (range_loop fuel bytes start index allow_partial)
unfolding range_loop
range_loop-Ensures zero bytes start low index allow_partial a g b f = absurd (omega arith)
range_loop-Ensures (suc fuel) bytes start low index allow_partial a g b f =
    Ensures-next (decode_fallback-IsChunk bytes index true allow_partial) λ r c.
      range_round-Ensures fuel bytes start low index allow_partial a g b
        (λ after l h.
          range_loop-Ensures fuel bytes start low after allow_partial (omega arith) (omega arith) h
            (omega arith))
        r.0 r.1 r.2 c

-- `StringDecoderRange::decode` at a byte of the data returns a range of the data and an index behind
-- that byte, or an error.
pub decode_range-Ensures :
    (bytes : Bytes) (index : ℕ) (allow_partial : Bool)
    → index < length bytes
    → Ensures (RangeRead bytes (index + 1) index) (decode_range bytes index allow_partial)
unfolding decode_range
decode_range-Ensures bytes index allow_partial h =
    range_loop-Ensures (suc (length bytes)) bytes (index + 1) index (index + 1) allow_partial
      (omega arith) (omega arith) (omega arith) (omega arith)
