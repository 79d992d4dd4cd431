-- ===== src/Number/Range/Steps.antt =====
-- The runs of `NumberRange::decode` of crates/jiter/src/number_decoder.rs.
use jiter.Prelude.{
  ℕ, zero, suc, ◌+◌, ◌-◌, ◌*◌, ◌≤◌, ◌<◌, ◌≡◌, refl, length, get_elem?-bound, Bool, true, false,
  ◌||◌, Option, none, some, arith, Bytes, get_elem?, ltb, within, ◌==◌, Option-cases, inl, inr,
  if◌then◌else◌,
}
use jiter.Errors.{JsonResult, json_err, number_out_of_range}
use jiter.Errors.Ensures.{Ensures, returns, refuses, Ensures-next, Ensures-test, Ensures-weaken}
use jiter.Parse.{infinity_rest, nan_rest}
use jiter.Parse.Runs.{consume_ident_at-Ensures}
use jiter.Number.Table.{int_char_map, is_digit}
use jiter.Number.Chunk.{IntChunk, ongoing, done, int_chunk_loop, decode_int_chunk_fallback}
use jiter.Number.IntParse.{max_digits, big_rounds}
use jiter.Number.Chunk.Advances.{Advances, int_chunk_loop-Advances, int_chunk_loop-le}
use jiter.Number.Range.Parts.{Inside, consume_exponential-Ensures, consume_decimal-Ensures}
use jiter.Number.Range.{
  NumberRange, consume_inf, allowed_nan, int_range, float_range, consume_exponential, range_float,
  range_loop, range_digits, range_zero, range_first, decode_range,
}

-- What a range that starts at `start` ends with: it is the bytes read, and they are in the data.
abbrev pub Ends : Bytes → ℕ → NumberRange × ℕ → Type 0
Ends bytes start r = (r.0.from ≡ start) × (r.0.to ≡ r.1) × (start < r.1) × (r.1 ≤ length bytes)

ends :
    (bytes : Bytes) {start index : ℕ}
    → start < index
    → index ≤ length bytes
    → (is_int : Bool)
    → Ends bytes start (record { from = start; to = index; is_int = is_int }, index)
ends bytes l m is_int = (refl, refl, l, m)

float_range-Ensures :
    (bytes : Bytes) (start : ℕ) {r : JsonResult ℕ}
    → Ensures (Inside bytes start) r
    → Ensures (Ends bytes start) (float_range start r)
float_range-Ensures bytes start h = Ensures-next h λ end l. returns (ends bytes l.0 l.1 false)

range_float-Ensures :
    (bytes : Bytes) (start index c : ℕ)
    → start ≤ index
    → Ensures (Ends bytes start) (range_float bytes start index c)
range_float-Ensures bytes start index c h = float_range-Ensures bytes start (
    Ensures-test (c == b'.')
      (λ _. Ensures-weaken (consume_decimal-Ensures bytes (index + 1)) λ end l. (omega arith, l.1))
      (λ _.
        Ensures-weaken (consume_exponential-Ensures bytes (index + 1)) λ end l. (omega arith, l.1)))

range_end-Ensures :
    (bytes : Bytes) (start index : ℕ) (o : Option ℕ)
    → start ≤ index
    → Ensures (Ends bytes start) (elim o as (λ _. JsonResult (NumberRange × ℕ)) [
      | some c ↦ range_float bytes start index c
      | none ↦ float_range start (consume_exponential bytes (index + 1))
    ])
range_end-Ensures bytes start index (some c) h = range_float-Ensures bytes start index c h
range_end-Ensures bytes start index none h =
    float_range-Ensures bytes start
      (Ensures-weaken (consume_exponential-Ensures bytes (index + 1)) λ end l. (omega arith, l.1))

-- A round of the last loop behind its chunk, with what the further rounds ensure.
range_chunk-Ensures :
    (fuel : ℕ) (bytes : Bytes) (start index : ℕ) (r : IntChunk × ℕ)
    → start < index
    → Advances 18 index r
    → r.1 ≤ length bytes
    → (r.1 ≡ index + 18
        → r.1 - start ≤ max_digits
        → Ensures (Ends bytes start) (range_loop fuel bytes start r.1))
    → Ensures (Ends bytes start) (
        if ltb max_digits (r.1 - start)
        then json_err number_out_of_range (start + 4301)
        else elim r.0 as (λ _. JsonResult (NumberRange × ℕ)) [
          | ongoing value ↦ range_loop fuel bytes start r.1
          | done value ↦ int_range start r.1
          | IntChunk.float ↦ elim (get_elem? bytes r.1) as (λ _. JsonResult (NumberRange × ℕ)) [
            | some c ↦ range_float bytes start r.1 c
            | none ↦ float_range start (consume_exponential bytes (r.1 + 1))
          ]
        ])
range_chunk-Ensures fuel bytes start index (ongoing v, end) l h m k =
    Ensures-test (ltb max_digits (end - start)) (λ _. refuses) (λ e. k h (ground arith))
range_chunk-Ensures fuel bytes start index (done v, end) l h m k =
    Ensures-test (ltb max_digits (end - start)) (λ _. refuses)
      (λ e. returns (ends bytes (omega arith) m true))
range_chunk-Ensures fuel bytes start index (IntChunk.float, end) l h m k =
    Ensures-test (ltb max_digits (end - start)) (λ _. refuses)
      (λ e. range_end-Ensures bytes start end (get_elem? bytes end) (omega arith))

range_loop-Ensures :
    (fuel : ℕ) (bytes : Bytes) (start index : ℕ)
    → start < index
    → index ≤ length bytes
    → index - start ≤ max_digits
    → max_digits < fuel * 18 + (index - start)
    → Ensures (Ends bytes start) (range_loop fuel bytes start index)
unfolding range_loop decode_int_chunk_fallback
range_loop-Ensures zero bytes start index l n m f = absurd (omega arith)
range_loop-Ensures (suc fuel) bytes start index l n m f =
    range_chunk-Ensures fuel bytes start index (int_chunk_loop 18 bytes index 0) l
      (int_chunk_loop-Advances 18 bytes index 0) (int_chunk_loop-le 18 bytes index 0 n)
      λ e b.
        range_loop-Ensures fuel bytes start _ (omega arith) (int_chunk_loop-le 18 bytes index 0 n) b
          (omega arith)

range_digits-Ensures :
    (n : ℕ) (bytes : Bytes) (start index : ℕ)
    → start < index
    → index ≤ length bytes
    → index + n ≤ start + 20
    → Ensures (Ends bytes start) (range_digits n bytes start index)
unfolding range_digits
range_digits-Ensures zero bytes start index l b m =
    range_loop-Ensures big_rounds bytes start index l b (omega arith) (omega arith)
range_digits-Ensures (suc n) bytes start index l b m = elim (Option-cases (get_elem? bytes index)) [
  | inl e ↦ rw (e, range_digits) (returns (ends bytes l b true))
  | inr (c, e) ↦
      rw (e, range_digits)
        (Ensures-test (int_char_map c)
          (λ _.
            range_digits-Ensures n bytes start (index + 1) (omega arith)
              (omega (arith, get_elem?-bound bytes index e)) (omega arith))
          λ _.
            Ensures-test (c == b'.' || (c == b'e' || c == b'E'))
              (λ _. range_float-Ensures bytes start index c (omega arith))
              (λ _. returns (ends bytes l b true)))
]

range_zero-Ensures :
    (bytes : Bytes) (start index : ℕ) (o : Option ℕ)
    → start < index
    → index ≤ length bytes
    → Ensures (Ends bytes start) (range_zero bytes start index o)
unfolding range_zero
range_zero-Ensures bytes start index none l b = returns (ends bytes l b true)
range_zero-Ensures bytes start index (some c) l b =
    Ensures-test (c == b'.' || (c == b'e' || c == b'E'))
      (λ _. range_float-Ensures bytes start index c (omega arith))
      λ _. Ensures-test (is_digit c) (λ _. refuses) (λ _. returns (ends bytes l b true))

pub consume_inf-Ensures :
    (bytes : Bytes) (index : ℕ) (positive allow_inf_nan : Bool)
    → Ensures (Inside bytes index) (consume_inf bytes index positive allow_inf_nan)
unfolding consume_inf
consume_inf-Ensures bytes index positive allow_inf_nan =
    Ensures-test allow_inf_nan (λ _. consume_ident_at-Ensures bytes index infinity_rest)
      λ _. Ensures-test positive (λ _. refuses) (λ _. refuses)

range_first-Ensures :
    (bytes : Bytes) (start : ℕ) (positive allow_inf_nan : Bool) (index : ℕ) (o : Option ℕ)
    → start ≤ index
    → index ≤ start + 1
    → ((c : ℕ) → o ≡ some c → index < length bytes)
    → Ensures (Ends bytes start) (range_first bytes start positive allow_inf_nan index o)
unfolding range_first
range_first-Ensures bytes start positive allow_inf_nan index none l m b = refuses
range_first-Ensures bytes start positive allow_inf_nan index (some c) l m b =
    Ensures-test (c == b'0')
      (λ _.
        range_zero-Ensures bytes start (index + 1) (get_elem? bytes (index + 1)) (omega arith)
          (omega (arith, b c refl)))
      λ _.
        Ensures-test (c == b'I')
          (λ _. float_range-Ensures bytes start (
            Ensures-weaken (consume_inf-Ensures bytes index positive allow_inf_nan)
              λ end h. (omega arith, h.1)))
          λ _.
            Ensures-test (within b'1' b'9' c)
              (λ _.
                range_digits-Ensures 18 bytes start (index + 1) (omega arith)
                  (omega (arith, b c refl)) (omega arith))
              (λ _. refuses)

-- On every input `NumberRange::decode` gives an error, or the range of the bytes that it read: at least
-- one byte, from where it starts to the index that it returns, all of them in the data. It does not
-- panic, and 300 rounds are enough for its loop over chunks.
pub decode_range-Ensures :
    (bytes : Bytes) (index first : ℕ) (allow_inf_nan : Bool)
    → Ensures (Ends bytes index) (decode_range bytes index first allow_inf_nan)
unfolding decode_range allowed_nan
decode_range-Ensures bytes index first allow_inf_nan =
    Ensures-test (first == b'N')
      (λ _. float_range-Ensures bytes index (
        Ensures-test allow_inf_nan (λ _. consume_ident_at-Ensures bytes index nan_rest)
          (λ _. refuses)))
      λ _.
        Ensures-test (first == b'-')
          (λ _.
            range_first-Ensures bytes index false allow_inf_nan (index + 1)
              (get_elem? bytes (index + 1)) (omega arith) (omega arith)
              λ c e. get_elem?-bound bytes (index + 1) e)
          (λ _.
            range_first-Ensures bytes index true allow_inf_nan index (get_elem? bytes index)
              (omega arith) (omega arith) λ c e. get_elem?-bound bytes index e)
