-- ===== src/Number/IntParse/Steps.antt =====
-- The runs of `IntParse::parse` of crates/jiter/src/number_decoder.rs.
use jiter.Prelude.{
  ℕ, zero, suc, ◌+◌, ◌-◌, ◌*◌, ◌≤◌, ◌<◌, ◌≡◌, refl, ap, Bool, true, false, ◌||◌, Option, none, some,
  arith, Bytes, get_elem?, ltb, within, ◌==◌, if◌then◌else◌, get_elem?-some,
}
use jiter.Errors.{ok, json_err, number_out_of_range}
use jiter.Errors.Ensures.{Ensures, returns, refuses, Ensures-test, Ensures-next}
use jiter.Number.Table.{is_digit, digit_value}
use jiter.Number.Chunk.{IntChunk, ongoing, done, decode_int_chunk_fallback, int_chunk_loop}
use jiter.Number.Chunk.Advances.{Advances, int_chunk_loop-Advances}
use jiter.Number.Libs.{NumberLibs}
use jiter.Number.IntParse.{
  IntParse, int, float, float_inf, float_nan, max_digits, big_rounds, ongoing_chunk_multiplier,
  pow_10, Parsed, big_done, big_loop, after_digit, after_zero, first_digit, parse, only_int,
  decode_int,
}

module _ (L : NumberLibs) where
  open L use {BigInt, from_u64, mul_u64, add_u64}

  -- An integer ends behind the start, and what is not one is seen no further back.
  abbrev pub Seen : ℕ → IntParse BigInt × ℕ → Type 0
  Seen start (int n, index) = start < index
  Seen start (float, index) = start ≤ index
  Seen start (float_inf positive, index) = start ≤ index
  Seen start (float_nan, index) = start ≤ index

  -- The table has a power for each chunk that ends a number.
  big_done-Ensures :
      (positive : Bool) (big : BigInt) (k value start new_index : ℕ)
      → k < 18
      → start < new_index
      → Ensures (Seen start) (big_done L positive big (get_elem? pow_10 k) value new_index)
  unfolding big_done pow_10
  big_done-Ensures positive big k value start new_index h l =
      let (power, e) = get_elem?-some pow_10 k h in rw e (returns l)

  -- A round of the loop behind its chunk, with what the further rounds ensure.
  big_chunk-Ensures :
      (fuel : ℕ) (bytes : Bytes) (start index : ℕ) (positive : Bool) (big : BigInt)
      (r : IntChunk × ℕ)
      → start < index
      → Advances 18 index r
      → ((b : BigInt)
          → r.1 ≡ index + 18
          → r.1 - start ≤ max_digits
          → Ensures (Seen start) (big_loop L fuel bytes start positive b r.1))
      → Ensures (Seen start) (
          if ltb max_digits (r.1 - start)
          then json_err number_out_of_range (start + 4301)
          else elim r.0 as (λ _. Parsed L) [
            | ongoing value ↦
                big_loop L fuel bytes start positive
                  (add_u64 (mul_u64 big ongoing_chunk_multiplier) value)
                  r.1
            | done value ↦ big_done L positive big (get_elem? pow_10 (r.1 - index)) value r.1
            | IntChunk.float ↦ ok (float, r.1)
          ])
  big_chunk-Ensures fuel bytes start index positive big (ongoing v, end) l h k =
      Ensures-test (ltb max_digits (end - start)) (λ _. refuses) (λ e. k _ h (ground arith))
  big_chunk-Ensures fuel bytes start index positive big (done v, end) l h k =
      Ensures-test (ltb max_digits (end - start)) (λ _. refuses)
        (λ e. big_done-Ensures positive big (end - index) v start end (omega arith) (omega arith))
  big_chunk-Ensures fuel bytes start index positive big (IntChunk.float, end) l h k =
      Ensures-test (ltb max_digits (end - start)) (λ _. refuses) (λ e. returns (omega arith))

  big_loop-Ensures :
      (fuel : ℕ) (bytes : Bytes) (start index : ℕ) (positive : Bool) (big : BigInt)
      → start < index
      → index - start ≤ max_digits
      → max_digits < fuel * 18 + (index - start)
      → Ensures (Seen start) (big_loop L fuel bytes start positive big index)
  unfolding big_loop decode_int_chunk_fallback
  big_loop-Ensures zero bytes start index positive big l m f = absurd (omega arith)
  big_loop-Ensures (suc fuel) bytes start index positive big l m f =
      big_chunk-Ensures fuel bytes start index positive big (int_chunk_loop 18 bytes index 0) l
        (int_chunk_loop-Advances 18 bytes index 0)
        λ b e h. big_loop-Ensures fuel bytes start _ positive b (omega arith) h (omega arith)

  small_chunk-Ensures :
      (bytes : Bytes) (start index : ℕ) (positive : Bool) (value : ℕ) (r : IntChunk × ℕ)
      → start < index
      → index ≤ start + 2
      → int_chunk_loop 18 bytes index value ≡ r
      → Advances 18 index r
      → Ensures (Seen start) (after_digit L bytes start positive index value)
  unfolding after_digit decode_int_chunk_fallback
  small_chunk-Ensures bytes start index positive value (ongoing v, end) l m e h =
      rw (ap (λ t. t.0) e, after_digit, ap (λ t. t.1) e)
        (big_loop-Ensures big_rounds bytes start end positive (from_u64 v) (omega arith)
          (omega arith) (omega arith))
  small_chunk-Ensures bytes start index positive value (done v, end) l m e h =
      rw (ap (λ t. t.0) e, after_digit, ap (λ t. t.1) e) (returns (omega arith))
  small_chunk-Ensures bytes start index positive value (IntChunk.float, end) l m e h =
      rw (ap (λ t. t.0) e, after_digit, ap (λ t. t.1) e) (returns (omega arith))

  after_zero-Ensures :
      (start index : ℕ) (o : Option ℕ) → start < index → Ensures (Seen start) (after_zero L o index)
  unfolding after_zero
  after_zero-Ensures start index none l = returns l
  after_zero-Ensures start index (some c) l =
      Ensures-test (c == b'.' || (c == b'e' || c == b'E')) (λ _. returns (omega arith))
        λ _. Ensures-test (is_digit c) (λ _. refuses) (λ _. returns l)

  first_digit-Ensures :
      (bytes : Bytes) (start : ℕ) (positive : Bool) (index : ℕ) (o : Option ℕ)
      → start ≤ index
      → index ≤ start + 1
      → Ensures (Seen start) (first_digit L bytes start positive index o)
  unfolding first_digit
  first_digit-Ensures bytes start positive index none l m = refuses
  first_digit-Ensures bytes start positive index (some c) l m =
      Ensures-test (c == b'0')
        (λ _. after_zero-Ensures start (index + 1) (get_elem? bytes (index + 1)) (omega arith))
        λ _.
          Ensures-test (c == b'I') (λ _. returns l)
            λ _.
              Ensures-test (within b'1' b'9' c)
                (λ _.
                  small_chunk-Ensures bytes start (index + 1) positive (digit_value c) _
                    (omega arith) (omega arith) refl
                    (int_chunk_loop-Advances 18 bytes (index + 1) (digit_value c)))
                (λ _. refuses)

  -- On every input `IntParse::parse` gives an error, an integer with an index behind its start, or a
  -- kind of float with an index no further back. It does not panic: the table of powers has an entry
  -- for every chunk that ends a number. And 300 rounds are enough for its loop over chunks.
  pub parse-Ensures :
      (bytes : Bytes) (index first : ℕ) → Ensures (Seen index) (parse L bytes index first)
  unfolding parse
  parse-Ensures bytes index first =
      Ensures-test (first == b'N') (λ _. returns (omega arith))
        λ _.
          Ensures-test (first == b'-')
            (λ _.
              first_digit-Ensures bytes index false (index + 1) (get_elem? bytes (index + 1))
                (omega arith) (omega arith))
            (λ _.
              first_digit-Ensures bytes index true index (some first) (omega arith) (omega arith))

  only_int-Ensures :
      (start : ℕ) (r : IntParse BigInt × ℕ)
      → Seen start r
      → Ensures (λ n. start < n.1) (only_int L r)
  unfolding only_int
  only_int-Ensures start (int n, index) h = returns h
  only_int-Ensures start (float, index) h = refuses
  only_int-Ensures start (float_inf positive, index) h = refuses
  only_int-Ensures start (float_nan, index) h = refuses

  pub decode_int-Ensures :
      (bytes : Bytes) (index first : ℕ) (allow_inf_nan : Bool)
      → Ensures (λ n. index < n.1) (decode_int L bytes index first allow_inf_nan)
  unfolding decode_int
  decode_int-Ensures bytes index first allow_inf_nan =
      Ensures-next (parse-Ensures bytes index first) (only_int-Ensures index)
