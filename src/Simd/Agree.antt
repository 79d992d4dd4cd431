-- ===== src/Simd/Agree.antt =====
-- `decode_string_chunk` of crates/jiter/src/simd_aarch64.rs against `decode_fallback` of
-- crates/jiter/src/string_decoder.rs.
use jiter.Prelude.{
  ℕ, zero, suc, ◌+◌, ◌-◌, ◌≤◌, ◌<◌, ◌≡◌, refl, sym, ap, ◌∙◌, Bool, true, false, some, none, [], ◌∷◌,
  ◌++◌, Bytes, arith, length, take, drop, take-append-drop, some-injective, Bool-cases,
  Option-cases, inl, inr, ◌⊎◌,
}
use jiter.Prelude.Slices.{
  get_range, get_range-bounds, drop-append, drop-cons, lt_of_drop, slice, get_range-some,
}
use jiter.Strings.Table.{json_ascii}
use jiter.Strings.Chunk.{ChunkResult, fallback_from, decode_fallback}
use jiter.Simd.{
  simd_step, string_ascii_mask, is_zero, decode_array, array_decoded, string_chunk_loop,
  decode_string_chunk,
}
use jiter.Simd.Mask.{all_plain, is_zero-mask}

-- Plain characters are passed over.
fallback_from-plain :
    (cs rest : Bytes) (index : ℕ) (ascii_only allow_partial : Bool)
    → all_plain cs ≡ true
    → fallback_from (cs ++ rest) index ascii_only allow_partial
      ≡ fallback_from rest (index + length cs) ascii_only allow_partial
unfolding all_plain fallback_from
fallback_from-plain [] rest index ascii_only allow_partial h =
    let i : index + 0 ≡ index = omega arith in rw i refl
fallback_from-plain (c ∷ cs) rest index ascii_only allow_partial h =
    elim (Bool-cases (json_ascii c)) [
      | inl e ↦
          let i : index + 1 + length cs ≡ index + suc (length cs) = omega arith in
          rw (e, fallback_from)
            (fallback_from-plain cs rest (index + 1) ascii_only allow_partial (rw e at h)
              ∙ ap (λ k. fallback_from rest k ascii_only allow_partial) i)
      | inr e ↦ absurd (ground arith)
    ]

-- What the loop does behind an array comes to what the scan does from the index that is left.
abbrev Resumes : Bytes → (ℕ → ChunkResult) → ℕ → Bool → Type 0
Resumes bytes go lo allow_partial =
    (done : ℕ)
    → lo < done
    → done ≤ length bytes
    → go done ≡ fallback_from (drop done bytes) done false allow_partial

decode_array-lem :
    (cs rest bytes : Bytes) (go : ℕ → ChunkResult) (lo index : ℕ) (ascii_only allow_partial : Bool)
    → all_plain cs ≡ false
    → drop index bytes ≡ cs ++ rest
    → lo ≤ index
    → Resumes bytes go lo allow_partial
    → array_decoded go (decode_array cs index ascii_only)
      ≡ fallback_from (cs ++ rest) index ascii_only allow_partial
unfolding all_plain decode_array array_decoded fallback_from
decode_array-lem [] rest bytes go lo index ascii_only allow_partial h d l k = absurd (ground arith)
decode_array-lem (c ∷ cs) rest bytes go lo index ascii_only allow_partial h d l k =
    let d' : drop (index + 1) bytes ≡ cs ++ rest = drop-cons index bytes d in
    elim (Bool-cases (json_ascii c)) [
      | inl e ↦
          rw (e, fallback_from)
            (decode_array-lem cs rest bytes go lo (index + 1) ascii_only allow_partial (rw e at h)
              d' (omega arith) k)
      | inr e ↦
          let go_on : go (index + 1) ≡ fallback_from (cs ++ rest) (index + 1) false allow_partial =
            rw d' at (k (index + 1) (omega arith) (omega (arith, lt_of_drop index bytes d))) in
          ground (arith, go_on)
    ]

-- The bytes that `get` of a range finds stand in front of what is behind it.
chunk-splits :
    (bytes chunk : Bytes) (index : ℕ)
    → get_range bytes index (index + simd_step) ≡ some chunk
    → (drop index bytes ≡ chunk ++ drop (index + simd_step) bytes)
      × (length chunk ≡ 16)
      × (index + simd_step ≤ length bytes)
chunk-splits bytes chunk index e =
    let (u, v, n) = get_range-bounds bytes index (index + simd_step) e in
    let k : index + simd_step - index ≡ 16 = omega arith in
    let same : slice bytes index (index + simd_step) ≡ chunk =
      some-injective (sym (get_range-some bytes index (index + simd_step) u v) ∙ e) in
    let front : take 16 (drop index bytes) ≡ chunk = rw k at same in
    let behind = drop 16 (drop index bytes) in
    let d : drop index bytes ≡ chunk ++ behind =
      sym (take-append-drop 16 (drop index bytes)) ∙ ap (λ t. t ++ behind) front in
    let m : length chunk ≡ 16 = n ∙ k in
    let after : drop (index + simd_step) bytes ≡ behind =
      ap (λ j. drop (index + j) bytes) (sym m) ∙ drop-append chunk index bytes d in
    (d ∙ ap (λ t. chunk ++ t) (sym after), m, v)

string_chunk_loop-lem :
    (fuel : ℕ) (bytes : Bytes) (index : ℕ) (ascii_only allow_partial : Bool)
    → index ≤ length bytes
    → length bytes < fuel + index
    → string_chunk_loop fuel bytes index ascii_only allow_partial
      ≡ fallback_from (drop index bytes) index ascii_only allow_partial
unfolding string_chunk_loop decode_fallback
string_chunk_loop-lem zero bytes index ascii_only allow_partial l f = absurd (omega arith)
string_chunk_loop-lem (suc fuel) bytes index ascii_only allow_partial l f =
    elim (Option-cases (get_range bytes index (index + simd_step))) [
      | inl e ↦ rw (e, string_chunk_loop) refl
      | inr (chunk, e) ↦
          let (d, n, b) = chunk-splits bytes chunk index e in
          elim (Bool-cases (is_zero (string_ascii_mask chunk))) [
            | inl z ↦
                let plain : all_plain chunk ≡ true = sym (is_zero-mask chunk n) ∙ z in
                let i : index + length chunk ≡ index + simd_step = omega arith in
                rw (e, string_chunk_loop, z, d)
                  (string_chunk_loop-lem fuel bytes (index + simd_step) ascii_only allow_partial b
                      (omega arith)
                    ∙ sym (
                        fallback_from-plain chunk (drop (index + simd_step) bytes) index ascii_only
                          allow_partial plain
                        ∙ ap
                            (λ j.
                              fallback_from (drop (index + simd_step) bytes) j ascii_only
                                allow_partial)
                            i))
            | inr z ↦
                rw (e, string_chunk_loop, z, d)
                  (decode_array-lem chunk (drop (index + simd_step) bytes) bytes _ index index
                    ascii_only allow_partial (sym (is_zero-mask chunk n) ∙ z) d (omega arith)
                    λ done lo le.
                      string_chunk_loop-lem fuel bytes done false allow_partial le (omega arith))
          ]
    ]

outside :
    (bytes : Bytes) (index : ℕ)
    → length bytes < index
    → get_range bytes index (index + simd_step) ≡ none
outside bytes index h = ground arith

within-or-past : (a b : ℕ) → (a ≤ b) ⊎ (b < a)
within-or-past a b = omega arith

-- On every input, and with or without partial mode, the vectorised scan for the end of a chunk gives
-- what the scan byte by byte gives: the same chunk, flag and index, or the same error. It does not come
-- to the `unreachable!` behind an array, and a round for each byte is enough.
pub decode_string_chunk-decode_fallback :
    (bytes : Bytes) (index : ℕ) (ascii_only allow_partial : Bool)
    → decode_string_chunk bytes index ascii_only allow_partial
      ≡ decode_fallback bytes index ascii_only allow_partial
unfolding decode_string_chunk decode_fallback string_chunk_loop
decode_string_chunk-decode_fallback bytes index ascii_only allow_partial =
    elim (within-or-past index (length bytes)) [
      | inl h ↦
          string_chunk_loop-lem (suc (length bytes)) bytes index ascii_only allow_partial h
            (omega arith)
      | inr h ↦ rw (outside bytes index h, string_chunk_loop) refl
    ]
