-- ===== src/Strings/Decode/Sound.antt =====
-- What `StringDecoder` of crates/jiter/src/string_decoder.rs returns is valid UTF-8, also where it
-- is not checked, and its index lies in the data.
use jiter.Prelude.{
  ℕ, zero, suc, ◌+◌, ◌≤◌, ◌<◌, ◌≡◌, refl, Bool, true, false, ◌&&◌, Option, some, none, [], ◌∷◌,
  ◌++◌, arith, Bytes, length, drop, get_elem?, ltb, ◌==◌, Option-cases, inl, inr, length-append,
}
use jiter.Prelude.Slices.{get_range, get_range-drop, length_of_drop, lt_of_drop, drop-append}
use jiter.Errors.Ensures.{Ensures, returns, refuses, Ensures-weaken, Ensures-next, Ensures-test}
use jiter.Strings.Chunk.{StringChunk, string_end, backslash_next}
use jiter.Strings.Chunk.Laws.{IsChunk, decode_fallback-IsChunk, ChunkStop}
use jiter.Strings.Escape.Bounds.{parse_escape-Ensures}
use jiter.Strings.Utf8.{invalid_utf8}
use jiter.Strings.Utf8.Ascii.{all_ascii, invalid_utf8-ascii, all_ascii-append}
use jiter.Strings.Decode.{
  StringOutput, as_str, ascii_only_of, to_str, simple_escape, escape_letter, unescape, tape_end,
  tape_loop, decode_first, decode,
}

pub get_elem?-lt :
    (bytes : Bytes) (index : ℕ) {c : ℕ} → get_elem? bytes index ≡ some c → index < length bytes
get_elem?-lt [] index h = cc
get_elem?-lt (c ∷ cs) zero h = omega arith
get_elem?-lt (c ∷ cs) (suc index) h = omega (arith, get_elem?-lt cs index h)

simple_escape-ascii : (c : ℕ) {d : ℕ} → simple_escape c ≡ some d → ltb d 128 ≡ true
unfolding simple_escape
simple_escape-ascii c h = ground arith

-- What an escape pushes is ASCII where it leaves the flag alone, and the index behind it is in the
-- data.
abbrev EscapeOk : Bytes → ℕ → Bytes × Bool × ℕ → Type 0
EscapeOk bytes index r = (r.1 ≡ true → all_ascii r.0 ≡ true) × (index < r.2) × (r.2 ≤ length bytes)

escape_letter-Ensures :
    (bytes : Bytes) (index c : ℕ) (o : Option ℕ)
    → index < length bytes
    → simple_escape c ≡ o
    → Ensures (EscapeOk bytes index) (escape_letter bytes index c o)
unfolding all_ascii
escape_letter-Ensures bytes index c (some d) h e =
    returns ((λ _. rw (simple_escape-ascii c e)), omega arith, omega arith)
escape_letter-Ensures bytes index c none h e =
    Ensures-test (c == b'u')
      (λ _.
        Ensures-next (parse_escape-Ensures bytes index)
          λ r p. returns ((λ f. cc), omega arith, omega arith))
      (λ _. refuses)

unescape-Ensures :
    (bytes : Bytes) (index : ℕ) → Ensures (EscapeOk bytes index) (unescape bytes index)
unfolding unescape
unescape-Ensures bytes index = elim (Option-cases (get_elem? bytes index)) [
  | inl e ↦ rw e refuses
  | inr (c, e) ↦
      rw e (escape_letter-Ensures bytes index c (simple_escape c) (get_elem?-lt bytes index e) refl)
]

abbrev Valid : Bytes → Type 0
Valid s = invalid_utf8 s ≡ none

to_str-Ensures :
    (bytes : Bytes) (ascii_only : Bool) (start : ℕ)
    → (ascii_only ≡ true → all_ascii bytes ≡ true)
    → Ensures (λ s. (s ≡ bytes) × Valid s) (to_str bytes ascii_only start)
unfolding to_str
to_str-Ensures bytes true start h = returns (refl, invalid_utf8-ascii bytes (h refl))
to_str-Ensures bytes false start h = elim (Option-cases (invalid_utf8 bytes)) [
  | inl e ↦ rw e (returns (refl, e))
  | inr (n, e) ↦ rw e refuses
]

-- A chunk of bytes in the data: its slice, its end and its flag.
module _ {bytes : Bytes} {index end : ℕ} {ascii_only allow_partial flag : Bool} {next : StringChunk}
    (le : index ≤ length bytes)
    (c : IsChunk bytes index ascii_only allow_partial next flag end) where
  chunk-get_range : get_range bytes index end ≡ some c.body
  chunk-get_range = rw (c.end_is) (get_range-drop c.body index bytes c.rest c.splits le)

  pub chunk-end : (index ≤ end) × (end ≤ length bytes)
  chunk-end = omega (
    arith,
    c.end_is,
    length_of_drop index bytes (c.body ++ c.rest) c.splits le,
    length-append c.body c.rest,
  )

  chunk-flag : flag ≡ true → (ascii_only ≡ true) × (all_ascii c.body ≡ true)
  chunk-flag h = ground (arith, c.flag_is)

pub backslash_inside :
    (bytes : Bytes) (end : ℕ) (allow_partial : Bool) (rest : Bytes)
    → drop end bytes ≡ rest
    → ChunkStop backslash_next allow_partial rest
    → end < length bytes
backslash_inside bytes end allow_partial [] e s = absurd s
backslash_inside bytes end allow_partial (c ∷ cs) e s = lt_of_drop end bytes e

pub drop-chunk :
    {bytes : Bytes} {index end : ℕ} {ascii_only allow_partial flag : Bool} {next : StringChunk}
    (c : IsChunk bytes index ascii_only allow_partial next flag end)
    → drop end bytes ≡ c.rest
drop-chunk {bytes} {index} c = rw (c.end_is) (drop-append c.body index bytes c.splits)

-- A decoded string: valid UTF-8, with the index behind its quote, and ASCII where it is flagged so.
abbrev pub IsDecoded : Bytes → ℕ → StringOutput × ℕ → Type 0
IsDecoded bytes index r =
    (invalid_utf8 (as_str r.0) ≡ none)
    × (index < r.1)
    × (r.1 ≤ length bytes + 1)
    × (ascii_only_of r.0 ≡ true → all_ascii (as_str r.0) ≡ true)

tape_end-Ensures :
    (bytes : Bytes) (index : ℕ) (tape chunk : Bytes) (start : ℕ) (ascii_only : Bool) (new_index : ℕ)
    → get_range bytes index new_index ≡ some chunk
    → (ascii_only ≡ true → all_ascii (tape ++ chunk) ≡ true)
    → index ≤ new_index
    → new_index ≤ length bytes
    → Ensures (IsDecoded bytes index) (tape_end bytes index tape start ascii_only new_index)
unfolding tape_end as_str ascii_only_of
tape_end-Ensures bytes index tape chunk start ascii_only new_index g f h k = rw g (
    Ensures-next (to_str-Ensures (tape ++ chunk) ascii_only start f)
      λ s v. returns (v.1, omega arith, omega arith, λ e. rw (v.0) (f e)))

and_true : (a b : Bool) → (a && b) ≡ true → (a ≡ true) × (b ≡ true)
and_true a b h = ground arith

append_ascii :
    (xs ys : Bytes) → all_ascii xs ≡ true → all_ascii ys ≡ true → all_ascii (xs ++ ys) ≡ true
append_ascii xs ys h k = rw (all_ascii-append xs ys, h, k)

-- One round of the loop behind its escape: the chunk that follows and what is done with it.
module _ (bytes : Bytes) (start : ℕ) (allow_partial : Bool) (fuel lo : ℕ)
    (again : (index : ℕ) (tape : Bytes) (chunk_start : ℕ) (ascii_only : Bool) (chunk : Bytes)
      → get_range bytes chunk_start index ≡ some chunk
      → (ascii_only ≡ true → all_ascii (tape ++ chunk) ≡ true)
      → index < length bytes
      → lo < index
      → Ensures
          (IsDecoded bytes lo)
          (tape_loop fuel bytes index tape start chunk_start ascii_only allow_partial)) where
  round-Ensures :
      (index : ℕ) (tape : Bytes) (ascii_only : Bool) (next : StringChunk) (flag : Bool)
      (new_index : ℕ)
      → (ascii_only ≡ true → all_ascii tape ≡ true)
      → lo < index
      → index ≤ length bytes
      → IsChunk bytes index ascii_only allow_partial next flag new_index
      → Ensures (IsDecoded bytes lo) (elim next [
        | string_end ↦ tape_end bytes index tape start flag new_index
        | backslash_next ↦ tape_loop fuel bytes new_index tape start index flag allow_partial
      ])
  round-Ensures index tape ascii_only string_end flag new_index f l h c =
      let (a, b) = chunk-end h c in
      Ensures-weaken
        (tape_end-Ensures bytes index tape c.body start flag new_index (chunk-get_range h c)
          (λ e. let (x, y) = chunk-flag h c e in append_ascii tape c.body (f x) y) a b)
        λ r d. (d.0, omega arith, d.2, d.3)
  round-Ensures index tape ascii_only backslash_next flag new_index f l h c =
      let (a, b) = chunk-end h c in
      again new_index tape index flag c.body (chunk-get_range h c)
        (λ e. let (x, y) = chunk-flag h c e in append_ascii tape c.body (f x) y)
        (backslash_inside bytes new_index allow_partial c.rest (drop-chunk c) c.stop) (omega arith)

tape_loop-Ensures :
    (fuel : ℕ) (bytes : Bytes) (start : ℕ) (allow_partial : Bool) (lo index : ℕ) (tape : Bytes)
    (chunk_start : ℕ) (ascii_only : Bool) (chunk : Bytes)
    → length bytes < fuel + index
    → get_range bytes chunk_start index ≡ some chunk
    → (ascii_only ≡ true → all_ascii (tape ++ chunk) ≡ true)
    → index < length bytes
    → lo < index
    → Ensures
        (IsDecoded bytes lo)
        (tape_loop fuel bytes index tape start chunk_start ascii_only allow_partial)
unfolding tape_loop
tape_loop-Ensures zero bytes start partial lo index tape chunk_start ascii chunk m g f h l =
    absurd (omega arith)
tape_loop-Ensures (suc fuel) bytes start partial lo index tape chunk_start ascii chunk m g f h l =
    rw g (
      Ensures-next (unescape-Ensures bytes (index + 1)) λ (pushed, keeps, index') e.
        Ensures-next (decode_fallback-IsChunk bytes index' (ascii && keeps) partial)
          λ (next, flag, new_index) c.
            Ensures-weaken
              (round-Ensures bytes start partial fuel index
                (λ i t s a k g' f' h' l'.
                  tape_loop-Ensures fuel bytes start partial index i t s a k (omega arith) g' f' h'
                    l')
                index' ((tape ++ chunk) ++ pushed) (ascii && keeps) next flag new_index
                (λ q.
                  let (x, y) = and_true ascii keeps q in
                  append_ascii (tape ++ chunk) pushed (f x) (e.0 y))
                (omega arith) e.2 c)
              λ r d. (d.0, omega arith, d.2, d.3))

decode_first-Ensures :
    (bytes : Bytes) (index : ℕ) (tape : Bytes) (allow_partial : Bool)
    → index < length bytes
    → (next : StringChunk) (flag : Bool) (end : ℕ)
    → IsChunk bytes (index + 1) true allow_partial next flag end
    → Ensures
        (IsDecoded bytes index)
        (decode_first bytes (index + 1) tape allow_partial (next, flag, end))
unfolding decode_first as_str ascii_only_of
decode_first-Ensures bytes index tape allow_partial h string_end flag end c =
    let le : index + 1 ≤ length bytes = omega arith in
    let (a, b) = chunk-end le c in
    rw (chunk-get_range le c) (
      Ensures-next (to_str-Ensures c.body flag (index + 1) λ e. (chunk-flag le c e).1)
        λ s v. returns (v.1, omega arith, omega arith, λ e. rw (v.0) ((chunk-flag le c e).1)))
decode_first-Ensures bytes index tape allow_partial h backslash_next flag end c =
    let le : index + 1 ≤ length bytes = omega arith in
    let (a, b) = chunk-end le c in
    tape_loop-Ensures (suc (length bytes)) bytes (index + 1) allow_partial index end [] (index + 1)
      flag c.body (omega arith) (chunk-get_range le c) (λ e. (chunk-flag le c e).1)
      (backslash_inside bytes end allow_partial c.rest (drop-chunk c) c.stop) (omega arith)

-- On every input, with or without partial mode, `StringDecoder::decode` at a byte of the data returns
-- an error, or valid UTF-8 with an index behind that byte and at most one past the data. It neither
-- panics nor runs out of fuel. So the bytes that `from_utf8_unchecked` takes unchecked are valid. And
-- a string that is flagged as ASCII is ASCII, in all its chunks and escapes.
pub decode-IsDecoded :
    (tape bytes : Bytes) (index : ℕ) (allow_partial : Bool)
    → index < length bytes
    → Ensures (IsDecoded bytes index) (decode tape bytes index allow_partial)
unfolding decode
decode-IsDecoded tape bytes index allow_partial h =
    Ensures-next (decode_fallback-IsChunk bytes (index + 1) true allow_partial)
      λ (next, flag, end) c. decode_first-Ensures bytes index tape allow_partial h next flag end c
