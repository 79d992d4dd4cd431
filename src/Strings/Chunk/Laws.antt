-- ===== src/Strings/Chunk/Laws.antt =====
-- How far `decode_fallback` reads, and what its ASCII flag says of the bytes read.
use jiter.Prelude.{
  ℕ, ◌+◌, ◌≡◌, refl, ap, Bool, true, false, ◌&&◌, [], ◌∷◌, ◌++◌, arith, Bytes, length, drop, All,
  ◌==◌, ==_iff, Bool-cases, if◌then◌else◌, inl, inr,
}
use jiter.Errors.{ok, json_err, control_character_while_parsing_string, eof_while_parsing_string}
use jiter.Errors.Ensures.{Ensures, returns, refuses}
use jiter.Strings.Table.{ByteKind, plain, high, table_kind, byte_kind, table_kind-byte_kind}
use jiter.Strings.Utf8.Ascii.{all_ascii}
use jiter.Strings.Chunk.{
  StringChunk, string_end, backslash_next, ChunkResult, fallback_from, decode_fallback,
}

-- A byte that a string holds as it is.
abbrev pub is_body : ByteKind → Bool
is_body plain = true
is_body high = true
is_body _ = false

abbrev pub Body : Bytes → Type 0
Body = All (λ c. is_body (byte_kind c) ≡ true)

-- How a chunk ends before the bytes `rest`, at `index`.
unfoldable pub chunk_end : Bytes → ℕ → Bool → Bool → ChunkResult
chunk_end [] index ascii_only allow_partial =
    if allow_partial
    then ok (string_end, ascii_only, index)
    else json_err eof_while_parsing_string index
chunk_end (c ∷ cs) index ascii_only allow_partial =
    if c == b'"'
    then ok (string_end, ascii_only, index)
    else if c == b'\\'
    then ok (backslash_next, ascii_only, index)
    else json_err control_character_while_parsing_string index

-- The bytes start with none that a string holds as it is.
abbrev pub BodyEnds : Bytes → Type 0
BodyEnds [] = Unit
BodyEnds (c ∷ cs) = is_body (byte_kind c) ≡ false

pub fallback_from-body :
    (body rest : Bytes) (index : ℕ) (ascii_only allow_partial : Bool)
    → Body body
    → BodyEnds rest
    → fallback_from (body ++ rest) index ascii_only allow_partial
      ≡ chunk_end rest (index + length body) (ascii_only && all_ascii body) allow_partial
unfolding fallback_from chunk_end all_ascii table_kind byte_kind
fallback_from-body [] [] index ascii_only allow_partial b s = ground arith
fallback_from-body [] (c ∷ rest) index ascii_only allow_partial b s =
    ground (arith, table_kind-byte_kind c)
fallback_from-body (c ∷ body) rest index ascii_only allow_partial (h, b) s = ground (
  arith,
  table_kind-byte_kind c,
  fallback_from-body body rest (index + 1) ascii_only allow_partial b s,
  fallback_from-body body rest (index + 1) false allow_partial b s,
)

-- A body followed by a quote, a backslash, a control character or the end of the data.
record Split (cs : Bytes) : Type 0 where
  pub body : Bytes
  pub rest : Bytes
  pub splits : cs ≡ body ++ rest
  pub is_body : Body body
  pub ends : BodyEnds rest

split : (cs : Bytes) → Split cs
split [] = record { body = []; rest = []; splits = refl; is_body = tt; ends = tt }
split (c ∷ cs) =
    let s = split cs in
    elim (Bool-cases (is_body (byte_kind c))) [
      | inl h ↦ record {
        body = c ∷ s.body;
        rest = s.rest;
        splits = ap (◌∷◌ c) s.splits;
        is_body = (h, s.is_body);
        ends = s.ends;
      }
      | inr h ↦ record { body = []; rest = c ∷ cs; splits = refl; is_body = tt; ends = h }
    ]

-- What stands where a chunk ends.
abbrev pub ChunkStop : StringChunk → Bool → Bytes → Type 0
ChunkStop string_end allow_partial [] = allow_partial ≡ true
ChunkStop string_end allow_partial (c ∷ cs) = c ≡ b'"'
ChunkStop backslash_next allow_partial [] = ⊥
ChunkStop backslash_next allow_partial (c ∷ cs) = c ≡ b'\\'

-- A chunk: the bytes that a string holds as they are, up to a quote, a backslash, or the end of the
-- data in partial mode. The flag says whether it was set before and all these bytes are ASCII.
pub record IsChunk (bytes : Bytes) (index : ℕ) (ascii_only allow_partial : Bool)
    (next : StringChunk) (flag : Bool) (end : ℕ) : Type 0 where
  pub body : Bytes
  pub rest : Bytes
  pub splits : drop index bytes ≡ body ++ rest
  pub is_body : Body body
  pub end_is : end ≡ index + length body
  pub flag_is : flag ≡ (ascii_only && all_ascii body)
  pub stop : ChunkStop next allow_partial rest

chunk_end-Ensures :
    (P : StringChunk × Bool × ℕ → Type 0) (rest : Bytes) (index : ℕ) (a allow_partial : Bool)
    → ((next : StringChunk) → ChunkStop next allow_partial rest → P (next, a, index))
    → Ensures P (chunk_end rest index a allow_partial)
unfolding chunk_end
chunk_end-Ensures P [] index a true k = returns (k string_end refl)
chunk_end-Ensures P [] index a false k = refuses
chunk_end-Ensures P (c ∷ cs) index a allow_partial k = elim (Bool-cases (c == b'"')) [
  | inl q ↦ rw q (returns (k string_end ((==_iff c _).0 q)))
  | inr q ↦ rw q (elim (Bool-cases (c == b'\\')) [
    | inl b ↦ rw b (returns (k backslash_next ((==_iff c _).0 b)))
    | inr b ↦ rw b refuses
  ])
]

-- On every input `decode_fallback` returns a chunk, or an error, and never panics.
pub decode_fallback-IsChunk :
    (bytes : Bytes) (index : ℕ) (ascii_only allow_partial : Bool)
    → Ensures
        (λ r. IsChunk bytes index ascii_only allow_partial r.0 r.1 r.2)
        (decode_fallback bytes index ascii_only allow_partial)
unfolding decode_fallback
decode_fallback-IsChunk bytes index ascii_only allow_partial =
    let s = split (drop index bytes) in
    rw (s.splits, fallback_from-body s.body s.rest index ascii_only allow_partial s.is_body s.ends)
      (chunk_end-Ensures _ s.rest _ _ allow_partial λ next stop. record {
        body = s.body;
        rest = s.rest;
        splits = s.splits;
        is_body = s.is_body;
        end_is = refl;
        flag_is = refl;
        stop = stop;
      })
