-- ===== src/Strings/Decode/Literal.antt =====
-- String literals as the grammar of JSON has them, and what `StringDecoder` of
-- crates/jiter/src/string_decoder.rs decodes of them.
use jiter.Prelude.{
  ℕ, zero, suc, ◌+◌, ◌<◌, ◌≤◌, ◌≡◌, ◌∙◌, refl, sym, ap, Bool, true, false, ◌&&◌, some, none, [],
  ◌∷◌, ◌++◌, append_assoc, arith, Bytes, length, length-append, length-drop, drop,
}
use jiter.Prelude.Slices.{drop-append, drop-cons, get_elem?-drop_cons, get_range-drop}
use jiter.Errors.{JsonResult, ok, ◌>>=◌}
use jiter.Strings.Chunk.{string_end, backslash_next, decode_chunk, decode_fallback}
use jiter.Strings.Chunk.Laws.{Body, fallback_from-body, chunk_end}
use jiter.Strings.Table.{byte_kind}
use jiter.Strings.Utf8.{encode_utf8, invalid_utf8}
use jiter.Strings.Utf8.Ascii.{all_ascii}
use jiter.Strings.Escape.Bounds.{IsChar}
use jiter.Strings.Escape.Written.{escape_text, parse_escape-escape_text}
use jiter.Strings.Decode.{
  Tape, StringOutput, of_tape, of_data, as_str, at_range, to_str, simple_escape, unescape, tape_end,
  tape_loop, decode_to_tape, decode_first, decode,
}

-- An escape behind its backslash, and the bytes of the character that it stands for.
pub data EscapeText : Bytes → Bytes → Type 0 where
  letter : (c : ℕ) {d : ℕ} → simple_escape c ≡ some d → EscapeText (c ∷ []) (d ∷ [])
  unicode :
      (upper : ℕ → Bool) (n : ℕ)
      → IsChar n
      → EscapeText (b'u' ∷ escape_text upper n) (encode_utf8 n)

-- A literal behind its first quote, and its text: bytes that stand for themselves, and escapes.
pub data LiteralText : Bytes → Bytes → Type 0 where
  plain_end : (b : Bytes) → Body b → LiteralText (b ++ (b'"' ∷ [])) b
  escape_then :
      (b e r : Bytes) {out x : Bytes}
      → Body b
      → EscapeText e out
      → LiteralText r x
      → LiteralText (b ++ (b'\\' ∷ (e ++ r))) (b ++ (out ++ x))

-- How `decode_to_tape` goes on behind an escape.
abbrev continue : ℕ → Bytes → ℕ → Tape → ℕ → Bool → Bool → JsonResult (StringOutput × ℕ)
continue fuel bytes i tape start ascii_only allow_partial =
    decode_chunk bytes i ascii_only allow_partial >>= λ (next, ascii', new_index).
    elim next as (λ _. JsonResult (StringOutput × ℕ)) [
      | string_end ↦ tape_end bytes i tape start ascii' new_index
      | backslash_next ↦ tape_loop fuel bytes new_index tape start i ascii' allow_partial
    ]

module _ (bytes : Bytes) where
  at_range-drop :
      (b : Bytes) (i : ℕ) (rest : Bytes)
      → drop i bytes ≡ b ++ rest
      → i ≤ length bytes
      → at_range bytes i (i + length b) ≡ ok b
  at_range-drop b i rest e l = rw (get_range-drop b i bytes rest e l) refl

  lt_of_append :
      (b : Bytes) (i c : ℕ) (rest : Bytes) → drop i bytes ≡ b ++ (c ∷ rest) → i < length bytes
  lt_of_append b i c rest e =
      omega (arith, ap length e, length-drop i bytes, length-append b (c ∷ rest))

  pub chunk-quote :
      (b : Bytes) (i : ℕ) (rest : Bytes) (ascii_only allow_partial : Bool)
      → Body b
      → drop i bytes ≡ b ++ (b'"' ∷ rest)
      → decode_chunk bytes i ascii_only allow_partial
        ≡ ok (string_end, (ascii_only && all_ascii b), i + length b)
  unfolding decode_fallback chunk_end byte_kind
  chunk-quote b i rest a p h e = rw e (fallback_from-body b (b'"' ∷ rest) i a p h refl)

  pub chunk-backslash :
      (b : Bytes) (i : ℕ) (rest : Bytes) (ascii_only allow_partial : Bool)
      → Body b
      → drop i bytes ≡ b ++ (b'\\' ∷ rest)
      → decode_chunk bytes i ascii_only allow_partial
        ≡ ok (backslash_next, (ascii_only && all_ascii b), i + length b)
  unfolding decode_fallback chunk_end byte_kind
  chunk-backslash b i rest a p h e = rw e (fallback_from-body b (b'\\' ∷ rest) i a p h refl)

  to_str-valid :
      (s : Bytes) (ascii_only : Bool) (start : ℕ)
      → invalid_utf8 s ≡ none
      → to_str s ascii_only start ≡ ok s
  unfolding to_str
  to_str-valid s true start v = refl
  to_str-valid s false start v = rw v refl

  unescape-EscapeText :
      (e out : Bytes) (i : ℕ) (rest : Bytes)
      → EscapeText e out
      → drop i bytes ≡ e ++ rest
      → (keeps : Bool) × (unescape bytes i ≡ ok (out, keeps, i + length e))
  unfolding unescape
  unescape-EscapeText e out i rest (letter c {d} s) h =
      (true, rw (get_elem?-drop_cons i bytes h, s) refl)
  unescape-EscapeText e out i rest (unicode upper n v) h =
      let j : i + length (escape_text upper n) + 1 ≡ i + length (b'u' ∷ escape_text upper n) =
        omega arith in
      (
        false,
        rw
            (
              get_elem?-drop_cons i bytes h,
              parse_escape-escape_text upper n bytes rest i v (drop-cons i bytes h),
            )
            (ap (λ k. ok (encode_utf8 n, false, k)) j),
      )

  -- The last chunk, behind an escape.
  tape_end-quote :
      (b : Bytes) (i : ℕ) (rest : Bytes) (tape : Tape) (start : ℕ) (ascii_only : Bool)
      → drop i bytes ≡ b ++ rest
      → i ≤ length bytes
      → invalid_utf8 (tape ++ b) ≡ none
      → tape_end bytes i tape start ascii_only (i + length b)
        ≡ ok (of_tape (tape ++ b) ascii_only, i + length b + 1)
  unfolding tape_end
  tape_end-quote b i rest tape start ascii_only e l v =
      rw (at_range-drop b i rest e l, to_str-valid (tape ++ b) ascii_only start v) refl

  abbrev Reads : JsonResult (StringOutput × ℕ) → Bytes → ℕ → Type 0
  Reads r x end = (o : StringOutput) × (r ≡ ok (o, end)) × (as_str o ≡ x)

  -- An escape behind the bytes `b` from `chunk_start` on.
  tape_loop-escape :
      (fuel : ℕ) (b e out : Bytes) (chunk_start : ℕ) (rest : Bytes) (tape : Tape) (start : ℕ)
      (ascii_only allow_partial : Bool)
      → EscapeText e out
      → drop chunk_start bytes ≡ b ++ (b'\\' ∷ (e ++ rest))
      → chunk_start ≤ length bytes
      → (flag : Bool) × (tape_loop
            (suc fuel)
            bytes
            (chunk_start + length b)
            tape
            start
            chunk_start
            ascii_only
            allow_partial
          ≡ continue fuel bytes
              (chunk_start + length b + 1 + length e)
              ((tape ++ b) ++ out)
              start
              flag
              allow_partial)
  unfolding tape_loop
  tape_loop-escape fuel b e out chunk_start rest tape start ascii_only p h d le =
      let d' = drop-append b chunk_start bytes d in
      let (keeps, u) =
        unescape-EscapeText e out (chunk_start + length b + 1) rest h
          (drop-cons (chunk_start + length b) bytes d') in
      (ascii_only && keeps, rw (at_range-drop b chunk_start (b'\\' ∷ (e ++ rest)) d le, u) refl)

  continue-LiteralText :
      {s x : Bytes}
      → LiteralText s x
      → (fuel i j : ℕ) (rest : Bytes) (tape : Tape) (start : ℕ) (ascii_only allow_partial : Bool)
      → drop i bytes ≡ s ++ rest
      → length s ≤ fuel
      → j ≡ i + length s
      → invalid_utf8 (tape ++ x) ≡ none
      → Reads (continue fuel bytes i tape start ascii_only allow_partial) (tape ++ x) j
  unfolding as_str
  continue-LiteralText (plain_end b h) fuel i j rest tape start a p e f k v =
      let e' : drop i bytes ≡ b ++ (b'"' ∷ rest) = e ∙ simp append_assoc in
      let l : j ≡ i + length b + 1 = omega (arith, length-append b (b'"' ∷ [])) in
      (
        of_tape (tape ++ b) (a && all_ascii b),
        rw (chunk-quote b i rest a p h e', l)
            (tape_end-quote b i (b'"' ∷ rest) tape start _ e'
              (omega (arith, lt_of_append b i _ _ e')) v),
        refl,
      )
  continue-LiteralText (escape_then b t r {out} {x} h c l) zero i j rest tape start a p e f k v =
      absurd (omega (arith, length-append b (b'\\' ∷ (t ++ r))))
  continue-LiteralText (escape_then b t r {out} {x} h c l) (suc fuel) i j rest tape start a p e f k
        v =
      let e' : drop i bytes ≡ b ++ (b'\\' ∷ (t ++ (r ++ rest))) = e ∙ simp append_assoc in
      let n : length (b ++ (b'\\' ∷ (t ++ r))) ≡ length b + length t + length r + 1 =
        omega (arith, length-append b (b'\\' ∷ (t ++ r)), length-append t r) in
      let i1 = i + length b in
      let joined : tape ++ (b ++ (out ++ x)) ≡ ((tape ++ b) ++ out) ++ x = simp append_assoc in
      let (flag, q) =
        tape_loop-escape fuel b t out i (r ++ rest) tape start (a && all_ascii b) p c e'
          (omega (arith, lt_of_append b i _ _ e')) in
      let behind = drop-append t (i1 + 1) bytes (drop-cons i1 bytes (drop-append b i bytes e')) in
      let (o, z, s) =
        continue-LiteralText l fuel (i1 + 1 + length t) j rest ((tape ++ b) ++ out) start flag p
          behind (omega arith) (omega arith) (rw joined at v) in
      (o, rw (chunk-backslash b i (t ++ (r ++ rest)) a p h e') (q ∙ z), s ∙ sym joined)

  pub decode-LiteralText :
      {s x : Bytes}
      → LiteralText s x
      → (tape : Tape) (i : ℕ) (rest : Bytes) (allow_partial : Bool)
      → drop i bytes ≡ b'"' ∷ (s ++ rest)
      → invalid_utf8 x ≡ none
      → (o : StringOutput) × (decode tape bytes i allow_partial ≡ ok (o, i + 1 + length s))
        × (as_str o ≡ x)
  unfolding decode decode_first decode_to_tape as_str
  decode-LiteralText (plain_end b h) tape i rest p e v =
      let e' : drop (i + 1) bytes ≡ b ++ (b'"' ∷ rest) = drop-cons i bytes e ∙ simp append_assoc in
      let le = lt_of_append b (i + 1) _ _ e' in
      let l : i + 1 + length b + 1 ≡ i + 1 + length (b ++ (b'"' ∷ [])) =
        omega (arith, length-append b (b'"' ∷ [])) in
      (
        of_data b (all_ascii b),
        rw
            (
              chunk-quote b (i + 1) rest true p h e',
              at_range-drop b (i + 1) (b'"' ∷ rest) e' (omega arith),
              to_str-valid b (all_ascii b) (i + 1) v,
            )
            (ap (λ k. ok (of_data b (all_ascii b), k)) l),
        refl,
      )
  decode-LiteralText (escape_then b t r {out} {x} h c l) tape i rest p e v =
      let e' : drop (i + 1) bytes ≡ b ++ (b'\\' ∷ (t ++ (r ++ rest))) =
        drop-cons i bytes e ∙ simp append_assoc in
      let n : length (b ++ (b'\\' ∷ (t ++ r))) ≡ length b + length t + length r + 1 =
        omega (arith, length-append b (b'\\' ∷ (t ++ r)), length-append t r) in
      let le = lt_of_append b (i + 1) _ _ e' in
      let i1 = i + 1 + length b in
      let j = i + 1 + length (b ++ (b'\\' ∷ (t ++ r))) in
      let (flag, q) =
        tape_loop-escape (length bytes) b t out (i + 1) (r ++ rest) [] (i + 1) (all_ascii b) p c e'
          (omega arith) in
      let behind =
        drop-append t (i1 + 1) bytes (drop-cons i1 bytes (drop-append b (i + 1) bytes e')) in
      let fits : length r ≤ length bytes =
        omega
          (arith, ap length behind, length-drop (i1 + 1 + length t) bytes, length-append r rest) in
      let (o, z, s) =
        continue-LiteralText l (length bytes) (i1 + 1 + length t) j rest (b ++ out) (i + 1) flag p
          behind fits (omega arith) (simp append_assoc v) in
      (
        o,
        rw (chunk-backslash b (i + 1) (t ++ (r ++ rest)) true p h e') (q ∙ z),
        s ∙ append_assoc b out x,
      )
