-- ===== src/Strings/Decode/RangeLiteral.antt =====
-- What `StringDecoderRange` of crates/jiter/src/string_decoder.rs makes of the string literals of JSON.
use jiter.Prelude.{
  ℕ, zero, suc, ◌+◌, ◌<◌, ◌≡◌, ◌∙◌, refl, ap, Bool, true, some, [], ◌∷◌, ◌++◌, append_assoc, arith,
  Bytes, length, length-append, length-drop, drop, ◌==◌, ◌||◌,
}
use jiter.Prelude.Slices.{drop-append, drop-cons, get_elem?-drop_cons}
use jiter.Errors.{ok}
use jiter.Strings.Escape.Written.{parse_escape-escape_text}
use jiter.Strings.Decode.{simple_escape, skip_escape, range_loop, decode_range}
use jiter.Strings.Decode.Literal.{
  EscapeText, letter, unicode, LiteralText, plain_end, escape_then, chunk-quote, chunk-backslash,
}

skips_letter :
    (c d : ℕ)
    → simple_escape c ≡ some d
    → (c == b'"'
        || c == b'\\'
        || c == b'/'
        || c == b'b'
        || c == b'f'
        || c == b'n'
        || c == b'r'
        || c == b't')
      ≡ true
unfolding simple_escape
skips_letter c d h = ground arith

module _ (bytes : Bytes) where
  skip_escape-EscapeText :
      (e out : Bytes) (i : ℕ) (rest : Bytes)
      → EscapeText e out
      → drop i bytes ≡ e ++ rest
      → skip_escape bytes i ≡ ok (i + length e)
  unfolding skip_escape
  skip_escape-EscapeText e out i rest (letter c {d} s) h =
      rw (get_elem?-drop_cons i bytes h, skips_letter c d s) refl
  skip_escape-EscapeText e out i rest (unicode upper n v) h =
      rw
        (
          get_elem?-drop_cons i bytes h,
          parse_escape-escape_text upper n bytes rest i v (drop-cons i bytes h),
        )
        (ap ok (omega arith))

  range_loop-LiteralText :
      {s x : Bytes}
      → LiteralText s x
      → (fuel start i j : ℕ) (rest : Bytes) (allow_partial : Bool) → drop i bytes ≡ s ++ rest
      → length s < fuel
      → j + 1 ≡ i + length s
      → range_loop fuel bytes start i allow_partial ≡ ok (record { from = start; to = j }, j + 1)
  unfolding range_loop
  range_loop-LiteralText l zero start i j rest p e f k = absurd (omega arith)
  range_loop-LiteralText (plain_end b h) (suc fuel) start i j rest p e f k =
      let e' : drop i bytes ≡ b ++ (b'"' ∷ rest) = e ∙ simp append_assoc in
      let l : j ≡ i + length b = omega (arith, length-append b (b'"' ∷ [])) in
      rw (chunk-quote bytes b i rest true p h e', l) refl
  range_loop-LiteralText (escape_then b t r {out} h c l) (suc fuel) start i j rest p e f k =
      let e' : drop i bytes ≡ b ++ (b'\\' ∷ (t ++ (r ++ rest))) = e ∙ simp append_assoc in
      let n : length (b ++ (b'\\' ∷ (t ++ r))) ≡ length b + length t + length r + 1 =
        omega (arith, length-append b (b'\\' ∷ (t ++ r)), length-append t r) in
      let i1 = i + length b in
      let d = drop-cons i1 bytes (drop-append b i bytes e') in
      rw
        (
          chunk-backslash bytes b i (t ++ (r ++ rest)) true p h e',
          skip_escape-EscapeText t out (i1 + 1) (r ++ rest) c d,
        )
        (range_loop-LiteralText l fuel start (i1 + 1 + length t) j rest p
          (drop-append t (i1 + 1) bytes d) (omega arith) (omega arith))

  LiteralText-pos : {s x : Bytes} → LiteralText s x → 0 < length s
  LiteralText-pos (plain_end b h) = omega (arith, length-append b (b'"' ∷ []))
  LiteralText-pos (escape_then b t r h c l) = omega (arith, length-append b (b'\\' ∷ (t ++ r)))

  -- A literal is read to its end, valid UTF-8 or not, and its range has no quotes.
  pub decode_range-LiteralText :
      {s x : Bytes}
      → LiteralText s x
      → (i : ℕ) (rest : Bytes) (allow_partial : Bool) → drop i bytes ≡ b'"' ∷ (s ++ rest)
      → decode_range bytes i allow_partial
        ≡ ok (record { from = i + 1; to = i + length s }, i + 1 + length s)
  unfolding decode_range
  decode_range-LiteralText {s} l i rest p e =
      let z : i + length s + 1 ≡ i + 1 + length s = omega arith in
      range_loop-LiteralText l (suc (length bytes)) (i + 1) (i + 1) (i + length s) rest p
        (drop-cons i bytes e)
        (omega (arith, ap length e, length-drop i bytes, length-append s rest)) (omega arith)
      ∙ ap (λ k. ok (record { from = i + 1; to = i + length s }, k)) z
