-- ===== src/Parse/Reads.antt =====
-- What the tokens of crates/jiter/src/parse.rs do on a text that is written as JSON has it: between
-- the brackets, the commas and the colons stands whitespace.
use jiter.Prelude.{
  ℕ, ◌+◌, ◌≡◌, ◌∙◌, refl, sym, append-nil, true, false, ◌||◌, none, some, [], ◌∷◌, ◌++◌, arith,
  Bytes, Bool, length, drop, ◌==◌,
}
use jiter.Prelude.Slices.{drop-append, drop-cons, lt_of_drop}
use jiter.Errors.{ok}
use jiter.Parse.{
  Parser, is_whitespace, pure, peek, array_first, array_step, array_peek, finish, DecodeString,
  object_key, object_first, object_step, consume_ident,
}
use jiter.Parse.Whitespace.{Blank, on_next-some, eat_whitespace-Blank}
use jiter.Parse.Ident.{read_ident, consume_ident_at-read_ident}

-- What stands behind a value: nothing, whitespace, or a comma or bracket.
abbrev pub Behind : Bytes → Type 0
Behind [] = Unit
Behind (c ∷ cs) = (is_whitespace c || c == b',' || c == b']' || c == b'}') ≡ true

pub Behind-Blank :
    (ws : Bytes) (c : ℕ) (cs : Bytes) → Blank ws → Behind (c ∷ cs) → Behind (ws ++ (c ∷ cs))
Behind-Blank [] c cs b h = h
Behind-Blank (w ∷ ws) c cs (b, bs) h = ground arith

read_ident-append :
    (expected rest : Bytes) (index : ℕ)
    → read_ident expected (expected ++ rest) index ≡ ok (index + length expected)
unfolding read_ident
read_ident-append [] rest index = ground arith
read_ident-append (c ∷ expected) rest index =
    ground (arith, read_ident-append expected rest (index + 1))

module _ (bytes : Bytes) where
  abbrev pub at : ℕ → Parser
  at i = record { bytes = bytes; index = i }

  pub peek_some :
      (i : ℕ) (ws : Bytes) (c : ℕ) (rest : Bytes)
      → drop i bytes ≡ ws ++ (c ∷ rest)
      → Blank ws
      → is_whitespace c ≡ false
      → peek (at i) ≡ pure c (at (i + length ws))
  unfolding peek
  peek_some i ws c rest e b s = on_next-some _ _ (at i) ws c rest e b s

  pub array_first-some :
      (i : ℕ) (ws : Bytes) (c : ℕ) (rest : Bytes)
      → drop i bytes ≡ b'[' ∷ (ws ++ (c ∷ rest))
      → Blank ws
      → is_whitespace c ≡ false
      → c == b']' ≡ false
      → array_first (at i) ≡ pure (some c) (at (i + 1 + length ws))
  unfolding array_first
  array_first-some i ws c rest e b s n =
      on_next-some _ _ (at (i + 1)) ws c rest (drop-cons i bytes e) b s ∙ rw n refl

  pub array_first-none :
      (i : ℕ) (ws rest : Bytes)
      → drop i bytes ≡ b'[' ∷ (ws ++ (b']' ∷ rest))
      → Blank ws
      → array_first (at i) ≡ pure none (at (i + 1 + length ws + 1))
  unfolding array_first is_whitespace
  array_first-none i ws rest e b =
      on_next-some _ _ (at (i + 1)) ws b']' rest (drop-cons i bytes e) b refl

  pub array_step-some :
      (i : ℕ) (ws ws' : Bytes) (c : ℕ) (rest : Bytes)
      → drop i bytes ≡ ws ++ (b',' ∷ (ws' ++ (c ∷ rest)))
      → Blank ws
      → Blank ws'
      → is_whitespace c ≡ false
      → c == b']' ≡ false
      → array_step (at i) ≡ pure (some c) (at (i + length ws + 1 + length ws'))
  unfolding array_step is_whitespace array_peek
  array_step-some i ws ws' c rest e b b' s n =
      on_next-some _ _ (at i) ws b',' (ws' ++ (c ∷ rest)) e b refl
      ∙ rw
          (on_next-some _ _ (at (i + length ws + 1)) ws' c rest
            (drop-cons (i + length ws) bytes (drop-append ws i bytes e)) b' s)
          (rw n refl)

  pub array_step-none :
      (i : ℕ) (ws rest : Bytes)
      → drop i bytes ≡ ws ++ (b']' ∷ rest)
      → Blank ws
      → array_step (at i) ≡ pure none (at (i + length ws + 1))
  unfolding array_step is_whitespace
  array_step-none i ws rest e b = on_next-some _ _ (at i) ws b']' rest e b refl

  pub finish_whole :
      (i : ℕ) (ws : Bytes)
      → drop i bytes ≡ ws
      → Blank ws
      → finish (at i) ≡ pure tt (at (i + length ws))
  unfolding finish
  finish_whole i ws e b = rw (eat_whitespace-Blank (at i) ws [] (e ∙ sym (append-nil ws)) b tt) refl

  -- An ident behind its first byte.
  pub consume_ident_whole :
      (i c : ℕ) (expected rest : Bytes)
      → drop i bytes ≡ c ∷ (expected ++ rest)
      → consume_ident expected (at i) ≡ pure tt (at (i + 1 + length expected))
  unfolding consume_ident
  consume_ident_whole i c expected rest e =
      rw
        (
          consume_ident_at-read_ident bytes i expected (lt_of_drop i bytes e),
          drop-cons i bytes e,
          read_ident-append expected rest (i + 1),
        )
        refl

module _ {O : Type 0} (decode : DecodeString O) (bytes : Bytes) where
  -- What a literal behind its first quote is read as.
  abbrev pub ReadsString : ℕ → Bool → Bytes → O → Type 0
  ReadsString i partial s o = decode bytes i partial ≡ ok (o, i + 1 + length s)

  -- A key from its quote on, up to the value behind its colon.
  abbrev pub key_text : Bytes → Bytes → Bytes → Bytes → Bytes
  key_text s a b rest = b'"' ∷ (s ++ (a ++ (b':' ∷ (b ++ rest))))

  abbrev pub colon_at : ℕ → Bytes → Bytes → Parser
  colon_at i s a = at bytes (i + 1 + length s + length a + 1)

  object_key_whole :
      (i : ℕ) (s a rest : Bytes) (o : O)
      → ReadsString i false s o
      → drop i bytes ≡ b'"' ∷ (s ++ (a ++ (b':' ∷ rest)))
      → Blank a
      → object_key decode (at bytes i) ≡ pure o (colon_at i s a)
  unfolding object_key is_whitespace
  object_key_whole i s a rest o r e h =
      rw (r, object_key)
        (on_next-some _ _ (at bytes (i + 1 + length s)) a b':' rest
          (drop-append s (i + 1) bytes (drop-cons i bytes e)) h refl)

  pub drop-colon :
      (i : ℕ) (s a rest : Bytes)
      → drop i bytes ≡ b'"' ∷ (s ++ (a ++ (b':' ∷ rest)))
      → drop (i + 1 + length s + length a + 1) bytes ≡ rest
  drop-colon i s a rest e =
      drop-cons (i + 1 + length s + length a) bytes
        (drop-append a (i + 1 + length s) bytes (drop-append s (i + 1) bytes (drop-cons i bytes e)))

  pub object_first-some :
      (i : ℕ) (ws s a rest : Bytes) (o : O)
      → ReadsString (i + 1 + length ws) false s o
      → drop i bytes ≡ b'{' ∷ (ws ++ (b'"' ∷ (s ++ (a ++ (b':' ∷ rest)))))
      → Blank ws
      → Blank a
      → object_first decode (at bytes i) ≡ pure (some o) (colon_at (i + 1 + length ws) s a)
  unfolding object_first is_whitespace
  object_first-some i ws s a rest o r e b h =
      let e1 = drop-cons i bytes e in
      on_next-some _ _ (at bytes (i + 1)) ws b'"' _ e1 b refl
      ∙ rw (object_key_whole (i + 1 + length ws) s a rest o r (drop-append ws (i + 1) bytes e1) h)
          refl

  pub object_first-none :
      (i : ℕ) (ws rest : Bytes)
      → drop i bytes ≡ b'{' ∷ (ws ++ (b'}' ∷ rest))
      → Blank ws
      → object_first decode (at bytes i) ≡ pure none (at bytes (i + 1 + length ws + 1))
  unfolding object_first is_whitespace
  object_first-none i ws rest e b =
      on_next-some _ _ (at bytes (i + 1)) ws b'}' rest (drop-cons i bytes e) b refl

  pub object_step-some :
      (i : ℕ) (w x s a rest : Bytes) (o : O)
      → ReadsString (i + length w + 1 + length x) false s o
      → drop i bytes ≡ w ++ (b',' ∷ (x ++ (b'"' ∷ (s ++ (a ++ (b':' ∷ rest))))))
      → Blank w
      → Blank x
      → Blank a
      → object_step decode (at bytes i) ≡ pure (some o) (colon_at (i + length w + 1 + length x) s a)
  unfolding object_step is_whitespace
  object_step-some i w x s a rest o r e b b' h =
      let e1 = drop-cons (i + length w) bytes (drop-append w i bytes e) in
      on_next-some _ _ (at bytes i) w b',' _ e b refl
      ∙ on_next-some _ _ (at bytes (i + length w + 1)) x b'"' _ e1 b' refl
      ∙ rw
          (object_key_whole (i + length w + 1 + length x) s a rest o r
            (drop-append x (i + length w + 1) bytes e1) h)
          refl

  pub object_step-none :
      (i : ℕ) (w rest : Bytes)
      → drop i bytes ≡ w ++ (b'}' ∷ rest)
      → Blank w
      → object_step decode (at bytes i) ≡ pure none (at bytes (i + length w + 1))
  unfolding object_step is_whitespace
  object_step-none i w rest e b = on_next-some _ _ (at bytes i) w b'}' rest e b refl
