-- ===== src/Value/Skip/Opens.antt =====
-- How `take_value_skip` of crates/jiter/src/value.rs begins each text of the grammar.
use jiter.Prelude.{
  ℕ, ◌+◌, ◌≡◌, ◌∙◌, refl, true, false, some, none, Bool, ◌||◌, [], ◌∷◌, ◌++◌, append_assoc, arith,
  Bytes, length, length-append, drop, ◌==◌,
}
use jiter.Prelude.Slices.{drop-append, drop-cons}
use jiter.Errors.{ok}
use jiter.Parse.{
  is_ascii_digit, pure, M, DecodeString, DecodeNumber, consume_string, consume_number, true_rest,
  false_rest, null_rest,
}
use jiter.Parse.Whitespace.{Blank}
use jiter.Parse.Reads.{
  at, Behind, ReadsString, array_first-some, array_first-none, object_first-some, object_first-none,
  drop-colon, peek_some, consume_ident_whole,
}
use jiter.Value.Data.{JsonValue, JsonArray, JsonObject}
use jiter.Value.Grammar.{
  ValueText, ItemsText, EntriesText, null_text, true_text, false_text, string_text, number_text,
  empty_array, array_text, empty_object, object_text, count,
}
use jiter.Value.Grammar.Firsts.{Items-first, Entries-first, count_pos}
use jiter.Value.Skip.{Entered, array_kind, object_kind, skip_open}

-- What `take_value_skip` relies on in its decoders: they read the literals of the grammar to their
-- end.
pub record SkipDecodes {F B S N : Type 0} (IsString : Bytes → Bytes → Type 0)
    (IsNumber : ℕ → Bytes → JsonValue F B → Type 0) (decode_str : DecodeString S)
    (decode_num : DecodeNumber N) (allow_inf_nan : Bool) (bytes : Bytes) : Type 0 where
  pub reads_string :
      (s x : Bytes) (i : ℕ) (rest : Bytes)
      → IsString s x
      → drop i bytes ≡ b'"' ∷ (s ++ rest)
      → (o : S) × ReadsString decode_str bytes i false s o
  pub number_first :
      (c : ℕ) (t : Bytes) (v : JsonValue F B)
      → IsNumber c t v
      → (is_ascii_digit c || c == b'-') ≡ true
  pub number_count : (c : ℕ) (t : Bytes) (v : JsonValue F B) → IsNumber c t v → count v ≡ 1
  pub reads_number :
      (c : ℕ) (t : Bytes) (v : JsonValue F B) (i : ℕ) (rest : Bytes)
      → IsNumber c t v
      → drop i bytes ≡ c ∷ (t ++ rest)
      → Behind rest
      → (n : N) × (decode_num bytes i c allow_inf_nan ≡ ok (n, i + 1 + length t))

module _ {F B S N : Type 0} (IsString : Bytes → Bytes → Type 0)
    (IsNumber : ℕ → Bytes → JsonValue F B → Type 0) (decode_str : DecodeString S)
    (decode_num : DecodeNumber N) (recursion_limit : ℕ) (allow_inf_nan : Bool) (bytes : Bytes)
    (decodes : SkipDecodes IsString IsNumber decode_str decode_num allow_inf_nan bytes) where
  open decodes use {reads_string, number_first, reads_number}

  abbrev pub Open : ℕ → M Entered
  Open = skip_open decode_str decode_num recursion_limit allow_inf_nan

  open-number :
      (c i j : ℕ) (n : N)
      → (is_ascii_digit c || c == b'-') ≡ true
      → decode_num bytes i c allow_inf_nan ≡ ok (n, j)
      → Open c (at bytes i) ≡ pure none (at bytes j)
  unfolding skip_open consume_number
  open-number c i j n h e =
      let not_array : c == b'[' ≡ false = ground arith in
      let not_object : c == b'{' ≡ false = ground arith in
      let not_true : c == b't' ≡ false = ground arith in
      let not_false : c == b'f' ≡ false = ground arith in
      let not_null : c == b'n' ≡ false = ground arith in
      let not_string : c == b'"' ≡ false = ground arith in
      rw (not_array, not_object, not_true, not_false, not_null, not_string, e) refl

  -- A value that is consumed at once.
  pub consumed_of :
      {c : ℕ} {t : Bytes} {v : JsonValue F B}
      → ValueText IsString IsNumber c t v
      → (i j : ℕ) (rest : Bytes) → drop i bytes ≡ c ∷ (t ++ rest)
      → Behind rest
      → j ≡ i + 1 + length t
      → count v ≡ 1
      → Open c (at bytes i) ≡ pure none (at bytes j)
  unfolding skip_open count consume_string
  consumed_of null_text i j rest e b k _ =
      rw (consume_ident_whole bytes i b'n' null_rest rest e, k) refl
  consumed_of true_text i j rest e b k _ =
      rw (consume_ident_whole bytes i b't' true_rest rest e, k) refl
  consumed_of false_text i j rest e b k _ =
      rw (consume_ident_whole bytes i b'f' false_rest rest e, k) refl
  consumed_of (string_text {s} {x} m) i j rest e b k _ =
      let (o, r) = reads_string s x i rest m e in rw (r, k) refl
  consumed_of (number_text {c} {t} {v} m) i j rest e b k _ =
      let (n, r) = reads_number c t v i rest m e b in
      rw k (open-number c i (i + 1 + length t) n (number_first c t v m) r)
  consumed_of (empty_array w bw) i j rest e b k _ =
      let l : j ≡ i + 1 + length w + 1 = omega (arith, length-append w (b']' ∷ [])) in
      rw (array_first-none bytes i w rest (e ∙ simp append_assoc) bw, l) refl
  consumed_of (empty_object w bw) i j rest e b k _ =
      let l : j ≡ i + 1 + length w + 1 = omega (arith, length-append w (b'}' ∷ [])) in
      rw (object_first-none decode_str bytes i w rest (e ∙ simp append_assoc) bw, l) refl
  consumed_of (array_text w t {v} bw items) i j rest e b k one = absurd (omega (arith, count_pos v))
  consumed_of (object_text w s a t' t {v} bw h ba bb entries) i j rest e b k one =
      absurd (omega (arith, count_pos v))

  -- A container that is gone into, at its first value.
  pub array_entered :
      (w t : Bytes) {c : ℕ} {v : JsonValue F B} {vs : JsonArray F B} (i : ℕ) (rest : Bytes)
      → ItemsText IsString IsNumber c t v vs
      → Blank w
      → drop i bytes ≡ b'[' ∷ ((w ++ (c ∷ t)) ++ rest)
      → (Open b'[' (at bytes i) ≡ pure (some (c, array_kind)) (at bytes (i + 1 + length w)))
        × (drop (i + 1 + length w) bytes ≡ c ∷ (t ++ rest))
  unfolding skip_open
  array_entered w t {c} i rest items bw e =
      let e' : drop i bytes ≡ b'[' ∷ (w ++ (c ∷ (t ++ rest))) = e ∙ simp append_assoc in
      let (first, bracket) = Items-first IsString IsNumber number_first items in
      (
        rw (array_first-some bytes i w c (t ++ rest) e' bw first bracket) refl,
        drop-append w (i + 1) bytes (drop-cons i bytes e'),
      )

  pub object_entered :
      (w s a b t : Bytes) {k : Bytes} {c : ℕ} {v : JsonValue F B} {es : JsonObject F B} (i j : ℕ)
      (rest : Bytes)
      → IsString s k
      → EntriesText IsString IsNumber c t v es
      → Blank w
      → Blank a
      → Blank b
      → drop i bytes ≡ b'{' ∷ ((w ++ (b'"' ∷ (s ++ (a ++ (b':' ∷ (b ++ (c ∷ t))))))) ++ rest)
      → j ≡ i + 1 + length w + 1 + length s + length a + 1 + length b
      → (Open b'{' (at bytes i) ≡ pure (some (c, object_kind)) (at bytes j))
        × (drop j bytes ≡ c ∷ (t ++ rest))
  unfolding skip_open
  object_entered w s a b t {k} {c} i j rest h entries bw ba bb e l =
      let tail = b ++ (c ∷ (t ++ rest)) in
      let e' : drop i bytes ≡ b'{' ∷ (w ++ (b'"' ∷ (s ++ (a ++ (b':' ∷ tail))))) =
        e ∙ simp append_assoc in
      let i1 = i + 1 + length w in
      let i2 = i1 + 1 + length s + length a + 1 in
      let quote = drop-append w (i + 1) bytes (drop-cons i bytes e') in
      let (o, r) = reads_string s k i1 (a ++ (b':' ∷ tail)) h quote in
      let behind = drop-colon decode_str bytes i1 s a tail quote in
      let (first, _) = Entries-first IsString IsNumber number_first entries in
      rw l (
        rw
            (
              object_first-some decode_str bytes i w s a tail o r e' bw ba,
              peek_some bytes i2 b c (t ++ rest) behind bb first,
            )
            refl,
        drop-append b i2 bytes behind,
      )
