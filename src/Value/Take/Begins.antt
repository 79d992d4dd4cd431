-- ===== src/Value/Take/Begins.antt =====
-- How `take_value` of crates/jiter/src/value.rs begins each text of the grammar.
use jiter.Prelude.{
  ℕ, ◌+◌, ◌≡◌, ◌∙◌, false, [], ◌∷◌, ◌++◌, append_assoc, arith, Bytes, length, length-append, drop,
}
use jiter.Prelude.Slices.{drop-append, drop-cons}
use jiter.Parse.{pure, DecodeString, DecodeNumber}
use jiter.Errors.{allow_trailing_str}
use jiter.Parse.Whitespace.{Blank}
use jiter.Parse.Reads.{at, Behind, drop-colon}
use jiter.Number.Float.{NumberAny}
use jiter.Strings.Decode.{StringOutput}
use jiter.Value.Data.{JsonValue, JsonArray, JsonObject, no_value, no_entry, in_array, in_object}
use jiter.Value.Grammar.{
  ValueText, ItemsText, EntriesText, null_text, true_text, false_text, string_text, number_text,
  empty_array, array_text, empty_object, object_text, count,
}
use jiter.Value.Grammar.Firsts.{Items-first, Entries-first, count_pos}
use jiter.Value.Take.{Config, enter, whole, open_value}
use jiter.Value.Take.Opens.{
  Decodes, open_value-null, open_value-true, open_value-false, open_value-string, open_value-number,
  open_value-array, open_value-empty_array, open_value-object, open_value-empty_object,
}

module _ {F B : Type 0} (IsString : Bytes → Bytes → Type 0)
    (IsNumber : ℕ → Bytes → JsonValue F B → Type 0) (decode_str : DecodeString StringOutput)
    (decode_num : DecodeNumber (NumberAny F B)) (create_cow : StringOutput → Bytes)
    (config : Config) (bytes : Bytes) where
  open config use {allow_inf_nan, allow_partial}

  abbrev pub Text : ℕ → Bytes → JsonValue F B → Type 0
  Text = ValueText IsString IsNumber

  abbrev pub Items : ℕ → Bytes → JsonValue F B → JsonArray F B → Type 0
  Items = ItemsText IsString IsNumber

  abbrev pub Fields : ℕ → Bytes → JsonValue F B → JsonObject F B → Type 0
  Fields = EntriesText IsString IsNumber

  module _
      (decodes : Decodes IsString IsNumber decode_str decode_num create_cow allow_inf_nan
        bytes) where
    open decodes use {reads_string, number_first, reads_number}

    -- A value that is read at once.
    pub whole_of :
        {c : ℕ} {t : Bytes} {v : JsonValue F B}
        → Text c t v
        → (i j : ℕ) (rest : Bytes) → drop i bytes ≡ c ∷ (t ++ rest)
        → Behind rest
        → j ≡ i + 1 + length t
        → count v ≡ 1
        → open_value decode_str decode_num create_cow config c (at bytes i)
          ≡ pure (whole v) (at bytes j)
    unfolding count
    whole_of null_text i j rest e b k _ =
        rw k (open_value-null decode_str decode_num create_cow config bytes i rest e)
    whole_of true_text i j rest e b k _ =
        rw k (open_value-true decode_str decode_num create_cow config bytes i rest e)
    whole_of false_text i j rest e b k _ =
        rw k (open_value-false decode_str decode_num create_cow config bytes i rest e)
    whole_of (string_text {s} {x} m) i j rest e b k _ =
        let (o, r, q) = reads_string s x i rest (allow_trailing_str allow_partial) m e in
        rw (k, ← q) (open_value-string decode_str decode_num create_cow config bytes i s o r)
    whole_of (number_text {c} {t} {v} m) i j rest e b k _ =
        let (a, q, r) = reads_number c t v i rest m e b in
        rw (k, ← q)
          (open_value-number decode_str decode_num create_cow config bytes c i (i + 1 + length t) a
            (number_first c t v m) r)
    whole_of (empty_array w bw) i j rest e b k _ =
        let l : j ≡ i + 1 + length w + 1 = omega (arith, length-append w (b']' ∷ [])) in
        rw l (
          open_value-empty_array decode_str decode_num create_cow config bytes i w rest
            (e ∙ simp append_assoc) bw)
    whole_of (empty_object w bw) i j rest e b k _ =
        let l : j ≡ i + 1 + length w + 1 = omega (arith, length-append w (b'}' ∷ [])) in
        rw l (
          open_value-empty_object decode_str decode_num create_cow config bytes i w rest
            (e ∙ simp append_assoc) bw)
    whole_of (array_text w t {v} bw items) i j rest e b k one = absurd (omega (arith, count_pos v))
    whole_of (object_text w s a t' t {v} bw h ba bb entries) i j rest e b k one =
        absurd (omega (arith, count_pos v))

    -- A container that is entered, at its first value.
    pub array_enters :
        (w t : Bytes) {c : ℕ} {v : JsonValue F B} {vs : JsonArray F B} (i : ℕ) (rest : Bytes)
        → Items c t v vs
        → Blank w
        → drop i bytes ≡ b'[' ∷ ((w ++ (c ∷ t)) ++ rest)
        → (open_value decode_str decode_num create_cow config b'[' (at bytes i)
            ≡ pure (enter c (in_array no_value)) (at bytes (i + 1 + length w)))
          × (drop (i + 1 + length w) bytes ≡ c ∷ (t ++ rest))
    array_enters w t {c} i rest items bw e =
        let e' : drop i bytes ≡ b'[' ∷ (w ++ (c ∷ (t ++ rest))) = e ∙ simp append_assoc in
        let (first, bracket) = Items-first IsString IsNumber number_first items in
        (
          open_value-array decode_str decode_num create_cow config bytes i w c (t ++ rest) e' bw
              first bracket,
          drop-append w (i + 1) bytes (drop-cons i bytes e'),
        )

    pub object_enters :
        (w s a b t : Bytes) {k : Bytes} {c : ℕ} {v : JsonValue F B} {es : JsonObject F B} (i j : ℕ)
        (rest : Bytes)
        → IsString s k
        → Fields c t v es
        → Blank w
        → Blank a
        → Blank b
        → drop i bytes ≡ b'{' ∷ ((w ++ (b'"' ∷ (s ++ (a ++ (b':' ∷ (b ++ (c ∷ t))))))) ++ rest)
        → j ≡ i + 1 + length w + 1 + length s + length a + 1 + length b
        → (open_value decode_str decode_num create_cow config b'{' (at bytes i)
            ≡ pure (enter c (in_object no_entry k)) (at bytes j))
          × (drop j bytes ≡ c ∷ (t ++ rest))
    object_enters w s a b t {k} {c} i j rest h entries bw ba bb e l =
        let tail = b ++ (c ∷ (t ++ rest)) in
        let e' : drop i bytes ≡ b'{' ∷ (w ++ (b'"' ∷ (s ++ (a ++ (b':' ∷ tail))))) =
          e ∙ simp append_assoc in
        let i1 = i + 1 + length w in
        let i2 = i1 + 1 + length s + length a + 1 in
        let quote = drop-append w (i + 1) bytes (drop-cons i bytes e') in
        let (o, r, q) = reads_string s k i1 (a ++ (b':' ∷ tail)) false h quote in
        let behind = drop-colon decode_str bytes i1 s a tail quote in
        rw (l, ← q)
          (
            open_value-object decode_str decode_num create_cow config bytes i w s a b c (t ++ rest)
                o r e' bw ba bb (Entries-first IsString IsNumber number_first entries).0,
            drop-append b i2 bytes behind,
          )
