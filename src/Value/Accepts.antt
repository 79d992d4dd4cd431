-- ===== src/Value/Accepts.antt =====
-- The entry points of crates/jiter/src/value.rs on the texts of the grammar, with its decoders.
use jiter.Prelude.{
  ℕ, ◌+◌, ◌≤◌, ◌≡◌, ◌∙◌, refl, none, [], ◌∷◌, ◌++◌, arith, Bytes, Bool, length, drop, Bool-cases,
  inl, inr,
}
use jiter.Prelude.Slices.{drop-append, drop-cons}
use jiter.Errors.{ok, PartialMode, is_active, default_recursion_limit}
use jiter.Parse.{new, peek, finish, pure, ◌>>=◌}
use jiter.Parse.Whitespace.{Blank}
use jiter.Parse.Reads.{ReadsString, at, Behind, peek_some, finish_whole}
use jiter.Number.Libs.{NumberLibs}
use jiter.Number.Float.Texts.{LexicalReads}
use jiter.Number.Float.{decode_any}
use jiter.Strings.Utf8.{invalid_utf8}
use jiter.Strings.Decode.{StringOutput, of_tape, of_data, as_str, decode}
use jiter.Strings.Decode.Literal.{LiteralText, decode-LiteralText}
use jiter.Value.Data.{JsonValue}
use jiter.Value.Grammar.{ValueText, depth}
use jiter.Value.Take.{take_value}
use jiter.Value.Take.Opens.{Decodes}
use jiter.Value.Grammar.Firsts.{Text-first}
use jiter.Value.Take.Whole.{take_value-Text}
use jiter.Value.Entry.{
  Value, cow_from, string_from, default_config, take_value_borrowed, take_value_owned,
  parse_with_config, parse_owned,
}
use jiter.Value.NumberTexts.{NumberText, NumberText-first, NumberText-count, decode_any-NumberText}

-- A literal whose text is valid UTF-8.
abbrev pub StringText : Bytes → Bytes → Type 0
StringText s x = LiteralText s x × (invalid_utf8 x ≡ none)

pub cow_from-as_str : (o : StringOutput) → cow_from o ≡ as_str o
unfolding cow_from as_str
cow_from-as_str (of_tape s ascii) = refl
cow_from-as_str (of_data s ascii) = refl

pub string_from-as_str : (o : StringOutput) → string_from o ≡ as_str o
unfolding string_from as_str
string_from-as_str (of_tape s ascii) = refl
string_from-as_str (of_data s ascii) = refl

-- A text of JSON: a value between whitespace.
pub data JsonText {F B : Type 0} (float_value : Bytes → F) : Bytes → JsonValue F B → Type 0 where
  json_text :
      (w t x : Bytes) {c : ℕ} {v : JsonValue F B}
      → Blank w
      → ValueText StringText (NumberText float_value) c t v
      → Blank x
      → JsonText float_value (w ++ (c ∷ (t ++ x))) v

Blank-Behind : (x : Bytes) → Blank x → Behind x
Blank-Behind [] b = tt
Blank-Behind (c ∷ cs) (h, b) = ground arith

pub reads_literal :
    (create_cow : StringOutput → Bytes) (bytes s x : Bytes) (i : ℕ) (rest : Bytes) (partial : Bool)
    → ((o : StringOutput) → create_cow o ≡ as_str o)
    → StringText s x
    → drop i bytes ≡ b'"' ∷ (s ++ rest)
    → (o : StringOutput) × ReadsString (decode []) bytes i partial s o × (create_cow o ≡ x)
reads_literal create_cow bytes s x i rest partial same l e =
    let (o, r, q) = decode-LiteralText bytes l.0 [] i rest partial e l.1 in (o, r, same o ∙ q)

module _ (L : NumberLibs) (laws : LexicalReads L) where
  abbrev Number : ℕ → Bytes → Value L → Type 0
  Number = NumberText laws.float_value

  pub decodes :
      (create_cow : StringOutput → Bytes) (bytes : Bytes) (inf_nan : Bool)
      → ((o : StringOutput) → create_cow o ≡ as_str o)
      → Decodes StringText Number (decode []) (decode_any L) create_cow inf_nan bytes
  decodes create_cow bytes inf_nan same = record {
    reads_string =
        λ s x i rest partial l e. reads_literal create_cow bytes s x i rest partial same l e;
    number_first = λ c t v h. NumberText-first h;
    number_count = λ c t v h. NumberText-count h;
    reads_number = λ c t v i rest h e b. decode_any-NumberText L laws h bytes i rest inf_nan e b;
  }

  taken :
      (create_cow : StringOutput → Bytes) (w t x : Bytes) (inf_nan : Bool) (mode : PartialMode)
      {c : ℕ} {v : Value L}
      → ((o : StringOutput) → create_cow o ≡ as_str o)
      → Blank w
      → ValueText StringText Number c t v
      → Blank x
      → depth v ≤ default_recursion_limit
      → (peek >>= take_value (decode []) (decode_any L) create_cow (default_config inf_nan mode))
          (new (w ++ (c ∷ (t ++ x))))
        ≡ pure v (at (w ++ (c ∷ (t ++ x))) (0 + length w + 1 + length t))
  taken create_cow w t x inf_nan mode {c} same bw h bx d =
      let text = w ++ (c ∷ (t ++ x)) in
      let config = default_config inf_nan mode in
      let reads = decodes create_cow text inf_nan same in
      let (first, _) = Text-first StringText Number (λ d u y n. NumberText-first n) h in
      rw (peek_some text 0 w c (t ++ x) refl bw first) (
        take_value-Text StringText Number (decode []) (decode_any L) create_cow config text reads h
          (0 + length w) x (drop-append w 0 text refl) (Blank-Behind x bx) d)

  finish-whole :
      (w t x : Bytes) (c : ℕ) {A : Type 0} (v : A)
      → Blank x
      → ((finish >>= λ u. pure v) (at (w ++ (c ∷ (t ++ x))) (0 + length w + 1 + length t))).0 ≡ ok v
  finish-whole w t x c v bx =
      let text = w ++ (c ∷ (t ++ x)) in
      let behind =
        drop-append t (0 + length w + 1) text
          (drop-cons (0 + length w) text (drop-append w 0 text refl)) in
      rw (finish_whole text (0 + length w + 1 + length t) x behind bx) refl

  -- Where lexical_parse_float reads the floats of JSON, `parse_with_config`, in every mode, and
  -- `parse_owned` read a text of JSON as the value that the grammar gives it, if in its numbers at
  -- most 18 digits stand in front of a point or an exponent, or in all, its `\u` escapes, in
  -- capitals or not, stand for characters, alone or as surrogate pairs, its strings are valid UTF-8
  -- and its containers are nested at most 200 deep.
  pub parse_with_config-JsonText :
      (inf_nan : Bool) (mode : PartialMode) {text : Bytes} {v : Value L}
      → JsonText laws.float_value text v
      → depth v ≤ default_recursion_limit
      → ((parse_with_config L text inf_nan mode).0 ≡ ok v)
        × ((parse_owned L text inf_nan mode).0 ≡ ok v)
  unfolding parse_with_config parse_owned take_value_borrowed take_value_owned
  parse_with_config-JsonText inf_nan mode (json_text w t x {c} {v} bw h bx) d = (
    rw (taken cow_from w t x inf_nan mode cow_from-as_str bw h bx d)
        (elim (Bool-cases (is_active mode)) [
          | inl active ↦ rw active refl
          | inr whole ↦ rw whole (finish-whole w t x c v bx)
        ]),
    rw (taken string_from w t x inf_nan mode string_from-as_str bw h bx d)
        (finish-whole w t x c v bx),
  )
