-- ===== src/Value/Consumes.antt =====
-- What `take_value_skip` of crates/jiter/src/value.rs, with its decoders, consumes of the texts of the
-- grammar, beside what `take_value` reads of them.
use jiter.Prelude.{
  ℕ, ◌+◌, ◌≤◌, ◌≡◌, refl, Bool, true, false, [], ◌∷◌, ◌++◌, arith, Bytes, length, drop,
}
use jiter.Errors.{ok, PartialMode, default_recursion_limit}
use jiter.Parse.{pure}
use jiter.Parse.Reads.{at, Behind}
use jiter.Number.Libs.{NumberLibs}
use jiter.Number.Range.Texts.{decode_range-Digits, decode_range-zero, decode_range-FloatText}
use jiter.Number.Range.{NumberRange}
use jiter.Number.Range as Range
use jiter.Number.Float.Texts.{LexicalReads}
use jiter.Strings.Decode as Decode
use jiter.Strings.Decode.RangeLiteral.{decode_range-LiteralText}
use jiter.Value.Data.{JsonValue, null, bool, int, big_int, float, str, array, object}
use jiter.Value.Grammar.{ValueText, depth}
use jiter.Value.NumberTexts.{
  NumberText, int_text, float_text, IntText, zero_text, minus_zero_text, positive_text,
  negative_text, Reads, Behind-IntEnds, NumberText-first, NumberText-count, decode_any-NumberText,
}
use jiter.Value.Accepts.{StringText, decodes, cow_from-as_str, string_from-as_str}
use jiter.Number.Float.{decode_any}
use jiter.Value.Take.Whole.{take_value-Text}
use jiter.Value.Skip.Opens.{SkipDecodes}
use jiter.Value.Skip.Whole.{take_value_skip-Text}
use jiter.Value.Entry.{
  Value, cow_from, string_from, take_value_owned, default_config, take_value_borrowed, skip_value,
}

-- Whether a number is an integer, with no other value being one.
unfoldable pub is_integer : {F B : Type 0} → JsonValue F B → Bool
is_integer (int n) = true
is_integer (big_int n) = true
is_integer (float x) = false
is_integer null = false
is_integer (bool b) = false
is_integer (str s) = false
is_integer (array vs) = false
is_integer (object es) = false

abbrev pub range_of : Bool → ℕ → ℕ → NumberRange
range_of kind from to = record { from = from; to = to; is_int = kind }

module _ {F B : Type 0} where
  decode_range-IntText :
      {c : ℕ} {t : Bytes} {v : JsonValue F B}
      → IntText c t v
      → (bytes : Bytes) (i j : ℕ) (rest : Bytes) (inf_nan : Bool) → drop i bytes ≡ c ∷ (t ++ rest)
      → Behind rest
      → j ≡ i + 1 + length t
      → Range.decode_range bytes i c inf_nan ≡ ok (range_of (is_integer v) i j, j)
  unfolding is_integer
  decode_range-IntText zero_text bytes i j rest inf_nan e b k =
      decode_range-zero bytes true i j rest inf_nan e (Behind-IntEnds rest b) (omega arith)
  decode_range-IntText minus_zero_text bytes i j rest inf_nan e b k =
      decode_range-zero bytes false i j rest inf_nan e (Behind-IntEnds rest b) (omega arith)
  decode_range-IntText (positive_text {c} {ds} h d l) bytes i j rest inf_nan e b k =
      decode_range-Digits bytes true c ds i j rest inf_nan e h d l (Behind-IntEnds rest b)
        (omega arith)
  decode_range-IntText (negative_text {c} {ds} h d l) bytes i j rest inf_nan e b k =
      decode_range-Digits bytes false c ds i j rest inf_nan e h d l (Behind-IntEnds rest b)
        (omega arith)

  ranges :
      (float_value : Bytes → F) {c : ℕ} {t : Bytes} {v : JsonValue F B}
      → NumberText float_value c t v
      → (bytes : Bytes) (i j : ℕ) (rest : Bytes) (inf_nan : Bool) → drop i bytes ≡ c ∷ (t ++ rest)
      → Behind rest
      → j ≡ i + 1 + length t
      → Range.decode_range bytes i c inf_nan ≡ ok (range_of (is_integer v) i j, j)
  unfolding is_integer
  ranges float_value (int_text h) bytes i j rest inf_nan e b k =
      decode_range-IntText h bytes i j rest inf_nan e b k
  ranges float_value (float_text h) bytes i j rest inf_nan e b k =
      decode_range-FloatText bytes h i j rest inf_nan e b k

module _ (L : NumberLibs) (laws : LexicalReads L) where
  -- Where lexical_parse_float reads the floats of JSON: of a number of JSON with at most 18 digits
  -- in front of a point or an exponent, or in all, and behind it whitespace, a comma, a closing
  -- bracket or brace, or nothing, `NumberRange::decode` gives the range to its end, with `is_int`
  -- set for the integers, and `NumberAny::decode` reads its value up to the same index.
  pub decode_range-NumberText :
      {c : ℕ} {t : Bytes} {v : Value L}
      → NumberText laws.float_value c t v
      → (bytes : Bytes) (i : ℕ) (rest : Bytes) (inf_nan : Bool) → drop i bytes ≡ c ∷ (t ++ rest)
      → Behind rest
      → (Range.decode_range bytes i c inf_nan
          ≡ ok (range_of (is_integer v) i (i + 1 + length t), i + 1 + length t))
        × Reads L bytes i c (i + 1 + length t) inf_nan v
  decode_range-NumberText h bytes i rest inf_nan e b = (
    ranges laws.float_value h bytes i _ rest inf_nan e b refl,
    decode_any-NumberText L laws h bytes i rest inf_nan e b,
  )

  abbrev Number : ℕ → Bytes → Value L → Type 0
  Number = NumberText laws.float_value

  skip_decodes :
      (bytes : Bytes) (inf_nan : Bool)
      → SkipDecodes StringText Number Decode.decode_range Range.decode_range inf_nan bytes
  skip_decodes bytes inf_nan = record {
    reads_string = λ s x i rest l e. (_, decode_range-LiteralText bytes l.0 i rest false e);
    number_first = λ c t v h. NumberText-first h;
    number_count = λ c t v h. NumberText-count h;
    reads_number =
        λ c t v i rest h e b. (_, ranges laws.float_value h bytes i _ rest inf_nan e b refl);
  }

  -- A value of the grammar is taken, borrowed or owned, and skipped, up to the same index.
  pub skip_value-Text :
      (inf_nan : Bool) (mode : PartialMode) {c : ℕ} {t : Bytes} {v : Value L}
      → ValueText StringText Number c t v
      → (bytes : Bytes) (i : ℕ) (rest : Bytes) → drop i bytes ≡ c ∷ (t ++ rest)
      → Behind rest
      → depth v ≤ default_recursion_limit
      → (take_value_borrowed L (default_config inf_nan mode) c (at bytes i)
          ≡ pure v (at bytes (i + 1 + length t)))
        × (take_value_owned L (default_config inf_nan mode) c (at bytes i)
            ≡ pure v (at bytes (i + 1 + length t)))
        × (skip_value inf_nan c (at bytes i) ≡ pure tt (at bytes (i + 1 + length t)))
  unfolding skip_value take_value_borrowed take_value_owned
  skip_value-Text inf_nan mode h bytes i rest e b d =
      let config = default_config inf_nan mode in
      (
        take_value-Text StringText Number (Decode.decode []) (decode_any L) cow_from config bytes
            (decodes L laws cow_from bytes inf_nan cow_from-as_str) h i rest e b d,
        take_value-Text StringText Number (Decode.decode []) (decode_any L) string_from config bytes
            (decodes L laws string_from bytes inf_nan string_from-as_str) h i rest e b d,
        take_value_skip-Text StringText Number Decode.decode_range Range.decode_range
            default_recursion_limit inf_nan bytes (skip_decodes bytes inf_nan) (omega arith) h i
            rest e b d,
      )
