-- ===== src/Value/Take/Whole.antt =====
-- `take_value` of crates/jiter/src/value.rs reads every text of the grammar as the value that the
-- text stands for.
use jiter.Prelude.{
  ℕ, ◌+◌, ◌-◌, ◌≤◌, ◌≡◌, ◌∙◌, refl, ap, List, [], ◌∷◌, ◌++◌, arith, Bytes, length, length-append,
  length-drop, drop,
}
use jiter.Parse.{pure, M, DecodeString, DecodeNumber}
use jiter.Parse.Reads.{at, Behind}
use jiter.Number.Float.{NumberAny}
use jiter.Strings.Decode.{StringOutput}
use jiter.Value.Data.{
  JsonValue, array, object, JsonArray, JsonObject, no_value, value_then, no_entry, entry_then,
  RecursedValue,
}
use jiter.Value.Grammar.{
  ValueText, ItemsText, EntriesText, null_text, true_text, false_text, string_text, number_text,
  empty_array, array_text, empty_object, object_text, depth, count, count_items, count_entries,
}
use jiter.Value.Grammar.Lengths.{length-object, count_items-le, count_entries-le}
use jiter.Value.Take.{Config, enter, open_value, pop, take_value}
use jiter.Value.Take.Opens.{Decodes}
use jiter.Value.Take.Joins.{push_all, insert_all, push_all-no_value, insert_all-no_entry}
use jiter.Value.Take.Accepts.{items_lem, entries_lem}
use jiter.Value.Take.Begins.{whole_of, array_enters, object_enters}
use jiter.Value.Take.Advances.{Loop, After}

module _ {F B : Type 0} (IsString : Bytes → Bytes → Type 0)
    (IsNumber : ℕ → Bytes → JsonValue F B → Type 0) (decode_str : DecodeString StringOutput)
    (decode_num : DecodeNumber (NumberAny F B)) (create_cow : StringOutput → Bytes)
    (config : Config) (bytes : Bytes) where
  open config use {recursion_limit, allow_inf_nan}

  abbrev Text : ℕ → Bytes → JsonValue F B → Type 0
  Text = ValueText IsString IsNumber

  abbrev Items : ℕ → Bytes → JsonValue F B → JsonArray F B → Type 0
  Items = ItemsText IsString IsNumber

  abbrev Fields : ℕ → Bytes → JsonValue F B → JsonObject F B → Type 0
  Fields = EntriesText IsString IsNumber

  abbrev Run : ℕ → ℕ → RecursedValue F B → List (RecursedValue F B) → M (JsonValue F B)
  Run = Loop decode_str decode_num create_cow config

  abbrev Next : ℕ → List (RecursedValue F B) → JsonValue F B → M (JsonValue F B)
  Next = After decode_str decode_num create_cow config

  module _
      (decodes : Decodes IsString IsNumber decode_str decode_num create_cow allow_inf_nan
        bytes) where
    open decodes use {reads_string, number_count}

    abbrev Take : ℕ → M (JsonValue F B)
    Take = take_value decode_str decode_num create_cow config

    take-whole :
        {c : ℕ} {t : Bytes} {v : JsonValue F B}
        → Text c t v
        → (i : ℕ) (rest : Bytes) → drop i bytes ≡ c ∷ (t ++ rest)
        → Behind rest
        → count v ≡ 1
        → Take c (at bytes i) ≡ pure v (at bytes (i + 1 + length t))
    unfolding take_value
    take-whole {t} h i rest e b one =
        rw
          (whole_of IsString IsNumber decode_str decode_num create_cow config bytes decodes h i
            (i + 1 + length t) rest e b refl one)
          refl

    take-enter :
        (c d i k : ℕ) (r : RecursedValue F B)
        → open_value decode_str decode_num create_cow config c (at bytes i)
          ≡ pure (enter d r) (at bytes k)
        → Take c (at bytes i) ≡ Run (length bytes + 2) d r [] (at bytes k)
    unfolding take_value
    take-enter c d i k r e = rw e refl

    ended : (fuel i : ℕ) (v : JsonValue F B) → Next fuel [] v (at bytes i) ≡ pure v (at bytes i)
    unfolding pop
    ended fuel i v = refl

    bound :
        (c i n : ℕ) (t rest : Bytes)
        → drop i bytes ≡ c ∷ (t ++ rest)
        → n ≤ length t + 1
        → length bytes + 2 ≡ n + (length bytes + 2 - n)
    bound c i n t rest e l = omega (arith, ap length e, length-drop i bytes, length-append t rest)

    -- The value of a text of the grammar, whatever stands behind it.
    pub take_value-Text :
        {c : ℕ} {t : Bytes} {v : JsonValue F B}
        → Text c t v
        → (i : ℕ) (rest : Bytes) → drop i bytes ≡ c ∷ (t ++ rest)
        → Behind rest
        → depth v ≤ recursion_limit
        → Take c (at bytes i) ≡ pure v (at bytes (i + 1 + length t))
    unfolding count depth push_all insert_all
    take_value-Text null_text i rest e b d = take-whole null_text i rest e b refl
    take_value-Text true_text i rest e b d = take-whole true_text i rest e b refl
    take_value-Text false_text i rest e b d = take-whole false_text i rest e b refl
    take_value-Text (string_text h) i rest e b d = take-whole (string_text h) i rest e b refl
    take_value-Text (number_text {c} {t} {v} h) i rest e b d =
        take-whole (number_text h) i rest e b (number_count c t v h)
    take_value-Text (empty_array w bw) i rest e b d = take-whole (empty_array w bw) i rest e b refl
    take_value-Text (empty_object w bw) i rest e b d =
        take-whole (empty_object w bw) i rest e b refl
    take_value-Text (array_text w t {c} {v} {vs} bw items) i rest e b d =
        let k = i + 1 + length w in
        let n : ℕ = count_items (value_then v vs) in
        let j = i + 1 + length (w ++ (c ∷ t)) in
        let (o, e') =
          array_enters IsString IsNumber decode_str decode_num create_cow config bytes decodes w t i
            rest items bw e in
        take-enter _ c i k _ o
        ∙ items_lem IsString IsNumber decode_str decode_num create_cow config bytes decodes items
            (length bytes + 2) (length bytes + 2 - n) k j rest no_value []
            (bound c k n t rest e' (count_items-le IsString IsNumber number_count items)) e'
            (omega (arith, length-append w (c ∷ t))) (omega arith)
        ∙ ended _ j _
        ∙ ap (λ y. pure (array y) (at bytes j)) (push_all-no_value _)
    take_value-Text (object_text w s a b t {k = key} {c} {v} {es} bw h ba bb entries) i rest e bh
          d =
        let k = i + 1 + length w + 1 + length s + length a + 1 + length b in
        let n : ℕ = count_entries (entry_then key v es) in
        let j = i + 1 + length (w ++ (b'"' ∷ (s ++ (a ++ (b':' ∷ (b ++ (c ∷ t))))))) in
        let (o, e') =
          object_enters IsString IsNumber decode_str decode_num create_cow config bytes decodes w s
            a b t i k rest h entries bw ba bb e refl in
        take-enter _ c i k _ o
        ∙ entries_lem IsString IsNumber decode_str decode_num create_cow config bytes decodes
            entries (length bytes + 2) (length bytes + 2 - n) k j rest key no_entry []
            (bound c k n t rest e' (count_entries-le IsString IsNumber number_count entries)) e'
            (omega (arith, length-object w s a b t c)) (omega arith)
        ∙ ended _ j _
        ∙ ap (λ y. pure (object y) (at bytes j)) (insert_all-no_entry _)
