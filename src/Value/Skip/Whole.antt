-- ===== src/Value/Skip/Whole.antt =====
-- `take_value_skip` of crates/jiter/src/value.rs on the texts of the grammar: it consumes each of them
-- to its end.
use jiter.Prelude.{
  ℕ, ◌+◌, ◌-◌, ◌≤◌, ◌≡◌, ◌∙◌, refl, ap, some, Bool, List, [], ◌∷◌, ◌++◌, arith, Bytes, length,
  length-append, length-drop, drop,
}
use jiter.Parse.{pure, M, DecodeString, DecodeNumber}
use jiter.Parse.Reads.{at, Behind}
use jiter.Value.Data.{JsonValue, JsonArray, JsonObject, value_then, entry_then}
use jiter.Value.Grammar.{
  ValueText, ItemsText, EntriesText, null_text, true_text, false_text, string_text, number_text,
  empty_array, array_text, empty_object, object_text, depth, count, count_items, count_entries,
}
use jiter.Value.Grammar.Lengths.{length-object, count_items-le, count_entries-le}
use jiter.Value.Skip.{stack_bits, skip_open, skip_loop, take_value_skip}
use jiter.Value.Skip.Opens.{SkipDecodes, consumed_of, array_entered, object_entered}
use jiter.Value.Skip.Accepts.{items_lem, entries_lem}
use jiter.Value.Skip.Advances.{After}

module _ {F B S N : Type 0} (IsString : Bytes → Bytes → Type 0)
    (IsNumber : ℕ → Bytes → JsonValue F B → Type 0) (decode_str : DecodeString S)
    (decode_num : DecodeNumber N) (recursion_limit : ℕ) (allow_inf_nan : Bool) (bytes : Bytes)
    (decodes : SkipDecodes IsString IsNumber decode_str decode_num allow_inf_nan bytes)
    (bits : recursion_limit ≤ stack_bits) where
  open decodes use {reads_string, number_first, number_count}

  abbrev Text : ℕ → Bytes → JsonValue F B → Type 0
  Text = ValueText IsString IsNumber

  abbrev Items : ℕ → Bytes → JsonValue F B → JsonArray F B → Type 0
  Items = ItemsText IsString IsNumber

  abbrev Fields : ℕ → Bytes → JsonValue F B → JsonObject F B → Type 0
  Fields = EntriesText IsString IsNumber

  abbrev Run : ℕ → ℕ → Bool → List Bool → M (Unit {0})
  Run = skip_loop decode_str decode_num recursion_limit allow_inf_nan

  abbrev Next : ℕ → List Bool → M (Unit {0})
  Next = After decode_str decode_num recursion_limit allow_inf_nan

  abbrev Skip : ℕ → M (Unit {0})
  Skip = take_value_skip decode_str decode_num recursion_limit allow_inf_nan

  skip-consumed :
      {c : ℕ} {t : Bytes} {v : JsonValue F B}
      → Text c t v
      → (i : ℕ) (rest : Bytes) → drop i bytes ≡ c ∷ (t ++ rest)
      → Behind rest
      → count v ≡ 1
      → Skip c (at bytes i) ≡ pure tt (at bytes (i + 1 + length t))
  unfolding take_value_skip
  skip-consumed {t} h i rest e b one =
      rw
        (consumed_of IsString IsNumber decode_str decode_num recursion_limit allow_inf_nan bytes
          decodes h i (i + 1 + length t) rest e b refl one)
        refl

  skip-entered :
      (c d i k : ℕ) (kind : Bool)
      → skip_open decode_str decode_num recursion_limit allow_inf_nan c (at bytes i)
        ≡ pure (some (d, kind)) (at bytes k)
      → Skip c (at bytes i) ≡ Run (length bytes + 2) d kind [] (at bytes k)
  unfolding take_value_skip
  skip-entered c d i k kind e = rw e refl

  ended : (fuel i : ℕ) → Next fuel [] (at bytes i) ≡ pure tt (at bytes i)
  unfolding After
  ended fuel i = refl

  bound :
      (c i n : ℕ) (t rest : Bytes)
      → drop i bytes ≡ c ∷ (t ++ rest)
      → n ≤ length t + 1
      → length bytes + 2 ≡ n + (length bytes + 2 - n)
  bound c i n t rest e l = omega (arith, ap length e, length-drop i bytes, length-append t rest)

  -- The value of a text of the grammar is consumed, whatever stands behind it.
  pub take_value_skip-Text :
      {c : ℕ} {t : Bytes} {v : JsonValue F B}
      → Text c t v
      → (i : ℕ) (rest : Bytes) → drop i bytes ≡ c ∷ (t ++ rest)
      → Behind rest
      → depth v ≤ recursion_limit
      → Skip c (at bytes i) ≡ pure tt (at bytes (i + 1 + length t))
  unfolding count depth
  take_value_skip-Text null_text i rest e b d = skip-consumed null_text i rest e b refl
  take_value_skip-Text true_text i rest e b d = skip-consumed true_text i rest e b refl
  take_value_skip-Text false_text i rest e b d = skip-consumed false_text i rest e b refl
  take_value_skip-Text (string_text h) i rest e b d = skip-consumed (string_text h) i rest e b refl
  take_value_skip-Text (number_text {c} {t} {v} h) i rest e b d =
      skip-consumed (number_text h) i rest e b (number_count c t v h)
  take_value_skip-Text (empty_array w bw) i rest e b d =
      skip-consumed (empty_array w bw) i rest e b refl
  take_value_skip-Text (empty_object w bw) i rest e b d =
      skip-consumed (empty_object w bw) i rest e b refl
  take_value_skip-Text (array_text w t {c} {v} {vs} bw items) i rest e b d =
      let k = i + 1 + length w in
      let n : ℕ = count_items (value_then v vs) in
      let j = i + 1 + length (w ++ (c ∷ t)) in
      let (o, e') =
        array_entered IsString IsNumber decode_str decode_num recursion_limit allow_inf_nan bytes
          decodes w t i rest items bw e in
      skip-entered _ c i k _ o
      ∙ items_lem IsString IsNumber decode_str decode_num recursion_limit allow_inf_nan bytes
          decodes bits items (length bytes + 2) (length bytes + 2 - n) k j rest []
          (bound c k n t rest e' (count_items-le IsString IsNumber number_count items)) e'
          (omega (arith, length-append w (c ∷ t))) (omega arith)
      ∙ ended _ j
  take_value_skip-Text (object_text w s a b t {k = key} {c} {v} {es} bw h ba bb entries) i rest e bh
        d =
      let k = i + 1 + length w + 1 + length s + length a + 1 + length b in
      let n : ℕ = count_entries (entry_then key v es) in
      let j = i + 1 + length (w ++ (b'"' ∷ (s ++ (a ++ (b':' ∷ (b ++ (c ∷ t))))))) in
      let (o, e') =
        object_entered IsString IsNumber decode_str decode_num recursion_limit allow_inf_nan bytes
          decodes w s a b t i k rest h entries bw ba bb e refl in
      skip-entered _ c i k _ o
      ∙ entries_lem IsString IsNumber decode_str decode_num recursion_limit allow_inf_nan bytes
          decodes bits entries (length bytes + 2) (length bytes + 2 - n) k j rest key []
          (bound c k n t rest e' (count_entries-le IsString IsNumber number_count entries)) e'
          (omega (arith, length-object w s a b t c)) (omega arith)
      ∙ ended _ j
