-- ===== src/Value/Grammar/Firsts.antt =====
-- The first bytes of the texts of the grammar.
use jiter.Prelude.{ℕ, ◌<◌, ◌≡◌, refl, false, true, arith, Bytes, ◌==◌, ◌||◌}
use jiter.Parse.{is_whitespace, is_ascii_digit}
use jiter.Value.Data.{
  JsonValue, str, array, object, JsonArray, JsonObject, null, bool, int, big_int, float,
}
use jiter.Value.Grammar.{
  ValueText, ItemsText, EntriesText, null_text, true_text, false_text, string_text, number_text,
  empty_array, array_text, empty_object, object_text, last_item, next_item, last_entry, next_entry,
  count,
}

-- Each value has a byte at least.
module _ {F B : Type 0} where
  pub count_pos : (v : JsonValue F B) → 0 < count v
  unfolding count
  count_pos (array vs) = omega arith
  count_pos (object es) = omega arith
  count_pos null = omega arith
  count_pos (bool b) = omega arith
  count_pos (int n) = omega arith
  count_pos (big_int n) = omega arith
  count_pos (float x) = omega arith
  count_pos (str s) = omega arith

-- A value is no whitespace and no bracket that ends an array.
module _ {F B : Type 0} (IsString : Bytes → Bytes → Type 0)
    (IsNumber : ℕ → Bytes → JsonValue F B → Type 0)
    (number_first : (c : ℕ) (t : Bytes) (v : JsonValue F B)
      → IsNumber c t v
      → (is_ascii_digit c || c == b'-') ≡ true) where
  abbrev Text : ℕ → Bytes → JsonValue F B → Type 0
  Text = ValueText IsString IsNumber

  abbrev Items : ℕ → Bytes → JsonValue F B → JsonArray F B → Type 0
  Items = ItemsText IsString IsNumber

  abbrev Fields : ℕ → Bytes → JsonValue F B → JsonObject F B → Type 0
  Fields = EntriesText IsString IsNumber

  abbrev pub Begins : ℕ → Type 0
  Begins c = (is_whitespace c ≡ false) × (c == b']' ≡ false)

  pub Text-first : {c : ℕ} {t : Bytes} {v : JsonValue F B} → Text c t v → Begins c
  unfolding is_whitespace
  Text-first null_text = (refl, refl)
  Text-first true_text = (refl, refl)
  Text-first false_text = (refl, refl)
  Text-first (string_text s) = (refl, refl)
  Text-first (number_text {c} {t} {v} n) =
      let h = number_first c t v n in (ground arith, ground arith)
  Text-first (empty_array w b) = (refl, refl)
  Text-first (array_text w t b vs) = (refl, refl)
  Text-first (empty_object w b) = (refl, refl)
  Text-first (object_text w s a b t bw h ba bb es) = (refl, refl)

  pub Items-first :
      {c : ℕ} {t : Bytes} {v : JsonValue F B} {vs : JsonArray F B} → Items c t v vs → Begins c
  Items-first (last_item t w h b) = Text-first h
  Items-first (next_item t w x u h bw bx vs) = Text-first h

  pub Entries-first :
      {c : ℕ} {t : Bytes} {v : JsonValue F B} {es : JsonObject F B} → Fields c t v es → Begins c
  Entries-first (last_entry t w h b) = Text-first h
  Entries-first (next_entry t w x s a b u h bw bx k ba bb es) = Text-first h
