-- ===== src/Value/Grammar.antt =====
-- JSON texts and the values of crates/jiter/src/value.rs that they stand for, as the grammar of JSON
-- has them, for given literals of strings and of numbers.
pub mod Lengths
pub mod Firsts
use Prim.Native.Nat.{max}
use jiter.Prelude.{ℕ, suc, ◌+◌, true, false, [], ◌∷◌, ◌++◌, Bytes}
use jiter.Parse.{true_rest, false_rest, null_rest}
use jiter.Parse.Whitespace.{Blank}
use jiter.Value.Data.{
  JsonValue, null, bool, int, big_int, float, array, object, str, JsonArray, JsonObject, no_value,
  value_then, no_entry, entry_then,
}

-- `IsString s x`: behind its first quote, the literal `s` stands for the text `x`. `IsNumber c t v`: the
-- byte `c` and the bytes `t` behind it stand for the number `v`.
module _ {F B : Type 0} (IsString : Bytes → Bytes → Type 0)
    (IsNumber : ℕ → Bytes → JsonValue F B → Type 0) where
  mutual
    -- A value, by its first byte and the bytes behind it.
    pub data ValueText : ℕ → Bytes → JsonValue F B → Type 0 where
      null_text : ValueText b'n' null_rest null
      true_text : ValueText b't' true_rest (bool true)
      false_text : ValueText b'f' false_rest (bool false)
      string_text : {s x : Bytes} → IsString s x → ValueText b'"' s (str x)
      number_text : {c : ℕ} {t : Bytes} {v : JsonValue F B} → IsNumber c t v → ValueText c t v
      empty_array : (w : Bytes) → Blank w → ValueText b'[' (w ++ (b']' ∷ [])) (array no_value)
      array_text :
          (w t : Bytes) {c : ℕ} {v : JsonValue F B} {vs : JsonArray F B}
          → Blank w
          → ItemsText c t v vs
          → ValueText b'[' (w ++ (c ∷ t)) (array (value_then v vs))
      empty_object : (w : Bytes) → Blank w → ValueText b'{' (w ++ (b'}' ∷ [])) (object no_entry)
      object_text :
          (w s a b t : Bytes) {k : Bytes} {c : ℕ} {v : JsonValue F B} {es : JsonObject F B}
          → Blank w
          → IsString s k
          → Blank a
          → Blank b
          → EntriesText c t v es
          → ValueText b'{'
              (w ++ (b'"' ∷ (s ++ (a ++ (b':' ∷ (b ++ (c ∷ t)))))))
              (object (entry_then k v es))

    -- The values of an array from the first on, to its bracket.
    pub data ItemsText : ℕ → Bytes → JsonValue F B → JsonArray F B → Type 0 where
      last_item :
          (t w : Bytes) {c : ℕ} {v : JsonValue F B}
          → ValueText c t v
          → Blank w
          → ItemsText c (t ++ (w ++ (b']' ∷ []))) v no_value
      next_item :
          (t w x u : Bytes) {c d : ℕ} {v v' : JsonValue F B} {vs : JsonArray F B}
          → ValueText c t v
          → Blank w
          → Blank x
          → ItemsText d u v' vs
          → ItemsText c (t ++ (w ++ (b',' ∷ (x ++ (d ∷ u))))) v (value_then v' vs)

    -- The entries of an object from the value of the first on, to its brace.
    pub data EntriesText : ℕ → Bytes → JsonValue F B → JsonObject F B → Type 0 where
      last_entry :
          (t w : Bytes) {c : ℕ} {v : JsonValue F B}
          → ValueText c t v
          → Blank w
          → EntriesText c (t ++ (w ++ (b'}' ∷ []))) v no_entry
      next_entry :
          (t w x s a b u : Bytes) {k : Bytes} {c d : ℕ} {v v' : JsonValue F B} {es : JsonObject F B}
          → ValueText c t v
          → Blank w
          → Blank x
          → IsString s k
          → Blank a
          → Blank b
          → EntriesText d u v' es
          → EntriesText c
              (t ++ (w ++ (b',' ∷ (x ++ (b'"' ∷ (s ++ (a ++ (b':' ∷ (b ++ (d ∷ u))))))))))
              v
              (entry_then k v' es)

-- How deep containers are nested in a value.
module _ {F B : Type 0} where
  unfoldable mutual
    pub depth : JsonValue F B → ℕ
    depth (array vs) = suc (depth_items vs)
    depth (object es) = suc (depth_entries es)
    depth null = 0
    depth (bool b) = 0
    depth (int n) = 0
    depth (big_int n) = 0
    depth (float x) = 0
    depth (str s) = 0

    pub depth_items : JsonArray F B → ℕ
    depth_items no_value = 0
    depth_items (value_then v vs) = max (depth v) (depth_items vs)

    pub depth_entries : JsonObject F B → ℕ
    depth_entries no_entry = 0
    depth_entries (entry_then k v es) = max (depth v) (depth_entries es)

  -- How many values a value is made of, the empty containers and itself among them.
  unfoldable mutual
    pub count : JsonValue F B → ℕ
    count (array vs) = suc (count_items vs)
    count (object es) = suc (count_entries es)
    count null = 1
    count (bool b) = 1
    count (int n) = 1
    count (big_int n) = 1
    count (float x) = 1
    count (str s) = 1

    pub count_items : JsonArray F B → ℕ
    count_items no_value = 0
    count_items (value_then v vs) = count v + count_items vs

    pub count_entries : JsonObject F B → ℕ
    count_entries no_entry = 0
    count_entries (entry_then k v es) = count v + count_entries es
