-- ===== src/Value/Take/Joins.antt =====
-- Arrays and objects built value by value, as crates/jiter/src/value.rs builds them.
use jiter.Prelude.{◌≡◌, ◌∙◌, refl, ap, sym, Bytes}
use jiter.Value.Data.{
  JsonValue, JsonArray, JsonObject, no_value, value_then, no_entry, entry_then, push, insert,
}

module _ {F B : Type 0} where
  -- All the values of an array pushed, and all the entries of an object inserted, in their order.
  unfoldable pub push_all : JsonArray F B → JsonArray F B → JsonArray F B
  push_all no_value pre = pre
  push_all (value_then v vs) pre = push_all vs (push v pre)

  unfoldable pub insert_all : JsonObject F B → JsonObject F B → JsonObject F B
  insert_all no_entry pre = pre
  insert_all (entry_then k v es) pre = insert_all es (insert k v pre)

  join : JsonArray F B → JsonArray F B → JsonArray F B
  join no_value vs = vs
  join (value_then v pre) vs = value_then v (join pre vs)

  join-push :
      (v : JsonValue F B) (pre vs : JsonArray F B)
      → join (push v pre) vs ≡ join pre (value_then v vs)
  unfolding join push
  join-push v no_value vs = refl
  join-push v (value_then w pre) vs = ap (value_then w) (join-push v pre vs)

  join-no_value : (pre : JsonArray F B) → join pre no_value ≡ pre
  unfolding join
  join-no_value no_value = refl
  join-no_value (value_then v pre) = ap (value_then v) (join-no_value pre)

  push_all-join : (vs pre : JsonArray F B) → push_all vs pre ≡ join pre vs
  unfolding push_all
  push_all-join no_value pre = sym (join-no_value pre)
  push_all-join (value_then v vs) pre = push_all-join vs (push v pre) ∙ join-push v pre vs

  merge : JsonObject F B → JsonObject F B → JsonObject F B
  merge no_entry es = es
  merge (entry_then k v pre) es = entry_then k v (merge pre es)

  merge-insert :
      (k : Bytes) (v : JsonValue F B) (pre es : JsonObject F B)
      → merge (insert k v pre) es ≡ merge pre (entry_then k v es)
  unfolding merge insert
  merge-insert k v no_entry es = refl
  merge-insert k v (entry_then j w pre) es = ap (entry_then j w) (merge-insert k v pre es)

  merge-no_entry : (pre : JsonObject F B) → merge pre no_entry ≡ pre
  unfolding merge
  merge-no_entry no_entry = refl
  merge-no_entry (entry_then k v pre) = ap (entry_then k v) (merge-no_entry pre)

  insert_all-merge : (es pre : JsonObject F B) → insert_all es pre ≡ merge pre es
  unfolding insert_all
  insert_all-merge no_entry pre = sym (merge-no_entry pre)
  insert_all-merge (entry_then k v es) pre =
      insert_all-merge es (insert k v pre) ∙ merge-insert k v pre es

  pub push_all-no_value : (vs : JsonArray F B) → push_all vs no_value ≡ vs
  unfolding join
  push_all-no_value vs = push_all-join vs no_value

  pub insert_all-no_entry : (es : JsonObject F B) → insert_all es no_entry ≡ es
  unfolding merge
  insert_all-no_entry es = insert_all-merge es no_entry
