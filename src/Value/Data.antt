-- ===== src/Value/Data.antt =====
-- The values of crates/jiter/src/value.rs: `JsonValue`, and `RecursedValue`, the container that
-- the parser is in.
use jiter.Prelude.{Bool, Bytes}
use jiter.Prelude.Int.{ℤ}

-- `Arc` and `Cow` are left out. The elements of an array and the entries of an object, in the order
-- in which they were pushed, are lists of their own.
mutual
  pub data JsonValue (F B : Type 0) : Type 0 where
    null : JsonValue F B
    bool : Bool → JsonValue F B
    int : ℤ → JsonValue F B
    big_int : B → JsonValue F B
    float : F → JsonValue F B
    str : Bytes → JsonValue F B
    array : JsonArray F B → JsonValue F B
    object : JsonObject F B → JsonValue F B

  pub data JsonArray (F B : Type 0) : Type 0 where
    no_value : JsonArray F B
    value_then : JsonValue F B → JsonArray F B → JsonArray F B

  pub data JsonObject (F B : Type 0) : Type 0 where
    no_entry : JsonObject F B
    entry_then : Bytes → JsonValue F B → JsonObject F B → JsonObject F B

module _ {F B : Type 0} where
  -- `SmallVec::push` on the elements, and `LazyIndexMap::insert` on an object whose lookup map is not
  -- built, as it is while parsing.
  unfoldable pub push : JsonValue F B → JsonArray F B → JsonArray F B
  push v no_value = value_then v no_value
  push v (value_then w rest) = value_then w (push v rest)

  unfoldable pub insert : Bytes → JsonValue F B → JsonObject F B → JsonObject F B
  insert key v no_entry = entry_then key v no_entry
  insert key v (entry_then k w rest) = entry_then k w (insert key v rest)

pub data RecursedValue (F B : Type 0) : Type 0 where
  in_array : JsonArray F B → RecursedValue F B
  in_object : (partial : JsonObject F B) (next_key : Bytes) → RecursedValue F B
