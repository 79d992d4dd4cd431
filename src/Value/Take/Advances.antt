-- ===== src/Value/Take/Advances.antt =====
-- What `take_value_recursive` of crates/jiter/src/value.rs does behind a value of the grammar: with
-- the container that it is in, and with the stack.
use jiter.Prelude.{
  ℕ, suc, ◌+◌, ◌<◌, ◌≡◌, refl, false, List, ◌∷◌, ◌++◌, arith, Bytes, length, drop, leb, ◌==◌,
}
use jiter.Prelude.Slices.{drop-append, drop-cons}
use jiter.Parse.{is_whitespace, pure, M, Parser, ◌>>=◌, DecodeString, DecodeNumber}
use jiter.Parse.Whitespace.{Blank}
use jiter.Parse.Reads.{
  at, ReadsString, array_step-some, array_step-none, object_step-some, object_step-none, drop-colon,
  peek_some,
}
use jiter.Number.Float.{NumberAny}
use jiter.Strings.Decode.{StringOutput}
use jiter.Value.Data.{
  JsonValue, array, object, JsonArray, JsonObject, push, insert, RecursedValue, in_array, in_object,
}
use jiter.Value.Take.{
  Config, enter, whole, next, closed, Popped, resume, returned, open_value, advance, pop,
  take_value_loop,
}

module _ {F B : Type 0} (decode_str : DecodeString StringOutput)
    (decode_num : DecodeNumber (NumberAny F B)) (create_cow : StringOutput → Bytes)
    (config : Config) where
  open config use {recursion_limit}

  abbrev pub Loop : ℕ → ℕ → RecursedValue F B → List (RecursedValue F B) → M (JsonValue F B)
  Loop = take_value_loop decode_str decode_num create_cow config

  -- How the loop goes on behind a value, with the fuel that is left.
  abbrev pub Go : ℕ → Popped F B → M (JsonValue F B)
  Go fuel outcome = elim outcome as (λ _. M (JsonValue F B)) [
    | resume d r rest ↦ Loop fuel d r rest
    | returned v ↦ pure v
  ]

  abbrev pub After : ℕ → List (RecursedValue F B) → JsonValue F B → M (JsonValue F B)
  After fuel stack v = pop decode_str decode_num create_cow config stack v >>= Go fuel

  pub After-next :
      (fuel : ℕ) (current r : RecursedValue F B) (stack : List (RecursedValue F B))
      (v : JsonValue F B) (d : ℕ) (p q : Parser)
      → advance decode_str decode_num create_cow config v current p ≡ pure (next d r) q
      → After fuel (current ∷ stack) v p ≡ Loop fuel d r stack q
  unfolding pop
  After-next fuel current r stack v d p q e = rw e refl

  pub After-closed :
      (fuel : ℕ) (current : RecursedValue F B) (stack : List (RecursedValue F B))
      (v w : JsonValue F B) (p q : Parser)
      → advance decode_str decode_num create_cow config v current p ≡ pure (closed w) q
      → After fuel (current ∷ stack) v p ≡ After fuel stack w q
  unfolding pop
  After-closed fuel current stack v w p q e = rw e refl

  pub Loop-whole :
      (fuel n c : ℕ) (current : RecursedValue F B) (stack : List (RecursedValue F B))
      (v : JsonValue F B) (p q : Parser)
      → n ≡ suc fuel
      → open_value decode_str decode_num create_cow config c p ≡ pure (whole v) q
      → Loop n c current stack p ≡ After fuel (current ∷ stack) v q
  unfolding take_value_loop
  Loop-whole fuel n c current stack v p q f e = rw (f, e) refl

  pub Loop-enter :
      (fuel n c d : ℕ) (current r : RecursedValue F B) (stack : List (RecursedValue F B))
      (p q : Parser)
      → n ≡ suc fuel
      → length (current ∷ stack) < recursion_limit
      → open_value decode_str decode_num create_cow config c p ≡ pure (enter d r) q
      → Loop n c current stack p ≡ Loop fuel d r (current ∷ stack) q
  unfolding take_value_loop
  Loop-enter fuel n c d current r stack p q f l e =
      let small : leb recursion_limit (length (current ∷ stack)) ≡ false = ground arith in
      rw (f, e, small) refl

  module _ (bytes : Bytes) where
    pub advance-item :
        (v : JsonValue F B) (vs : JsonArray F B) (i : ℕ) (w x : Bytes) (d : ℕ) (rest : Bytes)
        → drop i bytes ≡ w ++ (b',' ∷ (x ++ (d ∷ rest)))
        → Blank w
        → Blank x
        → is_whitespace d ≡ false
        → d == b']' ≡ false
        → advance decode_str decode_num create_cow config v (in_array vs) (at bytes i)
          ≡ pure (next d (in_array (push v vs))) (at bytes (i + length w + 1 + length x))
    unfolding advance
    advance-item v vs i w x d rest e bw bx s n =
        rw (array_step-some bytes i w x d rest e bw bx s n) refl

    pub advance-last_item :
        (v : JsonValue F B) (vs : JsonArray F B) (i : ℕ) (w rest : Bytes)
        → drop i bytes ≡ w ++ (b']' ∷ rest)
        → Blank w
        → advance decode_str decode_num create_cow config v (in_array vs) (at bytes i)
          ≡ pure (closed (array (push v vs))) (at bytes (i + length w + 1))
    unfolding advance
    advance-last_item v vs i w rest e bw = rw (array_step-none bytes i w rest e bw) refl

    pub advance-entry :
        (v : JsonValue F B) (es : JsonObject F B) (key : Bytes) (i : ℕ) (w x s a b : Bytes) (d : ℕ)
        (rest : Bytes) (o : StringOutput)
        → ReadsString decode_str bytes (i + length w + 1 + length x) false s o
        → drop i bytes ≡ w ++ (b',' ∷ (x ++ (b'"' ∷ (s ++ (a ++ (b':' ∷ (b ++ (d ∷ rest))))))))
        → Blank w
        → Blank x
        → Blank a
        → Blank b
        → is_whitespace d ≡ false
        → advance decode_str decode_num create_cow config v (in_object es key) (at bytes i)
          ≡ pure
              (next d (in_object (insert key v es) (create_cow o)))
              (at bytes (i + length w + 1 + length x + 1 + length s + length a + 1 + length b))
    unfolding advance
    advance-entry v es key i w x s a b d rest o r e bw bx ba bb n =
        let k = i + length w + 1 + length x in
        let start =
          drop-append x (i + length w + 1) bytes
            (drop-cons (i + length w) bytes (drop-append w i bytes e)) in
        let behind = drop-colon decode_str bytes k s a (b ++ (d ∷ rest)) start in
        rw
          (
            object_step-some decode_str bytes i w x s a (b ++ (d ∷ rest)) o r e bw bx ba,
            peek_some bytes (k + 1 + length s + length a + 1) b d rest behind bb n,
          )
          refl

    pub advance-last_entry :
        (v : JsonValue F B) (es : JsonObject F B) (key : Bytes) (i : ℕ) (w rest : Bytes)
        → drop i bytes ≡ w ++ (b'}' ∷ rest)
        → Blank w
        → advance decode_str decode_num create_cow config v (in_object es key) (at bytes i)
          ≡ pure (closed (object (insert key v es))) (at bytes (i + length w + 1))
    unfolding advance
    advance-last_entry v es key i w rest e bw =
        rw (object_step-none decode_str bytes i w rest e bw) refl
