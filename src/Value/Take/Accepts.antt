-- ===== src/Value/Take/Accepts.antt =====
-- The loop of `take_value_recursive` of crates/jiter/src/value.rs on the texts of the grammar: it puts
-- the value of the text in the container that it is in.
use jiter.Prelude.{
  ℕ, suc, ◌+◌, ◌<◌, ◌≤◌, ◌≡◌, ◌∙◌, refl, ap, false, List, [], ◌∷◌, ◌++◌, append_assoc, arith, Bytes,
  length, length-append, drop,
}
use jiter.Prelude.Slices.{drop-append, drop-cons}
use jiter.Parse.{is_whitespace, pure, M, DecodeString, DecodeNumber}
use jiter.Parse.Reads.{at, Behind, Behind-Blank, drop-colon}
use jiter.Number.Float.{NumberAny}
use jiter.Strings.Decode.{StringOutput}
use jiter.Value.Data.{
  JsonValue, array, object, JsonArray, JsonObject, no_value, value_then, no_entry, entry_then, push,
  insert, RecursedValue, in_array, in_object,
}
use jiter.Value.Grammar.{
  ValueText, ItemsText, EntriesText, null_text, true_text, false_text, string_text, number_text,
  empty_array, array_text, empty_object, object_text, last_item, next_item, last_entry, next_entry,
  depth, count, count_items, count_entries,
}
use jiter.Value.Grammar.Lengths.{regroup, ends, length-object, length-next_entry, length-next_item}
use jiter.Value.Take.{Config, enter, next, open_value}
use jiter.Value.Take.Opens.{Decodes}
use jiter.Value.Take.Joins.{push_all, insert_all, push_all-no_value, insert_all-no_entry}
use jiter.Value.Grammar.Firsts.{Items-first, Entries-first}
use jiter.Value.Take.Begins.{whole_of, array_enters, object_enters}
use jiter.Value.Take.Advances.{
  Loop, After, After-next, After-closed, Loop-whole, Loop-enter, advance-item, advance-last_item,
  advance-entry, advance-last_entry,
}

module _ {F B : Type 0} (IsString : Bytes → Bytes → Type 0)
    (IsNumber : ℕ → Bytes → JsonValue F B → Type 0) (decode_str : DecodeString StringOutput)
    (decode_num : DecodeNumber (NumberAny F B)) (create_cow : StringOutput → Bytes)
    (config : Config) (bytes : Bytes) where
  open config use {recursion_limit, allow_inf_nan}

  abbrev pub Text : ℕ → Bytes → JsonValue F B → Type 0
  Text = ValueText IsString IsNumber

  abbrev pub Items : ℕ → Bytes → JsonValue F B → JsonArray F B → Type 0
  Items = ItemsText IsString IsNumber

  abbrev pub Fields : ℕ → Bytes → JsonValue F B → JsonObject F B → Type 0
  Fields = EntriesText IsString IsNumber

  abbrev pub Run : ℕ → ℕ → RecursedValue F B → List (RecursedValue F B) → M (JsonValue F B)
  Run = Loop decode_str decode_num create_cow config

  abbrev pub Next : ℕ → List (RecursedValue F B) → JsonValue F B → M (JsonValue F B)
  Next = After decode_str decode_num create_cow config

  module _
      (decodes : Decodes IsString IsNumber decode_str decode_num create_cow allow_inf_nan
        bytes) where
    open decodes use {reads_string, number_first, number_count}

    -- A value that is read at once, and a container that is entered.
    whole_lem :
        {c : ℕ} {t : Bytes} {v : JsonValue F B}
        → Text c t v
        → (n fuel i j : ℕ) (rest : Bytes) (current : RecursedValue F B)
          (stack : List (RecursedValue F B))
        → n ≡ count v + fuel
        → drop i bytes ≡ c ∷ (t ++ rest)
        → Behind rest
        → j ≡ i + 1 + length t
        → count v ≡ 1
        → Run n c current stack (at bytes i) ≡ Next fuel (current ∷ stack) v (at bytes j)
    whole_lem {c} {v} h n fuel i j rest current stack f e b k one =
        Loop-whole decode_str decode_num create_cow config fuel n c current stack v (at bytes i)
          (at bytes j) (omega arith)
          (whole_of IsString IsNumber decode_str decode_num create_cow config bytes decodes h i j
            rest e b k one)

    enter_lem :
        (c i k n fuel d : ℕ) (current r : RecursedValue F B) (stack : List (RecursedValue F B))
        → n ≡ suc fuel
        → length (current ∷ stack) < recursion_limit
        → open_value decode_str decode_num create_cow config c (at bytes i)
          ≡ pure (enter d r) (at bytes k)
        → Run n c current stack (at bytes i) ≡ Run fuel d r (current ∷ stack) (at bytes k)
    enter_lem c i k n fuel d current r stack f l e =
        Loop-enter decode_str decode_num create_cow config fuel n c d current r stack (at bytes i)
          (at bytes k) f l e

    mutual
      unfolding count depth push_all insert_all is_whitespace

      value_lem :
          {c : ℕ} {t : Bytes} {v : JsonValue F B}
          → Text c t v
          → (n fuel i j : ℕ) (rest : Bytes) (current : RecursedValue F B)
            (stack : List (RecursedValue F B))
          → n ≡ count v + fuel
          → drop i bytes ≡ c ∷ (t ++ rest)
          → Behind rest
          → j ≡ i + 1 + length t
          → depth v + length (current ∷ stack) ≤ recursion_limit
          → Run n c current stack (at bytes i) ≡ Next fuel (current ∷ stack) v (at bytes j)
      value_lem null_text n fuel i j rest current stack f e b k d =
          whole_lem null_text n fuel i j rest current stack f e b k refl
      value_lem true_text n fuel i j rest current stack f e b k d =
          whole_lem true_text n fuel i j rest current stack f e b k refl
      value_lem false_text n fuel i j rest current stack f e b k d =
          whole_lem false_text n fuel i j rest current stack f e b k refl
      value_lem (string_text h) n fuel i j rest current stack f e b k d =
          whole_lem (string_text h) n fuel i j rest current stack f e b k refl
      value_lem (empty_array w bw) n fuel i j rest current stack f e b k d =
          whole_lem (empty_array w bw) n fuel i j rest current stack f e b k refl
      value_lem (empty_object w bw) n fuel i j rest current stack f e b k d =
          whole_lem (empty_object w bw) n fuel i j rest current stack f e b k refl
      value_lem (number_text {c} {t} {v} h) n fuel i j rest current stack f e b k d =
          whole_lem (number_text h) n fuel i j rest current stack f e b k (number_count c t v h)
      value_lem (array_text w t {c} {v} {vs} bw items) n fuel i j rest current stack f e b k d =
          let m : ℕ = count_items (value_then v vs) + fuel in
          let (o, e') =
            array_enters IsString IsNumber decode_str decode_num create_cow config bytes decodes w t
              i rest items bw e in
          enter_lem _ i (i + 1 + length w) n m c current (in_array no_value) stack (omega arith)
            (omega arith) o
          ∙ items_lem items m fuel (i + 1 + length w) j rest no_value (current ∷ stack) refl e'
              (omega (arith, length-append w (c ∷ t))) d
          ∙ ap (λ y. Next fuel (current ∷ stack) (array y) (at bytes j)) (push_all-no_value _)
      value_lem (object_text w s a b t {k = key} {c} {v} {es} bw h ba bb entries) n fuel i j rest
            current stack f e bh k d =
          let m : ℕ = count_entries (entry_then key v es) + fuel in
          let i1 = i + 1 + length w + 1 + length s + length a + 1 + length b in
          let (o, e') =
            object_enters IsString IsNumber decode_str decode_num create_cow config bytes decodes w
              s a b t i i1 rest h entries bw ba bb e refl in
          enter_lem _ i i1 n m c current (in_object no_entry key) stack (omega arith) (omega arith)
            o
          ∙ entries_lem entries m fuel i1 j rest key no_entry (current ∷ stack) refl e'
              (omega (arith, length-object w s a b t c)) d
          ∙ ap (λ y. Next fuel (current ∷ stack) (object y) (at bytes j)) (insert_all-no_entry _)

      pub items_lem :
          {c : ℕ} {t : Bytes} {v : JsonValue F B} {vs : JsonArray F B}
          → Items c t v vs
          → (n fuel i j : ℕ) (rest : Bytes) (pre : JsonArray F B) (stack : List (RecursedValue F B))
          → n ≡ count_items (value_then v vs) + fuel
          → drop i bytes ≡ c ∷ (t ++ rest)
          → j ≡ i + 1 + length t
          → depth (array (value_then v vs)) + length stack ≤ recursion_limit
          → Run n c (in_array pre) stack (at bytes i)
            ≡ Next fuel stack (array (push_all (value_then v vs) pre)) (at bytes j)
      items_lem (last_item t w {c} {v} h bw) n fuel i j rest pre stack f e k d =
          let e' : drop i bytes ≡ c ∷ (t ++ (w ++ (b']' ∷ rest))) =
            e ∙ ap (◌∷◌ c) (regroup t w b']' [] rest) in
          let i1 = i + 1 + length t in
          value_lem h n fuel i i1 (w ++ (b']' ∷ rest)) (in_array pre) stack (omega arith) e'
            (Behind-Blank w b']' rest bw refl) refl (omega arith)
          ∙ rw (ends t w b']' i j k) (
              After-closed decode_str decode_num create_cow config fuel (in_array pre) stack v
                (array (push v pre)) (at bytes i1) _
                (advance-last_item decode_str decode_num create_cow config bytes v pre i1 w rest
                  (drop-append t (i + 1) bytes (drop-cons i bytes e')) bw))
      items_lem (next_item t w x u {c} {d = g} {v} {v'} {vs} h bw bx items) n fuel i j rest pre
            stack f e k d =
          let tail = g ∷ (u ++ rest) in
          let e' : drop i bytes ≡ c ∷ (t ++ (w ++ (b',' ∷ (x ++ tail)))) =
            e ∙ ap (◌∷◌ c) (simp append_assoc) in
          let m : ℕ = count_items (value_then v' vs) + fuel in
          let i1 = i + 1 + length t in
          let i2 = i1 + length w + 1 in
          let (first, bracket) = Items-first IsString IsNumber number_first items in
          let e1 = drop-append t (i + 1) bytes (drop-cons i bytes e') in
          let e2 = drop-cons (i1 + length w) bytes (drop-append w i1 bytes e1) in
          value_lem h n m i i1 (w ++ (b',' ∷ (x ++ tail))) (in_array pre) stack (omega arith) e'
            (Behind-Blank w b',' (x ++ tail) bw refl) refl (omega arith)
          ∙ After-next decode_str decode_num create_cow config m (in_array pre)
              (in_array (push v pre)) stack v g (at bytes i1) (at bytes (i2 + length x))
              (advance-item decode_str decode_num create_cow config bytes v pre i1 w x g (u ++ rest)
                e1 bw bx first bracket)
          ∙ items_lem items m fuel (i2 + length x) j rest (push v pre) stack refl
              (drop-append x i2 bytes e2) (omega (arith, length-next_item t w x u g)) (omega arith)

      pub entries_lem :
          {c : ℕ} {t : Bytes} {v : JsonValue F B} {es : JsonObject F B}
          → Fields c t v es
          → (n fuel i j : ℕ) (rest key : Bytes) (pre : JsonObject F B)
            (stack : List (RecursedValue F B))
          → n ≡ count_entries (entry_then key v es) + fuel
          → drop i bytes ≡ c ∷ (t ++ rest)
          → j ≡ i + 1 + length t
          → depth (object (entry_then key v es)) + length stack ≤ recursion_limit
          → Run n c (in_object pre key) stack (at bytes i)
            ≡ Next fuel stack (object (insert_all (entry_then key v es) pre)) (at bytes j)
      entries_lem (last_entry t w {c} {v} h bw) n fuel i j rest key pre stack f e k d =
          let e' : drop i bytes ≡ c ∷ (t ++ (w ++ (b'}' ∷ rest))) =
            e ∙ ap (◌∷◌ c) (regroup t w b'}' [] rest) in
          let i1 = i + 1 + length t in
          value_lem h n fuel i i1 (w ++ (b'}' ∷ rest)) (in_object pre key) stack (omega arith) e'
            (Behind-Blank w b'}' rest bw refl) refl (omega arith)
          ∙ rw (ends t w b'}' i j k) (
              After-closed decode_str decode_num create_cow config fuel (in_object pre key) stack v
                (object (insert key v pre)) (at bytes i1) _
                (advance-last_entry decode_str decode_num create_cow config bytes v pre key i1 w
                  rest (drop-append t (i + 1) bytes (drop-cons i bytes e')) bw))
      entries_lem
            (next_entry t w x s a b u {k = key'} {c} {d = g} {v} {v'} {es} h bw bx l ba bb entries)
            n fuel i j rest key pre stack f e k d =
          let tail = b ++ (g ∷ (u ++ rest)) in
          let named = x ++ (b'"' ∷ (s ++ (a ++ (b':' ∷ tail)))) in
          let e' : drop i bytes ≡ c ∷ (t ++ (w ++ (b',' ∷ named))) =
            e ∙ ap (◌∷◌ c) (simp append_assoc) in
          let m : ℕ = count_entries (entry_then key' v' es) + fuel in
          let i1 = i + 1 + length t in
          let i2 = i1 + length w + 1 in
          let i3 = i2 + length x + 1 + length s + length a + 1 in
          let (first, _) = Entries-first IsString IsNumber number_first entries in
          let e1 = drop-append t (i + 1) bytes (drop-cons i bytes e') in
          let e2 = drop-cons (i1 + length w) bytes (drop-append w i1 bytes e1) in
          let quote = drop-append x i2 bytes e2 in
          let (o, r, q) = reads_string s key' (i2 + length x) (a ++ (b':' ∷ tail)) false l quote in
          let e3 = drop-colon decode_str bytes (i2 + length x) s a tail quote in
          value_lem h n m i i1 (w ++ (b',' ∷ named)) (in_object pre key) stack (omega arith) e'
            (Behind-Blank w b',' named bw refl) refl (omega arith)
          ∙ After-next decode_str decode_num create_cow config m (in_object pre key)
              (in_object (insert key v pre) key') stack v g (at bytes i1) (at bytes (i3 + length b))
              (advance-entry decode_str decode_num create_cow config bytes v pre key i1 w x s a b g
                  (u ++ rest) o r e1 bw bx ba bb first
                ∙ ap
                    (λ y. pure (next g (in_object (insert key v pre) y)) (at bytes (i3 + length b)))
                    q)
          ∙ entries_lem entries m fuel (i3 + length b) j rest key' (insert key v pre) stack refl
              (drop-append b i3 bytes e3) (omega (arith, length-next_entry t w x s a b u g))
              (omega arith)
