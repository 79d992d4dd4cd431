-- ===== src/Value/Skip/Accepts.antt =====
-- The loop of `take_value_skip_recursive` of crates/jiter/src/value.rs on the texts of the grammar: it consumes each of them
-- up to what follows it in its container.
use jiter.Prelude.{
  ℕ, ◌+◌, ◌≤◌, ◌≡◌, ◌∙◌, refl, ap, Bool, List, [], ◌∷◌, ◌++◌, append_assoc, arith, Bytes, length,
  length-append, drop,
}
use jiter.Prelude.Slices.{drop-append, drop-cons}
use jiter.Parse.{is_whitespace, M, DecodeString, DecodeNumber}
use jiter.Parse.Reads.{at, Behind, Behind-Blank, drop-colon}
use jiter.Value.Data.{JsonValue, array, object, JsonArray, JsonObject, value_then, entry_then}
use jiter.Value.Grammar.{
  ValueText, ItemsText, EntriesText, null_text, true_text, false_text, string_text, number_text,
  empty_array, array_text, empty_object, object_text, last_item, next_item, last_entry, next_entry,
  depth, count, count_items, count_entries,
}
use jiter.Value.Grammar.Lengths.{regroup, ends, length-object, length-next_entry, length-next_item}
use jiter.Value.Grammar.Firsts.{Items-first, Entries-first}
use jiter.Value.Skip.{array_kind, object_kind, stack_bits, skip_loop}
use jiter.Value.Skip.Opens.{SkipDecodes, consumed_of, array_entered, object_entered}
use jiter.Value.Skip.Advances.{
  After, After-next, After-closed, Run-consumed, Run-entered, step-item, step-last_item, step-entry,
  step-last_entry,
}

module _ {F B S N : Type 0} (IsString : Bytes → Bytes → Type 0)
    (IsNumber : ℕ → Bytes → JsonValue F B → Type 0) (decode_str : DecodeString S)
    (decode_num : DecodeNumber N) (recursion_limit : ℕ) (allow_inf_nan : Bool) (bytes : Bytes)
    (decodes : SkipDecodes IsString IsNumber decode_str decode_num allow_inf_nan bytes)
    (bits : recursion_limit ≤ stack_bits) where
  open decodes use {reads_string, number_first, number_count}

  abbrev Text : ℕ → Bytes → JsonValue F B → Type 0
  Text = ValueText IsString IsNumber

  abbrev Items : ℕ → Bytes → JsonValue F B → JsonArray F B → Type 0
  Items = ItemsText IsString IsNumber

  abbrev Fields : ℕ → Bytes → JsonValue F B → JsonObject F B → Type 0
  Fields = EntriesText IsString IsNumber

  abbrev Run : ℕ → ℕ → Bool → List Bool → M (Unit {0})
  Run = skip_loop decode_str decode_num recursion_limit allow_inf_nan

  abbrev Next : ℕ → List Bool → M (Unit {0})
  Next = After decode_str decode_num recursion_limit allow_inf_nan

  consumed_lem :
      {c : ℕ} {t : Bytes} {v : JsonValue F B}
      → Text c t v
      → (n fuel i j : ℕ) (rest : Bytes) (kind : Bool) (stack : List Bool) → n ≡ count v + fuel
      → drop i bytes ≡ c ∷ (t ++ rest)
      → Behind rest
      → j ≡ i + 1 + length t
      → count v ≡ 1
      → Run n c kind stack (at bytes i) ≡ Next fuel (kind ∷ stack) (at bytes j)
  consumed_lem {c} h n fuel i j rest kind stack f e b k one =
      Run-consumed decode_str decode_num recursion_limit allow_inf_nan fuel n c kind stack
        (at bytes i) (at bytes j) (omega arith)
        (consumed_of IsString IsNumber decode_str decode_num recursion_limit allow_inf_nan bytes
          decodes h i j rest e b k one)

  mutual
    unfolding count depth is_whitespace

    value_lem :
        {c : ℕ} {t : Bytes} {v : JsonValue F B}
        → Text c t v
        → (n fuel i j : ℕ) (rest : Bytes) (kind : Bool) (stack : List Bool) → n ≡ count v + fuel
        → drop i bytes ≡ c ∷ (t ++ rest)
        → Behind rest
        → j ≡ i + 1 + length t
        → depth v + length (kind ∷ stack) ≤ recursion_limit
        → Run n c kind stack (at bytes i) ≡ Next fuel (kind ∷ stack) (at bytes j)
    value_lem null_text n fuel i j rest kind stack f e b k d =
        consumed_lem null_text n fuel i j rest kind stack f e b k refl
    value_lem true_text n fuel i j rest kind stack f e b k d =
        consumed_lem true_text n fuel i j rest kind stack f e b k refl
    value_lem false_text n fuel i j rest kind stack f e b k d =
        consumed_lem false_text n fuel i j rest kind stack f e b k refl
    value_lem (string_text h) n fuel i j rest kind stack f e b k d =
        consumed_lem (string_text h) n fuel i j rest kind stack f e b k refl
    value_lem (empty_array w bw) n fuel i j rest kind stack f e b k d =
        consumed_lem (empty_array w bw) n fuel i j rest kind stack f e b k refl
    value_lem (empty_object w bw) n fuel i j rest kind stack f e b k d =
        consumed_lem (empty_object w bw) n fuel i j rest kind stack f e b k refl
    value_lem (number_text {c} {t} {v} h) n fuel i j rest kind stack f e b k d =
        consumed_lem (number_text h) n fuel i j rest kind stack f e b k (number_count c t v h)
    value_lem (array_text w t {c} {v} {vs} bw items) n fuel i j rest kind stack f e b k d =
        let m : ℕ = count_items (value_then v vs) + fuel in
        let (o, e') =
          array_entered IsString IsNumber decode_str decode_num recursion_limit allow_inf_nan bytes
            decodes w t i rest items bw e in
        Run-entered decode_str decode_num recursion_limit allow_inf_nan m n _ c array_kind kind
          stack (at bytes i) (at bytes (i + 1 + length w)) (omega arith) (omega arith) bits o
        ∙ items_lem items m fuel (i + 1 + length w) j rest (kind ∷ stack) refl e'
            (omega (arith, length-append w (c ∷ t))) d
    value_lem (object_text w s a b t {k = key} {c} {v} {es} bw h ba bb entries) n fuel i j rest kind
          stack f e bh k d =
        let m : ℕ = count_entries (entry_then key v es) + fuel in
        let i1 = i + 1 + length w + 1 + length s + length a + 1 + length b in
        let (o, e') =
          object_entered IsString IsNumber decode_str decode_num recursion_limit allow_inf_nan bytes
            decodes w s a b t i i1 rest h entries bw ba bb e refl in
        Run-entered decode_str decode_num recursion_limit allow_inf_nan m n _ c object_kind kind
          stack (at bytes i) (at bytes i1) (omega arith) (omega arith) bits o
        ∙ entries_lem entries m fuel i1 j rest key (kind ∷ stack) refl e'
            (omega (arith, length-object w s a b t c)) d

    pub items_lem :
        {c : ℕ} {t : Bytes} {v : JsonValue F B} {vs : JsonArray F B}
        → Items c t v vs
        → (n fuel i j : ℕ) (rest : Bytes) (stack : List Bool)
        → n ≡ count_items (value_then v vs) + fuel
        → drop i bytes ≡ c ∷ (t ++ rest)
        → j ≡ i + 1 + length t
        → depth (array (value_then v vs)) + length stack ≤ recursion_limit
        → Run n c array_kind stack (at bytes i) ≡ Next fuel stack (at bytes j)
    items_lem (last_item t w {c} {v} h bw) n fuel i j rest stack f e k d =
        let e' : drop i bytes ≡ c ∷ (t ++ (w ++ (b']' ∷ rest))) =
          e ∙ ap (◌∷◌ c) (regroup t w b']' [] rest) in
        let i1 = i + 1 + length t in
        let behind = drop-append t (i + 1) bytes (drop-cons i bytes e') in
        value_lem h n fuel i i1 (w ++ (b']' ∷ rest)) array_kind stack (omega arith) e'
          (Behind-Blank w b']' rest bw refl) refl (omega arith)
        ∙ rw (ends t w b']' i j k) (
            After-closed decode_str decode_num recursion_limit allow_inf_nan fuel array_kind stack
              (at bytes i1) _
              (step-last_item decode_str decode_num recursion_limit allow_inf_nan bytes i1 w rest
                behind bw))
    items_lem (next_item t w x u {c} {d = g} {v} {v'} {vs} h bw bx items) n fuel i j rest stack f e
          k d =
        let tail = g ∷ (u ++ rest) in
        let e' : drop i bytes ≡ c ∷ (t ++ (w ++ (b',' ∷ (x ++ tail)))) =
          e ∙ ap (◌∷◌ c) (simp append_assoc) in
        let m : ℕ = count_items (value_then v' vs) + fuel in
        let i1 = i + 1 + length t in
        let i2 = i1 + length w + 1 in
        let (first, bracket) = Items-first IsString IsNumber number_first items in
        let e1 = drop-append t (i + 1) bytes (drop-cons i bytes e') in
        let e2 = drop-cons (i1 + length w) bytes (drop-append w i1 bytes e1) in
        value_lem h n m i i1 (w ++ (b',' ∷ (x ++ tail))) array_kind stack (omega arith) e'
          (Behind-Blank w b',' (x ++ tail) bw refl) refl (omega arith)
        ∙ After-next decode_str decode_num recursion_limit allow_inf_nan m array_kind stack g
            (at bytes i1) (at bytes (i2 + length x))
            (step-item decode_str decode_num recursion_limit allow_inf_nan bytes i1 w x g
              (u ++ rest) e1 bw bx first bracket)
        ∙ items_lem items m fuel (i2 + length x) j rest stack refl (drop-append x i2 bytes e2)
            (omega (arith, length-next_item t w x u g)) (omega arith)

    pub entries_lem :
        {c : ℕ} {t : Bytes} {v : JsonValue F B} {es : JsonObject F B}
        → Fields c t v es
        → (n fuel i j : ℕ) (rest key : Bytes) (stack : List Bool)
        → n ≡ count_entries (entry_then key v es) + fuel
        → drop i bytes ≡ c ∷ (t ++ rest)
        → j ≡ i + 1 + length t
        → depth (object (entry_then key v es)) + length stack ≤ recursion_limit
        → Run n c object_kind stack (at bytes i) ≡ Next fuel stack (at bytes j)
    entries_lem (last_entry t w {c} {v} h bw) n fuel i j rest key stack f e k d =
        let e' : drop i bytes ≡ c ∷ (t ++ (w ++ (b'}' ∷ rest))) =
          e ∙ ap (◌∷◌ c) (regroup t w b'}' [] rest) in
        let i1 = i + 1 + length t in
        let behind = drop-append t (i + 1) bytes (drop-cons i bytes e') in
        value_lem h n fuel i i1 (w ++ (b'}' ∷ rest)) object_kind stack (omega arith) e'
          (Behind-Blank w b'}' rest bw refl) refl (omega arith)
        ∙ rw (ends t w b'}' i j k) (
            After-closed decode_str decode_num recursion_limit allow_inf_nan fuel object_kind stack
              (at bytes i1) _
              (step-last_entry decode_str decode_num recursion_limit allow_inf_nan bytes i1 w rest
                behind bw))
    entries_lem
          (next_entry t w x s a b u {k = key'} {c} {d = g} {v} {v'} {es} h bw bx l ba bb entries) n
          fuel i j rest key stack f e k d =
        let tail = b ++ (g ∷ (u ++ rest)) in
        let named = x ++ (b'"' ∷ (s ++ (a ++ (b':' ∷ tail)))) in
        let e' : drop i bytes ≡ c ∷ (t ++ (w ++ (b',' ∷ named))) =
          e ∙ ap (◌∷◌ c) (simp append_assoc) in
        let m : ℕ = count_entries (entry_then key' v' es) + fuel in
        let i1 = i + 1 + length t in
        let i2 = i1 + length w + 1 in
        let i3 = i2 + length x + 1 + length s + length a + 1 in
        let (first, _) = Entries-first IsString IsNumber number_first entries in
        let e1 = drop-append t (i + 1) bytes (drop-cons i bytes e') in
        let e2 = drop-cons (i1 + length w) bytes (drop-append w i1 bytes e1) in
        let quote = drop-append x i2 bytes e2 in
        let (o, r) = reads_string s key' (i2 + length x) (a ++ (b':' ∷ tail)) l quote in
        let e3 = drop-colon decode_str bytes (i2 + length x) s a tail quote in
        value_lem h n m i i1 (w ++ (b',' ∷ named)) object_kind stack (omega arith) e'
          (Behind-Blank w b',' named bw refl) refl (omega arith)
        ∙ After-next decode_str decode_num recursion_limit allow_inf_nan m object_kind stack g
            (at bytes i1) (at bytes (i3 + length b))
            (step-entry decode_str decode_num recursion_limit allow_inf_nan bytes i1 w x s a b g
              (u ++ rest) o r e1 bw bx ba bb first)
        ∙ entries_lem entries m fuel (i3 + length b) j rest key' stack refl
            (drop-append b i3 bytes e3) (omega (arith, length-next_entry t w x s a b u g))
            (omega arith)
