-- ===== src/Value/Grammar/Lengths.antt =====
-- The lengths of the texts of the grammar, and the values that they have room for.
use jiter.Prelude.{
  ℕ, ◌+◌, ◌≤◌, ◌≡◌, [], ◌∷◌, ◌++◌, append_assoc, arith, Bytes, length, length-append,
}
use jiter.Value.Data.{JsonValue, JsonArray, JsonObject}
use jiter.Value.Grammar.{
  ValueText, ItemsText, EntriesText, null_text, true_text, false_text, string_text, number_text,
  empty_array, array_text, empty_object, object_text, last_item, next_item, last_entry, next_entry,
  count, count_items, count_entries,
}

pub regroup :
    (t w : Bytes) (c : ℕ) (u rest : Bytes)
    → (t ++ (w ++ (c ∷ u))) ++ rest ≡ t ++ (w ++ (c ∷ (u ++ rest)))
regroup t w c u rest = simp append_assoc

pub ends :
    (t w : Bytes) (c i j : ℕ)
    → j ≡ i + 1 + length (t ++ (w ++ (c ∷ [])))
    → j ≡ i + 1 + length t + length w + 1
ends t w c i j k = omega (arith, length-append t (w ++ (c ∷ [])), length-append w (c ∷ []))

-- The lengths of the texts of an object and of what stands behind one of its values.
pub length-object :
    (w s a b t : Bytes) (c : ℕ)
    → length (w ++ (b'"' ∷ (s ++ (a ++ (b':' ∷ (b ++ (c ∷ t)))))))
      ≡ length w + length s + length a + length b + length t + 3
length-object w s a b t c = omega (
  arith,
  length-append w (b'"' ∷ (s ++ (a ++ (b':' ∷ (b ++ (c ∷ t)))))),
  length-append s (a ++ (b':' ∷ (b ++ (c ∷ t)))),
  length-append a (b':' ∷ (b ++ (c ∷ t))),
  length-append b (c ∷ t),
)

pub length-next_entry :
    (t w x s a b u : Bytes) (d : ℕ)
    → length (t ++ (w ++ (b',' ∷ (x ++ (b'"' ∷ (s ++ (a ++ (b':' ∷ (b ++ (d ∷ u))))))))))
      ≡ length t + length w + length x + length s + length a + length b + length u + 4
length-next_entry t w x s a b u d = omega (
  arith,
  length-append t (w ++ (b',' ∷ (x ++ (b'"' ∷ (s ++ (a ++ (b':' ∷ (b ++ (d ∷ u))))))))),
  length-append w (b',' ∷ (x ++ (b'"' ∷ (s ++ (a ++ (b':' ∷ (b ++ (d ∷ u)))))))),
  length-object x s a b u d,
)

pub length-next_item :
    (t w x u : Bytes) (d : ℕ)
    → length (t ++ (w ++ (b',' ∷ (x ++ (d ∷ u))))) ≡ length t + length w + length x + length u + 2
length-next_item t w x u d = omega (
  arith,
  length-append t (w ++ (b',' ∷ (x ++ (d ∷ u)))),
  length-append w (b',' ∷ (x ++ (d ∷ u))),
  length-append x (d ∷ u),
)

module _ {F B : Type 0} (IsString : Bytes → Bytes → Type 0)
    (IsNumber : ℕ → Bytes → JsonValue F B → Type 0)
    (number_count : (c : ℕ) (t : Bytes) (v : JsonValue F B) → IsNumber c t v → count v ≡ 1) where
  abbrev Text : ℕ → Bytes → JsonValue F B → Type 0
  Text = ValueText IsString IsNumber

  abbrev Items : ℕ → Bytes → JsonValue F B → JsonArray F B → Type 0
  Items = ItemsText IsString IsNumber

  abbrev Fields : ℕ → Bytes → JsonValue F B → JsonObject F B → Type 0
  Fields = EntriesText IsString IsNumber

  mutual
    unfolding count

    -- Each value takes a byte of the text at least.
    pub count-le : {c : ℕ} {t : Bytes} {v : JsonValue F B} → Text c t v → count v ≤ length t + 1
    count-le null_text = omega arith
    count-le true_text = omega arith
    count-le false_text = omega arith
    count-le (string_text h) = omega arith
    count-le (number_text {c} {t} {v} h) = omega (arith, number_count c t v h)
    count-le (empty_array w bw) = omega arith
    count-le (array_text w t {c} bw items) =
        omega (arith, count_items-le items, length-append w (c ∷ t))
    count-le (empty_object w bw) = omega arith
    count-le (object_text w s a b t {c} bw h ba bb entries) =
        omega (arith, count_entries-le entries, length-object w s a b t c)

    pub count_items-le :
        {c : ℕ} {t : Bytes} {v : JsonValue F B} {vs : JsonArray F B}
        → Items c t v vs
        → count v + count_items vs ≤ length t + 1
    count_items-le (last_item t w h bw) =
        omega (arith, count-le h, length-append t (w ++ (b']' ∷ [])))
    count_items-le (next_item t w x u {d = g} h bw bx items) =
        omega (arith, count-le h, count_items-le items, length-next_item t w x u g)

    pub count_entries-le :
        {c : ℕ} {t : Bytes} {v : JsonValue F B} {es : JsonObject F B}
        → Fields c t v es
        → count v + count_entries es ≤ length t + 1
    count_entries-le (last_entry t w h bw) =
        omega (arith, count-le h, length-append t (w ++ (b'}' ∷ [])))
    count_entries-le (next_entry t w x s a b u {d = g} h bw bx l ba bb entries) =
        omega (arith, count-le h, count_entries-le entries, length-next_entry t w x s a b u g)
