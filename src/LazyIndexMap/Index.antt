-- ===== src/LazyIndexMap/Index.antt =====
-- The built map holds the index of the last entry with each key.
use jiter.Prelude.{
  ℕ, ◌+◌, ◌≤◌, ◌<◌, ◌≡◌, ◌∙◌, refl, ap, Bool, true, false, ◌||◌, ◌⊎◌, Option, none, some, List, [],
  ◌∷◌, ◌++◌, arith, length, drop, ltb, Bool-cases, inl, inr, if◌then◌else◌,
}
use jiter.Prelude.Eq.{Eq}
use jiter.Prelude.Slices.{drop-cons, get_elem?-drop_cons}
use jiter.LazyIndexMap.{
  IndexMap, LazyIndexMap, Lookup, found, missing, index_of, put, insert, collect, get_map, entry_at,
  get, hashmap_threshold, unique_from, iter_unique,
}

module _ {K : Type 0} ⦃e : Eq K⦄ where
  index_of-put :
      (key k : K) (i : ℕ) (m : IndexMap K)
      → index_of key (put k i m) ≡ (if e.beq k key then some i else index_of key m)
  unfolding index_of put
  index_of-put key k i [] = refl
  index_of-put key k i ((j, n) ∷ m) =
      ground (arith, index_of-put key k i m, e.beq_iff j k, e.beq_iff k key, e.beq_iff j key)

module _ {K V : Type 0} ⦃e : Eq K⦄ where
  -- The index of the last entry with a key, counted from `index`, or `before`.
  unfoldable pub last_index : K → List (K × V) → ℕ → Option ℕ → Option ℕ
  last_index key [] index before = before
  last_index key ((k, v) ∷ entries) index before =
      last_index key entries (index + 1) (if e.beq k key then some index else before)

  -- The value of the last entry with a key, or `before`.
  unfoldable pub last_value : K → List (K × V) → Lookup V → Lookup V
  last_value key [] before = before
  last_value key ((k, v) ∷ entries) before =
      last_value key entries (if e.beq k key then found v else before)

  index_of-collect :
      (key : K) (entries : List (K × V)) (index : ℕ) (m : IndexMap K)
      → index_of key (collect entries index m) ≡ last_index key entries index (index_of key m)
  unfolding collect last_index
  index_of-collect key [] index m = refl
  index_of-collect key ((k, v) ∷ entries) index m =
      index_of-collect key entries (index + 1) (put k index m)
      ∙ ap (last_index key entries (index + 1)) (index_of-put key k index m)

  last_index-concat :
      (key k : K) (v : V) (entries : List (K × V)) (index : ℕ) (before : Option ℕ)
      → last_index key (entries ++ (k, v) ∷ []) index before ≡ (
          if e.beq k key
          then some (index + length entries)
          else last_index key entries index before)
  unfolding last_index
  last_index-concat key k v [] index before = ground arith
  last_index-concat key k v ((j, w) ∷ entries) index before = ground (
    arith,
    last_index-concat key k v entries (index + 1) (if e.beq j key then some index else before),
  )

  -- The map, where it is built, agrees with the vector.
  abbrev pub IsBuilt : List (K × V) → Option (IndexMap K) → Type 0
  IsBuilt entries none = Unit
  IsBuilt entries (some built) = (key : K) → index_of key built ≡ last_index key entries 0 none

  abbrev pub IsValid : LazyIndexMap K V → Type 0
  IsValid m = IsBuilt m.vec m.index_map

  insert-IsBuilt :
      (key : K) (value : V) (entries : List (K × V)) (o : Option (IndexMap K))
      → IsBuilt entries o
      → IsBuilt
          (entries ++ (key, value) ∷ [])
          (elim o [ some built ↦ some (put key (length entries) built) | none ↦ none ])
  insert-IsBuilt key value entries none h = tt
  insert-IsBuilt key value entries (some built) h = λ k.
      let z : 0 + length entries ≡ length entries = omega arith in
      rw (
        last_index-concat k key value entries 0 none,
        z,
        index_of-put k key (length entries) built,
        h k,
      )

  -- `insert` keeps a map that is already built in step with the vector: for every key it holds the
  -- index of the last entry with the key.
  pub insert-IsValid :
      (key : K) (value : V) (m : LazyIndexMap K V) → IsValid m → IsValid (insert key value m)
  unfolding insert
  insert-IsValid key value m h = insert-IsBuilt key value m.vec m.index_map h

  entry_at-last :
      (key : K) (entries all : List (K × V)) (index : ℕ) (o : Option ℕ) (b : Lookup V)
      → drop index all ≡ entries
      → entry_at all o ≡ b
      → entry_at all (last_index key entries index o) ≡ last_value key entries b
  unfolding last_index last_value
  entry_at-last key [] all index o b d h = h
  entry_at-last key ((k, v) ∷ entries) all index o b d h = elim (Bool-cases (e.beq k key)) [
    | inl t ↦ rw t (
        entry_at-last key entries all (index + 1) (some index) (found v) (drop-cons index all d)
          (rw (get_elem?-drop_cons index all d, entry_at)))
    | inr f ↦ rw f (entry_at-last key entries all (index + 1) o b (drop-cons index all d) h)
  ]

  get_map-index_of :
      (key : K) (m : LazyIndexMap K V)
      → IsValid m
      → index_of key (get_map m).0 ≡ last_index key m.vec 0 none
  unfolding get_map index_of
  get_map-index_of key m h = by_cases m.index_map refl h
    where
      by_cases :
          (o : Option (IndexMap K))
          → m.index_map ≡ o
          → IsBuilt m.vec o
          → index_of key (get_map m).0 ≡ last_index key m.vec 0 none
      by_cases none q h = rw q (index_of-collect key m.vec 0 [])
      by_cases (some built) q h = rw q (h key)

  get_map-vec : (m : LazyIndexMap K V) → (get_map m).1.vec ≡ m.vec
  unfolding get_map
  get_map-vec m = ground arith

  pub get_map-IsValid : (m : LazyIndexMap K V) → IsValid m → IsValid (get_map m).1
  unfolding get_map index_of
  get_map-IsValid m h = by_cases m.index_map refl h
    where
      by_cases :
          (o : Option (IndexMap K)) → m.index_map ≡ o → IsBuilt m.vec o → IsValid (get_map m).1
      by_cases none q h = rw q (λ key. index_of-collect key m.vec 0 [])
      by_cases (some built) q h = rw q h

  -- Above the threshold `get` finds the value inserted last with the key, and never panics.
  pub get-large :
      (key : K) (m : LazyIndexMap K V)
      → IsValid m
      → hashmap_threshold < length m.vec
      → (get key m).0 ≡ last_value key m.vec missing
  unfolding get
  get-large key m h l =
      let t : ltb hashmap_threshold (length m.vec) ≡ true = ground arith in
      rw (t, get_map-index_of key m h) (entry_at-last key m.vec m.vec 0 none missing refl refl)

  -- The test of `PartialEq` in a list of keys.
  unfoldable pub has_key : K → List (K × V) → Bool
  has_key key [] = false
  has_key key ((k, v) ∷ entries) = e.beq k key || has_key key entries

  -- The entries that no later entry with the same key follows.
  unfoldable pub keep_last : List (K × V) → List (K × V)
  keep_last [] = []
  keep_last ((k, v) ∷ entries) =
      if has_key k entries then keep_last entries else (k, v) ∷ keep_last entries

  last_index-has_key :
      (key : K) (entries : List (K × V)) (index : ℕ) (before : Option ℕ)
      → ((has_key key entries ≡ false) × (last_index key entries index before ≡ before))
        ⊎ ((has_key key entries ≡ true)
            × ((i : ℕ) × (last_index key entries index before ≡ some i) × (index ≤ i)))
  unfolding last_index has_key
  last_index-has_key key [] index before = inl (refl, refl)
  last_index-has_key key ((k, v) ∷ entries) index before = elim (Bool-cases (e.beq k key)) [
    | inl t ↦ elim (last_index-has_key key entries (index + 1) (some index)) [
      | inl (f, q) ↦ inr (rw t, (index, rw t q, omega arith))
      | inr (f, (i, q, le)) ↦ inr (rw t, (i, rw t q, omega arith))
    ]
    | inr t ↦ elim (last_index-has_key key entries (index + 1) before) [
      | inl (f, q) ↦ inl (rw t f, rw t q)
      | inr (f, (i, q, le)) ↦ inr (rw t f, (i, rw t q, omega arith))
    ]
  ]

  unique_from-keep_last :
      (entries : List (K × V)) (index : ℕ) (built : IndexMap K) (before : K → Option ℕ)
      → ((key : K) → index_of key built ≡ last_index key entries index (before key))
      → unique_from built entries index ≡ keep_last entries
  unfolding unique_from last_index keep_last
  unique_from-keep_last [] index built before h = refl
  unique_from-keep_last ((k, v) ∷ entries) index built before h =
      let ih =
        unique_from-keep_last entries (index + 1) built
          (λ key. if e.beq k key then some index else before key) h in
      let at =
        h k
        ∙ ap (λ b. last_index k entries (index + 1) (if b then some index else before k))
            ((e.beq_iff k k).1 refl) in
      elim (last_index-has_key k entries (index + 1) (some index)) [
        | inl (f, q) ↦ ground (arith, at ∙ q, f, ih)
        | inr (f, (i, q, le)) ↦ ground (arith, at ∙ q, f, ih)
      ]

  -- `iter_unique` yields, in order, the entries that no later entry with the same key follows, whether
  -- the map was built before or not.
  pub iter_unique-keep_last :
      (m : LazyIndexMap K V) → IsValid m → (iter_unique m).0 ≡ keep_last m.vec
  unfolding iter_unique
  iter_unique-keep_last m h =
      unique_from-keep_last m.vec 0 (get_map m).0 (λ _. none) (λ key. get_map-index_of key m h)
