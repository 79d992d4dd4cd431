-- ===== src/LazyIndexMap.antt =====
-- `LazyIndexMap` of crates/jiter/src/lazy_index_map.rs: a vector of entries, and a map from keys to
-- indices that is built when it is first needed. A method that takes `&self` and stores into the
-- `OnceLock` or the `AtomicUsize` returns the new state.
pub mod Index
pub mod Scan
pub mod Distinct
use jiter.Prelude.{
  ℕ, zero, suc, ◌+◌, ◌%◌, Bool, true, false, Option, none, some, List, [], ◌∷◌, ◌++◌, length,
  get_elem?, ltb, ◌==◌, map, if◌then◌else◌,
}
use jiter.Prelude.Eq.{Eq}

abbrev pub hashmap_threshold : ℕ
hashmap_threshold = 16

-- A `HashMap` from keys to indices, as an association list.
abbrev pub IndexMap : Type 0 → Type 0
IndexMap K = List (K × ℕ)

pub record LazyIndexMap (K V : Type 0) : Type 0 where
  pub vec : List (K × V)
  pub index_map : Option (IndexMap K)
  pub last_find : ℕ

-- What a lookup gives: `Option<&V>`, or a panic for an index out of range.
pub data Lookup (V : Type 0) : Type 0 where
  found : V → Lookup V
  missing panics : Lookup V

module _ {K : Type 0} ⦃e : Eq K⦄ where
  -- `HashMap::get` and `HashMap::insert`.
  unfoldable pub index_of : K → IndexMap K → Option ℕ
  index_of key [] = none
  index_of key ((k, i) ∷ m) = if e.beq k key then some i else index_of key m

  unfoldable pub put : K → ℕ → IndexMap K → IndexMap K
  put key i [] = (key, i) ∷ []
  put key i ((k, j) ∷ m) = if e.beq k key then (key, i) ∷ m else (k, j) ∷ put key i m

module _ {K V : Type 0} ⦃e : Eq K⦄ where
  abbrev pub new : LazyIndexMap K V
  new = record { vec = []; index_map = none; last_find = 0 }

  -- `map.insert(key.clone(), self.vec.len())` where the map is built.
  unfoldable pub insert : K → V → LazyIndexMap K V → LazyIndexMap K V
  unfolding put
  insert key value m = record {
    vec = m.vec ++ (key, value) ∷ [];
    index_map = elim m.index_map [ some built ↦ some (put key (length m.vec) built) | none ↦ none ];
    last_find = m.last_find;
  }

  -- `iter().enumerate().map(..).collect()`: each key is inserted in turn.
  unfoldable pub collect : List (K × V) → ℕ → IndexMap K → IndexMap K
  unfolding put
  collect [] index built = built
  collect ((k, v) ∷ entries) index built = collect entries (index + 1) (put k index built)

  unfoldable pub get_map : LazyIndexMap K V → IndexMap K × LazyIndexMap K V
  unfolding collect
  get_map m = elim m.index_map [
    | some built ↦ (built, m)
    | none ↦ (collect m.vec 0 [], record m { index_map = some (collect m.vec 0 []) })
  ]

  unfoldable pub len : LazyIndexMap K V → ℕ × LazyIndexMap K V
  unfolding get_map
  len m = let (built, m') = get_map m in (length built, m')

  unfoldable pub is_empty : LazyIndexMap K V → Bool
  is_empty m = length m.vec == 0

  -- The `for` of `get`, by the rounds left: the first entry with the key from `i` on, modulo the
  -- length.
  unfoldable pub scan : ℕ → List (K × V) → K → ℕ → Option (ℕ × V)
  scan zero entries key i = none
  scan (suc n) entries key i =
      let rest = scan n entries key (i + 1) in
      elim (get_elem? entries (i % length entries)) [
        | some (k, v) ↦ if e.beq k key then some (i % length entries, v) else rest
        | none ↦ rest
      ]

  -- `&self.vec[i].1` for an index of the map.
  abbrev pub entry_at : List (K × V) → Option ℕ → Lookup V
  entry_at entries none = missing
  entry_at entries (some i) = elim (get_elem? entries i) [ some (k, v) ↦ found v | none ↦ panics ]

  unfoldable pub get : K → LazyIndexMap K V → Lookup V × LazyIndexMap K V
  unfolding get_map index_of scan
  get key m =
      let by_map : Lookup V × LazyIndexMap K V =
        let (built, m') = get_map m in (entry_at m.vec (index_of key built), m') in
      let by_scan : Lookup V × LazyIndexMap K V =
        elim (scan (length m.vec) m.vec key (m.last_find + 1)) [
          | some (i, v) ↦ (found v, record m { last_find = i })
          | none ↦ (missing, m)
        ] in
      if ltb hashmap_threshold (length m.vec) then by_map else by_scan

  abbrev pub keys : LazyIndexMap K V → List K
  keys m = map (λ (entry : K × V). entry.0) m.vec

  -- `IterUnique::next` run to the end, with `index` at the entries left.
  unfoldable pub unique_from : IndexMap K → List (K × V) → ℕ → List (K × V)
  unfolding index_of
  unique_from built [] index = []
  unique_from built ((k, v) ∷ entries) index =
      let rest = unique_from built entries (index + 1) in
      elim (index_of k built) [ some i ↦ if i == index then (k, v) ∷ rest else rest | none ↦ rest ]

  unfoldable pub iter_unique : LazyIndexMap K V → List (K × V) × LazyIndexMap K V
  unfolding get_map unique_from
  iter_unique m = let (built, m') = get_map m in (unique_from built m.vec 0, m')
