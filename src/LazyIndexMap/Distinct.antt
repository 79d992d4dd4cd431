-- ===== src/LazyIndexMap/Distinct.antt =====
-- What `get` promises where all keys differ.
use jiter.Prelude.{
  ℕ, zero, suc, ◌≤◌, ◌<◌, ◌≡◌, ◌∙◌, refl, ap, sym, false, List, [], ◌∷◌, arith, length, Bool-cases,
  inl, inr, ◌⊎◌, if◌then◌else◌,
}
use jiter.Prelude.Eq.{Eq}
use jiter.LazyIndexMap.{LazyIndexMap, Lookup, found, missing, get, hashmap_threshold}
use jiter.LazyIndexMap.Index.{last_value, IsValid, get-large}
use jiter.LazyIndexMap.Scan.{Holds, get-small}

module _ {K V : Type 0} ⦃e : Eq K⦄ where
  -- No two entries have one key.
  abbrev pub IsDistinct : List (K × V) → Type 0
  IsDistinct entries =
      (key : K) (v w : V) (i j : ℕ) → Holds entries key v i → Holds entries key w j → i ≡ j

  last_value-cases :
      (key : K) (entries : List (K × V)) (before : Lookup V)
      → ((i : ℕ) × (v : V) × (last_value key entries before ≡ found v) × Holds entries key v i)
        ⊎ ((last_value key entries before ≡ before) × ((i : ℕ) (v : V) → Holds entries key v i → ⊥))
  unfolding last_value
  last_value-cases key [] before = inr (refl, λ i v h. cc)
  last_value-cases key ((k, w) ∷ entries) before =
      elim (last_value-cases key entries (if e.beq k key then found w else before)) [
        | inl (i, v, h, g) ↦ inl (suc i, v, h, g)
        | inr (h, absent) ↦ elim (Bool-cases (e.beq k key)) [
          | inl t ↦ inl (0, w, h ∙ rw t, ground (arith, e.beq_iff k key))
          | inr f ↦ inr (h ∙ rw f, absent_cons key k w entries f absent)
        ]
      ]
    where
      absent_cons :
          (key k : K) (w : V) (entries : List (K × V))
          → e.beq k key ≡ false
          → ((i : ℕ) (v : V) → Holds entries key v i → ⊥)
          → (i : ℕ) (v : V) → Holds ((k, w) ∷ entries) key v i
          → ⊥
      absent_cons key k w entries f absent zero v h = ground (arith, e.beq_iff k key)
      absent_cons key k w entries f absent (suc i) v h = absent i v h

  same_value :
      (entries : List (K × V)) (key : K) (v w : V) (i j : ℕ)
      → i ≡ j
      → Holds entries key v i
      → Holds entries key w j
      → v ≡ w
  same_value entries key v w i j q h g = cc

  get-small_distinct :
      (key : K) (m : LazyIndexMap K V)
      → IsDistinct m.vec
      → length m.vec ≤ hashmap_threshold
      → (get key m).0 ≡ last_value key m.vec missing
  get-small_distinct key m d l = elim (get-small key m l) [
    | inl (i, v, g, h, _) ↦ elim (last_value-cases key m.vec missing) [
      | inl (j, w, q, k) ↦
          g ∙ ap found (same_value m.vec key v w i j (d key v w i j h k) h k) ∙ sym q
      | inr (q, absent) ↦ absurd (absent i v h)
    ]
    | inr (g, absent) ↦ elim (last_value-cases key m.vec missing) [
      | inl (j, w, q, k) ↦ absurd (absent j key w k refl)
      | inr (q, _) ↦ g ∙ sym q
    ]
  ]

  -- Where all keys differ, `get` finds the value inserted with the key, and nothing for any other key:
  -- below and above the threshold, with the map built or not, whatever was looked up before.
  pub get-distinct :
      (key : K) (m : LazyIndexMap K V)
      → IsValid m
      → IsDistinct m.vec
      → (get key m).0 ≡ last_value key m.vec missing
  get-distinct key m h d = elim (small-or-large (length m.vec)) [
    | inl l ↦ get-small_distinct key m d l
    | inr g ↦ get-large key m h g
  ]
    where
      small-or-large : (n : ℕ) → (n ≤ hashmap_threshold) ⊎ (hashmap_threshold < n)
      small-or-large n = omega arith
