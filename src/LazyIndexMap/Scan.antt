-- ===== src/LazyIndexMap/Scan.antt =====
-- The search of a short `LazyIndexMap`, round the vector from the entry behind the last hit, and what
-- both searches promise for distinct keys.
use native.Mathlib.Nat.{add-mul-mod_self_right, mod-eq_of_lt, mod-lt, div-add-mod'}
use jiter.Prelude.{
  refl, ℕ, zero, suc, ◌+◌, ◌-◌, ◌*◌, ◌/◌, ◌%◌, ◌≤◌, ◌<◌, ◌≡◌, ◌≢◌, false, none, some, List, [], ◌∷◌,
  arith, length, get_elem?, ltb, Bool-cases, Option-cases, inl, inr, ◌⊎◌,
}
use jiter.Prelude.Eq.{Eq}
use jiter.LazyIndexMap.{LazyIndexMap, found, missing, scan, get, hashmap_threshold}

mod_shift : (q r n : ℕ) → r < n → (q * n + r) % n ≡ r
mod_shift q r n h =
    let e : q * n + r ≡ r + q * n = omega arith in
    rw (e, add-mul-mod_self_right r q n) (mod-eq_of_lt h)

-- Every index is met within as many rounds as there are entries, from any start.
round : (first n t : ℕ) → t < n → (j : ℕ) × (j < n) × ((first + j) % n ≡ t)
round first n t h =
    let r = first % n in
    let q = first / n in
    let d : q * n + r ≡ first = div-add-mod' first n in
    let lt : r < n = mod-lt first (omega arith) in
    elim (lt-or-ge t r) [
      | inl l ↦
          let e : first + (t + n - r) ≡ (q + 1) * n + t = omega arith in
          (t + n - r, omega arith, rw e (mod_shift (q + 1) t n h))
      | inr g ↦
          let e : first + (t - r) ≡ q * n + t = omega arith in
          (t - r, omega arith, rw e (mod_shift q t n h))
    ]
  where
    lt-or-ge : (a b : ℕ) → (a < b) ⊎ (b ≤ a)
    lt-or-ge a b = omega arith

module _ {K V : Type 0} ⦃e : Eq K⦄ where
  -- A hit of the scan is an entry with the key.
  scan-hit :
      (n : ℕ) (entries : List (K × V)) (key : K) (i : ℕ) {j : ℕ} {v : V}
      → scan n entries key i ≡ some (j, v)
      → get_elem? entries j ≡ some (key, v)
  unfolding scan
  scan-hit zero entries key i h = cc
  scan-hit (suc n) entries key i h = elim (Option-cases (get_elem? entries (i % length entries))) [
    | inl q ↦ scan-hit n entries key (i + 1) (rw (q, scan) at h)
    | inr ((k, v), q) ↦ elim (Bool-cases (e.beq k key)) [
      | inl t ↦ ground (arith, e.beq_iff k key)
      | inr f ↦ scan-hit n entries key (i + 1) (ground arith)
    ]
  ]

  scan-tail :
      (n : ℕ) (entries : List (K × V)) (key : K) (i : ℕ)
      → scan (suc n) entries key i ≡ none
      → scan n entries key (i + 1) ≡ none
  unfolding scan
  scan-tail n entries key i h = ground arith

  -- Where the scan finds nothing, no entry that it meets has the key.
  scan-miss :
      (n : ℕ) (entries : List (K × V)) (key : K) (i : ℕ)
      → scan n entries key i ≡ none
      → (j : ℕ) → j < n
      → (k : K) (v : V) → get_elem? entries ((i + j) % length entries) ≡ some (k, v)
      → k ≢ key
  unfolding scan
  scan-miss zero entries key i h j l k v g = absurd (omega arith)
  scan-miss (suc n) entries key i h zero l k v g =
      let z : i + 0 ≡ i = omega arith in λ q. ground (arith, rw z at g, (e.beq_iff k key).1 q)
  scan-miss (suc n) entries key i h (suc j) l k v g =
      let z : i + 1 + j ≡ i + suc j = omega arith in
      scan-miss n entries key (i + 1) (scan-tail n entries key i h) j (omega arith) k v (rw z g)

  -- An index at which the key stands.
  abbrev pub Holds : List (K × V) → K → V → ℕ → Type 0
  Holds entries key v i = get_elem? entries i ≡ some (key, v)

  pub lt_of_get :
      (entries : List (K × V)) (i : ℕ) {x : K × V}
      → get_elem? entries i ≡ some x
      → i < length entries
  lt_of_get [] i h = cc
  lt_of_get (x ∷ entries) zero h = omega arith
  lt_of_get (x ∷ entries) (suc i) h = omega (arith, lt_of_get entries i h)

  -- Up to the threshold `get` finds the key exactly where some entry has it, whatever was found
  -- before; the value is that of an entry with the key.
  pub get-small :
      (key : K) (m : LazyIndexMap K V)
      → length m.vec ≤ hashmap_threshold
      → ((i : ℕ) × (v : V) × ((get key m).0 ≡ found v)
          × Holds m.vec key v i
          × ((get key m).1.last_find ≡ i))
        ⊎ (((get key m).0 ≡ missing)
            × ((i : ℕ) (k : K) (v : V) → get_elem? m.vec i ≡ some (k, v) → k ≢ key))
  unfolding get
  get-small key m l =
      let t : ltb hashmap_threshold (length m.vec) ≡ false = ground arith in
      elim (Option-cases (scan (length m.vec) m.vec key (m.last_find + 1))) [
        | inl q ↦ inr (
          rw (t, q),
          λ i k v g.
              let (j, lt, at) = round (m.last_find + 1) (length m.vec) i (lt_of_get m.vec i g) in
              scan-miss (length m.vec) m.vec key (m.last_find + 1) q j lt k v (rw at g),
        )
        | inr ((i, v), q) ↦
            inl (i, v, rw (t, q), scan-hit (length m.vec) m.vec key (m.last_find + 1) q, rw (t, q))
      ]

  -- The scan ends at the first entry with the key that it meets.
  scan-nearest :
      (n k : ℕ) (entries : List (K × V)) (key : K) (v : V) (i : ℕ)
      → k < n
      → Holds entries key v ((i + k) % length entries)
      → ((j : ℕ) → j < k → (w : V) → Holds entries key w ((i + j) % length entries) → ⊥)
      → scan n entries key i ≡ some ((i + k) % length entries, v)
  unfolding scan
  scan-nearest zero k entries key v i l h before = absurd (omega arith)
  scan-nearest (suc n) zero entries key v i l h before =
      let z : i + 0 ≡ i = omega arith in
      let g : get_elem? entries (i % length entries) ≡ some (key, v) = rw z at h in
      rw (z, scan, g, (e.beq_iff key key).1 refl) refl
  scan-nearest (suc n) (suc k) entries key v i l h before =
      let s : i + suc k ≡ i + 1 + k = omega arith in
      let rest = scan-nearest n k entries key v (i + 1) (omega arith) (rw s at h) λ j lt w g.
        let t : i + 1 + j ≡ i + suc j = omega arith in before (suc j) (omega arith) w (rw t at g) in
      let z : i + 0 ≡ i = omega arith in
      elim (Option-cases (get_elem? entries (i % length entries))) [
        | inl q ↦ rw (s, scan, q) rest
        | inr ((c, w), q) ↦ elim (Bool-cases (e.beq c key)) [
          | inl t ↦
              let same : c ≡ key = (e.beq_iff c key).0 t in
              absurd (before 0 (omega arith) w (rw z (rw same at q)))
          | inr f ↦ rw (s, scan, q, f) rest
        ]
      ]

  -- In a map of at most 16 entries `get` returns the value of the entry with the key that comes
  -- first behind the one found last, round the vector, and stores its index: where a key was
  -- inserted twice, the answer goes by what was found before.
  pub get-nearest :
      (key : K) (m : LazyIndexMap K V) (v : V) (n : ℕ)
      → length m.vec ≤ hashmap_threshold
      → n < length m.vec
      → Holds m.vec key v ((m.last_find + 1 + n) % length m.vec)
      → ((j : ℕ) → j < n → (w : V) → Holds m.vec key w ((m.last_find + 1 + j) % length m.vec) → ⊥)
      → get key m ≡ (found v, record m { last_find = (m.last_find + 1 + n) % length m.vec })
  unfolding get
  get-nearest key m v n l lt h before =
      let t : ltb hashmap_threshold (length m.vec) ≡ false = ground arith in
      rw (t, scan-nearest (length m.vec) n m.vec key v (m.last_find + 1) lt h before) refl
