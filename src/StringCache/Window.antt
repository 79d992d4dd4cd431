-- ===== src/StringCache/Window.antt =====
-- The slots that `get_or_insert` of crates/jiter/src/py_string_cache.rs looks at.
use jiter.Prelude.{
  ℕ, zero, suc, ◌+◌, ◌<◌, ◌≡◌, none, some, arith, Bytes, length, get_elem?, set, get_elem?-set_self,
  get_elem?-set_ne, get_elem?-bound, ◌==◌, Bool-cases, Option-cases, inl, inr,
}
use jiter.Parse.Ident.{bytes_eq_iff}
use jiter.StringCache.{PyStrings, Entries, Entry, hit, vacant, probe}

module _ (P : PyStrings) where
  open P use {PyString, text, hash_one}

  pub probe-hit :
      (n : ℕ) (entries : Entries P) (s : Bytes) (index : ℕ) (o : PyString)
      → probe P n entries s index ≡ hit o
      → text o ≡ s
  unfolding probe
  probe-hit zero entries s index o h = cc
  probe-hit (suc n) entries s index o h = elim (Option-cases (get_elem? entries index)) [
    | inl e ↦ ground arith
    | inr (none, e) ↦ ground arith
    | inr (some (k, x), e) ↦
        ground (arith, probe-hit n entries s (index + 1) o, bytes_eq_iff (text x) s)
  ]

  pub probe-vacant :
      (n : ℕ) (entries : Entries P) (s : Bytes) (index i : ℕ)
      → probe P n entries s index ≡ vacant i
      → get_elem? entries i ≡ some none
  unfolding probe
  probe-vacant zero entries s index i h = cc
  probe-vacant (suc n) entries s index i h = ground (arith, probe-vacant n entries s (index + 1) i)

  -- The string that is put into the empty slot is found again.
  pub probe-again :
      (n : ℕ) (entries : Entries P) (s : Bytes) (index i : ℕ) (o : PyString)
      → probe P n entries s index ≡ vacant i
      → text o ≡ s
      → probe P n (set entries i (some (hash_one s, o))) s index ≡ hit o
  unfolding probe
  probe-again zero entries s index i o h e = cc
  probe-again (suc n) entries s index i o h e =
      let new : Entry P = some (hash_one s, o) in
      elim (Bool-cases (i == index)) [
        | inl same ↦
            let at : i ≡ index = ground arith in
            let low : i < length entries =
              get_elem?-bound entries i (probe-vacant (suc n) entries s index i h) in
            rw (← at, get_elem?-set_self entries i new low, probe)
              (ground (arith, bytes_eq_iff (text o) s))
        | inr other ↦
            ground
              (arith, get_elem?-set_ne entries i index new, probe-again n entries s (index + 1) i o)
      ]

  -- So is one that is put into the first slot.
  pub probe-first :
      (n : ℕ) (entries : Entries P) (s : Bytes) (index : ℕ) (o : PyString)
      → index < length entries
      → text o ≡ s
      → probe P (suc n) (set entries index (some (hash_one s, o))) s index ≡ hit o
  unfolding probe
  probe-first n entries s index o h e =
      rw (get_elem?-set_self entries index (some (hash_one s, o)) h, probe)
        (ground (arith, bytes_eq_iff (text o) s))
