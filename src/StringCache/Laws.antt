-- ===== src/StringCache/Laws.antt =====
-- What the cache of crates/jiter/src/py_string_cache.rs returns and keeps.
use jiter.Prelude.{
  ℕ, zero, suc, ◌+◌, ◌%◌, ◌≤◌, ◌<◌, ◌≡◌, refl, sym, ap, subst, ◌∙◌, Bool, true, false, none, some,
  [], ◌∷◌, arith, Bytes, length, All, All-set, length-set, length-replicate, some-injective, set,
  replicate, ltb,
}
use jiter.Strings.Utf8.Ascii.{all_ascii}
use jiter.StringCache.{
  PyStrings, PyStringLaws, Entries, Entry, Probe, hit, vacant, exhausted, probe, slots, capacity,
  default, pystring_fast_new, pystring_ascii_new, set_entry, probed, get_or_insert, usage, clear,
}
use jiter.StringCache.Window.{probe-hit, probe-again, probe-first}

mod-lt : (a : ℕ) → a % capacity < capacity
mod-lt a = omega arith

module _ (P : PyStrings) where
  open P use {Python, PyString, text, hash_one}

  -- An entry holds the hash of its text, and there are as many entries as the capacity.
  abbrev pub Keeps : Entry P → Type 0
  Keeps none = Unit
  Keeps (some (entry_hash, o)) = entry_hash ≡ hash_one (text o)

  abbrev pub IsCache : Entries P → Type 0
  IsCache entries = (length entries ≡ capacity) × All Keeps entries

  All-replicate : (n : ℕ) → All Keeps (replicate n none)
  All-replicate zero = tt
  All-replicate (suc n) = (tt, All-replicate n)

  pub default-IsCache : IsCache (default P)
  unfolding default
  default-IsCache = (length-replicate {A = Entry P} capacity none, All-replicate capacity)

  pub usage-clear : (entries : Entries P) → usage P (clear P entries) ≡ 0
  unfolding usage clear
  usage-clear [] = refl
  usage-clear (e ∷ entries) = usage-clear entries

  usage-replicate : (n : ℕ) → usage P (replicate n none) ≡ 0
  unfolding usage
  usage-replicate zero = refl
  usage-replicate (suc n) = usage-replicate n

  pub usage-default : usage P (default P) ≡ 0
  unfolding default
  usage-default = usage-replicate capacity

  length-clear : (entries : Entries P) → length (clear P entries) ≡ length entries
  unfolding clear
  length-clear [] = refl
  length-clear (e ∷ entries) = omega (arith, length-clear entries)

  All-clear : (entries : Entries P) → All Keeps (clear P entries)
  unfolding clear
  All-clear [] = tt
  All-clear (e ∷ entries) = (tt, All-clear entries)

  pub clear-IsCache : (entries : Entries P) → IsCache entries → IsCache (clear P entries)
  clear-IsCache entries c = (length-clear entries ∙ c.0, All-clear entries)

  usage-set :
      (entries : Entries P) (i : ℕ) (k : ℕ) (o : PyString)
      → (usage P entries ≤ usage P (set entries i (some (k, o))))
        × (usage P (set entries i (some (k, o))) ≤ usage P entries + 1)
  unfolding usage
  usage-set [] i k o = omega arith
  usage-set (none ∷ entries) zero k o = omega arith
  usage-set (some e ∷ entries) zero k o = omega arith
  usage-set (none ∷ entries) (suc i) k o = usage-set entries i k o
  usage-set (some e ∷ entries) (suc i) k o = omega (arith, usage-set entries i k o)

  pub pystring_fast_new-text :
      (laws : PyStringLaws P) (s : Bytes) (ascii_only : Bool) (py : Python)
      → (ascii_only ≡ true → all_ascii s ≡ true)
      → text (pystring_fast_new P s ascii_only py).0 ≡ s
  unfolding pystring_fast_new pystring_ascii_new
  pystring_fast_new-text laws s true py h = laws.text-unicode_new (length s) s py refl (h refl)
  pystring_fast_new-text laws s false py h = laws.text-new s py

  -- What a lookup gives: a string with the text, a cache again, and at most one more entry, and none
  -- less.
  pub record Cached (entries : Entries P) (s : Bytes) (r : PyString × Entries P × Python)
      : Type 0 where
    pub same_text : text r.0 ≡ s
    pub keeps_hashes : IsCache r.1
    pub grows : usage P entries ≤ usage P r.1
    pub bounded : usage P r.1 ≤ usage P entries + 1

  set_entry-Cached :
      (laws : PyStringLaws P) (entries : Entries P) (i : ℕ) (s : Bytes) (ascii_only : Bool)
      (py : Python)
      → IsCache entries
      → (ascii_only ≡ true → all_ascii s ≡ true)
      → Cached entries s (set_entry P entries i s ascii_only py)
  unfolding set_entry
  set_entry-Cached laws entries i s ascii_only py c h =
      let o = (pystring_fast_new P s ascii_only py).0 in
      let t : text o ≡ s = pystring_fast_new-text laws s ascii_only py h in
      record {
        same_text = t;
        keeps_hashes = (
          length-set entries i (some (hash_one s, o)) ∙ c.0,
          All-set Keeps entries i (some (hash_one s, o)) c.1 (ap hash_one (sym t)),
        );
        grows = (usage-set entries i (hash_one s) o).0;
        bounded = (usage-set entries i (hash_one s) o).1;
      }

  probed-Cached :
      (laws : PyStringLaws P) (entries : Entries P) (index : ℕ) (s : Bytes) (ascii_only : Bool)
      (py : Python) (r : Probe PyString)
      → IsCache entries
      → index < capacity
      → (ascii_only ≡ true → all_ascii s ≡ true)
      → ((o : PyString) → r ≡ hit o → text o ≡ s)
      → (q : PyString × Entries P × Python) × (probed P entries index s ascii_only py r ≡ some q)
        × Cached entries s q
  unfolding probed
  probed-Cached laws entries index s ascii_only py (hit o) c l h k = (
    (o, entries, py),
    refl,
    record { same_text = k o refl; keeps_hashes = c; grows = omega arith; bounded = omega arith },
  )
  probed-Cached laws entries index s ascii_only py (vacant i) c l h k = (
    set_entry P entries i s ascii_only py,
    refl,
    set_entry-Cached laws entries i s ascii_only py c h,
  )
  probed-Cached laws entries index s ascii_only py exhausted c l h k =
      let inside : ltb index (length entries) ≡ true = ground (arith, c.0) in
      (
        set_entry P entries index s ascii_only py,
        rw inside,
        set_entry-Cached laws entries index s ascii_only py c h,
      )

  -- On a cache whose entries hold the hashes of their texts, `get_or_insert` does not panic: it returns
  -- a string with the text asked for, whatever the hash function collides on, and a cache of the same
  -- kind with no entry fewer and at most one more.
  pub get_or_insert-Cached :
      (laws : PyStringLaws P) (entries : Entries P) (s : Bytes) (ascii_only : Bool) (py : Python)
      → IsCache entries
      → (ascii_only ≡ true → all_ascii s ≡ true)
      → (q : PyString × Entries P × Python) × (get_or_insert P entries s ascii_only py ≡ some q)
        × Cached entries s q
  unfolding get_or_insert
  get_or_insert-Cached laws entries s ascii_only py c h =
      let index = hash_one s % capacity in
      probed-Cached laws entries index s ascii_only py (probe P slots entries s index) c
        (mod-lt (hash_one s)) h (probe-hit P slots entries s index)

  -- The string is found in the entries that a lookup leaves.
  abbrev IsHit : ℕ → Bytes → PyString × Entries P × Python → Type 0
  IsHit index s q = probe P slots q.1 s index ≡ hit q.0

  probed-again :
      (laws : PyStringLaws P) (entries : Entries P) (index : ℕ) (s : Bytes) (ascii_only : Bool)
      (py : Python) (r : Probe PyString) (q : PyString × Entries P × Python)
      → index < length entries
      → (ascii_only ≡ true → all_ascii s ≡ true)
      → probe P slots entries s index ≡ r
      → probed P entries index s ascii_only py r ≡ some q
      → IsHit index s q
  unfolding probed set_entry
  probed-again laws entries index s ascii_only py (hit o) q l h e k =
      subst (IsHit index s) (some-injective k) e
  probed-again laws entries index s ascii_only py (vacant i) q l h e k =
      subst (IsHit index s) (some-injective k) (
        probe-again P slots entries s index i (pystring_fast_new P s ascii_only py).0 e
          (pystring_fast_new-text laws s ascii_only py h))
  probed-again laws entries index s ascii_only py exhausted q l h e k =
      let inside : ltb index (length entries) ≡ true = ground arith in
      subst (IsHit index s) (some-injective (rw inside at k)) (
        probe-first P 4 entries s index (pystring_fast_new P s ascii_only py).0 l
          (pystring_fast_new-text laws s ascii_only py h))

  -- The entries that a lookup leaves hold the string that it returns, where the next one looks.
  pub get_or_insert-probe :
      (laws : PyStringLaws P) (entries : Entries P) (s : Bytes) (ascii_only : Bool) (py : Python)
      (q : PyString × Entries P × Python)
      → IsCache entries
      → (ascii_only ≡ true → all_ascii s ≡ true)
      → get_or_insert P entries s ascii_only py ≡ some q
      → probe P slots q.1 s (hash_one s % capacity) ≡ hit q.0
  unfolding get_or_insert
  get_or_insert-probe laws entries s ascii_only py q c h e =
      let index = hash_one s % capacity in
      let low : index < length entries = omega (arith, c.0, mod-lt (hash_one s)) in
      probed-again laws entries index s ascii_only py (probe P slots entries s index) q low h refl e

  -- A second lookup of the text gives the very string of the first, and leaves the cache and the
  -- interpreter as they are: no string is made again.
  pub get_or_insert-again :
      (laws : PyStringLaws P) (entries : Entries P) (s : Bytes) (first second : Bool)
      (py later : Python) (q : PyString × Entries P × Python)
      → IsCache entries
      → (first ≡ true → all_ascii s ≡ true)
      → get_or_insert P entries s first py ≡ some q
      → get_or_insert P q.1 s second later ≡ some (q.0, q.1, later)
  unfolding get_or_insert probed
  get_or_insert-again laws entries s first second py later q c h e =
      rw (get_or_insert-probe laws entries s first py q c h e)
