-- ===== src/StringCache/Serving.antt =====
-- How the modes of crates/jiter/src/py_string_cache.rs serve a string: from the cache, or beside it.
use jiter.Prelude.{
  ℕ, ◌+◌, ◌%◌, ◌≤◌, ◌≡◌, refl, Bool, true, false, ◌&&◌, Option, none, some, arith, Bytes, length,
  leb, ltb, Bool-cases, inl, inr,
}
use jiter.Strings.Utf8.Ascii.{all_ascii}
use jiter.StringCache.{
  PyStrings, PyStringLaws, Entries, hit, probe, slots, capacity, usage, get_string_cache, default,
  pystring_fast_new, uncached, cached_py_string, stored,
}
use jiter.StringCache.Laws.{
  get_or_insert-Cached, get_or_insert-probe, pystring_fast_new-text, usage-clear, usage-default,
}
use jiter.StringCache.Mode.{
  StringCacheMode, all, keys, no_cache, get_key, get_value, IsShared, Made,
  get_string_cache-IsCache,
}

-- The strings that go through the cache: of 2 to 63 bytes, and by the mode all of them, only the keys
-- of objects, or none.
unfoldable pub asks_cache : StringCacheMode → Bool → Bytes → Bool
asks_cache all is_key s = leb 2 (length s) && leb (length s) 63
asks_cache keys is_key s = is_key && leb 2 (length s) && leb (length s) 63
asks_cache no_cache is_key s = false

module _ (P : PyStrings) where
  open P use {Python, PyString, text, hash_one}

  -- How many entries the static holds, with those forgotten that a poisoned lock was held for.
  abbrev pub held : Bool → Option (Entries P) → ℕ
  held true cache = 0
  held false none = 0
  held false (some entries) = usage P entries

  -- What a string leaves in the static: the cache with this very object where the next search for the
  -- text looks, beside those that were held, but for one that it may have replaced; or the static as it
  -- was.
  abbrev pub Leaves :
      Bool → Bool → Bytes → Option (Entries P) → PyString → Option (Entries P) → Type 0
  Leaves false poisoned s cache o after = after ≡ cache
  Leaves true poisoned s cache o after =
      (entries : Entries P) × (after ≡ some entries)
      × (probe P slots entries s (hash_one s % capacity) ≡ hit o)
      × (held poisoned cache ≤ usage P entries)
      × (usage P entries ≤ held poisoned cache + 1)

  abbrev pub Serves : Bool → Bool → Bytes → Option (Entries P) → Made P → Type 0
  Serves asks poisoned s cache r =
      (q : PyString × Option (Entries P) × Python) × (r ≡ some q)
      × (text q.0 ≡ s)
      × Leaves asks poisoned s cache q.0 q.1

  module _ (laws : PyStringLaws P) where
    uncached-Serves :
        (poisoned : Bool) (s : Bytes) (ascii_only : Bool) (cache : Option (Entries P)) (py : Python)
        → (ascii_only ≡ true → all_ascii s ≡ true)
        → Serves false poisoned s cache (uncached P s ascii_only (cache, py))
    unfolding uncached
    uncached-Serves poisoned s ascii_only cache py h =
        let (o, py') = pystring_fast_new P s ascii_only py in
        ((o, cache, py'), refl, pystring_fast_new-text P laws s ascii_only py h, refl)

    usage-held :
        (poisoned : Bool) (cache : Option (Entries P))
        → usage P (get_string_cache P poisoned cache) ≡ held poisoned cache
    unfolding get_string_cache
    usage-held true none = usage-clear P (default P)
    usage-held true (some entries) = usage-clear P entries
    usage-held false none = usage-default P
    usage-held false (some entries) = refl

    cached-Serves :
        (poisoned : Bool) (s : Bytes) (ascii_only : Bool) (cache : Option (Entries P)) (py : Python)
        → IsShared P cache
        → (ascii_only ≡ true → all_ascii s ≡ true)
        → Serves
            (leb 2 (length s) && leb (length s) 63)
            poisoned
            s
            cache
            (cached_py_string P poisoned s ascii_only (cache, py))
    unfolding cached_py_string stored
    cached-Serves poisoned s ascii_only cache py c h =
        elim (Bool-cases (leb 2 (length s) && leb (length s) 63)) [
          | inl e ↦
              let t : (leb 2 (length s) && ltb (length s) 64) ≡ true = ground arith in
              let entries = get_string_cache P poisoned cache in
              let i = get_string_cache-IsCache P poisoned cache c in
              let (q, r, m) = get_or_insert-Cached P laws entries s ascii_only py i h in
              let n = usage-held poisoned cache in
              rw (e, t, r)
                (
                  (q.0, some q.1, q.2),
                  refl,
                  m.same_text,
                  (
                    q.1,
                    refl,
                    get_or_insert-probe P laws entries s ascii_only py q i h r,
                    omega (arith, m.grows, n),
                    omega (arith, m.bounded, n),
                  ),
                )
          | inr e ↦
              let t : (leb 2 (length s) && ltb (length s) 64) ≡ false = ground arith in
              rw (e, t) (uncached-Serves poisoned s ascii_only cache py h)
        ]

    -- Where a new Python string has the text it is made of, each mode returns a string with the
    -- text that was parsed, for a key and for a value. Keys and values of 2 to 63 bytes go through
    -- the cache in the mode `all`, only such keys in the mode `keys`, and no string in the mode
    -- `none`: the cache then holds this very object where it looks for the text the next time, with
    -- no entry fewer than before and at most one more, counted from none behind a poisoned lock.
    -- All other strings leave the cache as it is.
    pub get_key-Serves :
        (mode : StringCacheMode) (poisoned : Bool) (s : Bytes) (ascii_only : Bool)
        (cache : Option (Entries P)) (py : Python)
        → IsShared P cache
        → (ascii_only ≡ true → all_ascii s ≡ true)
        → Serves
            (asks_cache mode true s)
            poisoned
            s
            cache
            (get_key P mode poisoned s ascii_only (cache, py))
          × Serves
              (asks_cache mode false s)
              poisoned
              s
              cache
              (get_value P mode poisoned s ascii_only (cache, py))
    unfolding get_key get_value asks_cache
    get_key-Serves all poisoned s ascii_only cache py c h = (
      cached-Serves poisoned s ascii_only cache py c h,
      cached-Serves poisoned s ascii_only cache py c h,
    )
    get_key-Serves keys poisoned s ascii_only cache py c h = (
      cached-Serves poisoned s ascii_only cache py c h,
      uncached-Serves poisoned s ascii_only cache py h,
    )
    get_key-Serves no_cache poisoned s ascii_only cache py c h = (
      uncached-Serves poisoned s ascii_only cache py h,
      uncached-Serves poisoned s ascii_only cache py h,
    )
