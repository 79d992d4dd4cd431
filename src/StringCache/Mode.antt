-- ===== src/StringCache/Mode.antt =====
-- `StringCacheMode` of crates/jiter/src/py_string_cache.rs, and the strings that each mode makes for
-- the keys of an object and for its values.
use jiter.Prelude.{
  ◌≡◌, refl, Bool, true, false, Option, none, some, Bytes, [], ◌∷◌, length, ltb, leb, ◌&&◌,
  if◌then◌else◌, Bool-cases, inl, inr,
}
use jiter.Parse.{bytes_eq}
use jiter.Strings.Utf8.Ascii.{all_ascii}
use jiter.StringCache.{
  PyStrings, PyStringLaws, Entries, pystring_fast_new, cached_py_string, uncached, get_string_cache,
  default, stored,
}
use jiter.StringCache.Laws.{
  IsCache, get_or_insert-Cached, pystring_fast_new-text, default-IsCache, clear-IsCache,
}

pub data StringCacheMode : Type 0 where
  all keys no_cache : StringCacheMode

-- `From<bool>`.
unfoldable pub string_cache_mode_from : Bool → StringCacheMode
string_cache_mode_from mode = if mode then all else no_cache

-- The Python objects that `extract_bound` tells apart, and the exceptions that it raises.
pub data ModeArgument : Type 0 where
  from_bool : Bool → ModeArgument
  from_str : Bytes → ModeArgument
  other : ModeArgument

pub data Extracted (A : Type 0) : Type 0 where
  extracted : A → Extracted A
  value_error type_error : Extracted A

abbrev all_name : Bytes
all_name = b'a' ∷ b'l' ∷ b'l' ∷ []

abbrev keys_name : Bytes
keys_name = b'k' ∷ b'e' ∷ b'y' ∷ b's' ∷ []

abbrev none_name : Bytes
none_name = b'n' ∷ b'o' ∷ b'n' ∷ b'e' ∷ []

unfoldable pub extract_string_cache_mode : ModeArgument → Extracted StringCacheMode
unfolding string_cache_mode_from bytes_eq
extract_string_cache_mode (from_bool mode) = extracted (string_cache_mode_from mode)
extract_string_cache_mode (from_str name) =
    if bytes_eq name all_name
    then extracted all
    else if bytes_eq name keys_name
    then extracted keys
    else if bytes_eq name none_name
    then extracted no_cache
    else value_error
extract_string_cache_mode other = type_error

module _ (P : PyStrings) where
  open P use {Python, PyString, text}

  -- The state that the functions share: the static cache, and the interpreter.
  abbrev pub Shared : Type 0
  Shared = Option (Entries P) × Python

  abbrev pub Made : Type 0
  Made = Option (PyString × Option (Entries P) × Python)

  -- `StringMaybeCache::get_key` and `get_value`, by the mode.
  unfoldable pub get_key : StringCacheMode → Bool → Bytes → Bool → Shared → Made
  unfolding cached_py_string uncached
  get_key all poisoned s ascii_only shared = cached_py_string P poisoned s ascii_only shared
  get_key keys poisoned s ascii_only shared = cached_py_string P poisoned s ascii_only shared
  get_key no_cache poisoned s ascii_only shared = uncached P s ascii_only shared

  unfoldable pub get_value : StringCacheMode → Bool → Bytes → Bool → Shared → Made
  unfolding cached_py_string uncached
  get_value all poisoned s ascii_only shared = cached_py_string P poisoned s ascii_only shared
  get_value keys poisoned s ascii_only shared = uncached P s ascii_only shared
  get_value no_cache poisoned s ascii_only shared = uncached P s ascii_only shared

  -- The static holds no cache yet, or one whose entries hold the hashes of their texts.
  abbrev pub IsShared : Option (Entries P) → Type 0
  IsShared none = Unit
  IsShared (some entries) = IsCache P entries

  -- A string with the text is made, and the static is as before.
  abbrev pub Makes : Bytes → Made → Type 0
  Makes s r =
      (q : PyString × Option (Entries P) × Python) × (r ≡ some q) × (text q.0 ≡ s) × IsShared q.1

  uncached-Makes :
      (laws : PyStringLaws P) (s : Bytes) (ascii_only : Bool) (cache : Option (Entries P))
      (py : Python)
      → IsShared cache
      → (ascii_only ≡ true → all_ascii s ≡ true)
      → Makes s (uncached P s ascii_only (cache, py))
  unfolding uncached
  uncached-Makes laws s ascii_only cache py c h =
      let (o, py') = pystring_fast_new P s ascii_only py in
      ((o, cache, py'), refl, pystring_fast_new-text P laws s ascii_only py h, c)

  pub get_string_cache-IsCache :
      (poisoned : Bool) (cache : Option (Entries P))
      → IsShared cache
      → IsCache P (get_string_cache P poisoned cache)
  unfolding get_string_cache
  get_string_cache-IsCache true none c = clear-IsCache P (default P) (default-IsCache P)
  get_string_cache-IsCache false none c = default-IsCache P
  get_string_cache-IsCache true (some entries) c = clear-IsCache P entries c
  get_string_cache-IsCache false (some entries) c = c

  cached_py_string-Makes :
      (laws : PyStringLaws P) (poisoned : Bool) (s : Bytes) (ascii_only : Bool)
      (cache : Option (Entries P)) (py : Python)
      → IsShared cache
      → (ascii_only ≡ true → all_ascii s ≡ true)
      → Makes s (cached_py_string P poisoned s ascii_only (cache, py))
  unfolding cached_py_string stored
  cached_py_string-Makes laws poisoned s ascii_only cache py c h =
      elim (Bool-cases (leb 2 (length s) && ltb (length s) 64)) [
        | inl e ↦
            let entries = get_string_cache P poisoned cache in
            let (q, r, m) =
              get_or_insert-Cached P laws entries s ascii_only py
                (get_string_cache-IsCache poisoned cache c) h in
            rw (e, r) ((q.0, some q.1, q.2), refl, m.same_text, m.keeps_hashes)
        | inr e ↦ rw e (uncached-Makes laws s ascii_only cache py c h)
      ]

  -- Whatever the mode, and with the lock poisoned or not, the string for a key and the string for a
  -- value have the text that was parsed, and the cache stays one that later calls can use.
  pub get_key-Makes :
      (laws : PyStringLaws P) (mode : StringCacheMode) (poisoned : Bool) (s : Bytes)
      (ascii_only : Bool) (cache : Option (Entries P)) (py : Python)
      → IsShared cache
      → (ascii_only ≡ true → all_ascii s ≡ true)
      → Makes s (get_key mode poisoned s ascii_only (cache, py))
        × Makes s (get_value mode poisoned s ascii_only (cache, py))
  unfolding get_key get_value
  get_key-Makes laws all poisoned s ascii_only cache py c h = (
    cached_py_string-Makes laws poisoned s ascii_only cache py c h,
    cached_py_string-Makes laws poisoned s ascii_only cache py c h,
  )
  get_key-Makes laws keys poisoned s ascii_only cache py c h = (
    cached_py_string-Makes laws poisoned s ascii_only cache py c h,
    uncached-Makes laws s ascii_only cache py c h,
  )
  get_key-Makes laws no_cache poisoned s ascii_only cache py c h =
      (uncached-Makes laws s ascii_only cache py c h, uncached-Makes laws s ascii_only cache py c h)
