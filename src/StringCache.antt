-- ===== src/StringCache.antt =====
-- The cache of Python strings of crates/jiter/src/py_string_cache.rs, with the interpreter as a
-- parameter. An operation that makes a Python string takes the interpreter's state and returns the new
-- one.
pub mod Mode
pub mod Window
pub mod Laws
pub mod Serving
use jiter.Prelude.{
  ℕ, zero, suc, ◌+◌, ◌%◌, ◌<◌, ◌≡◌, Bool, true, false, ◌&&◌, Option, none, some, List, [], ◌∷◌,
  ◌++◌, Bytes, length, get_elem?, set, replicate, leb, ltb, ◌==◌, if◌then◌else◌,
}
use jiter.Parse.{bytes_eq}
use jiter.Strings.Utf8.Ascii.{all_ascii}

-- What the code calls of PyO3, of the Python interface and of ahash: making a string of any text
-- (`PyString::new`), making the object of a size and a greatest character (`PyUnicode_New`) and writing
-- bytes to its data (`PyUnicode_DATA`), reading the text of a string, and the hash of a text. `Python`
-- is the interpreter's state.
pub record PyStrings : Type 1 where
  pub Python : Type 0
  pub PyString : Type 0
  pub text : PyString → Bytes
  pub new : Bytes → Python → PyString × Python
  pub unicode_new : ℕ → ℕ → Bytes → Python → PyString × Python
  pub hash_one : Bytes → ℕ

-- The documented behaviour of these calls: a string that is made of a text has that text, and an
-- object of `size` characters up to 127, whose data holds ASCII bytes of that number and a zero, is the
-- string of these bytes.
pub record PyStringLaws (P : PyStrings) : Type 0 where
  pub text-new : (s : Bytes) (py : P.Python) → P.text (P.new s py).0 ≡ s
  pub text-unicode_new :
      (size : ℕ) (s : Bytes) (py : P.Python)
      → length s ≡ size
      → all_ascii s ≡ true
      → P.text (P.unicode_new size 127 (s ++ (0 ∷ [])) py).0 ≡ s

abbrev pub capacity : ℕ
capacity = 16384

-- The slots that `get_or_insert` tries.
abbrev pub slots : ℕ
slots = 5

-- Where the search over the slots ends: at the string, at an empty slot, or without either.
pub data Probe (A : Type 0) : Type 0 where
  hit : A → Probe A
  vacant : ℕ → Probe A
  exhausted : Probe A

module _ (P : PyStrings) where
  open P use {Python, PyString, text, hash_one}

  abbrev pub Entry : Type 0
  Entry = Option (ℕ × PyString)

  abbrev pub Entries : Type 0
  Entries = List Entry

  -- `PyStringCache::default`, with its hash builder in the parameters.
  unfoldable pub default : Entries
  default = replicate capacity none

  -- The text is copied to the data of a new object, and a zero is written behind it.
  unfoldable pub pystring_ascii_new : Bytes → Python → PyString × Python
  pystring_ascii_new s py = P.unicode_new (length s) 127 (s ++ (0 ∷ [])) py

  unfoldable pub pystring_fast_new : Bytes → Bool → Python → PyString × Python
  unfolding pystring_ascii_new
  pystring_fast_new s ascii_only py = if ascii_only then pystring_ascii_new s py else P.new s py

  -- The `for` of `get_or_insert`, by the rounds left.
  unfoldable pub probe : ℕ → Entries → Bytes → ℕ → Probe PyString
  unfolding bytes_eq
  probe zero entries s index = exhausted
  probe (suc n) entries s index =
      let rest = probe n entries s (index + 1) in
      elim (get_elem? entries index) [
        | some (some (entry_hash, py_str)) ↦
            if entry_hash == hash_one s
            then (if bytes_eq (text py_str) s then hit py_str else rest)
            else rest
        | some none ↦ vacant index
        | none ↦ exhausted
      ]

  -- The closure `set_entry`, at an index of the entries.
  unfoldable pub set_entry : Entries → ℕ → Bytes → Bool → Python → PyString × Entries × Python
  unfolding pystring_fast_new
  set_entry entries index s ascii_only py =
      let (py_str, py') = pystring_fast_new s ascii_only py in
      (py_str, set entries index (some (hash_one s, py_str)), py')

  -- What is done where the search ends, with `none` for a panic of `get_mut(hash_index).unwrap()`.
  unfoldable pub probed :
      Entries → ℕ → Bytes → Bool → Python → Probe PyString → Option (PyString × Entries × Python)
  unfolding set_entry
  probed entries hash_index s ascii_only py (hit py_str) = some (py_str, entries, py)
  probed entries hash_index s ascii_only py (vacant index) =
      some (set_entry entries index s ascii_only py)
  probed entries hash_index s ascii_only py exhausted =
      if ltb hash_index (length entries)
      then some (set_entry entries hash_index s ascii_only py)
      else none

  unfoldable pub get_or_insert :
      Entries → Bytes → Bool → Python → Option (PyString × Entries × Python)
  unfolding probe probed
  get_or_insert entries s ascii_only py =
      let hash_index = hash_one s % capacity in
      probed entries hash_index s ascii_only py (probe slots entries s hash_index)

  unfoldable pub usage : Entries → ℕ
  usage [] = 0
  usage (none ∷ entries) = usage entries
  usage (some e ∷ entries) = usage entries + 1

  unfoldable pub clear : Entries → Entries
  clear [] = []
  clear (e ∷ entries) = none ∷ clear entries

  -- `STRING_CACHE` holds the entries once they are first used. Its lock is poisoned where a thread
  -- panicked while it held it.
  unfoldable pub get_string_cache : Bool → Option Entries → Entries
  unfolding default clear
  get_string_cache poisoned none = if poisoned then clear default else default
  get_string_cache poisoned (some entries) = if poisoned then clear entries else entries

  unfoldable pub cache_usage : Bool → Option Entries → ℕ
  unfolding usage get_string_cache
  cache_usage poisoned cache = usage (get_string_cache poisoned cache)

  unfoldable pub cache_clear : Bool → Option Entries → Option Entries
  unfolding clear get_string_cache
  cache_clear poisoned cache = some (clear (get_string_cache poisoned cache))

  -- The result of `get_or_insert`, put back into the static.
  unfoldable pub stored :
      Option (PyString × Entries × Python) → Option (PyString × Option Entries × Python)
  stored none = none
  stored (some (py_str, entries, py)) = some (py_str, some entries, py)

  -- `pystring_fast_new` beside the static.
  unfoldable pub uncached :
      Bytes → Bool → Option Entries × Python → Option (PyString × Option Entries × Python)
  unfolding pystring_fast_new
  uncached s ascii_only (cache, py) =
      let (py_str, py') = pystring_fast_new s ascii_only py in some (py_str, cache, py')

  unfoldable pub cached_py_string :
      Bool → Bytes → Bool → Option Entries × Python → Option (PyString × Option Entries × Python)
  unfolding get_or_insert get_string_cache uncached stored
  cached_py_string poisoned s ascii_only (cache, py) =
      if leb 2 (length s) && ltb (length s) 64
      then stored (get_or_insert (get_string_cache poisoned cache) s ascii_only py)
      else uncached s ascii_only (cache, py)
