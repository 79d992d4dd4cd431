-- ===== src/Tests/Caching.antt =====
-- Tests of crates/jiter/src/py_string_cache.rs and of crates/jiter/src/python.rs, with a counter as
-- the interpreter.
use jiter.Prelude.{
  ℕ, ◌+◌, ◌≡◌, refl, true, false, none, some, [], ◌∷◌, ◌++◌, Bytes, length, take, if◌then◌else◌,
}
use jiter.Errors.{ok, off}
use jiter.Strings.Utf8.Ascii.{all_ascii}
use jiter.StringCache.{PyStrings, PyStringLaws, Entries, default, get_or_insert}
use jiter.StringCache.Laws.{Cached, default-IsCache, get_or_insert-Cached, get_or_insert-again}
use jiter.StringCache.Mode.{keys, get_key, get_value}
use jiter.StringCache.Serving.{Serves, asks_cache, get_key-Serves}
use jiter.Prelude.{take-length_append}
use jiter.Python.Libs.{PyObjects, PythonParse, float, made}
use jiter.Python.Entry.{initial, python_parse}
use jiter.Python.Runs.{Goes, Self, Any}
use jiter.Python.Total.{python_parse-Goes}
use jiter.Parse.{
  eat_whitespace, eat_from, is_whitespace, object_first, array_first, consume_number, array_step,
  object_step, consume_ident,
}
use jiter.Strings.Table.{json_ascii, char_type}
use jiter.Number.Chunk.{decode_int_chunk_fallback}
use jiter.Number.Table.{int_char_map}
use jiter.Prelude.Text.{codes}
use jiter.Tests.Numbers.{lexing, lexed}

-- A string is numbered, so that two strings of one text differ.
abbrev strings : PyStrings
strings = record {
  Python = ℕ;
  PyString = ℕ × Bytes;
  text = λ o. o.1;
  new = λ s n. ((n, s), n + 1);
  unicode_new = λ size greatest cs n. ((n, take size cs), n + 1);
  hash_one = λ s. length s;
}

abbrev texts : PyStringLaws strings
texts = record {
  text-new = λ s n. refl;
  text-unicode_new = λ size s n l h. rw (← l) (take-length_append s (0 ∷ []));
}

ab_ascii : true ≡ true → all_ascii (codes "ab") ≡ true
unfolding all_ascii
ab_ascii h = refl

get_or_insert-Cached_example :
    (q : (ℕ × Bytes) × Entries strings × ℕ) × (get_or_insert strings
        (default strings)
        (codes "ab")
        true
        7
      ≡ some q)
    × Cached strings (default strings) (codes "ab") q
get_or_insert-Cached_example =
    get_or_insert-Cached strings texts (default strings) (codes "ab") true 7
      (default-IsCache strings) ab_ascii

abbrev first_lookup : (ℕ × Bytes) × Entries strings × ℕ
first_lookup = get_or_insert-Cached_example.0

get_or_insert-again_example :
    get_or_insert strings first_lookup.1 (codes "ab") false 9
    ≡ some (first_lookup.0, first_lookup.1, 9)
get_or_insert-again_example =
    get_or_insert-again strings texts (default strings) (codes "ab") true false 7 9 first_lookup
      (default-IsCache strings) ab_ascii get_or_insert-Cached_example.1

-- Behind a poisoned lock, with one entry that is forgotten.
get_key-Serves_example :
    Serves strings true true
      (codes "ab")
      (some first_lookup.1)
      (get_key strings keys true (codes "ab") true (some first_lookup.1, 8))
    × Serves strings false true
        (codes "ab")
        (some first_lookup.1)
        (get_value strings keys true (codes "ab") true (some first_lookup.1, 8))
unfolding asks_cache
get_key-Serves_example =
    get_key-Serves strings texts keys true (codes "ab") true (some first_lookup.1) 8
      get_or_insert-Cached_example.2.keeps_hashes ab_ascii

-- An object is its text.
abbrev objects : PyObjects lexing strings
objects = record {
  Object = Bytes;
  none = codes "None";
  bool = λ b. if b then codes "True" else codes "False";
  string = λ o. o.1;
  number = λ n. made (codes "n");
  lossless = λ bytes. made bytes;
  decimal = λ bytes. made bytes;
  empty_list = codes "[]";
  list = λ vec. made (codes "list");
  Dict = Bytes;
  empty_dict = [];
  set_item = λ key v dict. some (dict ++ (key.1 ++ (b':' ∷ v)));
  dict = λ dict. dict;
}

abbrev mode : PythonParse
mode = record {
  allow_inf_nan = false;
  cache_mode = keys;
  partial_mode = off;
  catch_duplicate_keys = true;
  float_mode = float;
}

python_parse-object :
    (python_parse objects mode false (codes "{\"ab\": [1, \"c\"], \"d\": true}") (none, 7)).0
    ≡ ok (codes "ab:listd:True")
unfolding python_parse eat_whitespace eat_from is_whitespace object_first json_ascii char_type
    array_first consume_number decode_int_chunk_fallback int_char_map array_step object_step
    consume_ident
python_parse-object = refl

python_parse-Goes_example :
    Goes Self
      (initial objects (codes "{\"ab\": [1, \"c\"]}") (none, 7))
      Any
      (python_parse objects mode false (codes "{\"ab\": [1, \"c\"]}") (none, 7))
python_parse-Goes_example =
    python_parse-Goes objects lexed texts (λ key v dict. (dict ++ (key.1 ++ (b':' ∷ v)), refl)) mode
      false (codes "{\"ab\": [1, \"c\"]}") (none, 7) tt
