-- ===== src/Python/Entry.antt =====
-- `PythonParse::python_parse` of crates/jiter/src/python.rs, with the string decoder that it names.
use jiter.Prelude.{Bool, [], Bytes}
use jiter.Errors.Display.{description}
use jiter.Errors.{JsonError, JsonResult, default_recursion_limit}
use jiter.Parse.{new}
use jiter.Number.Libs.{NumberLibs}
use jiter.Strings.Decode.{decode}
use jiter.StringCache.{PyStrings}
use jiter.StringCache.Mode.{Shared}
use jiter.Python.Libs.{PyObjects, PythonParse}
use jiter.Python.State.{PythonParser}
use jiter.Python.Take.{parse}

module _ {L : NumberLibs} {P : PyStrings} (O : PyObjects L P) where
  open O use {Object}

  abbrev pub initial : Bytes → Shared P → PythonParser P
  initial json_data shared = record {
    parser = new json_data;
    recursion_limit = default_recursion_limit;
    shared = shared;
  }

  -- The arms of its macros differ in the cache, in the check of keys and in the numbers, which `parse`
  -- takes from the fields of `config`.
  unfoldable pub python_parse :
      PythonParse → Bool → Bytes → Shared P → JsonResult Object × PythonParser P
  unfolding parse decode
  python_parse config poisoned json_data shared =
      parse O (decode []) config poisoned (initial json_data shared)

-- The text of the exception of `map_json_error`.
unfoldable pub map_json_error : (Bytes → Bytes) → Bytes → JsonError → Bytes
unfolding description
map_json_error debug json_data json_error = description debug json_error json_data
