-- ===== src/Python/Take.antt =====
-- `PythonParser::parse` of crates/jiter/src/python.rs with what it calls.
use jiter.Prelude.{
  ℕ, zero, suc, ◌+◌, ◌%◌, Bool, true, false, Option, none, some, List, [], ◌∷◌, ◌++◌, Bytes, length,
  ◌==◌, if◌then◌else◌,
}
use jiter.Errors.{
  JsonResult, ok, err, panic, out_of_fuel, json_err, recursion_limit_exceeded, duplicate_key,
  is_active, allow_trailing_str,
}
use jiter.Parse.{
  Peek, bytes_eq, peek, array_first, array_step, finish, consume_true, consume_false, consume_null,
  DecodeString, consume_string, object_first, object_step,
}
use jiter.Number.Libs.{NumberLibs}
use jiter.Strings.Decode.{StringOutput, as_str, ascii_only_of}
use jiter.StringCache.{PyStrings}
use jiter.StringCache.Mode.{get_key, get_value}
use jiter.Value.Take.{tolerate}
use jiter.Python.Libs.{PyObjects, PythonParse}
use jiter.Python.Numbers.{converted, parse_number}
use jiter.Python.State.{PythonParser, S, pure, and_then, ◌>>=◌, beside, parsing, making}

unfoldable pub contains : List Bytes → Bytes → Bool
unfolding bytes_eq
contains [] key = false
contains (k ∷ keys) key = let rest = contains keys key in if bytes_eq k key then true else rest

-- `MaybeKeyCheck::check` of `NoopKeyCheck` and of `DuplicateKeyCheck`, whose set is the list.
unfoldable pub check_key : Bool → List Bytes → Bytes → ℕ → JsonResult (List Bytes)
unfolding contains
check_key catch_duplicate_keys keys key index =
    if catch_duplicate_keys
    then (if contains keys key then json_err (duplicate_key key) index else ok (key ∷ keys))
    else ok keys

module _ {L : NumberLibs} {P : PyStrings} (O : PyObjects L P)
    (decode_str : DecodeString StringOutput) (config : PythonParse) (poisoned : Bool) where
  open O use {Object, Dict}
  open config use {allow_inf_nan, cache_mode, partial_mode, catch_duplicate_keys, float_mode}

  abbrev pub T : Type 0
  T = PythonParser P

  -- `check_take_value`, with `py_take_value` as an argument. The limit is a byte.
  unfoldable pub restored : JsonResult Object × T → JsonResult Object × T
  restored (r, s) = (r, record s { recursion_limit = (s.recursion_limit + 1) % 256 })

  unfoldable pub limited : ℕ → S T Object → S T Object
  unfolding restored
  limited zero inner s = (json_err recursion_limit_exceeded s.parser.index, s)
  limited (suc limit) inner s = restored (inner (record s { recursion_limit = limit }))

  unfoldable pub check_take_value : (Peek → S T Object) → Peek → S T Object
  unfolding limited
  check_take_value take c s = limited s.recursion_limit (take c) s

  -- `vec.push`.
  unfoldable pub append : Object → S (List Object × T) (Unit {0})
  append v (vec, s) = (ok tt, (vec ++ (v ∷ []), s))

  -- `while let Some(peek)`.
  unfoldable pub while_some :
      (Peek → S (List Object × T) (Unit {0})) → Option Peek → S (List Object × T) (Unit {0})
  while_some go none = pure tt
  while_some go (some c) = go c

  -- `parse_array`, by the rounds left.
  unfoldable pub parse_array : ℕ → (Peek → S T Object) → Peek → S (List Object × T) (Unit {0})
  unfolding check_take_value append while_some
  parse_array zero take c s = (out_of_fuel, s)
  parse_array (suc rounds) take c s =
      and_then (beside (check_take_value take c) s)
        λ v. append v >>= λ u. beside (parsing array_step) >>= while_some (parse_array rounds take)

  -- `set_item`, whose assertion fails where `PyDict_SetItem` does.
  unfoldable pub put_dict : T → Option Dict → Dict → JsonResult (Unit {0}) × (Dict × T)
  put_dict s none dict = (panic, (dict, s))
  put_dict s (some filled) dict = (ok tt, (filled, s))

  unfoldable pub set_item : P.PyString → Object → S (Dict × T) (Unit {0})
  unfolding put_dict
  set_item key value (dict, s) = put_dict s (O.set_item key value dict) dict

  unfoldable pub checked : List Bytes → Bytes → S T (List Bytes)
  unfolding check_key
  checked keys key s = (check_key catch_duplicate_keys keys key s.parser.index, s)

  -- What follows a key of an object, up to the next one: the keys seen are returned.
  unfoldable pub parse_entry :
      (Peek → S T Object) → List Bytes → StringOutput → S (Dict × T) (List Bytes)
  unfolding check_take_value set_item checked get_key as_str ascii_only_of
  parse_entry take keys key = beside (checked keys (as_str key)) >>= λ seen.
      beside (making (get_key P cache_mode poisoned (as_str key) (ascii_only_of key))) >>= λ py_key.
      beside (parsing peek) >>= λ c.
      beside (check_take_value take c) >>= λ value. set_item py_key value >>= λ u. pure seen

  -- The `while` of `parse_object`, at a key or at the end.
  unfoldable pub parse_entries :
      ℕ → (Peek → S T Object) → List Bytes → Option StringOutput → S (Dict × T) (Unit {0})
  unfolding parse_entry
  parse_entries zero take keys o s = (out_of_fuel, s)
  parse_entries (suc rounds) take keys none s = (ok tt, s)
  parse_entries (suc rounds) take keys (some key) s =
      and_then (parse_entry take keys key s)
        λ seen. beside (parsing (object_step decode_str)) >>= parse_entries rounds take seen

  unfoldable pub parse_object : ℕ → (Peek → S T Object) → S (Dict × T) (Unit {0})
  unfolding parse_entries
  parse_object rounds take =
      beside (parsing (object_first decode_str)) >>= parse_entries rounds take []

  -- `if let Err(e) = .. { if !self.allow_partial_err(&e) { return Err(e) } }`, and what is filled.
  unfoldable pub kept :
      {C : Type 0}
      → (C → S T Object)
      → JsonResult (Option (Unit {0})) × (C × T)
      → JsonResult Object × T
  kept make (ok u, (filled, s)) = make filled s
  kept make (err e, (filled, s)) = (err e, s)
  kept make (panic, (filled, s)) = (panic, s)
  kept make (out_of_fuel, (filled, s)) = (out_of_fuel, s)

  abbrev new_list : List Object → S T Object
  new_list vec = parsing (converted O (O.list vec))

  abbrev pub rounds : T → ℕ
  rounds s = length s.parser.bytes + 2

  unfoldable pub first_value : (Peek → S T Object) → Option (Option Peek) → S T Object
  unfolding kept tolerate parse_array converted
  first_value take (some (some c)) s =
      kept new_list (tolerate partial_mode (parse_array (rounds s) take c ([], s)))
  first_value take (some none) s = (ok O.empty_list, s)
  first_value take none s = (ok O.empty_list, s)

  unfoldable pub take_array : (Peek → S T Object) → S T Object
  unfolding tolerate first_value
  take_array take s = and_then (tolerate partial_mode (parsing array_first s)) (first_value take)

  unfoldable pub take_object : (Peek → S T Object) → S T Object
  unfolding tolerate kept parse_object
  take_object take s =
      kept (λ dict. pure (O.dict dict))
        (tolerate partial_mode (parse_object (rounds s) take (O.empty_dict, s)))

  unfoldable pub take_string : S T Object
  unfolding get_value allow_trailing_str as_str ascii_only_of
  take_string = parsing (consume_string decode_str (allow_trailing_str partial_mode)) >>= λ s.
      making (get_value P cache_mode poisoned (as_str s) (ascii_only_of s)) >>= λ py_str.
      pure (O.string py_str)

  -- `py_take_value`, by the depth of containers left.
  unfoldable pub py_take_value : ℕ → Peek → S T Object
  unfolding take_array take_object take_string parse_number
  py_take_value zero c s = (out_of_fuel, s)
  py_take_value (suc depth) c s =
      let inner = py_take_value depth in
      (if c == b'n'
          then parsing consume_null >>= (λ u. pure O.none)
          else if c == b't'
          then parsing consume_true >>= (λ u. pure (O.bool true))
          else if c == b'f'
          then parsing consume_false >>= (λ u. pure (O.bool false))
          else if c == b'"'
          then take_string
          else if c == b'['
          then take_array inner
          else if c == b'{'
          then take_object inner
          else parsing (parse_number O float_mode c allow_inf_nan))
        s

  -- `parse` on the parser that it makes: the limit bounds the depth.
  unfoldable pub finishing : Object → S T Object
  unfolding is_active finish
  finishing v = if is_active partial_mode then pure v else (parsing finish >>= λ u. pure v)

  unfoldable pub parse : S T Object
  unfolding py_take_value peek finishing
  parse s = and_then (parsing peek s) λ c. py_take_value (s.recursion_limit + 1) c >>= finishing
