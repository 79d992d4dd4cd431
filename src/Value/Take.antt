-- ===== src/Value/Take.antt =====
-- `take_value` and `take_value_recursive` of crates/jiter/src/value.rs.
pub mod Runs
pub mod Total
pub mod Joins
pub mod Opens
pub mod Begins
pub mod Advances
pub mod Accepts
pub mod Whole
pub mod Deep
use jiter.Prelude.{
  ℕ, zero, suc, ◌+◌, Bool, true, false, ◌&&◌, Option, none, some, List, [], ◌∷◌, Bytes, length, leb,
  ◌==◌, if◌then◌else◌,
}
use jiter.Errors.{
  JsonResult, ok, err, panic, out_of_fuel, expected_some_value, recursion_limit_exceeded,
  PartialMode, is_active, allow_trailing_str, allowed_if_partial,
}
use jiter.Parse.{
  Peek, is_num, Parser, M, pure, fail, and_then, ◌>>=◌, peek, array_first, array_step, consume_true,
  consume_false, consume_null, DecodeString, DecodeNumber, consume_string, object_first,
  object_step, consume_number,
}
use jiter.Number.IntParse.{NumberInt}
use jiter.Number.Float.{NumberAny}
use jiter.Strings.Decode.{StringOutput}
use jiter.Value.Data.{
  JsonValue, null, bool, int, big_int, float, str, array, object, JsonArray, JsonObject, no_value,
  no_entry, push, insert, RecursedValue, in_array, in_object,
}

-- What the functions take besides the parser.
pub record Config : Type 0 where
  pub recursion_limit : ℕ
  pub allow_inf_nan : Bool
  pub allow_partial : PartialMode

-- What one value begins with: a container to go into, at its first value, or the value itself.
pub data Opened (F B : Type 0) : Type 0 where
  enter : Peek → RecursedValue F B → Opened F B
  whole : JsonValue F B → Opened F B

-- What follows a value in a container: another value of it, or its end.
pub data Advanced (F B : Type 0) : Type 0 where
  next : Peek → RecursedValue F B → Advanced F B
  closed : JsonValue F B → Advanced F B

-- Where the loop over the stack ends: at a container that has another value, or with the result.
pub data Popped (F B : Type 0) : Type 0 where
  resume : Peek → RecursedValue F B → List (RecursedValue F B) → Popped F B
  returned : JsonValue F B → Popped F B

-- `Err(e) if !(partial_active && e.allowed_if_partial()) => return Err(e)`, and nothing for the other
-- errors.
unfoldable pub tolerate :
    {A S : Type 0} → PartialMode → JsonResult A × S → JsonResult (Option A) × S
unfolding is_active allowed_if_partial
tolerate mode (ok a, p) = (ok (some a), p)
tolerate mode (err e, p) =
    if is_active mode && allowed_if_partial e then (ok none, p) else (err e, p)
tolerate mode (panic, p) = (panic, p)
tolerate mode (out_of_fuel, p) = (out_of_fuel, p)

-- `if !peek.is_num() { json_error!(ExpectedSomeValue, parser.index) } else { e }`.
unfoldable pub number_error : {A : Type 0} → Peek → JsonResult A × Parser → JsonResult A × Parser
unfolding is_num
number_error c (ok a, p) = (ok a, p)
number_error c (err e, p) = if is_num c then (err e, p) else fail expected_some_value p
number_error c (panic, p) = (panic, p)
number_error c (out_of_fuel, p) = (out_of_fuel, p)

unfoldable pub number_value : {F B : Type 0} → NumberAny F B → JsonValue F B
number_value (NumberAny.int (NumberInt.int n)) = int n
number_value (NumberAny.int (NumberInt.big_int n)) = big_int n
number_value (NumberAny.float x) = float x

module _ {F B : Type 0} (decode_str : DecodeString StringOutput)
    (decode_num : DecodeNumber (NumberAny F B)) (create_cow : StringOutput → Bytes)
    (config : Config) where
  open config use {recursion_limit, allow_inf_nan, allow_partial}

  -- The arms of the match on a peek that read a literal, a string or a number.
  unfoldable pub take_scalar : Peek → M (JsonValue F B)
  unfolding number_error number_value allow_trailing_str
  take_scalar c =
      if c == b't'
      then consume_true >>= (λ u. pure (bool true))
      else if c == b'f'
      then consume_false >>= (λ u. pure (bool false))
      else if c == b'n'
      then consume_null >>= (λ u. pure null)
      else if c == b'"'
      then consume_string decode_str (allow_trailing_str allow_partial)
        >>= (λ s. pure (str (create_cow s)))
      else (λ p. number_error c (consume_number decode_num c allow_inf_nan p))
        >>= (λ n. pure (number_value n))

  -- `Peek::Array`.
  unfoldable pub opened_array : Option (Option Peek) → M (Opened F B)
  opened_array (some (some c)) = pure (enter c (in_array no_value))
  opened_array (some none) = pure (whole (array no_value))
  opened_array none = pure (whole (array no_value))

  unfoldable pub open_array : M (Opened F B)
  unfolding tolerate opened_array
  open_array p = and_then (tolerate allow_partial (array_first p)) opened_array

  -- `Peek::Object`.
  unfoldable pub opened_object : StringOutput → Option Peek → M (Opened F B)
  opened_object key (some c) = pure (enter c (in_object no_entry (create_cow key)))
  opened_object key none = pure (whole (object no_entry))

  unfoldable pub first_key : Option (Option StringOutput) → M (Opened F B)
  unfolding tolerate opened_object
  first_key (some (some key)) p = and_then (tolerate allow_partial (peek p)) (opened_object key)
  first_key (some none) p = pure (whole (object no_entry)) p
  first_key none p = pure (whole (object no_entry)) p

  unfoldable pub open_object : M (Opened F B)
  unfolding tolerate first_key
  open_object p = and_then (tolerate allow_partial (object_first decode_str p)) first_key

  -- The match on a peek.
  unfoldable pub open_value : Peek → M (Opened F B)
  unfolding open_array open_object take_scalar
  open_value c =
      if c == b'['
      then open_array
      else if c == b'{'
      then open_object
      else take_scalar c >>= (λ v. pure (whole v))

  -- A value behind which its container is advanced, in the container or from the stack.
  unfoldable pub advanced_array : JsonArray F B → Option (Option Peek) → M (Advanced F B)
  advanced_array values (some (some c)) = pure (next c (in_array values))
  advanced_array values (some none) = pure (closed (array values))
  advanced_array values none = pure (closed (array values))

  unfoldable pub advanced_object : JsonObject F B → StringOutput → Option Peek → M (Advanced F B)
  advanced_object entries key (some c) = pure (next c (in_object entries (create_cow key)))
  advanced_object entries key none = pure (closed (object entries))

  unfoldable pub next_key : JsonObject F B → Option (Option StringOutput) → M (Advanced F B)
  unfolding tolerate advanced_object
  next_key entries (some (some key)) p =
      and_then (tolerate allow_partial (peek p)) (advanced_object entries key)
  next_key entries (some none) p = pure (closed (object entries)) p
  next_key entries none p = pure (closed (object entries)) p

  unfoldable pub advance : JsonValue F B → RecursedValue F B → M (Advanced F B)
  unfolding tolerate push insert advanced_array next_key
  advance v (in_array values) p =
      and_then (tolerate allow_partial (array_step p)) (advanced_array (push v values))
  advance v (in_object entries key) p =
      and_then (tolerate allow_partial (object_step decode_str p)) (next_key (insert key v entries))

  -- A container whose next value failed to parse in partial mode.
  unfoldable pub close : RecursedValue F B → JsonValue F B
  close (in_array values) = array values
  close (in_object entries key) = object entries

  -- `peek = loop { .. }`: the containers on the stack take the value, until one of them goes on.
  unfoldable pub pop : List (RecursedValue F B) → JsonValue F B → M (Popped F B)
  unfolding advance
  pop [] v p = pure (returned v) p
  pop (current ∷ stack) v p =
      and_then (advance v current p)
        λ outcome. elim outcome [ next c r ↦ pure (resume c r stack) | closed w ↦ pop stack w ]

  -- `take_value_recursive`. A whole value is put in the current container as `pop` puts one in a
  -- container of the stack.
  unfoldable pub take_value_loop :
      ℕ → Peek → RecursedValue F B → List (RecursedValue F B) → M (JsonValue F B)
  unfolding open_value tolerate close pop
  take_value_loop zero c current stack p = (out_of_fuel, p)
  take_value_loop (suc fuel) c current stack p =
      let go_on : Popped F B → M (JsonValue F B) = λ outcome. elim outcome [
        | resume d r rest ↦ take_value_loop fuel d r rest
        | returned v ↦ pure v
      ] in
      and_then (tolerate allow_partial (open_value c p)) λ opened. elim opened [
        | some (enter d r) ↦
            let inner = take_value_loop fuel d r (current ∷ stack) in
            if leb recursion_limit (length (current ∷ stack))
            then fail recursion_limit_exceeded
            else inner
        | some (whole v) ↦ pop (current ∷ stack) v >>= go_on
        | none ↦ pop stack (close current) >>= go_on
      ]

  -- `take_value`: each round of the loop reads a byte, and a partial string ends one past the data.
  abbrev pub rounds : Parser → ℕ
  rounds p = length p.bytes + 2

  unfoldable pub take_value : Peek → M (JsonValue F B)
  unfolding open_value take_value_loop
  take_value c p =
      and_then (open_value c p)
        λ opened. elim opened [ enter d r ↦ take_value_loop (rounds p) d r [] | whole v ↦ pure v ]
