-- ===== src/Jiter/Next.antt =====
-- The `next_*` and `known_*` methods of crates/jiter/src/jiter.rs.
use jiter.Prelude.{ℕ, Bool, true, false, Option, none, some, Bytes, [], ◌==◌, if◌then◌else◌}
use jiter.Errors.{off, default_recursion_limit, JsonType}
use jiter.Parse
use jiter.Parse.{Peek, consume_number, consume_string, consume_true, consume_false, consume_null}
use jiter.Number.Libs.{NumberLibs}
use jiter.Number.IntParse.{NumberInt, decode_int}
use jiter.Number.Float.{NumberAny, decode_float, decode_any}
use jiter.Number.Range
use jiter.Number.Range.{NumberRange}
use jiter.Strings.Decode
use jiter.Strings.Decode.{StringOutput, as_str, ByteRange}
use jiter.Value.Take.{Config}
use jiter.Value.Entry.{Value, take_value_borrowed, take_value_owned, skip_value}
use jiter.Jiter.{Jiter, J, pure, ◌>>=◌, parsing, parsing_or, slice}
use jiter.Jiter.Errors.{wrong_type, maybe_number_error, int_error}

unfoldable pub peek : J Peek
unfolding Parse.peek
peek = parsing Parse.peek

unfoldable pub known_null : J (Unit {0})
known_null = parsing consume_null

unfoldable pub known_array : J (Option Peek)
unfolding Parse.array_first
known_array = parsing Parse.array_first

unfoldable pub array_step : J (Option Peek)
unfolding Parse.array_step
array_step = parsing Parse.array_step

unfoldable pub finish : J (Unit {0})
unfolding Parse.finish
finish = parsing Parse.finish

-- `consume_string` with the iterator's setting for partial strings.
unfoldable pub known_str : J Bytes
unfolding Decode.decode as_str
known_str j =
    (parsing (consume_string (Decode.decode []) j.allow_partial_strings) >>= λ s. pure (as_str s)) j

unfoldable pub known_bytes : J Bytes
unfolding Decode.decode_range
known_bytes j =
    (parsing (consume_string Decode.decode_range j.allow_partial_strings) >>= λ r.
    slice r.from r.to)
      j

-- `op_str.map(|s| s.as_str())` and `op_range.map(|r| &self.data[r])`.
unfoldable pub key_str : Option StringOutput → J (Option Bytes)
unfolding as_str
key_str none = pure none
key_str (some s) = pure (some (as_str s))

unfoldable pub key_bytes : Option ByteRange → J (Option Bytes)
key_bytes none = pure none
key_bytes (some r) = slice r.from r.to >>= λ key. pure (some key)

unfoldable pub known_object : J (Option Bytes)
unfolding Decode.decode key_str
known_object = parsing (Parse.object_first (Decode.decode [])) >>= key_str

unfoldable pub next_key : J (Option Bytes)
unfolding Decode.decode key_str
next_key = parsing (Parse.object_step (Decode.decode [])) >>= key_str

unfoldable pub next_key_bytes : J (Option Bytes)
unfolding Decode.decode_range key_bytes
next_key_bytes = parsing (Parse.object_step Decode.decode_range) >>= key_bytes

unfoldable pub known_skip : Peek → J (Unit {0})
unfolding skip_value
known_skip c j = parsing (skip_value j.allow_inf_nan c) j

unfoldable pub next_skip : J (Unit {0})
unfolding peek known_skip
next_skip = peek >>= known_skip

module _ (L : NumberLibs) where
  open L use {Float, BigInt}

  -- `match peek { expected => known, _ => Err(self.wrong_type(..)) }`.
  unfoldable pub expecting : {A : Type 0} → ℕ → JsonType → J A → J A
  unfolding peek wrong_type
  expecting byte expected known =
      peek >>= λ c. if c == byte then known else λ j. (wrong_type L expected c j, j)

  unfoldable pub next_null : J (Unit {0})
  unfolding expecting known_null
  next_null = expecting b'n' JsonType.null known_null

  unfoldable pub known_bool : Peek → J Bool
  unfolding wrong_type
  known_bool c =
      if c == b't'
      then parsing consume_true >>= (λ u. pure true)
      else if c == b'f'
      then parsing consume_false >>= (λ u. pure false)
      else λ j. (wrong_type L JsonType.bool c j, j)

  unfoldable pub next_bool : J Bool
  unfolding peek known_bool
  next_bool = peek >>= known_bool

  unfoldable pub known_number : Peek → J (NumberAny Float BigInt)
  unfolding maybe_number_error
  known_number c j =
      parsing_or (maybe_number_error L JsonType.int c)
        (consume_number (decode_any L) c j.allow_inf_nan) j

  unfoldable pub next_number : J (NumberAny Float BigInt)
  unfolding peek known_number
  next_number = peek >>= known_number

  unfoldable pub known_int : Peek → J (NumberInt BigInt)
  unfolding int_error
  known_int c j = parsing_or (int_error L c) (consume_number (decode_int L) c j.allow_inf_nan) j

  unfoldable pub next_int : J (NumberInt BigInt)
  unfolding peek known_int
  next_int = peek >>= known_int

  unfoldable pub known_float : Peek → J Float
  unfolding maybe_number_error
  known_float c j =
      parsing_or (maybe_number_error L JsonType.float c)
        (consume_number (decode_float L) c j.allow_inf_nan) j

  unfoldable pub next_float : J Float
  unfolding peek known_float
  next_float = peek >>= known_float

  unfoldable pub known_number_bytes : Peek → J Bytes
  unfolding maybe_number_error Range.decode_range
  known_number_bytes c j =
      (parsing_or (maybe_number_error L JsonType.float c)
            (consume_number Range.decode_range c j.allow_inf_nan)
          >>= λ r. slice r.from r.to)
        j

  unfoldable pub next_number_bytes : J Bytes
  unfolding peek known_number_bytes
  next_number_bytes = peek >>= known_number_bytes

  unfoldable pub next_str : J Bytes
  unfolding expecting known_str
  next_str = expecting b'"' JsonType.string known_str

  unfoldable pub next_bytes : J Bytes
  unfolding expecting known_bytes
  next_bytes = expecting b'"' JsonType.string known_bytes

  -- The settings of `known_value` and `known_value_owned`.
  abbrev pub value_config : Jiter → Config
  value_config j = record {
    recursion_limit = default_recursion_limit;
    allow_inf_nan = j.allow_inf_nan;
    allow_partial = off;
  }

  unfoldable pub known_value : Peek → J (Value L)
  unfolding take_value_borrowed
  known_value c j = parsing (take_value_borrowed L (value_config j) c) j

  unfoldable pub next_value : J (Value L)
  unfolding peek known_value
  next_value = peek >>= known_value

  unfoldable pub known_value_owned : Peek → J (Value L)
  unfolding take_value_owned
  known_value_owned c j = parsing (take_value_owned L (value_config j) c) j

  unfoldable pub next_value_owned : J (Value L)
  unfolding peek known_value_owned
  next_value_owned = peek >>= known_value_owned

  unfoldable pub next_array : J (Option Peek)
  unfolding expecting known_array
  next_array = expecting b'[' JsonType.array known_array

  unfoldable pub next_object : J (Option Bytes)
  unfolding expecting known_object
  next_object = expecting b'{' JsonType.object known_object

  unfoldable pub next_object_bytes : J (Option Bytes)
  unfolding expecting Decode.decode_range key_bytes
  next_object_bytes =
      expecting b'{' JsonType.object
        (parsing (Parse.object_first Decode.decode_range) >>= key_bytes)
