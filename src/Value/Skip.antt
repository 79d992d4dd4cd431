-- ===== src/Value/Skip.antt =====
-- `take_value_skip` and `take_value_skip_recursive` of crates/jiter/src/value.rs, which consume a
-- value and keep nothing of it.
pub mod Rounds
pub mod Total
pub mod Opens
pub mod Advances
pub mod Accepts
pub mod Whole
use jiter.Prelude.{
  ℕ, zero, suc, ◌+◌, Bool, true, false, Option, none, some, List, [], ◌∷◌, length, leb, ◌==◌,
  if◌then◌else◌,
}
use jiter.Errors.{panic, out_of_fuel, recursion_limit_exceeded}
use jiter.Parse.{
  Peek, M, pure, fail, and_then, ◌>>=◌, peek, array_first, array_step, consume_true, consume_false,
  consume_null, DecodeString, DecodeNumber, consume_string, object_first, object_step,
  consume_number,
}
use jiter.Value.Take.{number_error}

-- `ARRAY` and `OBJECT`.
abbrev pub array_kind : Bool
array_kind = false

abbrev pub object_kind : Bool
object_kind = true

-- The container to go into, at its first value, or nothing where the whole value is consumed.
abbrev pub Entered : Type 0
Entered = Option (Peek × Bool)

-- The bits of `bitarr![0; 256]`.
abbrev pub stack_bits : ℕ
stack_bits = 256

module _ {S N : Type 0} (decode_str : DecodeString S) (decode_num : DecodeNumber N)
    (recursion_limit : ℕ) (allow_inf_nan : Bool) where
  unfoldable pub skip_scalar : Peek → M (Unit {0})
  unfolding number_error
  skip_scalar c =
      if c == b't'
      then consume_true
      else if c == b'f'
      then consume_false
      else if c == b'n'
      then consume_null
      else if c == b'"'
      then consume_string decode_str false >>= (λ s. pure tt)
      else (λ p. number_error c (consume_number decode_num c allow_inf_nan p)) >>= (λ n. pure tt)

  -- `Peek::Array` and `Peek::Object`.
  unfoldable pub enter_array : Option Peek → M Entered
  enter_array (some c) = pure (some (c, array_kind))
  enter_array none = pure none

  unfoldable pub enter_object : Option S → M Entered
  enter_object (some key) = peek >>= λ c. pure (some (c, object_kind))
  enter_object none = pure none

  -- The match on a peek.
  unfoldable pub skip_open : Peek → M Entered
  unfolding enter_array enter_object skip_scalar
  skip_open c =
      if c == b'['
      then array_first >>= enter_array
      else if c == b'{'
      then object_first decode_str >>= enter_object
      else skip_scalar c >>= (λ u. pure none)

  -- The next value of a container, if it has one.
  unfoldable pub stepped_object : Option S → M (Option Peek)
  stepped_object (some key) = peek >>= λ c. pure (some c)
  stepped_object none = pure none

  unfoldable pub skip_step : Bool → M (Option Peek)
  unfolding stepped_object
  skip_step false = array_step
  skip_step true = object_step decode_str >>= stepped_object

  -- Whether the current container goes on, or else what is done below it.
  unfoldable pub popped :
      Bool
      → List Bool
      → M (Option (Peek × Bool × List Bool))
      → Option Peek
      → M (Option (Peek × Bool × List Bool))
  popped current stack below (some c) = pure (some (c, current, stack))
  popped current stack below none = below

  -- `peek = loop { .. }`: the current container, and below it those of the stack, until one has
  -- another value. The result holds it with the stack below, or nothing at the end.
  unfoldable pub skip_pop : Bool → List Bool → M (Option (Peek × Bool × List Bool))
  unfolding skip_step popped
  skip_pop current [] p = and_then (skip_step current p) (popped current [] (pure none))
  skip_pop current (below ∷ rest) p =
      and_then (skip_step current p) (popped current (below ∷ rest) (skip_pop below rest))

  -- `push_recursion!`, for the stack below, and what is done behind it.
  unfoldable pub push_recursion : List Bool → M (Unit {0}) → M (Unit {0})
  push_recursion stack inner =
      if leb stack_bits (length stack)
      then (λ q. (panic, q))
      else if leb recursion_limit (length stack + 1)
      then fail recursion_limit_exceeded
      else inner

  -- The next round of a loop, or its end.
  unfoldable pub resumed :
      (Peek → Bool → List Bool → M (Unit {0})) → Option (Peek × Bool × List Bool) → M (Unit {0})
  resumed go_on (some (c, kind, rest)) = go_on c kind rest
  resumed go_on none = pure tt

  unfoldable pub entered :
      (Peek → Bool → List Bool → M (Unit {0})) → Bool → List Bool → Entered → M (Unit {0})
  unfolding push_recursion skip_pop resumed
  entered go_on current stack (some (c, kind)) =
      push_recursion stack (go_on c kind (current ∷ stack))
  entered go_on current stack none = skip_pop current stack >>= resumed go_on

  -- `take_value_skip_recursive`.
  unfoldable pub skip_loop : ℕ → Peek → Bool → List Bool → M (Unit {0})
  unfolding skip_open entered
  skip_loop zero c current stack p = (out_of_fuel, p)
  skip_loop (suc fuel) c current stack p =
      and_then (skip_open c p) (entered (skip_loop fuel) current stack)

  -- A container that is gone into, or a whole value.
  unfoldable pub entered_first : ℕ → Entered → M (Unit {0})
  unfolding skip_loop
  entered_first fuel (some (c, kind)) = skip_loop fuel c kind []
  entered_first fuel none = pure tt

  -- `take_value_skip`: each round of the loop reads a byte.
  unfoldable pub take_value_skip : Peek → M (Unit {0})
  unfolding skip_open entered_first
  take_value_skip c p = and_then (skip_open c p) (entered_first (length p.bytes + 2))
