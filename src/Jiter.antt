-- ===== src/Jiter.antt =====
-- The iterator of crates/jiter/src/jiter.rs. A method takes the iterator and returns its result with
-- the iterator that it leaves behind. The tape is left out, as the decoder clears it before it writes
-- to it.
pub mod Errors
pub mod Next
pub mod Total
pub mod Steps
pub mod Methods
pub mod Moves
pub mod Values
use jiter.Prelude.{ℕ, Bool, true, false, Option, none, some, Bytes}
use jiter.Prelude.Slices.{get_range}
use jiter.Errors.{JsonError, JsonResult, JiterError, jiter_error_from}
use jiter.Errors.Position.{LinePosition, find}
use jiter.Parse
use jiter.Parse.{Parser, M}

-- `JiterResult`, with the two outcomes that `JsonResult` has beside it.
pub data JiterResult (A : Type 0) : Type 0 where
  ok : A → JiterResult A
  err : JiterError → JiterResult A
  panic out_of_fuel : JiterResult A

pub record Jiter : Type 0 where
  pub bytes : Bytes
  pub parser : Parser
  pub allow_inf_nan : Bool
  pub allow_partial_strings : Bool

abbrev pub J : Type 0 → Type 0
J A = Jiter → JiterResult A × Jiter

abbrev pub pure : {A : Type 0} → A → J A
pure a j = (JiterResult.ok a, j)

-- The operator `?`.
abbrev pub and_then : {A B : Type 0} → JiterResult A × Jiter → (A → J B) → JiterResult B × Jiter
and_then (JiterResult.ok a, j) f = f a j
and_then (JiterResult.err e, j) f = (JiterResult.err e, j)
and_then (JiterResult.panic, j) f = (JiterResult.panic, j)
and_then (JiterResult.out_of_fuel, j) f = (JiterResult.out_of_fuel, j)

infixl 5 ◌>>=◌
abbrev pub ◌>>=◌ : {A B : Type 0} → J A → (A → J B) → J B
◌>>=◌ m f j = and_then (m j) f

-- The result of a method of `self.parser`, with `map_err(f)`: `f` takes the iterator behind the call.
abbrev pub put_parser :
    {A : Type 0}
    → (JsonError → Jiter → JiterResult A)
    → Jiter
    → JsonResult A × Parser
    → JiterResult A × Jiter
put_parser f j (JsonResult.ok a, p) = (JiterResult.ok a, record j { parser = p })
put_parser f j (JsonResult.err e, p) = let j' = record j { parser = p } in (f e j', j')
put_parser f j (JsonResult.panic, p) = (JiterResult.panic, record j { parser = p })
put_parser f j (JsonResult.out_of_fuel, p) = (JiterResult.out_of_fuel, record j { parser = p })

abbrev pub parsing_or : {A : Type 0} → (JsonError → Jiter → JiterResult A) → M A → J A
parsing_or f m j = put_parser f j (m j.parser)

-- `map_err(Into::into)`.
abbrev pub parsing : {A : Type 0} → M A → J A
parsing = parsing_or (λ e j. JiterResult.err (jiter_error_from e))

-- `&self.data[range]`.
abbrev pub slice_or_panic : Option Bytes → JiterResult Bytes
slice_or_panic (some s) = JiterResult.ok s
slice_or_panic none = JiterResult.panic

abbrev pub slice : ℕ → ℕ → J Bytes
slice from to j = (slice_or_panic (get_range j.bytes from to), j)

abbrev pub new : Bytes → Jiter
new data_bytes = record {
  bytes = data_bytes;
  parser = Parse.new data_bytes;
  allow_inf_nan = false;
  allow_partial_strings = false;
}

abbrev pub with_allow_inf_nan : Jiter → Jiter
with_allow_inf_nan j = record j { allow_inf_nan = true }

abbrev pub with_allow_partial_strings : Jiter → Jiter
with_allow_partial_strings j = record j { allow_partial_strings = true }

unfoldable pub current_position : Jiter → LinePosition
unfolding Parse.current_position
current_position j = Parse.current_position j.parser

abbrev pub current_index : Jiter → ℕ
current_index j = j.parser.index

abbrev pub slice_to_current : ℕ → J Bytes
slice_to_current start j = slice start (current_index j) j

unfoldable pub error_position : ℕ → Jiter → LinePosition
error_position index j = find j.bytes index
