-- ===== src/Python/State.antt =====
-- The state of `PythonParser` of crates/jiter/src/python.rs, and the methods of the parser and of the
-- string cache on it.
use jiter.Prelude.{ℕ, none, some}
use jiter.Errors.{JsonResult, ok, err, panic, out_of_fuel}
use jiter.Parse.{Parser, M}
use jiter.StringCache.{PyStrings}
use jiter.StringCache.Mode.{Shared, Made}

-- `PythonParser`, with the static string cache and the interpreter. The tape is left out.
pub record PythonParser (P : PyStrings) : Type 0 where
  pub parser : Parser
  pub recursion_limit : ℕ
  pub shared : Shared P

-- A step on a state: of the parser alone, or of the parser with the list or the dict being filled.
abbrev pub S : Type 0 → Type 0 → Type 0
S T A = T → JsonResult A × T

abbrev pub pure : {T A : Type 0} → A → S T A
pure a s = (ok a, s)

-- The operator `?`.
abbrev pub and_then : {T A B : Type 0} → JsonResult A × T → (A → S T B) → JsonResult B × T
and_then (ok a, s) f = f a s
and_then (err e, s) f = (err e, s)
and_then (panic, s) f = (panic, s)
and_then (out_of_fuel, s) f = (out_of_fuel, s)

infixl 5 ◌>>=◌
abbrev pub ◌>>=◌ : {T A B : Type 0} → S T A → (A → S T B) → S T B
◌>>=◌ m f s = and_then (m s) f

-- A step of the parser beside what is being filled.
abbrev pub put_beside : {C T A : Type 0} → C → JsonResult A × T → JsonResult A × (C × T)
put_beside c (r, s) = (r, (c, s))

abbrev pub beside : {C T A : Type 0} → S T A → S (C × T) A
beside m (c, s) = put_beside c (m s)

module _ {P : PyStrings} where
  -- A method of `self.parser`.
  abbrev pub put_parser :
      {A : Type 0} → PythonParser P → JsonResult A × Parser → JsonResult A × PythonParser P
  put_parser s (r, p) = (r, record s { parser = p })

  abbrev pub parsing : {A : Type 0} → M A → S (PythonParser P) A
  parsing m s = put_parser s (m s.parser)

  -- A call that makes a string.
  abbrev pub put_made : PythonParser P → Made P → JsonResult P.PyString × PythonParser P
  put_made s none = (panic, s)
  put_made s (some (py_str, cache, py)) = (ok py_str, record s { shared = (cache, py) })

  abbrev pub making : (Shared P → Made P) → S (PythonParser P) P.PyString
  making make s = put_made s (make s.shared)
