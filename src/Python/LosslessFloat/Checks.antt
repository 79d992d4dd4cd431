-- ===== src/Python/LosslessFloat/Checks.antt =====
-- What `LosslessFloat::new` of crates/jiter/src/py_lossless_float.rs accepts.
use jiter.Prelude.{◌≡◌, refl, Bytes, drop}
use jiter.Errors.{JsonResult, jiter_error_from}
use jiter.Parse
use jiter.Parse.{Parser}
use jiter.Parse.Whitespace.{Blank, finish_iff}
use jiter.Number.Libs.{NumberLibs}
use jiter.Number.Float.Steps.{LexicalLaws}
use jiter.Jiter.{Jiter, JiterResult, put_parser}
use jiter.Jiter.Next.{next_float, finish}
use jiter.Jiter.Steps.{Steps, returns, refuses, Later}
use jiter.Jiter.Methods.{Moves, Stays, finish-Steps}
use jiter.Jiter.Moves.{next-Steps}
use jiter.Python.LosslessFloat.{
  Answer, made, raised, LosslessFloat, new_unchecked, or_raise, reader, as_float, checked_new,
  ◌>>=◌,
}

put_parser-ok :
    {A : Type 0} (k m : Jiter) (r : JsonResult A × Parser) {a : A}
    → put_parser (λ e j. JiterResult.err (jiter_error_from e)) k r ≡ (JiterResult.ok a, m)
    → r.0 ≡ JsonResult.ok a
put_parser-ok k m (JsonResult.ok a, p) h = cc
put_parser-ok k m (JsonResult.err e, p) h = cc
put_parser-ok k m (JsonResult.panic, p) h = cc
put_parser-ok k m (JsonResult.out_of_fuel, p) h = cc

-- Where `finish` answers, nothing but whitespace is left.
finish-Blank :
    (k m : Jiter) → finish k ≡ (JiterResult.ok tt, m) → Blank (drop k.parser.index k.parser.bytes)
unfolding finish
finish-Blank k m h = (finish_iff k.parser).0 (put_parser-ok k m (Parse.finish k.parser) h)

module _ (L : NumberLibs) (laws : LexicalLaws L) (debug : Bytes → Bytes) where
  -- A `LosslessFloat` of the bytes, which are a float and whitespace and convert to that float, or an
  -- exception.
  pub data Checked (raw_bytes : Bytes) : Answer LosslessFloat → Type 0 where
    accepts :
        (f : L.Float) (k : Jiter)
        → next_float L (reader L debug (new_unchecked raw_bytes)) ≡ (JiterResult.ok f, k)
        → Blank (drop k.parser.index raw_bytes)
        → as_float L debug (new_unchecked raw_bytes) ≡ made f
        → Checked raw_bytes (made (new_unchecked raw_bytes))
    rejects : {text : Bytes} → Checked raw_bytes (raised text)

  finished-Checked :
      (raw_bytes : Bytes) (f : L.Float) (k : Jiter) (r : JiterResult (Unit {0}) × Jiter)
      → next_float L (reader L debug (new_unchecked raw_bytes)) ≡ (JiterResult.ok f, k)
      → Later (reader L debug (new_unchecked raw_bytes)) k
      → finish k ≡ r
      → Steps k Stays r
      → Checked raw_bytes (or_raise debug r (λ u m. made f) >>= λ x. made (new_unchecked raw_bytes))
  unfolding or_raise as_float
  finished-Checked raw_bytes f k (JiterResult.ok u, m) e l q (returns b x) =
      accepts f k e (rw l.parsed at (finish-Blank k m q)) (rw (e, q) refl)
  finished-Checked raw_bytes f k (JiterResult.err e', m) e l q (refuses b) = rejects
  finished-Checked raw_bytes f k (JiterResult.panic, m) e l q s = elim s [ ]
  finished-Checked raw_bytes f k (JiterResult.out_of_fuel, m) e l q s = elim s [ ]

  read-Checked :
      (raw_bytes : Bytes) (r : JiterResult L.Float × Jiter)
      → next_float L (reader L debug (new_unchecked raw_bytes)) ≡ r
      → Steps
          (reader L debug (new_unchecked raw_bytes))
          (Moves (reader L debug (new_unchecked raw_bytes)))
          r
      → Checked raw_bytes (
          (or_raise debug r λ f j. or_raise debug (finish j) λ u k. made f) >>= λ x.
          made (new_unchecked raw_bytes))
  unfolding or_raise
  read-Checked raw_bytes (JiterResult.ok f, k) e (returns b x) =
      finished-Checked raw_bytes f k (finish k) e b refl (finish-Steps k)
  read-Checked raw_bytes (JiterResult.err e', k) e (refuses b) = rejects
  read-Checked raw_bytes (JiterResult.panic, k) e s = elim s [ ]
  read-Checked raw_bytes (JiterResult.out_of_fuel, k) e s = elim s [ ]

  -- Where lexical_parse_float takes a byte at least and refuses, of what begins with a digit or
  -- with a minus and a digit, only what `NumberRange` refuses too, `LosslessFloat::new` of any
  -- bytes raises, or makes the object of these bytes: then they are a float and whitespace, and
  -- `__float__` of the object gives that float; it neither panics nor runs out of fuel.
  pub checked_new-Checked : (raw_bytes : Bytes) → Checked raw_bytes (checked_new L debug raw_bytes)
  unfolding checked_new as_float
  checked_new-Checked raw_bytes =
      let j = reader L debug (new_unchecked raw_bytes) in
      read-Checked raw_bytes (next_float L j) refl (next-Steps L laws j refl).7
