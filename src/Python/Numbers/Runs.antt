-- ===== src/Python/Numbers/Runs.antt =====
-- The runs of `MaybeParseNumber::parse_number` of crates/jiter/src/python.rs.
use jiter.Prelude.{get_elem?, ℕ, ◌<◌, ◌≤◌, ◌≡◌, refl, ap, ◌∙◌, Bool, some, Bytes, arith, length}
use jiter.Prelude.Slices.{slice-first, get_range-some, slice}
use jiter.Errors.{JsonResult}
use jiter.Errors.Ensures.{Ensures, Ensures-weaken}
use jiter.Parse.{Parser, consume_number}
use jiter.Parse.Runs.{Ahead, Runs, returns, refuses, At, Past, Runs-from, Runs-next, Runs-test}
use jiter.Parse.Runs.Decoders.{set_index-Runs, consume_number-Runs}
use jiter.Number.Libs.{NumberLibs}
use jiter.Number.Float.{decode_any}
use jiter.Number.Float.Steps.{LexicalLaws, decode_any-Ensures}
use jiter.Number.Range.{NumberRange, decode_range}
use jiter.Number.Range.Steps.{decode_range-Ensures}
use jiter.StringCache.{PyStrings}
use jiter.Value.Skip.Rounds.{number_error-Runs}
use jiter.Python.Libs.{
  PyObjects, PyResult, py_result, made, raised, FloatMode, float, decimal, lossless_float,
}
use jiter.Python.Numbers.{
  converted, parse_number_lossy, int_of, sliced, parse_number_range, parse_number,
}

-- A range of the data from an index on, with a byte at least.
abbrev InData : Bytes → ℕ → NumberRange → Type 0
InData bytes index range =
    (range.from ≡ index) × (range.from < range.to) × (range.to ≤ length bytes)

module _ {L : NumberLibs} {P : PyStrings} (O : PyObjects L P) (laws : LexicalLaws L) where
  open O use {Object}

  pub converted-Runs :
      {A : Type 0} (r : PyResult A) (p : Parser) → Runs p (λ a q. q ≡ p) (converted O r p)
  unfolding converted py_result
  converted-Runs (made a) p = returns (refl, omega arith) refl
  converted-Runs (raised text) p = refuses (refl, omega arith)

  converted-Past :
      (r : PyResult Object) (p q : Parser)
      → Ahead p q
      → Past p r q
      → Runs p (Past p) (converted O r q)
  converted-Past r p q a l = Runs-from a (converted-Runs r q) λ o s b e. omega arith

  parse_number_lossy-Runs :
      (c : ℕ) (inf_nan : Bool) (p : Parser)
      → At c p
      → Runs p (Past p) (parse_number_lossy O c inf_nan p)
  unfolding parse_number_lossy
  parse_number_lossy-Runs c inf_nan p h =
      Runs-next
        (number_error-Runs c
          (consume_number-Runs (decode_any L) (decode_any-Ensures L laws) c inf_nan p h))
        λ n q a l. converted-Past (O.number n) p q a l

  decoded-Runs :
      {A : Type 0} {Q : A → Type 0} (p : Parser) {r : JsonResult A}
      → Ensures Q r
      → Runs p (λ a q. q ≡ p) (r, p)
  decoded-Runs p (Ensures.returns h) = returns (refl, omega arith) refl
  decoded-Runs p Ensures.refuses = refuses (refl, omega arith)

  int_of-Runs :
      (bytes : Bytes) (c : ℕ) (inf_nan : Bool) (p : Parser)
      → get_elem? bytes 0 ≡ some c
      → Runs p (λ a q. q ≡ p) (int_of O bytes c inf_nan p)
  unfolding int_of
  int_of-Runs bytes c inf_nan p h =
      Runs-next (decoded-Runs p (decode_any-Ensures L laws bytes 0 c inf_nan h))
        λ n q a e. Runs-from a (converted-Runs (O.number n.0) q) λ o s b g. g ∙ e

  sliced-Runs :
      (make : Bytes → PyResult Object) (c : ℕ) (inf_nan is_int : Bool) (bytes : Bytes) (p : Parser)
      → get_elem? bytes 0 ≡ some c
      → Runs p (λ a q. q ≡ p) (sliced O make c inf_nan is_int (some bytes) p)
  unfolding sliced
  sliced-Runs make c inf_nan is_int bytes p h =
      Runs-test is_int (λ _. int_of-Runs bytes c inf_nan p h) (λ _. converted-Runs (make bytes) p)

  range-Ensures :
      (p : Parser) (c : ℕ) (inf_nan : Bool)
      → Ensures
          (λ v. (p.index < v.1) × InData p.bytes p.index v.0)
          (decode_range p.bytes p.index c inf_nan)
  range-Ensures p c inf_nan =
      Ensures-weaken (decode_range-Ensures p.bytes p.index c inf_nan)
        λ v e. (e.2, (e.0, omega (arith, e.0, e.1), omega (arith, e.1)))

  parse_number_range-Runs :
      (make : Bytes → PyResult Object) (c : ℕ) (inf_nan : Bool) (p : Parser)
      → At c p
      → Runs p (Past p) (parse_number_range O make c inf_nan p)
  unfolding parse_number_range consume_number
  parse_number_range-Runs make c inf_nan p h =
      Runs-next
        (number_error-Runs c
          (set_index-Runs {G = InData p.bytes p.index} p (range-Ensures p c inf_nan)))
        λ range q a (l, (o, m, n)).
          let e : length q.bytes ≡ length p.bytes = ap length a.0 in
          rw (get_range-some q.bytes range.from range.to (omega arith) (omega arith)) (
            Runs-from a
              (sliced-Runs make c inf_nan range.is_int (slice q.bytes range.from range.to) q
                (slice-first range.from range.to q.bytes (rw (a.0, o) h) m))
              λ o s b g. omega arith)

  -- A number is made with the parser behind its first byte, or there is an error. There is no panic:
  -- the bytes of a `NumberRange` are in the data.
  pub parse_number-Runs :
      (mode : FloatMode) (c : ℕ) (inf_nan : Bool) (p : Parser)
      → At c p
      → Runs p (Past p) (parse_number O mode c inf_nan p)
  unfolding parse_number
  parse_number-Runs float c inf_nan p h = parse_number_lossy-Runs c inf_nan p h
  parse_number-Runs decimal c inf_nan p h = parse_number_range-Runs O.decimal c inf_nan p h
  parse_number-Runs lossless_float c inf_nan p h = parse_number_range-Runs O.lossless c inf_nan p h
