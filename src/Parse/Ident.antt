-- ===== src/Parse/Ident.antt =====
-- `consume_ident` of crates/jiter/src/parse.rs: `true`, `false`, `null`, `NaN` and `Infinity`
-- behind their first byte.
use jiter.Prelude.{
  ℕ, ◌+◌, ◌-◌, ◌<◌, ◌≡◌, ◌↔◌, ◌∙◌, refl, ap, true, [], ◌∷◌, ◌++◌, arith, Bytes, length, drop, take,
  length-drop, length-take_le, ◌==◌, if◌then◌else◌,
}
use jiter.Prelude.Slices.{drop-cons, lt_of_drop, get_elem?-drop_cons, get_elem?-drop_nil}
use jiter.Errors.{JsonResult, ok, json_err, expected_some_ident, eof_while_parsing_value}
use jiter.Parse.{bytes_eq, ident_error, consume_ident_at}

pub bytes_eq_iff : (xs ys : Bytes) → (bytes_eq xs ys ≡ true) ↔ (xs ≡ ys)
unfolding bytes_eq
bytes_eq_iff (x ∷ xs) (y ∷ ys) = ground (arith, bytes_eq_iff xs ys)
bytes_eq_iff _ _ = ground arith

bytes_eq-length : (xs ys : Bytes) → bytes_eq xs ys ≡ true → length xs ≡ length ys
bytes_eq-length xs ys h = ap length ((bytes_eq_iff xs ys).0 h)

-- The bytes read one at a time: past them all, or the error at the first that is not there.
unfoldable pub read_ident : Bytes → Bytes → ℕ → JsonResult ℕ
read_ident [] tail index = ok index
read_ident (c ∷ expected) [] index = json_err eof_while_parsing_value index
read_ident (c ∷ expected) (d ∷ tail) index =
    if d == c then read_ident expected tail (index + 1) else json_err expected_some_ident index

read_ident-split :
    (expected tail bytes : Bytes) (index : ℕ)
    → drop index bytes ≡ tail
    → read_ident expected tail index ≡ (
        if bytes_eq (take (length expected) tail) expected
        then ok (index + length expected)
        else ident_error bytes index expected)
unfolding read_ident bytes_eq ident_error
read_ident-split [] tail bytes index e = ground arith
read_ident-split (c ∷ expected) [] bytes index e = ground (arith, get_elem?-drop_nil index bytes e)
read_ident-split (c ∷ expected) (d ∷ tail) bytes index e = ground (
  arith,
  get_elem?-drop_cons index bytes e,
  read_ident-split expected tail bytes (index + 1) (drop-cons index bytes e),
)

-- Comparing a whole slice first and the bytes one at a time after a mismatch gives what reading the
-- bytes one at a time gives: the index behind them, `ExpectedSomeIdent` at the first other byte, or
-- `EofWhileParsingValue` at the end of the data.
pub consume_ident_at-read_ident :
    (bytes : Bytes) (index : ℕ) (expected : Bytes)
    → index < length bytes
    → consume_ident_at bytes index expected
      ≡ read_ident expected (drop (index + 1) bytes) (index + 1)
unfolding consume_ident_at
consume_ident_at-read_ident bytes index expected lt =
    let tail = drop (index + 1) bytes in
    let n : index + length expected + 1 - (index + 1) ≡ length expected = omega arith in
    ground (
      arith,
      n,
      ap (λ k. bytes_eq (take k tail) expected) n,
      length-drop (index + 1) bytes,
      length-take_le (length expected) tail,
      bytes_eq-length (take (length expected) tail) expected,
      read_ident-split expected tail bytes (index + 1) refl,
    )

read_ident-match :
    (expected rest : Bytes) (index : ℕ)
    → read_ident expected (expected ++ rest) index ≡ ok (index + length expected)
unfolding read_ident
read_ident-match [] rest index = ground arith
read_ident-match (c ∷ expected) rest index =
    ground (arith, read_ident-match expected rest (index + 1))

-- Behind the byte at `index` stand the bytes expected: the index moves past them.
pub consume_ident_at-match :
    (bytes : Bytes) (index first : ℕ) (expected rest : Bytes)
    → drop index bytes ≡ first ∷ (expected ++ rest)
    → consume_ident_at bytes index expected ≡ ok (index + 1 + length expected)
consume_ident_at-match bytes index first expected rest e =
    consume_ident_at-read_ident bytes index expected (lt_of_drop index bytes e)
    ∙ ap (λ t. read_ident expected t (index + 1)) (drop-cons index bytes e)
    ∙ read_ident-match expected rest (index + 1)
