-- ===== src/Parse.antt =====
-- The token parser of crates/jiter/src/parse.rs. A method takes the parser and returns its result
-- with the parser that it leaves behind, after an error too.
pub mod Ident
pub mod Whitespace
pub mod Runs
pub mod Reads
use jiter.Prelude.{
  ℕ, zero, suc, ◌+◌, ◌≡◌, Bool, true, false, ◌&&◌, ◌||◌, Option, none, some, [], ◌∷◌, Bytes, length,
  get_elem?, drop, ◌==◌, within, if◌then◌else◌,
}
use jiter.Prelude.Slices.{get_range}
use jiter.Errors.{
  JsonErrorType, JsonError, JsonResult, ok, err, panic, out_of_fuel, json_err,
  eof_while_parsing_list, eof_while_parsing_object, eof_while_parsing_value, expected_colon,
  expected_list_comma_or_end, expected_object_comma_or_end, expected_some_ident,
  key_must_be_a_string, trailing_comma, trailing_characters,
}
use jiter.Errors.Position.{LinePosition, find}

-- `Peek` is its byte.
abbrev pub Peek : Type 0
Peek = ℕ

abbrev pub is_ascii_digit : ℕ → Bool
is_ascii_digit c = within b'0' b'9' c

unfoldable pub is_num : Peek → Bool
is_num c = is_ascii_digit c || c == b'-' || c == b'I' || c == b'N'

pub record Parser : Type 0 where
  pub bytes : Bytes
  pub index : ℕ

abbrev pub new : Bytes → Parser
new data_bytes = record { bytes = data_bytes; index = 0 }

-- `self.index += n`.
abbrev pub advance : ℕ → Parser → Parser
advance n p = record p { index = p.index + n }

abbrev pub M : Type 0 → Type 0
M A = Parser → JsonResult A × Parser

-- A returned value and a returned error, which carries an index.
abbrev pub pure : {A : Type 0} → A → M A
pure a p = (ok a, p)

-- `json_err!(t, self.index)`.
abbrev pub fail : {A : Type 0} → JsonErrorType → M A
fail t p = (json_err t p.index, p)

-- The operator `?` on the result of a method.
abbrev pub and_then : {A B : Type 0} → JsonResult A × Parser → (A → M B) → JsonResult B × Parser
and_then (ok a, p) f = f a p
and_then (err e, p) f = (err e, p)
and_then (panic, p) f = (panic, p)
and_then (out_of_fuel, p) f = (out_of_fuel, p)

infixl 5 ◌>>=◌
abbrev pub ◌>>=◌ : {A B : Type 0} → M A → (A → M B) → M B
◌>>=◌ m f p = and_then (m p) f

-- `self.index = index` after `let (output, index) = decode(..)?`.
abbrev pub set_index : {A : Type 0} → Parser → JsonResult (A × ℕ) → JsonResult A × Parser
set_index p (ok (a, i)) = (ok a, record p { index = i })
set_index p (err e) = (err e, p)
set_index p panic = (panic, p)
set_index p out_of_fuel = (out_of_fuel, p)

unfoldable pub current_position : Parser → LinePosition
current_position p = find p.bytes p.index

unfoldable pub is_whitespace : ℕ → Bool
is_whitespace c = c == b' ' || c == b'\r' || c == b'\t' || c == b'\n'

-- The loop of `eat_whitespace`, over the bytes from `index` on.
unfoldable pub eat_from : Bytes → ℕ → Option ℕ × ℕ
eat_from [] index = (none, index)
eat_from (c ∷ cs) index = if is_whitespace c then eat_from cs (index + 1) else (some c, index)

unfoldable pub eat_whitespace : Parser → Option ℕ × Parser
eat_whitespace p =
    let (next, i) = eat_from (drop p.index p.bytes) p.index in (next, record p { index = i })

-- `if let Some(next) = self.eat_whitespace() { f(next) } else { json_err!(t, self.index) }`.
abbrev pub eaten :
    {A : Type 0} → JsonErrorType → (ℕ → M A) → Option ℕ × Parser → JsonResult A × Parser
eaten t f (none, p) = fail t p
eaten t f (some c, p) = f c p

abbrev pub on_next : {A : Type 0} → JsonErrorType → (ℕ → M A) → M A
on_next t f p = eaten t f (eat_whitespace p)

unfoldable pub peek : M Peek
peek = on_next eof_while_parsing_value (λ c. pure c)

unfoldable pub array_first : M (Option Peek)
array_first p =
    on_next eof_while_parsing_list
      (λ c q. if c == b']' then pure none (advance 1 q) else pure (some c) q) (advance 1 p)

unfoldable pub array_peek : M (Option Peek)
array_peek = on_next eof_while_parsing_value (λ c. pure (if c == b']' then none else some c))

-- `if next.is_none() { json_err!(TrailingComma, self.index) } else { Ok(next) }`.
abbrev pub not_trailing : Option Peek → M (Option Peek)
not_trailing none = fail trailing_comma
not_trailing (some c) = pure (some c)

unfoldable pub array_step : M (Option Peek)
unfolding array_peek
array_step = on_next eof_while_parsing_list λ c p.
    if c == b','
    then (array_peek >>= not_trailing) (advance 1 p)
    else if c == b']'
    then pure none (advance 1 p)
    else fail expected_list_comma_or_end p

abbrev pub finished : Option ℕ × Parser → JsonResult (Unit {0}) × Parser
finished (none, p) = pure tt p
finished (some c, p) = fail trailing_characters p

unfoldable pub finish : M (Unit {0})
finish p = finished (eat_whitespace p)

-- `slice == expected`.
unfoldable pub bytes_eq : Bytes → Bytes → Bool
bytes_eq [] [] = true
bytes_eq (x ∷ xs) (y ∷ ys) = x == y && bytes_eq xs ys
bytes_eq _ _ = false

-- The error path of `consume_ident`: the loop over the bytes expected.
unfoldable pub ident_error : Bytes → ℕ → Bytes → JsonResult ℕ
ident_error bytes index [] = json_err eof_while_parsing_value index
ident_error bytes index (c ∷ expected) =
    let rest = ident_error bytes (index + 1) expected in
    elim (get_elem? bytes index) [
      | some v ↦ if v == c then rest else json_err expected_some_ident index
      | none ↦ json_err eof_while_parsing_value index
    ]

-- The free function `consume_ident`.
unfoldable pub consume_ident_at : Bytes → ℕ → Bytes → JsonResult ℕ
unfolding bytes_eq ident_error
consume_ident_at bytes index expected =
    elim (get_range bytes (index + 1) (index + length expected + 1)) [
      | some s ↦
          if bytes_eq s expected
          then ok (index + length expected + 1)
          else ident_error bytes (index + 1) expected
      | none ↦ ident_error bytes (index + 1) expected
    ]

abbrev pub true_rest : Bytes
true_rest = b'r' ∷ b'u' ∷ b'e' ∷ []

abbrev pub false_rest : Bytes
false_rest = b'a' ∷ b'l' ∷ b's' ∷ b'e' ∷ []

abbrev pub null_rest : Bytes
null_rest = b'u' ∷ b'l' ∷ b'l' ∷ []

abbrev pub nan_rest : Bytes
nan_rest = b'a' ∷ b'N' ∷ []

abbrev pub infinity_rest : Bytes
infinity_rest = b'n' ∷ b'f' ∷ b'i' ∷ b'n' ∷ b'i' ∷ b't' ∷ b'y' ∷ []

abbrev pub consume_infinity : Bytes → ℕ → JsonResult ℕ
consume_infinity bytes index = consume_ident_at bytes index infinity_rest

abbrev pub consume_nan : Bytes → ℕ → JsonResult ℕ
consume_nan bytes index = consume_ident_at bytes index nan_rest

-- The method `consume_ident`.
abbrev pub moved_to : Parser → JsonResult ℕ → JsonResult (Unit {0}) × Parser
moved_to p (ok i) = (ok tt, record p { index = i })
moved_to p (err e) = (err e, p)
moved_to p panic = (panic, p)
moved_to p out_of_fuel = (out_of_fuel, p)

unfoldable pub consume_ident : Bytes → M (Unit {0})
unfolding consume_ident_at
consume_ident expected p = moved_to p (consume_ident_at p.bytes p.index expected)

abbrev pub consume_true : M (Unit {0})
consume_true = consume_ident true_rest

abbrev pub consume_false : M (Unit {0})
consume_false = consume_ident false_rest

abbrev pub consume_null : M (Unit {0})
consume_null = consume_ident null_rest

-- `AbstractStringDecoder::decode` with its tape left out, and `AbstractNumberDecoder::decode`.
abbrev pub DecodeString : Type 0 → Type 0
DecodeString O = Bytes → ℕ → Bool → JsonResult (O × ℕ)

abbrev pub DecodeNumber : Type 0 → Type 0
DecodeNumber O = Bytes → ℕ → ℕ → Bool → JsonResult (O × ℕ)

module _ {O : Type 0} (decode : DecodeString O) where
  unfoldable pub consume_string : Bool → M O
  consume_string allow_partial p = set_index p (decode p.bytes p.index allow_partial)

  -- A key and the colon behind it.
  unfoldable pub object_key : M O
  unfolding consume_string
  object_key = consume_string false >>= λ output.
      on_next eof_while_parsing_object
        λ c p. if c == b':' then pure output (advance 1 p) else fail expected_colon p

  unfoldable pub object_first : M (Option O)
  unfolding object_key
  object_first p =
      on_next eof_while_parsing_object
        (λ c q.
          if c == b'"'
          then (object_key >>= λ k. pure (some k)) q
          else if c == b'}'
          then pure none (advance 1 q)
          else fail key_must_be_a_string q)
        (advance 1 p)

  unfoldable pub object_step : M (Option O)
  unfolding object_key
  object_step = on_next eof_while_parsing_object λ c p.
      if c == b','
      then on_next eof_while_parsing_value
          (λ d q.
            if d == b'"'
            then (object_key >>= λ k. pure (some k)) q
            else if d == b'}'
            then fail trailing_comma q
            else fail key_must_be_a_string q)
          (advance 1 p)
      else if c == b'}'
      then pure none (advance 1 p)
      else fail expected_object_comma_or_end p

module _ {O : Type 0} (decode : DecodeNumber O) where
  unfoldable pub consume_number : ℕ → Bool → M O
  consume_number first allow_inf_nan p = set_index p (decode p.bytes p.index first allow_inf_nan)
