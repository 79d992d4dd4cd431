-- ===== src/Number/Range.antt =====
-- `NumberRange` of crates/jiter/src/number_decoder.rs: where a number ends, with no value.
pub mod Parts
pub mod Steps
pub mod Fractions
pub mod Texts
use jiter.Prelude.{
  ℕ, zero, suc, ◌+◌, ◌-◌, Bool, true, false, ◌||◌, Option, some, none, [], ◌∷◌, Bytes, get_elem?,
  drop, ltb, within, ◌==◌, if◌then◌else◌,
}
use jiter.Errors.{
  JsonResult, ok, out_of_fuel, json_err, ◌>>=◌, invalid_number, number_out_of_range,
  eof_while_parsing_value, expected_some_value,
}
use jiter.Parse.{consume_infinity, consume_nan, consume_ident_at}
use jiter.Number.Table.{int_char_map, is_digit}
use jiter.Number.Chunk.{ongoing, done, float, parse_big}
use jiter.Number.IntParse.{max_digits, big_rounds}

pub record NumberRange : Type 0 where
  pub from : ℕ
  pub to : ℕ
  pub is_int : Bool

-- `consume_inf`, and `consume_nan` without its float.
unfoldable pub consume_inf : Bytes → ℕ → Bool → Bool → JsonResult ℕ
unfolding consume_ident_at
consume_inf bytes index positive allow_inf_nan =
    if allow_inf_nan
    then consume_infinity bytes index
    else if positive
    then json_err expected_some_value index
    else json_err invalid_number index

unfoldable pub allowed_nan : Bytes → ℕ → Bool → JsonResult ℕ
unfolding consume_ident_at
allowed_nan bytes index allow_inf_nan =
    if allow_inf_nan then consume_nan bytes index else json_err expected_some_value index

-- `while let Some(b'0'..=b'9') = data.get(index)`, over the bytes from `index` on.
unfoldable pub skip_digits : Bytes → ℕ → ℕ
skip_digits [] index = index
skip_digits (c ∷ cs) index = if is_digit c then skip_digits cs (index + 1) else index

-- A digit must stand at `index`.
abbrev pub need_digit : Option ℕ → ℕ → JsonResult (Unit {0})
need_digit none index = json_err eof_while_parsing_value index
need_digit (some c) index = if is_digit c then ok tt else json_err invalid_number index

-- `consume_exponential` behind an optional sign.
unfoldable pub exponent_digits : Bytes → ℕ → JsonResult ℕ
unfolding skip_digits
exponent_digits bytes index = need_digit (get_elem? bytes index) index >>= λ _.
    ok (skip_digits (drop (index + 1) bytes) (index + 1))

unfoldable pub exponent_sign : Bytes → ℕ → Option ℕ → JsonResult ℕ
unfolding exponent_digits
exponent_sign bytes index none = json_err eof_while_parsing_value index
exponent_sign bytes index (some c) =
    if c == b'-' || c == b'+'
    then exponent_digits bytes (index + 1)
    else if is_digit c
    then exponent_digits bytes index
    else json_err invalid_number index

unfoldable pub consume_exponential : Bytes → ℕ → JsonResult ℕ
unfolding exponent_sign
consume_exponential bytes index = exponent_sign bytes index (get_elem? bytes index)

-- The loop of `consume_decimal`, over the bytes from `index` on.
unfoldable pub decimal_from : Bytes → Bytes → ℕ → JsonResult ℕ
unfolding consume_exponential
decimal_from bytes [] index = ok index
decimal_from bytes (c ∷ cs) index =
    let rest = decimal_from bytes cs (index + 1) in
    if is_digit c
    then rest
    else if c == b'e' || c == b'E'
    then consume_exponential bytes (index + 1)
    else ok index

unfoldable pub consume_decimal : Bytes → ℕ → JsonResult ℕ
unfolding decimal_from
consume_decimal bytes index = need_digit (get_elem? bytes index) index >>= λ _.
    decimal_from bytes (drop (index + 1) bytes) (index + 1)

abbrev pub int_range : ℕ → ℕ → JsonResult (NumberRange × ℕ)
int_range start end = ok (record { from = start; to = end; is_int = true }, end)

abbrev pub float_range : ℕ → JsonResult ℕ → JsonResult (NumberRange × ℕ)
float_range start r = r >>= λ end. ok (record { from = start; to = end; is_int = false }, end)

-- A fraction or an exponent, whose first byte `c` stands at `index`.
abbrev pub range_float : Bytes → ℕ → ℕ → ℕ → JsonResult (NumberRange × ℕ)
range_float bytes start index c =
    float_range start (
      if c == b'.'
      then consume_decimal bytes (index + 1)
      else consume_exponential bytes (index + 1))

-- The last `loop` of `decode`.
unfoldable pub range_loop : ℕ → Bytes → ℕ → ℕ → JsonResult (NumberRange × ℕ)
unfolding consume_decimal
range_loop zero bytes start index = out_of_fuel
range_loop (suc fuel) bytes start index =
    let (chunk, new_index) = parse_big bytes index in
    let next : JsonResult (NumberRange × ℕ) = elim chunk [
      | ongoing value ↦ range_loop fuel bytes start new_index
      | done value ↦ int_range start new_index
      | float ↦ elim (get_elem? bytes new_index) [
        | some c ↦ range_float bytes start new_index c
        | none ↦ float_range start (consume_exponential bytes (new_index + 1))
      ]
    ] in
    if ltb max_digits (new_index - start) then json_err number_out_of_range (start + 4301) else next

-- The `for _ in 0..18` of `decode`, by the rounds left.
unfoldable pub range_digits : ℕ → Bytes → ℕ → ℕ → JsonResult (NumberRange × ℕ)
range_digits zero bytes start index = range_loop big_rounds bytes start index
range_digits (suc n) bytes start index = elim (get_elem? bytes index) [
  | some c ↦
      let rest = range_digits n bytes start (index + 1) in
      if int_char_map c
      then rest
      else if c == b'.' || (c == b'e' || c == b'E')
      then range_float bytes start index c
      else int_range start index
  | none ↦ int_range start index
]

-- The byte behind a leading zero, at `index`.
unfoldable pub range_zero : Bytes → ℕ → ℕ → Option ℕ → JsonResult (NumberRange × ℕ)
unfolding consume_decimal
range_zero bytes start index none = int_range start index
range_zero bytes start index (some c) =
    if c == b'.' || (c == b'e' || c == b'E')
    then range_float bytes start index c
    else if is_digit c
    then json_err invalid_number index
    else int_range start index

-- The match on the first byte behind the sign, at `index`.
unfoldable pub range_first : Bytes → ℕ → Bool → Bool → ℕ → Option ℕ → JsonResult (NumberRange × ℕ)
unfolding consume_inf range_zero range_digits
range_first bytes start positive allow_inf_nan index none = json_err eof_while_parsing_value index
range_first bytes start positive allow_inf_nan index (some c) =
    if c == b'0'
    then range_zero bytes start (index + 1) (get_elem? bytes (index + 1))
    else if c == b'I'
    then float_range start (consume_inf bytes index positive allow_inf_nan)
    else if within b'1' b'9' c
    then range_digits 18 bytes start (index + 1)
    else json_err invalid_number index

-- `AbstractNumberDecoder for NumberRange`.
unfoldable pub decode_range : Bytes → ℕ → ℕ → Bool → JsonResult (NumberRange × ℕ)
unfolding allowed_nan range_first
decode_range bytes index first allow_inf_nan =
    if first == b'N'
    then float_range index (allowed_nan bytes index allow_inf_nan)
    else if first == b'-'
    then range_first bytes index false allow_inf_nan (index + 1) (get_elem? bytes (index + 1))
    else range_first bytes index true allow_inf_nan index (get_elem? bytes index)
