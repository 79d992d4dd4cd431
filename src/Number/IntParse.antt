-- ===== src/Number/IntParse.antt =====
-- `NumberInt` and `IntParse` of crates/jiter/src/number_decoder.rs.
pub mod Big
pub mod Value
pub mod Steps
use jiter.Prelude.{
  ℕ, zero, suc, ◌+◌, ◌-◌, Bool, true, not, ◌||◌, Option, some, none, List, Bytes, [], ◌∷◌,
  get_elem?, ltb, within, length, ◌==◌, if◌then◌else◌,
}
use jiter.Prelude.Int.{ℤ, pos, as_i64, neg_i64}
use jiter.Errors.{
  JsonResult, ok, panic, out_of_fuel, json_err, ◌>>=◌, invalid_number, number_out_of_range,
  eof_while_parsing_value, float_expecting_int,
}
use jiter.Number.Table.{digit_value, is_digit}
use jiter.Number.Chunk.{IntChunk, ongoing, done, parse_small, parse_big}
use jiter.Number.Libs.{NumberLibs}

pub data NumberInt (B : Type 0) : Type 0 where
  int : ℤ → NumberInt B
  big_int : B → NumberInt B

pub data IntParse (B : Type 0) : Type 0 where
  int : NumberInt B → IntParse B
  float : IntParse B
  float_inf : Bool → IntParse B
  float_nan : IntParse B

-- `ONGOING_CHUNK_MULTIPLIER` and `POW_10`.
abbrev pub ongoing_chunk_multiplier : ℕ
ongoing_chunk_multiplier = 1_000_000_000_000_000_000

unfoldable pub pow_10 : List ℕ
pow_10 =
    1 ∷ 10 ∷ 100 ∷ 1_000 ∷ 10_000 ∷ 100_000 ∷ 1_000_000 ∷ 10_000_000 ∷ 100_000_000 ∷ 1_000_000_000
    ∷ 10_000_000_000 ∷ 100_000_000_000 ∷ 1_000_000_000_000 ∷ 10_000_000_000_000
    ∷ 100_000_000_000_000 ∷ 1_000_000_000_000_000 ∷ 10_000_000_000_000_000 ∷ 100_000_000_000_000_000
    ∷ []

-- The longest number, and rounds enough for it.
abbrev pub max_digits : ℕ
max_digits = 4300

abbrev pub big_rounds : ℕ
big_rounds = 300

module _ (L : NumberLibs) where
  open L use {BigInt, from_u64, mul_u64, add_u64, neg}

  abbrev pub Parsed : Type 0
  Parsed = JsonResult (IntParse BigInt × ℕ)

  -- `big_value *= POW_10[k]; big_value += value; if !positive { big_value = -big_value }`, for the
  -- entry of the table or a panic.
  unfoldable pub big_done : Bool → BigInt → Option ℕ → ℕ → ℕ → Parsed
  big_done positive big none value new_index = panic
  big_done positive big (some power) value new_index =
      let total = add_u64 (mul_u64 big power) value in
      ok (int (big_int (if positive then total else neg total)), new_index)

  -- The `loop` of `IntParse::parse`.
  unfoldable pub big_loop : ℕ → Bytes → ℕ → Bool → BigInt → ℕ → Parsed
  unfolding big_done pow_10
  big_loop zero bytes start positive big index = out_of_fuel
  big_loop (suc fuel) bytes start positive big index =
      let (chunk, new_index) = parse_big bytes index in
      let next : Parsed = elim chunk [
        | ongoing value ↦
            big_loop fuel bytes start positive
              (add_u64 (mul_u64 big ongoing_chunk_multiplier) value) new_index
        | done value ↦ big_done positive big (get_elem? pow_10 (new_index - index)) value new_index
        | IntChunk.float ↦ ok (float, new_index)
      ] in
      if ltb max_digits (new_index - start)
      then json_err number_out_of_range (start + 4301)
      else next

  -- The part behind the first digit.
  unfoldable pub after_digit : Bytes → ℕ → Bool → ℕ → ℕ → Parsed
  after_digit bytes start positive index first_value =
      let (chunk, new_index) = parse_small bytes index first_value in
      elim chunk [
        | ongoing value ↦ big_loop big_rounds bytes start positive (from_u64 value) new_index
        | done value ↦
            ok (int (int (if positive then as_i64 value else neg_i64 (as_i64 value))), new_index)
        | IntChunk.float ↦ ok (float, new_index)
      ]

  -- The byte behind a leading zero, at `index`.
  unfoldable pub after_zero : Option ℕ → ℕ → Parsed
  after_zero none index = ok (int (int (pos 0)), index)
  after_zero (some c) index =
      if c == b'.' || (c == b'e' || c == b'E')
      then ok (float, index)
      else if is_digit c
      then json_err invalid_number index
      else ok (int (int (pos 0)), index)

  -- The match on `first2`.
  unfoldable pub first_digit : Bytes → ℕ → Bool → ℕ → Option ℕ → Parsed
  unfolding after_zero after_digit
  first_digit bytes start positive index none = json_err eof_while_parsing_value index
  first_digit bytes start positive index (some c) =
      if c == b'0'
      then after_zero (get_elem? bytes (index + 1)) (index + 1)
      else if c == b'I'
      then ok (float_inf positive, index)
      else if within b'1' b'9' c
      then after_digit bytes start positive (index + 1) (digit_value c)
      else json_err invalid_number index

  -- `IntParse::parse`.
  unfoldable pub parse : Bytes → ℕ → ℕ → Parsed
  unfolding first_digit
  parse bytes index first =
      if first == b'N'
      then ok (float_nan, index)
      else if first == b'-'
      then first_digit bytes index (not true) (index + 1) (get_elem? bytes (index + 1))
      else first_digit bytes index true index (some first)

  -- `TryFrom<&[u8]> for NumberInt`, behind its check of an empty slice.
  whole_int : Bytes → IntParse BigInt × ℕ → JsonResult (NumberInt BigInt)
  whole_int bytes (int n, index) =
      if index == length bytes then ok n else json_err invalid_number index
  whole_int bytes (float, index) = json_err invalid_number index
  whole_int bytes (float_inf positive, index) = json_err invalid_number index
  whole_int bytes (float_nan, index) = json_err invalid_number index

  unfoldable pub try_from : Bytes → JsonResult (NumberInt BigInt)
  unfolding parse whole_int
  try_from [] = json_err invalid_number 0
  try_from (c ∷ cs) = parse (c ∷ cs) 0 c >>= whole_int (c ∷ cs)

  -- `AbstractNumberDecoder for NumberInt`.
  only_int : IntParse BigInt × ℕ → JsonResult (NumberInt BigInt × ℕ)
  only_int (int n, index) = ok (n, index)
  only_int (float, index) = json_err float_expecting_int index
  only_int (float_inf positive, index) = json_err float_expecting_int index
  only_int (float_nan, index) = json_err float_expecting_int index

  unfoldable pub decode_int : Bytes → ℕ → ℕ → Bool → JsonResult (NumberInt BigInt × ℕ)
  unfolding parse only_int
  decode_int bytes index first allow_inf_nan = parse bytes index first >>= only_int
