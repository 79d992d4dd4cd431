-- ===== src/Tests/Numbers.antt =====
-- Tests of crates/jiter/src/number_decoder.rs.
use jiter.Prelude.{
  if◌then◌else◌, ◌==◌, ◌||◌, not, suc, zero, drop, get_elem?, ==_iff, ℕ, ◌+◌, ◌*◌, ◌≡◌, refl, Bool,
  true, false, ◌&&◌, Bool-cases, inl, inr, [], ◌∷◌, none, some, Option, arith, ap, some-injective,
  ◌<◌, Bytes,
}
use jiter.Prelude.Int.{as_i64, ℤ, pos, negsuc, -ℤ◌}
use jiter.Prelude.Slices.{drop-cons, get_elem?-drop_cons, get_elem?-drop_nil}
use jiter.Errors.{json_error, eof_while_parsing_value, JsonError, err, ok, json_err, invalid_number}
use jiter.Number.Libs.{NumberLibs, BigIntLaws}
use jiter.Number.Table.{int_char_map, digit_value, is_digit, int_char_map-is_digit}
use jiter.Number.Chunk.{decode_int_chunk_fallback, push_digit}
use jiter.Number.Chunk.Laws.{Digits, decimal}
use jiter.Number.IntParse.{int, big_int, parse, big_loop, after_digit}
use jiter.Number.IntParse.Big.{signed}
use jiter.Number.IntParse.Value.{parse-i64, parse-big_int}
use jiter.Errors.Ensures.{Ensures}
use jiter.Number.Float.{decode_any}
use jiter.Number.Float.Steps.{LexicalLaws, starts_number, decode_any-Ensures}
use jiter.Number.IntParse.Steps.{Seen, parse-Ensures}
use jiter.Number.Range.Steps.{Ends, decode_range-Ensures}
use jiter.Number.Range.{decode_range, range_digits, range_zero, consume_decimal}
use jiter.Prelude.Text.{codes}

abbrev mul_ℤ : ℤ → ℕ → ℤ
mul_ℤ (pos n) m = pos (n * m)
mul_ℤ (negsuc n) m = -ℤ◌ (pos ((n + 1) * m))

abbrev add_ℤ : ℤ → ℕ → ℤ
add_ℤ (pos n) m = pos (n + m)
add_ℤ (negsuc n) m = negsuc n

-- Floats are left out, and big integers are integers.
abbrev pub libs : NumberLibs
libs = record {
  Float = Unit {0};
  infinity = tt;
  neg_infinity = tt;
  nan = tt;
  from_lexical_partial = λ bytes. none;
  BigInt = ℤ;
  from_u64 = pos;
  mul_u64 = mul_ℤ;
  add_u64 = add_ℤ;
  neg = -ℤ◌;
}

mul_ℤ_lem : (b : ℤ) (n m : ℕ) → b ≡ pos n → mul_ℤ b m ≡ pos (n * m)
mul_ℤ_lem (pos a) n m h = cc
mul_ℤ_lem (negsuc a) n m h = cc

add_ℤ_lem : (b : ℤ) (n m : ℕ) → b ≡ pos n → add_ℤ b m ≡ pos (n + m)
add_ℤ_lem (pos a) n m h = cc
add_ℤ_lem (negsuc a) n m h = cc

abbrev laws : BigIntLaws libs
laws = record {
  value = λ b. b;
  value-from_u64 = λ n. refl;
  value-mul_u64 = mul_ℤ_lem;
  value-add_u64 = add_ℤ_lem;
  value-neg = λ b. refl;
}

parse_42 : parse libs (codes "42,") 0 b'4' ≡ ok (int (int (pos 42)), 2)
unfolding parse decode_int_chunk_fallback int_char_map as_i64 push_digit digit_value after_digit
parse_42 = refl

parse_leading_zero : parse libs (codes "012") 0 b'0' ≡ json_err invalid_number 1
unfolding parse
parse_leading_zero = refl

parse_20_digits :
    parse libs (codes "-12345678901234567890") 0 b'-'
    ≡ ok (int (big_int (negsuc 12_345_678_901_234_567_889)), 21)
unfolding parse big_loop decode_int_chunk_fallback int_char_map push_digit digit_value after_digit
parse_20_digits = refl

range_of_float :
    decode_range (codes "1.5e3]") 0 b'1' false ≡ ok (record { from = 0; to = 5; is_int = false }, 5)
unfolding decode_range range_digits int_char_map
range_of_float = refl

parse-i64_example :
    parse libs (codes "-42,") 0 b'-'
    ≡ ok (int (int (signed false (decimal 0 (codes "42")))), 0 + 1 + 2)
parse-i64_example =
    parse-i64 libs false b'4' (codes "2") (codes ",") (codes "-42,") 0 refl refl (refl, tt)
      (refl, refl) (omega arith)

abbrev all_digits : Bytes → Bool
all_digits [] = true
all_digits (c ∷ cs) = is_digit c && all_digits cs

all_digits_sound : (cs : Bytes) → all_digits cs ≡ true → Digits cs
all_digits_sound [] h = tt
all_digits_sound (c ∷ cs) h = elim (Bool-cases (is_digit c)) [
  | inl d ↦ (d, all_digits_sound cs (rw d at h))
  | inr d ↦ cc
]

abbrev nineteen : Bytes
nineteen = codes "234567890123456789"

parse-big_int_example :
    (b : ℤ) × (parse libs (codes "-1234567890123456789") 0 b'-' ≡ ok (int (big_int b), 0 + 1 + 19))
    × (b ≡ signed false (decimal 0 (codes "1234567890123456789")))
parse-big_int_example =
    parse-big_int libs laws false b'1' nineteen [] (codes "-1234567890123456789") 0 refl refl
      (all_digits_sound nineteen refl) tt (omega arith) (omega arith)

int_char_map-is_digit_example : int_char_map b'7' ≡ is_digit b'7'
int_char_map-is_digit_example = int_char_map-is_digit b'7'

decode_range-Ensures_example :
    Ensures (Ends (codes "12.5e-3") 0) (decode_range (codes "12.5e-3") 0 b'1' false)
decode_range-Ensures_example = decode_range-Ensures (codes "12.5e-3") 0 b'1' false

parse-Ensures_example : Ensures (Seen libs 0) (parse libs (codes "-12345678901234567890") 0 b'-')
parse-Ensures_example = parse-Ensures libs (codes "-12345678901234567890") 0 b'-'

-- A float parser that reads one digit with the sign in front of it, and refuses what begins with
-- neither and a zero with a point behind it that no digit follows.
unfoldable pub no_fraction : Bytes → Bool
no_fraction [] = false
no_fraction (c ∷ []) = c == b'.'
no_fraction (c ∷ (d ∷ cs)) = c == b'.' && not (is_digit d)

unfoldable pub lexes : Bytes → Option (Unit {0} × ℕ)
unfolding no_fraction
lexes [] = none
lexes (c ∷ []) = if is_digit c then some (tt, 1) else none
lexes (c ∷ (d ∷ cs)) =
    if c == b'0' && no_fraction (d ∷ cs)
    then none
    else if is_digit c
    then some (tt, 1)
    else if c == b'-' && is_digit d
    then some (tt, 2)
    else none

abbrev pub lexing : NumberLibs
lexing = record libs { from_lexical_partial = lexes }

pub lexes_takes : (s : Bytes) (x : Unit {0}) (n : ℕ) → lexes s ≡ some (x, n) → 0 < n
unfolding lexes
lexes_takes [] x n h = cc
lexes_takes (c ∷ []) x n h = ground arith
lexes_takes (c ∷ (d ∷ cs)) x n h = ground arith

-- The range of a zero with a point and no digit behind it is an error.
no_fraction_refused :
    (bytes : Bytes) (start : ℕ) (inf_nan : Bool) (cs : Bytes)
    → drop start bytes ≡ b'0' ∷ cs
    → no_fraction cs ≡ true
    → (e : JsonError) × (decode_range bytes start b'0' inf_nan ≡ err e)
unfolding no_fraction decode_range range_zero consume_decimal
no_fraction_refused bytes start inf_nan [] d h = cc
no_fraction_refused bytes start inf_nan (c ∷ []) d h =
    let e1 = drop-cons start bytes d in
    let p : c ≡ b'.' = (==_iff c b'.').0 h in
    (
      json_error eof_while_parsing_value (start + 1 + 1),
      rw
          (
            get_elem?-drop_cons start bytes d,
            get_elem?-drop_cons (start + 1) bytes e1,
            p,
            get_elem?-drop_nil (start + 1 + 1) bytes (drop-cons (start + 1) bytes e1),
          )
          refl,
    )
no_fraction_refused bytes start inf_nan (c ∷ (x ∷ cs)) d h =
    let e1 = drop-cons start bytes d in
    let p : c ≡ b'.' = ground arith in
    let q : is_digit x ≡ false = ground arith in
    (
      json_error invalid_number (start + 1 + 1),
      rw
          (
            get_elem?-drop_cons start bytes d,
            get_elem?-drop_cons (start + 1) bytes e1,
            p,
            get_elem?-drop_cons (start + 1 + 1) bytes (drop-cons (start + 1) bytes e1),
            q,
          )
          refl,
    )

pub lexes_refused :
    (bytes : Bytes) (start first : ℕ) (inf_nan : Bool) (cs : Bytes)
    → drop start bytes ≡ first ∷ cs
    → starts_number first (get_elem? bytes (start + 1)) ≡ true
    → lexes (first ∷ cs) ≡ none
    → (e : JsonError) × (decode_range bytes start first inf_nan ≡ err e)
unfolding lexes
lexes_refused bytes start first inf_nan [] d s l =
    let o = get_elem?-drop_nil (start + 1) bytes (drop-cons start bytes d) in
    let h : is_digit first ≡ true = rw o at s in cc (rw h at l)
lexes_refused bytes start first inf_nan (c ∷ cs) d s l =
    let o = get_elem?-drop_cons (start + 1) bytes (drop-cons start bytes d) in
    let h : (is_digit first || (first == b'-' && is_digit c)) ≡ true = rw o at s in
    elim (Bool-cases (first == b'0' && no_fraction (c ∷ cs))) [
      | inl t ↦
          let z : first ≡ b'0' = ground arith in
          let n : no_fraction (c ∷ cs) ≡ true = ground arith in
          rw z (no_fraction_refused bytes start inf_nan (c ∷ cs) (rw z at d) n)
      | inr f ↦ absurd (ground arith)
    ]

drop-first :
    (bytes : Bytes) (start first : ℕ)
    → get_elem? bytes start ≡ some first
    → (cs : Bytes) × (drop start bytes ≡ first ∷ cs)
drop-first [] start first g = cc
drop-first (c ∷ bytes) zero first g = (bytes, ap (λ x. x ∷ bytes) (some-injective g))
drop-first (c ∷ bytes) (suc start) first g = drop-first bytes start first g

pub lexing_refused :
    (bytes : Bytes) (start first : ℕ) (inf_nan : Bool)
    → get_elem? bytes start ≡ some first
    → starts_number first (get_elem? bytes (start + 1)) ≡ true
    → lexes (drop start bytes) ≡ none
    → (e : JsonError) × (decode_range bytes start first inf_nan ≡ err e)
lexing_refused bytes start first inf_nan g s l =
    let (cs, d) = drop-first bytes start first g in
    lexes_refused bytes start first inf_nan cs d s (rw d at l)

abbrev pub lexed : LexicalLaws lexing
lexed = record { takes = lexes_takes; refused = lexing_refused }

decode_any-Ensures_example :
    Ensures (λ r. 3 < r.1) (decode_any lexing (codes "[1,-2.5]") 3 b'-' false)
decode_any-Ensures_example = decode_any-Ensures lexing lexed (codes "[1,-2.5]") 3 b'-' false refl
