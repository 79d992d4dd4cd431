-- ===== src/Strings/Utf8.antt =====
-- UTF-8 as the standard library has it: `char::encode_utf8` and `str::from_utf8`, which
-- crates/jiter/src/string_decoder.rs calls.
pub mod Ascii
use jiter.Prelude.{
  ℕ, zero, suc, ◌+◌, ◌-◌, ◌*◌, ◌/◌, ◌%◌, Bool, true, false, ◌&&◌, ◌||◌, Option, some, none, [], ◌∷◌,
  Bytes, ltb, leb, within, ◌==◌, if◌then◌else◌,
}

-- `c.encode_utf8(..)` of a `char`.
unfoldable pub encode_utf8 : ℕ → Bytes
encode_utf8 c =
    if ltb c 0x80
    then c ∷ []
    else if ltb c 0x800
    then (0xC0 + c / 64) ∷ (0x80 + c % 64) ∷ []
    else if ltb c 0x1_0000
    then (0xE0 + c / 4096) ∷ (0x80 + c / 64 % 64) ∷ (0x80 + c % 64) ∷ []
    else (0xF0 + c / 262_144) ∷ (0x80 + c / 4096 % 64) ∷ (0x80 + c / 64 % 64) ∷ (0x80 + c % 64) ∷ []

-- A continuation byte.
abbrev pub is_tail : ℕ → Bool
is_tail c = within 0x80 0xBF c

-- The range of the second byte that a first byte of a three or four byte sequence allows.
abbrev second_of_three : ℕ → ℕ → Bool
second_of_three a b =
    if a == 0xE0 then within 0xA0 0xBF b else if a == 0xED then within 0x80 0x9F b else is_tail b

abbrev second_of_four : ℕ → ℕ → Bool
second_of_four a b =
    if a == 0xF0 then within 0x90 0xBF b else if a == 0xF4 then within 0x80 0x8F b else is_tail b

-- How many bytes the sequence in front has behind its first byte, if it is valid.
unfoldable pub tail_length : Bytes → Option ℕ
tail_length (a ∷ b ∷ c ∷ d ∷ cs) =
    if ltb a 0x80
    then some 0
    else if within 0xC2 0xDF a && is_tail b
    then some 1
    else if within 0xE0 0xEF a && second_of_three a b && is_tail c
    then some 2
    else if within 0xF0 0xF4 a && second_of_four a b && is_tail c && is_tail d
    then some 3
    else none
tail_length (a ∷ b ∷ c ∷ []) =
    if ltb a 0x80
    then some 0
    else if within 0xC2 0xDF a && is_tail b
    then some 1
    else if within 0xE0 0xEF a && second_of_three a b && is_tail c
    then some 2
    else none
tail_length (a ∷ b ∷ []) =
    if ltb a 0x80 then some 0 else if within 0xC2 0xDF a && is_tail b then some 1 else none
tail_length (a ∷ []) = if ltb a 0x80 then some 0 else none
tail_length [] = none

-- The index of the first invalid sequence, from `index` on and with `skip` bytes of a valid one to go.
unfoldable pub invalid_from : ℕ → Bytes → ℕ → Option ℕ
unfolding tail_length
invalid_from skip [] index = none
invalid_from (suc skip) (c ∷ cs) index = invalid_from skip cs (index + 1)
invalid_from zero (c ∷ cs) index = elim (tail_length (c ∷ cs)) [
  | some n ↦ invalid_from n cs (index + 1)
  | none ↦ some index
]

-- `from_utf8(bytes)`: nothing if the bytes are valid, or `valid_up_to()` of the error.
unfoldable pub invalid_utf8 : Bytes → Option ℕ
unfolding invalid_from
invalid_utf8 bytes = invalid_from 0 bytes 0
