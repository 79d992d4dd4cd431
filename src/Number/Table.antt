-- ===== src/Number/Table.antt =====
-- `INT_CHAR_MAP` of crates/jiter/src/number_decoder.rs, row by row, and the digits.
use jiter.Prelude.{
  ℕ, ◌-◌, ◌≤◌, ◌<◌, ◌≡◌, ◌∙◌, refl, Bool, true, false, not, ◌||◌, List, ◌++◌, arith, bit_and,
  get_or, replicate, get_or_past, within, ◌==◌, every_from, every_below, inl, inr, ◌⊎◌,
}

-- Rows 0 to 2 are `__`, row 3 starts with ten `NU`, and the rest of it and the rows below are `__`.
abbrev int_char_rows : List Bool
int_char_rows = replicate 48 false ++ (replicate 10 true ++ replicate 198 false)

-- `INT_CHAR_MAP[byte as usize]`.
unfoldable pub int_char_map : ℕ → Bool
int_char_map c = get_or int_char_rows c false

-- `(byte & 0x0f) as u64`.
unfoldable pub digit_value : ℕ → ℕ
digit_value c = bit_and c 0x0f

abbrev pub is_digit : ℕ → Bool
is_digit c = within b'0' b'9' c

Bool_eq : Bool → Bool → Bool
Bool_eq true b = b
Bool_eq false b = not b

Bool_eq_sound : (a b : Bool) → Bool_eq a b ≡ true → a ≡ b
unfolding Bool_eq
Bool_eq_sound a b h = ground arith

int_char_table : every_from 0 256 (λ c. Bool_eq (int_char_map c) (is_digit c)) ≡ true
unfolding every_from Bool_eq int_char_map
int_char_table = refl

byte-or-past : (c : ℕ) → (c < 256) ⊎ (256 ≤ c)
byte-or-past c = omega arith

-- The table holds `true` exactly at the ASCII digits.
pub int_char_map-is_digit : (c : ℕ) → int_char_map c ≡ is_digit c
unfolding int_char_map
int_char_map-is_digit c = elim (byte-or-past c) [
  | inl h ↦ Bool_eq_sound _ _ (every_below 256 _ c int_char_table h)
  | inr h ↦ get_or_past int_char_rows c false h ∙ ground arith
]

digit_table : every_from 0 256 (λ c. not (is_digit c) || (digit_value c == c - 48)) ≡ true
unfolding every_from digit_value
digit_table = refl

-- The low four bits of a digit are its value.
pub digit_value_lem : (c : ℕ) → is_digit c ≡ true → digit_value c ≡ c - 48
digit_value_lem c h = let t = every_below 256 _ c digit_table (ground arith) in ground (arith, t)
