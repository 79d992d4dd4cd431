-- ===== src/Strings/Table.antt =====
-- `JSON_ASCII`, `CharType` and `CHAR_TYPE` of crates/jiter/src/string_decoder.rs, row by row.
use jiter.Prelude.{
  ℕ, ◌≤◌, ◌<◌, ◌≡◌, refl, Bool, true, false, List, ◌∷◌, ◌++◌, inl, inr, ◌⊎◌, arith, get_or,
  replicate, get_or_past, ltb, ◌==◌, every_from, every_below, if◌then◌else◌,
}

-- Two rows of control characters, row 2 with the quote, rows 3 and 4, row 5 with the backslash,
-- rows 6 and 7, and eight rows of bytes above 127.
abbrev json_ascii_rows : List Bool
json_ascii_rows =
    replicate 32 false
    ++ (replicate 2 true
        ++ (false
            ∷ (replicate 13 true
                ++ (replicate 32 true
                    ++ (replicate 12 true
                        ++ (false
                            ∷ (replicate 3 true ++ (replicate 32 true ++ replicate 128 false))))))))

-- `JSON_ASCII[byte as usize]`.
unfoldable pub json_ascii : ℕ → Bool
json_ascii c = get_or json_ascii_rows c false

pub data CharType : Type 0 where
  control_char quote backslash other : CharType

abbrev char_type_rows : List CharType
char_type_rows =
    replicate 32 control_char
    ++ (replicate 2 other
        ++ (quote
            ∷ (replicate 13 other
                ++ (replicate 32 other
                    ++ (replicate 12 other
                        ++ (backslash
                            ∷ (replicate 3 other
                                ++ (replicate 32 other ++ replicate 128 other))))))))

-- `CHAR_TYPE[byte as usize]`.
unfoldable pub char_type : ℕ → CharType
char_type c = get_or char_type_rows c other

-- What the two tables say of a byte.
pub data ByteKind : Type 0 where
  plain end escape control high : ByteKind

unfoldable pub table_kind : Bool → CharType → ByteKind
table_kind true t = plain
table_kind false control_char = control
table_kind false quote = end
table_kind false backslash = escape
table_kind false other = high

unfoldable pub byte_kind : ℕ → ByteKind
byte_kind c =
    if ltb c 32
    then control
    else if c == b'"'
    then end
    else if c == b'\\'
    then escape
    else if ltb c 128
    then plain
    else high

same_kind : ByteKind → ByteKind → Bool
same_kind plain plain = true
same_kind end end = true
same_kind escape escape = true
same_kind control control = true
same_kind high high = true
same_kind _ _ = false

same_kind_sound : (a b : ByteKind) → same_kind a b ≡ true → a ≡ b
unfolding same_kind
same_kind_sound a b h = ground arith

kind_table :
    every_from 0 256 (λ c. same_kind (table_kind (json_ascii c) (char_type c)) (byte_kind c)) ≡ true
unfolding every_from same_kind json_ascii char_type table_kind byte_kind
kind_table = refl

byte-or-past : (c : ℕ) → (c < 256) ⊎ (256 ≤ c)
byte-or-past c = omega arith

byte_kind_past : (c : ℕ) → 256 ≤ c → byte_kind c ≡ high
unfolding byte_kind
byte_kind_past c h = ground arith

json_ascii_past : (c : ℕ) → 256 ≤ c → json_ascii c ≡ false
unfolding json_ascii
json_ascii_past c h = get_or_past json_ascii_rows c false h

char_type_past : (c : ℕ) → 256 ≤ c → char_type c ≡ other
unfolding char_type
char_type_past c h = get_or_past char_type_rows c other h

-- Together the tables tell control characters, the quote, the backslash, other ASCII bytes and the
-- bytes above 127 apart.
pub table_kind-byte_kind : (c : ℕ) → table_kind (json_ascii c) (char_type c) ≡ byte_kind c
unfolding table_kind
table_kind-byte_kind c = elim (byte-or-past c) [
  | inl h ↦ same_kind_sound _ _ (every_below 256 _ c kind_table h)
  | inr h ↦ rw (json_ascii_past c h, char_type_past c h, byte_kind_past c h)
]
