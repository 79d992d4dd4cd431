-- ===== src/Strings/Escape/Written.antt =====
-- The `\u` escapes of a character, and what `parse_escape` of crates/jiter/src/string_decoder.rs reads
-- of them.
use jiter.Prelude.{
  ℕ, ◌+◌, ◌-◌, ◌*◌, ◌/◌, ◌%◌, ◌≤◌, ◌<◌, ◌≡◌, refl, ap, ◌∙◌, Bool, true, false, some, [], ◌∷◌, ◌++◌,
  arith, Bytes, length, drop, ltb, within, if◌then◌else◌, bit_and, Bool-cases, inl, inr,
}
use jiter.Prelude.Bits.{bit_or-lem}
use jiter.Prelude.Slices.{get_range, get_range-drop, lt_of_drop, drop-append}
use jiter.Errors.{ok}
use jiter.Parse.{bytes_eq}
use jiter.Number.Table.{digit_value, digit_value_lem}
use jiter.Strings.Escape.{
  u16_mod, hex_value, u4_loop, parse_u4, char_from_u32, join_surrogates, second_half, escape_of,
  parse_escape,
}
use jiter.Strings.Escape.Bounds.{IsChar}

-- A hexadecimal digit, as a capital or not, and the four of a number below 2 ^ 16: the digit at a
-- place is a capital where `upper` has it so, from the place `i` on.
unfoldable pub hex_digit : Bool → ℕ → ℕ
hex_digit capital d =
    if ltb d 10 then d + b'0' else if capital then d - 10 + b'A' else d - 10 + b'a'

unfoldable pub u4_text : (ℕ → Bool) → ℕ → ℕ → Bytes
u4_text upper i n =
    hex_digit (upper i) (n / 4096)
    ∷ hex_digit (upper (i + 1)) (n / 256 % 16)
    ∷ hex_digit (upper (i + 2)) (n / 16 % 16)
    ∷ hex_digit (upper (i + 3)) (n % 16)
    ∷ []

-- A character behind `\u`: itself, or its two surrogates.
unfoldable pub escape_text : (ℕ → Bool) → ℕ → Bytes
unfolding u4_text
escape_text upper n =
    if ltb n 0x1_0000
    then u4_text upper 0 n
    else u4_text upper 0 (0xD800 + (n - 0x1_0000) / 1024)
      ++ (b'\\' ∷ b'u' ∷ u4_text upper 4 (0xDC00 + (n - 0x1_0000) % 1024))

hex_value-hex_digit : (capital : Bool) (d : ℕ) → d < 16 → hex_value (hex_digit capital d) ≡ some d
unfolding hex_value hex_digit digit_value
hex_value-hex_digit capital d h = elim (Bool-cases (ltb d 10)) [
  | inl e ↦
      let v : bit_and (d + 48) 0x0f ≡ d + 48 - 48 = digit_value_lem (d + 48) (ground arith) in
      rw (e, v) (ground arith)
  | inr e ↦ letter capital e
]
  where
    letter : (capital : Bool) → ltb d 10 ≡ false → hex_value (hex_digit capital d) ≡ some d
    letter true e = rw e (ground arith)
    letter false e = rw e (ground arith)

-- One digit of the loop.
u4_loop-hex_digit :
    (capital : Bool) (d : ℕ) (cs : Bytes) (index n m : ℕ)
    → d < 16
    → m ≡ n * 16 + d
    → m < u16_mod
    → u4_loop (hex_digit capital d ∷ cs) index n ≡ u4_loop cs (index + 1) m
unfolding u4_loop
u4_loop-hex_digit capital d cs index n m h e l =
    let v : (n * 16 % u16_mod + d) % u16_mod ≡ m = omega arith in
    rw (hex_value-hex_digit capital d h, u4_loop) (ap (u4_loop cs (index + 1)) v)

u4_loop-u4_text :
    (upper : ℕ → Bool) (i n index : ℕ)
    → n < u16_mod
    → u4_loop (u4_text upper i n) index 0 ≡ ok (n, index + 4)
unfolding u4_text u4_loop
u4_loop-u4_text upper i n index h =
    let last = hex_digit (upper (i + 3)) (n % 16) ∷ [] in
    let third = hex_digit (upper (i + 2)) (n / 16 % 16) ∷ last in
    let second = hex_digit (upper (i + 1)) (n / 256 % 16) ∷ third in
    let e : index + 1 + 1 + 1 + 1 ≡ index + 4 = omega arith in
    u4_loop-hex_digit (upper i) (n / 4096) second index 0 (n / 4096) (omega arith) (omega arith)
      (omega arith)
    ∙ u4_loop-hex_digit (upper (i + 1)) (n / 256 % 16) third (index + 1) (n / 4096) (n / 256)
        (omega arith) (omega arith) (omega arith)
    ∙ u4_loop-hex_digit (upper (i + 2)) (n / 16 % 16) last (index + 1 + 1) (n / 256) (n / 16)
        (omega arith) (omega arith) (omega arith)
    ∙ u4_loop-hex_digit (upper (i + 3)) (n % 16) [] (index + 1 + 1 + 1) (n / 16) n (omega arith)
        (omega arith) h
    ∙ ap (λ k. ok (n, k)) e

-- Behind a `u` at `index`.
parse_u4-u4_text :
    (upper : ℕ → Bool) (i n : ℕ) (bytes rest : Bytes) (index : ℕ)
    → n < u16_mod
    → drop (index + 1) bytes ≡ u4_text upper i n ++ rest
    → parse_u4 bytes index ≡ ok (n, index + 4)
unfolding parse_u4 u4_text
parse_u4-u4_text upper i n bytes rest index h e =
    let l : index + 1 ≤ length bytes = omega (arith, lt_of_drop (index + 1) bytes e) in
    let z : index + 1 + 4 ≡ index + 5 = omega arith in
    let r : get_range bytes (index + 1) (index + 5) ≡ some (u4_text upper i n) =
      rw z at (get_range-drop (u4_text upper i n) (index + 1) bytes rest e l) in
    rw r (u4_loop-u4_text upper i n index h)

char_from_u32-lem : (n : ℕ) → IsChar n → char_from_u32 n ≡ some n
unfolding char_from_u32
char_from_u32-lem n h = ground (arith, h.0, h.1)

parse_escape-short :
    (upper : ℕ → Bool) (n : ℕ) (bytes rest : Bytes) (index : ℕ)
    → IsChar n
    → n < u16_mod
    → drop (index + 1) bytes ≡ u4_text upper 0 n ++ rest
    → parse_escape bytes index ≡ ok (n, index + 4)
unfolding parse_escape escape_of
parse_escape-short upper n bytes rest index c h e =
    let low : within 0xDC00 0xDFFF n ≡ false = ground (arith, c.0) in
    let high : within 0xD800 0xDBFF n ≡ false = ground (arith, c.0) in
    rw (parse_u4-u4_text upper 0 n bytes rest index h e, low, high, char_from_u32-lem n c) refl

-- Two surrogates, `c` and `b` behind the bits that mark them.
join_surrogates-lem :
    (c b : ℕ) → b < 1024 → join_surrogates (0xD800 + c) (0xDC00 + b) ≡ c * 1024 + b + 0x1_0000
unfolding join_surrogates
join_surrogates-lem c b h =
    let x : 0xD800 + c - 0xD800 ≡ c = omega arith in
    let y : 0xDC00 + b - 0xDC00 ≡ b = omega arith in
    rw (x, y) (ap (λ t. t + 0x1_0000) (bit_or-lem c b h))

second_half-lem :
    (c b index : ℕ)
    → c < 1024
    → b < 1024
    → second_half (0xD800 + c) (0xDC00 + b, index) ≡ ok (c * 1024 + b + 0x1_0000, index)
unfolding second_half
second_half-lem c b index h k =
    let low : within 0xDC00 0xDFFF (0xDC00 + b) ≡ true = ground arith in
    let char : IsChar (c * 1024 + b + 0x1_0000) = (ground arith, omega arith) in
    rw (low, join_surrogates-lem c b k, char_from_u32-lem _ char) refl

parse_escape-pair :
    (upper : ℕ → Bool) (c b : ℕ) (bytes rest : Bytes) (index : ℕ)
    → c < 1024
    → b < 1024
    → drop (index + 1) bytes
      ≡ u4_text upper 0 (0xD800 + c) ++ (b'\\' ∷ b'u' ∷ (u4_text upper 4 (0xDC00 + b) ++ rest))
    → parse_escape bytes index ≡ ok (c * 1024 + b + 0x1_0000, index + 10)
unfolding parse_escape escape_of u4_text bytes_eq
parse_escape-pair upper c b bytes rest index h k e =
    let second = u4_text upper 4 (0xDC00 + b) ++ rest in
    let e1 = drop-append (u4_text upper 0 (0xD800 + c)) (index + 1) bytes e in
    let i : index + 1 + 4 ≡ index + 4 + 1 = omega arith in
    let e1' : drop (index + 4 + 1) bytes ≡ b'\\' ∷ b'u' ∷ second = rw i at e1 in
    let l : index + 4 + 1 ≤ length bytes = omega (arith, lt_of_drop (index + 4 + 1) bytes e1') in
    let j : index + 4 + 1 + 2 ≡ index + 4 + 3 = omega arith in
    let two : get_range bytes (index + 4 + 1) (index + 4 + 3) ≡ some (b'\\' ∷ b'u' ∷ []) =
      rw j at (get_range-drop (b'\\' ∷ b'u' ∷ []) (index + 4 + 1) bytes second e1' l) in
    let m : index + 4 + 1 + 2 ≡ index + 4 + 2 + 1 = omega arith in
    let e2 : drop (index + 4 + 2 + 1) bytes ≡ second =
      rw m at (drop-append (b'\\' ∷ b'u' ∷ []) (index + 4 + 1) bytes e1') in
    let low : within 0xDC00 0xDFFF (0xD800 + c) ≡ false = ground arith in
    let high : within 0xD800 0xDBFF (0xD800 + c) ≡ true = ground arith in
    let end : index + 4 + 2 + 4 ≡ index + 10 = omega arith in
    rw
      (
        parse_u4-u4_text upper 0 (0xD800 + c) bytes _ index (omega arith) e,
        low,
        high,
        two,
        parse_u4-u4_text upper 4 (0xDC00 + b) bytes rest (index + 4 + 2) (omega arith) e2,
        second_half-lem c b (index + 4 + 2 + 4) h k,
      )
      (ap (λ t. ok (c * 1024 + b + 0x1_0000, t)) end)

-- `parse_escape` reads back what is written: of every Unicode scalar value, behind the `u`, its
-- four hexadecimal digits, or those of the two surrogates of a value above 0xFFFF, each letter a
-- capital or not, give the value and the index of the last digit.
pub parse_escape-escape_text :
    (upper : ℕ → Bool) (n : ℕ) (bytes rest : Bytes) (index : ℕ)
    → IsChar n
    → drop (index + 1) bytes ≡ escape_text upper n ++ rest
    → parse_escape bytes index ≡ ok (n, index + length (escape_text upper n))
unfolding escape_text u4_text
parse_escape-escape_text upper n bytes rest index h e = elim (Bool-cases (ltb n 0x1_0000)) [
  | inl b ↦ rw b (parse_escape-short upper n bytes rest index h (ground arith) (rw b at e))
  | inr b ↦
      let c = (n - 0x1_0000) / 1024 in
      let d = (n - 0x1_0000) % 1024 in
      let v : c * 1024 + d + 0x1_0000 ≡ n = ground (arith, h.1) in
      rw b (
        parse_escape-pair upper c d bytes rest index (omega (arith, h.1)) (omega arith) (rw b at e)
        ∙ ap (λ t. ok (t, index + 10)) v)
]
