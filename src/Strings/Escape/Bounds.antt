-- ===== src/Strings/Escape/Bounds.antt =====
-- How far `parse_escape` of crates/jiter/src/string_decoder.rs reads, and that what it returns is a
-- `char`.
use jiter.Prelude.{
  ℕ, ◌+◌, ◌≤◌, ◌<◌, ◌≡◌, false, not, some, none, Option, [], ◌∷◌, arith, Bytes, length, get_elem?,
  within, ◌==◌, Option-cases, inl, inr, ◌*◌, ◌%◌,
}
use jiter.Prelude.Slices.{get_range, get_range-bounds}
use jiter.Errors.{JsonErrorType, json_err, eof_while_parsing_string, invalid_escape}
use jiter.Errors.Ensures.{Ensures, returns, refuses, Ensures-weaken, Ensures-next, Ensures-test}
use jiter.Parse.{bytes_eq}
use jiter.Strings.Escape.{
  u16_mod, hex_value, u4_loop, parse_u4, char_from_u32, char_or, join_surrogates, second_half,
  escape_of, parse_escape, short_pair, pair_of, starts_backslash,
}

-- A Unicode scalar value.
abbrev pub IsChar : ℕ → Type 0
IsChar n = (within 0xD800 0xDFFF n ≡ false) × (n ≤ 0x10FFFF)

u4_loop-Ensures :
    (cs : Bytes) (index n : ℕ)
    → n < u16_mod
    → Ensures (λ r. (r.0 < u16_mod) × (r.1 ≡ index + length cs)) (u4_loop cs index n)
unfolding u4_loop
u4_loop-Ensures [] index n h = returns (omega arith)
u4_loop-Ensures (c ∷ cs) index n h = elim (Option-cases (hex_value c)) [
  | inl e ↦ rw (e, u4_loop) refuses
  | inr (hex, e) ↦
      rw (e, u4_loop)
        (Ensures-weaken
          (u4_loop-Ensures cs (index + 1) ((n * 16 % u16_mod + hex) % u16_mod) (omega arith))
          λ r h. omega arith)
]

-- Four digits behind `index`, all in the data.
parse_u4-Ensures :
    (bytes : Bytes) (index : ℕ)
    → Ensures
        (λ r. (r.0 < u16_mod) × (r.1 ≡ index + 4) × (r.1 < length bytes))
        (parse_u4 bytes index)
unfolding parse_u4
parse_u4-Ensures bytes index = elim (Option-cases (get_range bytes (index + 1) (index + 5))) [
  | inl e ↦ rw e refuses
  | inr (u4, e) ↦
      let b = get_range-bounds bytes (index + 1) (index + 5) e in
      rw e (Ensures-weaken (u4_loop-Ensures u4 index 0 (omega arith)) λ r h. omega arith)
]

char_from_u32-IsChar : (n : ℕ) {c : ℕ} → char_from_u32 n ≡ some c → IsChar c
unfolding char_from_u32
char_from_u32-IsChar n h = ground arith

char_or-Ensures :
    (P : ℕ × ℕ → Type 0) (t : JsonErrorType) (i index n : ℕ)
    → ((c : ℕ) → IsChar c → P (c, index))
    → Ensures P (char_or (json_err t i) index (char_from_u32 n))
char_or-Ensures P t i index n k = elim (Option-cases (char_from_u32 n)) [
  | inl e ↦ rw e refuses
  | inr (c, e) ↦ rw e (returns (k c (char_from_u32-IsChar n e)))
]

-- What a `\u` escape whose `u` stands at `index` gives: a `char`, and the index of its last byte,
-- which is in the data.
abbrev pub EscapeEnd : Bytes → ℕ → ℕ × ℕ → Type 0
EscapeEnd bytes index r = IsChar r.0 × (index + 4 ≤ r.1) × (r.1 < length bytes)

second_half-Ensures :
    (bytes : Bytes) (index n : ℕ) (r : ℕ × ℕ)
    → index + 4 ≤ r.1
    → r.1 < length bytes
    → Ensures (EscapeEnd bytes index) (second_half n r)
unfolding second_half
second_half-Ensures bytes index n (n2, j) h k =
    Ensures-test (not (within 0xDC00 0xDFFF n2)) (λ _. refuses)
      (λ _. char_or-Ensures _ eof_while_parsing_string j j (join_surrogates n n2) λ c v. (v, h, k))

short_pair-refuses :
    {P : ℕ × ℕ → Type 0} (bytes : Bytes) (index : ℕ) (next : Option ℕ)
    → Ensures P (short_pair bytes index next)
short_pair-refuses bytes index none = refuses
short_pair-refuses bytes index (some c) = Ensures-test (c == b'\\') (λ _. refuses) (λ _. refuses)

pair_of-Ensures :
    (bytes : Bytes) (index n : ℕ) (two : Option Bytes)
    → Ensures (EscapeEnd bytes index) (pair_of bytes n (index + 4) two)
pair_of-Ensures bytes index n none =
    short_pair-refuses bytes (index + 4) (get_elem? bytes (index + 4 + 1))
pair_of-Ensures bytes index n (some two) =
    Ensures-test (bytes_eq two (b'\\' ∷ b'u' ∷ []))
      (λ _.
        Ensures-next (parse_u4-Ensures bytes (index + 4 + 2))
          λ r h. second_half-Ensures bytes index n r (omega arith) (omega arith))
      (λ _. Ensures-test (starts_backslash two) (λ _. refuses) (λ _. refuses))

escape_of-Ensures :
    (bytes : Bytes) (index : ℕ) (r : ℕ × ℕ)
    → r.1 ≡ index + 4
    → r.1 < length bytes
    → Ensures (EscapeEnd bytes index) (escape_of bytes r)
unfolding escape_of
escape_of-Ensures bytes index (n, j) e h =
    Ensures-test (within 0xDC00 0xDFFF n) (λ _. refuses)
      λ _.
        Ensures-test (within 0xD800 0xDBFF n)
          (λ _.
            rw e (pair_of-Ensures bytes index n (get_range bytes (index + 4 + 1) (index + 4 + 3))))
          (λ _. char_or-Ensures _ invalid_escape j j n λ c v. (v, omega arith, h))

-- On every input `parse_escape` returns a Unicode scalar value with an index in the data, four bytes
-- on at least, or an error.
pub parse_escape-Ensures :
    (bytes : Bytes) (index : ℕ) → Ensures (EscapeEnd bytes index) (parse_escape bytes index)
unfolding parse_escape
parse_escape-Ensures bytes index =
    Ensures-next (parse_u4-Ensures bytes index) λ r h. escape_of-Ensures bytes index r h.1 h.2
