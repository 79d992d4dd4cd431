-- ===== src/Simd/Mask.antt =====
-- The mask of crates/jiter/src/simd_aarch64.rs that tells plain characters from the others.
use jiter.Prelude.{
  ℕ, ◌≡◌, refl, sym, ap, ◌∙◌, bit_or, Bool, true, false, not, ◌&&◌, ◌||◌, [], ◌∷◌, Bytes, arith,
  length, take, drop, ltb, ◌==◌, suc, zero, replicate,
}
use jiter.Strings.Table.{
  json_ascii, char_type, CharType, control_char, quote, backslash, other, ByteKind, plain, control,
  end, escape, high, table_kind, byte_kind, table_kind-byte_kind,
}
use jiter.Simd.{
  flag, simd_gt_16, simd_lt_16, simd_eq_16, simd_or_16, string_ascii_mask, u64_of, is_zero,
}

-- Each byte is a plain ASCII character.
unfoldable pub all_plain : Bytes → Bool
all_plain [] = true
all_plain (c ∷ cs) = json_ascii c && all_plain cs

flag-or : (a b : Bool) → bit_or (flag a) (flag b) ≡ flag (a || b)
flag-or true true = refl
flag-or true false = refl
flag-or false true = refl
flag-or false false = refl

-- The lane of a byte.
abbrev lane : ℕ → ℕ
lane c =
    bit_or (flag (c == b'"'))
      (bit_or (flag (c == b'\\')) (bit_or (flag (ltb 127 c)) (flag (ltb c 32))))

is_plain : ByteKind → Bool
is_plain plain = true
is_plain control = false
is_plain end = false
is_plain escape = false
is_plain high = false

is_plain-table_kind : (j : Bool) (t : CharType) → is_plain (table_kind j t) ≡ j
unfolding is_plain table_kind
is_plain-table_kind true t = refl
is_plain-table_kind false control_char = refl
is_plain-table_kind false quote = refl
is_plain-table_kind false backslash = refl
is_plain-table_kind false other = refl

json_ascii-byte_kind : (c : ℕ) → json_ascii c ≡ is_plain (byte_kind c)
json_ascii-byte_kind c =
    sym (is_plain-table_kind (json_ascii c) (char_type c)) ∙ ap is_plain (table_kind-byte_kind c)

special_iff :
    (c : ℕ) → (c == b'"' || (c == b'\\' || (ltb 127 c || ltb c 32))) ≡ not (is_plain (byte_kind c))
unfolding is_plain byte_kind
special_iff c = ground arith

lane-flag : (c : ℕ) → lane c ≡ flag (not (json_ascii c))
lane-flag c =
    ap (λ t. bit_or (flag (c == b'"')) (bit_or (flag (c == b'\\')) t))
      (flag-or (ltb 127 c) (ltb c 32))
    ∙ ap (bit_or (flag (c == b'"'))) (flag-or (c == b'\\') (ltb 127 c || ltb c 32))
    ∙ flag-or (c == b'"') (c == b'\\' || (ltb 127 c || ltb c 32))
    ∙ ap flag (special_iff c ∙ ap not (sym (json_ascii-byte_kind c)))

-- The lanes of a vector that is not longer than the constants.
mask_of : Bytes → Bytes
mask_of [] = []
mask_of (c ∷ cs) = lane c ∷ mask_of cs

zero_lanes : Bytes → Bool
zero_lanes [] = true
zero_lanes (b ∷ bs) = (b == 0) && zero_lanes bs

u64_of-zero_lanes : (bs : Bytes) → (u64_of bs == 0) ≡ zero_lanes bs
unfolding u64_of zero_lanes
u64_of-zero_lanes [] = refl
u64_of-zero_lanes (b ∷ bs) = ground (arith, u64_of-zero_lanes bs)

zero_lanes-take-drop :
    (k : ℕ) (bs : Bytes) → (zero_lanes (take k bs) && zero_lanes (drop k bs)) ≡ zero_lanes bs
unfolding zero_lanes
zero_lanes-take-drop zero bs = refl
zero_lanes-take-drop (suc k) [] = refl
zero_lanes-take-drop (suc k) (b ∷ bs) = ground (arith, zero_lanes-take-drop k bs)

is_zero-zero_lanes : (bs : Bytes) → is_zero bs ≡ zero_lanes bs
unfolding is_zero
is_zero-zero_lanes bs =
    ap (λ t. t && (u64_of (drop 8 bs) == 0)) (u64_of-zero_lanes (take 8 bs))
    ∙ ap (λ t. zero_lanes (take 8 bs) && t) (u64_of-zero_lanes (drop 8 bs))
    ∙ zero_lanes-take-drop 8 bs

flag_zero : (b : Bool) → (flag (not b) == 0) ≡ b
flag_zero true = refl
flag_zero false = refl

zero_lanes-mask_of : (cs : Bytes) → zero_lanes (mask_of cs) ≡ all_plain cs
unfolding zero_lanes mask_of all_plain
zero_lanes-mask_of [] = refl
zero_lanes-mask_of (c ∷ cs) =
    ap (λ t. (t == 0) && zero_lanes (mask_of cs)) (lane-flag c)
    ∙ ap (λ t. t && zero_lanes (mask_of cs)) (flag_zero (json_ascii c))
    ∙ ap (λ t. json_ascii c && t) (zero_lanes-mask_of cs)

-- The mask with constants of any length.
masked :
    (n : ℕ) (cs : Bytes)
    → length cs ≡ n
    → simd_or_16 (simd_eq_16 cs (replicate n b'"')) (
        simd_or_16
          (simd_eq_16 cs (replicate n 92))
          (simd_or_16 (simd_gt_16 cs (replicate n 127)) (simd_lt_16 cs (replicate n 32))))
      ≡ mask_of cs
unfolding mask_of
masked zero [] h = refl
masked zero (c ∷ cs) h = absurd (omega arith)
masked (suc n) [] h = refl
masked (suc n) (c ∷ cs) h = ap (◌∷◌ (lane c)) (masked n cs (omega arith))

-- The mask of 16 bytes is zero where all of them are plain, and only there.
pub is_zero-mask : (cs : Bytes) → length cs ≡ 16 → is_zero (string_ascii_mask cs) ≡ all_plain cs
unfolding string_ascii_mask
is_zero-mask cs h =
    ap is_zero (masked 16 cs h) ∙ is_zero-zero_lanes (mask_of cs) ∙ zero_lanes-mask_of cs
