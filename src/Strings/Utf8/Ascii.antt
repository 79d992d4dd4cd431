-- ===== src/Strings/Utf8/Ascii.antt =====
-- Bytes below 128 are valid UTF-8.
use jiter.Prelude.{
  ℕ, ◌+◌, ◌≡◌, refl, Bool, true, ◌&&◌, none, some, [], ◌∷◌, ◌++◌, arith, Bytes, ltb,
}
use jiter.Strings.Utf8.{tail_length, invalid_from, invalid_utf8}

-- Every byte is below 128.
unfoldable pub all_ascii : Bytes → Bool
all_ascii [] = true
all_ascii (c ∷ cs) = ltb c 128 && all_ascii cs

and_parts : (a b : Bool) → (a && b) ≡ true → (a ≡ true) × (b ≡ true)
and_parts a b h = ground arith

tail_length-ascii : (c : ℕ) (cs : Bytes) → ltb c 128 ≡ true → tail_length (c ∷ cs) ≡ some 0
unfolding tail_length
tail_length-ascii c [] h = rw h
tail_length-ascii c (b ∷ []) h = rw h
tail_length-ascii c (b ∷ d ∷ []) h = rw h
tail_length-ascii c (b ∷ d ∷ e ∷ cs) h = rw h

invalid_from-ascii :
    (bytes : Bytes) (index : ℕ) → all_ascii bytes ≡ true → invalid_from 0 bytes index ≡ none
unfolding invalid_from all_ascii
invalid_from-ascii [] index h = refl
invalid_from-ascii (c ∷ cs) index h =
    let (a, b) = and_parts (ltb c 128) (all_ascii cs) h in
    rw (tail_length-ascii c cs a, invalid_from) (invalid_from-ascii cs (index + 1) b)

-- ASCII bytes are valid UTF-8.
pub invalid_utf8-ascii : (bytes : Bytes) → all_ascii bytes ≡ true → invalid_utf8 bytes ≡ none
unfolding invalid_utf8
invalid_utf8-ascii bytes h = invalid_from-ascii bytes 0 h

pub all_ascii-append : (xs ys : Bytes) → all_ascii (xs ++ ys) ≡ (all_ascii xs && all_ascii ys)
unfolding all_ascii
all_ascii-append [] ys = refl
all_ascii-append (x ∷ xs) ys = ground (arith, all_ascii-append xs ys)
