-- ===== src/Prelude/Text.antt =====
-- Texts as bytes, and numbers as their decimal digits, as `usize` is displayed.
use Prim.Native.Char.{code}
use Prim.Native.String.{String}
use jiter.Prelude.{
  ℕ, zero, suc, ◌+◌, ◌-◌, ◌*◌, ◌/◌, ◌%◌, ◌<◌, ◌≡◌, refl, ap, ◌∙◌, true, within, ◌++◌, arith, [],
  ◌∷◌, Bytes, ltb, if◌then◌else◌, Bool-cases, inl, inr,
}

-- The bytes of an ASCII text.
abbrev pub codes : String → Bytes
codes String.[] = []
codes (String.◌∷◌ c s) = code c ∷ codes s

-- The digits in front of others, the lowest first.
unfoldable pub push_digits : ℕ → ℕ → Bytes → Bytes
push_digits zero n ds = ds
push_digits (suc fuel) n ds =
    let rest = push_digits fuel (n / 10) ((n % 10 + b'0') ∷ ds) in
    if ltb n 10 then (n + b'0') ∷ ds else rest

unfoldable pub usize_text : ℕ → Bytes
unfolding push_digits
usize_text n = push_digits (suc n) n []

-- The digits in front, as the number that they stand for behind others, and what is left.
unfoldable pub read_usize : ℕ → Bytes → ℕ × Bytes
read_usize n [] = (n, [])
read_usize n (c ∷ cs) =
    let rest = read_usize (n * 10 + (c - b'0')) cs in
    if within b'0' b'9' c then rest else (n, c ∷ cs)

read_usize-digit :
    (n d : ℕ) (cs : Bytes) → d < 10 → read_usize n ((d + b'0') ∷ cs) ≡ read_usize (n * 10 + d) cs
unfolding read_usize
read_usize-digit n d cs h =
    let e : within b'0' b'9' (d + b'0') ≡ true = ground arith in
    let v : d + b'0' - b'0' ≡ d = omega arith in rw (e, v) refl

read_usize-push_digits :
    (fuel n : ℕ) (ds rest : Bytes)
    → n < fuel
    → read_usize 0 (push_digits fuel n ds ++ rest) ≡ read_usize n (ds ++ rest)
unfolding push_digits
read_usize-push_digits zero n ds rest h = absurd (omega arith)
read_usize-push_digits (suc fuel) n ds rest h = elim (Bool-cases (ltb n 10)) [
  | inl e ↦
      let z : 0 * 10 + n ≡ n = omega arith in
      rw e
        (read_usize-digit 0 n (ds ++ rest) (ground arith) ∙ ap (λ k. read_usize k (ds ++ rest)) z)
  | inr e ↦
      let v : n / 10 * 10 + n % 10 ≡ n = omega arith in
      rw e (
        read_usize-push_digits fuel (n / 10) ((n % 10 + b'0') ∷ ds) rest (ground arith)
        ∙ read_usize-digit (n / 10) (n % 10) (ds ++ rest) (omega arith)
        ∙ ap (λ k. read_usize k (ds ++ rest)) v)
]

pub read_usize-usize_text :
    (n : ℕ) (rest : Bytes) → read_usize 0 (usize_text n ++ rest) ≡ read_usize n rest
unfolding usize_text
read_usize-usize_text n rest = read_usize-push_digits (suc n) n [] rest (omega arith)
