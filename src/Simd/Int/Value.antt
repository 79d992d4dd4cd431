-- ===== src/Simd/Int/Value.antt =====
-- The sums over lanes of crates/jiter/src/simd_aarch64.rs: the value of sixteen digits.
use jiter.Prelude.{ℕ, ◌+◌, ◌-◌, ◌*◌, ◌%◌, ◌<◌, ◌≡◌, ap, [], ◌∷◌, arith, true, within}
use jiter.Errors.{ok}
use jiter.Number.Chunk.Laws.{Digits, decimal}
use jiter.Simd.Int.{full_calc}

-- Four digits.
abbrev quad : ℕ → ℕ → ℕ → ℕ → ℕ
quad a b c d = ((a * 10 + b) * 10 + c) * 10 + d

quad_sum :
    (a b c d : ℕ)
    → a < 10
    → b < 10
    → c < 10
    → d < 10
    → (a * 10 % 256 + b * 1 % 256) * 100 % 65_536 + (c * 10 % 256 + d * 1 % 256) * 1 % 65_536
      ≡ quad a b c d
quad_sum a b c d ha hb hc hd = omega arith

oct_sum :
    (x y : ℕ)
    → x < 10_000
    → y < 10_000
    → x * 10_000 % 4_294_967_296 + y * 1 % 4_294_967_296 ≡ x * 10_000 + y
oct_sum x y hx hy = omega arith

-- Four lanes of bytes, less the digit zero.
sub_digit : (c : ℕ) → within b'0' b'9' c ≡ true → (c + 256 - 48) % 256 ≡ c - 48
sub_digit c h = ground arith

quad_digits :
    (a b c d : ℕ)
    → within b'0' b'9' a ≡ true
    → within b'0' b'9' b ≡ true
    → within b'0' b'9' c ≡ true
    → within b'0' b'9' d ≡ true
    → ((a + 256 - 48) % 256 * 10 % 256 + (b + 256 - 48) % 256 * 1 % 256) * 100 % 65_536
        + ((c + 256 - 48) % 256 * 10 % 256 + (d + 256 - 48) % 256 * 1 % 256) * 1 % 65_536
      ≡ quad (a - 48) (b - 48) (c - 48) (d - 48)
quad_digits a b c d ha hb hc hd =
    rw (sub_digit a ha, sub_digit b hb, sub_digit c hc, sub_digit d hd)
      (quad_sum (a - 48) (b - 48) (c - 48) (d - 48) (ground arith) (ground arith) (ground arith)
        (ground arith))

quad_lt :
    (a b c d : ℕ)
    → within b'0' b'9' a ≡ true
    → within b'0' b'9' b ≡ true
    → within b'0' b'9' c ≡ true
    → within b'0' b'9' d ≡ true
    → quad (a - 48) (b - 48) (c - 48) (d - 48) < 10_000
quad_lt a b c d ha hb hc hd = ground arith

join_sum :
    (w x y z : ℕ)
    → w < 10_000
    → x < 10_000
    → y < 10_000
    → z < 10_000
    → ((w * 10_000 + x) * 100_000_000 % 18_446_744_073_709_551_616 + (y * 10_000 + z))
        % 18_446_744_073_709_551_616
      ≡ ((w * 10_000 + x) * 10_000 + y) * 10_000 + z
join_sum w x y z hw hx hy hz = omega arith

-- The digits one by one.
horner :
    (a b c d e f g h i j k l m n o p : ℕ)
    → ((quad a b c d * 10_000 + quad e f g h) * 10_000 + quad i j k l) * 10_000 + quad m n o p
      ≡ (((((((((((((((0 + a) * 10 + b) * 10 + c) * 10 + d) * 10 + e) * 10 + f) * 10 + g) * 10 + h)
                                      * 10
                                    + i)
                                  * 10
                                + j)
                              * 10
                            + k)
                          * 10
                        + l)
                      * 10
                    + m)
                  * 10
                + n)
              * 10
            + o)
          * 10
        + p
horner a b c d e f g h i j k l m n o p = omega arith

-- The sums over lanes of sixteen digits are their value: no lane wraps.
pub full_calc-decimal :
    (a b c d e f g h i j k l m n o p : ℕ)
    → Digits (a ∷ b ∷ c ∷ d ∷ e ∷ f ∷ g ∷ h ∷ i ∷ j ∷ k ∷ l ∷ m ∷ n ∷ o ∷ p ∷ [])
    → full_calc (a ∷ b ∷ c ∷ d ∷ e ∷ f ∷ g ∷ h ∷ i ∷ j ∷ k ∷ l ∷ m ∷ n ∷ o ∷ p ∷ []) 16
      ≡ ok (decimal 0 (a ∷ b ∷ c ∷ d ∷ e ∷ f ∷ g ∷ h ∷ i ∷ j ∷ k ∷ l ∷ m ∷ n ∷ o ∷ p ∷ []))
unfolding full_calc decimal
full_calc-decimal a b c d e f g h i j k l m n o p
      (
        ha,
        (hb, (hc, (hd, (he, (hf, (hg, (hh, (hi, (hj, (hk, (hl, (hm, (hn, (ho, (hp, u))))))))))))))),
      ) =
    rw
      (
        quad_digits a b c d ha hb hc hd,
        quad_digits e f g h he hf hg hh,
        quad_digits i j k l hi hj hk hl,
        quad_digits m n o p hm hn ho hp,
        oct_sum _ _ (quad_lt a b c d ha hb hc hd) (quad_lt e f g h he hf hg hh),
        oct_sum _ _ (quad_lt i j k l hi hj hk hl) (quad_lt m n o p hm hn ho hp),
        join_sum _ _ _ _ (quad_lt a b c d ha hb hc hd) (quad_lt e f g h he hf hg hh)
            (quad_lt i j k l hi hj hk hl) (quad_lt m n o p hm hn ho hp),
      )
      (ap ok (
        horner (a - 48) (b - 48) (c - 48) (d - 48) (e - 48) (f - 48) (g - 48) (h - 48) (i - 48)
          (j - 48) (k - 48) (l - 48) (m - 48) (n - 48) (o - 48) (p - 48)))
