-- ===== src/Prelude/Slices.antt =====
-- Positions in a byte slice: what `drop` leaves at an index decides every read from there on.
use Prim.Native.Nat.{ℕ, zero, suc, ◌+◌, ◌-◌, ◌≤◌, ◌<◌}
use mathlib.Core.Path.{◌≡◌, refl, ap, ◌∙◌}
use mathlib.Core.Bool.{◌&&◌}
use mathlib.Core.List.{List, [], ◌∷◌, ◌++◌}
use mathlib.Core.Option.{Option, none, some}
use native.Mathlib.Omega.{arith}
use jiter.Prelude.Tests.{leb, if◌then◌else◌}
use jiter.Prelude.Lists.{
  length, get_elem?, drop, take, length-drop, length-append, length-take_of_le, take-length_append,
}

module _ {A : Type 0} where
  -- `&data[from..to]`, for `from ≤ to ≤ data.len()`.
  abbrev pub slice : List A → ℕ → ℕ → List A
  slice xs from to = take (to - from) (drop from xs)

  -- `data.get(from..to)`.
  abbrev pub get_range : List A → ℕ → ℕ → Option (List A)
  get_range xs from to = if leb from to && leb to (length xs) then some (slice xs from to) else none

  pub get_elem?-drop_nil : (i : ℕ) (xs : List A) → drop i xs ≡ [] → get_elem? xs i ≡ none
  get_elem?-drop_nil i [] h = refl
  get_elem?-drop_nil zero (x ∷ xs) h = cc
  get_elem?-drop_nil (suc i) (x ∷ xs) h = get_elem?-drop_nil i xs h

  pub get_elem?-drop_cons :
      (i : ℕ) (xs : List A) {x : A} {ys : List A} → drop i xs ≡ x ∷ ys → get_elem? xs i ≡ some x
  get_elem?-drop_cons zero [] h = cc
  get_elem?-drop_cons (suc i) [] h = cc
  get_elem?-drop_cons zero (x ∷ xs) h = cc
  get_elem?-drop_cons (suc i) (x ∷ xs) h = get_elem?-drop_cons i xs h

  drop-suc_cons :
      (i : ℕ) (xs : List A) {x : A} {ys : List A} → drop i xs ≡ x ∷ ys → drop (suc i) xs ≡ ys
  drop-suc_cons zero [] h = cc
  drop-suc_cons (suc i) [] h = cc
  drop-suc_cons zero (x ∷ xs) h = cc
  drop-suc_cons (suc i) (x ∷ xs) h = drop-suc_cons i xs h

  pub drop-cons :
      (i : ℕ) (xs : List A) {x : A} {ys : List A} → drop i xs ≡ x ∷ ys → drop (i + 1) xs ≡ ys
  drop-cons i xs h = let e : i + 1 ≡ suc i = omega arith in rw e (drop-suc_cons i xs h)

  pub drop-past : (i : ℕ) (xs : List A) → length xs ≤ i → drop i xs ≡ []
  drop-past zero [] h = refl
  drop-past (suc i) [] h = refl
  drop-past zero (x ∷ xs) h = absurd (omega arith)
  drop-past (suc i) (x ∷ xs) h = drop-past i xs (omega arith)

  drop-append_go :
      (ws : List A) (i j : ℕ) (xs : List A) {ys : List A}
      → i + length ws ≡ j
      → drop i xs ≡ ws ++ ys
      → drop j xs ≡ ys
  drop-append_go [] i j xs e h = let e' : i ≡ j = omega arith in rw (← e') h
  drop-append_go (w ∷ ws) i j xs e h =
      drop-append_go ws (i + 1) j xs (omega arith) (drop-cons i xs h)

  pub drop-append :
      (ws : List A) (i : ℕ) (xs : List A) {ys : List A}
      → drop i xs ≡ ws ++ ys
      → drop (i + length ws) xs ≡ ys
  drop-append ws i xs h = drop-append_go ws i (i + length ws) xs refl h

  -- What a slice holds, by what `drop` leaves at its start.
  pub slice_of_drop :
      (ws : List A) (i : ℕ) (xs ys : List A)
      → drop i xs ≡ ws ++ ys
      → slice xs i (i + length ws) ≡ ws
  slice_of_drop ws i xs ys h =
      let e : i + length ws - i ≡ length ws = omega arith in rw (e, h) (take-length_append ws ys)

  pub length_of_drop :
      (i : ℕ) (xs ys : List A) → drop i xs ≡ ys → i ≤ length xs → length xs ≡ i + length ys
  length_of_drop i xs ys h le = omega (arith, length-drop i xs, ap length h)

  pub lt_of_drop : (i : ℕ) (xs : List A) {x : A} {ys : List A} → drop i xs ≡ x ∷ ys → i < length xs
  lt_of_drop zero [] h = cc
  lt_of_drop (suc i) [] h = cc
  lt_of_drop zero (x ∷ xs) h = omega arith
  lt_of_drop (suc i) (x ∷ xs) h = omega (arith, lt_of_drop i xs h)

  pub slice-first :
      (i j : ℕ) (xs : List A) {x : A}
      → get_elem? xs i ≡ some x
      → i < j
      → get_elem? (slice xs i j) 0 ≡ some x
  slice-first i j [] h l = cc
  slice-first i zero (y ∷ xs) h l = absurd (omega arith)
  slice-first zero (suc j) (y ∷ xs) h l = let e : suc j - 0 ≡ suc j = omega arith in rw e h
  slice-first (suc i) (suc j) (y ∷ xs) h l =
      let e : suc j - suc i ≡ j - i = omega arith in rw e (slice-first i j xs h (omega arith))

  pub length-slice :
      (xs : List A) (from to : ℕ)
      → from ≤ to
      → to ≤ length xs
      → length (slice xs from to) ≡ to - from
  length-slice xs from to h k =
      length-take_of_le (to - from) (drop from xs) (omega (arith, length-drop from xs))

  -- `get` of a range in bounds, and what a `get` that finds a slice says of the bounds.
  pub get_range-some :
      (xs : List A) (from to : ℕ)
      → from ≤ to
      → to ≤ length xs
      → get_range xs from to ≡ some (slice xs from to)
  get_range-some xs from to h k = ground arith

  pub get_range-bounds :
      (xs : List A) (from to : ℕ) {s : List A}
      → get_range xs from to ≡ some s
      → (from ≤ to) × (to ≤ length xs) × (length s ≡ to - from)
  get_range-bounds xs from to h = ground (arith, length-slice xs from to)

  pub get_range-drop :
      (ws : List A) (i : ℕ) (xs ys : List A)
      → drop i xs ≡ ws ++ ys
      → i ≤ length xs
      → get_range xs i (i + length ws) ≡ some ws
  get_range-drop ws i xs ys e le =
      get_range-some xs i (i + length ws) (omega arith)
        (omega (arith, length_of_drop i xs (ws ++ ys) e le, length-append ws ys))
      ∙ ap some (slice_of_drop ws i xs ys e)
