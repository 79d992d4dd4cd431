-- ===== src/Prelude/Tests.antt =====
-- Boolean tests on the native numbers, the conditional, and case splits that keep an equation.
use Prim.Native.Nat.{ℕ, zero, suc, ◌+◌, ◌≤◌, ◌<◌, compare, Ordering}
use mathlib.Core.Path.{◌≡◌, refl}
use mathlib.Core.Logic.{◌↔◌, ◌⊎◌, inl, inr}
use mathlib.Core.Bool.{Bool, true, false, ◌&&◌}
use mathlib.Core.Option.{Option, none, some}
use native.Mathlib.Omega.{arith}

-- These compute to `compare`, which `ground` and `grind` read with no lemma listed.
abbrev pub ltb : ℕ → ℕ → Bool
ltb a b = elim (compare a b) [ Ordering.lt ↦ true | _ ↦ false ]

abbrev pub leb : ℕ → ℕ → Bool
leb a b = elim (compare a b) [ Ordering.gt ↦ false | _ ↦ true ]

infix 50 ◌==◌
abbrev pub ◌==◌ : ℕ → ℕ → Bool
a == b = elim (compare a b) [ Ordering.eq ↦ true | _ ↦ false ]

-- `lo..=hi` as a pattern or `(lo..=hi).contains(c)`.
abbrev pub within : ℕ → ℕ → ℕ → Bool
within lo hi c = leb lo c && leb c hi

infix 1 if◌then◌else◌
abbrev pub if◌then◌else◌ {ℓ} : {A : Type ℓ} → Bool → A → A → A
if true then x else y = x
if false then x else y = y

pub ==_iff : (a b : ℕ) → ((a == b) ≡ true) ↔ (a ≡ b)
==_iff a b = ground arith

pub leb→le : (a b : ℕ) → leb a b ≡ true → a ≤ b
leb→le a b h = ground arith

pub Bool-cases : (b : Bool) → (b ≡ true) ⊎ (b ≡ false)
Bool-cases true = inl refl
Bool-cases false = inr refl

pub Option-cases {ℓ} : {A : Type ℓ} (o : Option A) → (o ≡ none) ⊎ ((a : A) × (o ≡ some a))
Option-cases none = inl refl
Option-cases (some a) = inr (a, refl)

-- A test of every number below a bound.
unfoldable pub every_from : ℕ → ℕ → (ℕ → Bool) → Bool
every_from start zero test = true
every_from start (suc count) test = if test start then every_from (start + 1) count test else false

pub every_from_sound :
    (start count : ℕ) (test : ℕ → Bool) (k : ℕ)
    → every_from start count test ≡ true
    → start ≤ k
    → k < start + count
    → test k ≡ true
unfolding every_from
every_from_sound start zero test k e low high = absurd (omega arith)
every_from_sound start (suc count) test k e low high = elim (Bool-cases (start == k)) [
  | inl same ↦ ground arith
  | inr other ↦ ground (arith, every_from_sound (start + 1) count test k)
]

pub every_below :
    (count : ℕ) (test : ℕ → Bool) (k : ℕ)
    → every_from 0 count test ≡ true
    → k < count
    → test k ≡ true
every_below count test k e h = every_from_sound 0 count test k e (omega arith) (omega arith)
