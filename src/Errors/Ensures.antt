-- ===== src/Errors/Ensures.antt =====
-- Postconditions on a result: its value, if it has one, has the property, and there is neither a
-- panic nor a loop whose fuel is spent.
use jiter.Prelude.{◌≡◌, refl, Bool, true, false, ◌⊎◌, inl, inr, if◌then◌else◌}
use jiter.Errors.{JsonError, JsonResult, ok, err, ◌>>=◌}

pub data Ensures {ℓ} {A : Type ℓ} (P : A → Type 0) : JsonResult A → Type ℓ where
  returns : {a : A} → P a → Ensures P (ok a)
  refuses : {e : JsonError} → Ensures P (err e)

module _ {ℓ} {A : Type ℓ} {P : A → Type 0} where
  -- A result with a postcondition is a value that has it, or an error.
  pub Ensures-cases :
      {r : JsonResult A}
      → Ensures P r
      → ((a : A) × (r ≡ ok a) × P a) ⊎ ((e : JsonError) × (r ≡ err e))
  Ensures-cases (returns {a} h) = inl (a, refl, h)
  Ensures-cases (refuses {e}) = inr (e, refl)

  pub Ensures-value : {a : A} → Ensures P (ok a) → P a
  Ensures-value (returns h) = h

  pub Ensures-ok : {r : JsonResult A} {a : A} → Ensures P r → r ≡ ok a → P a
  Ensures-ok h e = Ensures-value (rw e at h)

  pub Ensures-weaken :
      {Q : A → Type 0} {r : JsonResult A} → Ensures P r → ((a : A) → P a → Q a) → Ensures Q r
  Ensures-weaken (returns {a} h) f = returns (f a h)
  Ensures-weaken refuses f = refuses

  pub Ensures-next {κ} :
      {B : Type κ} {Q : B → Type 0} {r : JsonResult A} {f : A → JsonResult B}
      → Ensures P r
      → ((a : A) → P a → Ensures Q (f a))
      → Ensures Q (r >>= f)
  Ensures-next (returns {a} h) k = k a h
  Ensures-next refuses k = refuses

  pub Ensures-test :
      (b : Bool) {x y : JsonResult A}
      → (b ≡ true → Ensures P x)
      → (b ≡ false → Ensures P y)
      → Ensures P (if b then x else y)
  Ensures-test true hx hy = hx refl
  Ensures-test false hx hy = hy refl
