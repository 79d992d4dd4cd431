-- ===== src/Jiter/Steps.antt =====
-- How the methods of crates/jiter/src/jiter.rs move the iterator.
use jiter.Prelude.{
  ℕ, ◌≤◌, ◌≡◌, ◌∙◌, refl, Bool, true, false, arith, length, ◌==◌, ◌||◌, ==_iff, Bool-cases, inl,
  inr, if◌then◌else◌,
}
use jiter.Prelude.Slices.{get_range-some}
use jiter.Errors.{JsonResult, JsonError, JiterError, JsonType, jiter_error_from}
use jiter.Errors.Ensures.{Ensures}
use jiter.Parse.{Parser, is_num, set_index, consume_number}
use jiter.Parse.Runs.{Runs, Ahead, At, peek-Runs}
use jiter.Number.Libs.{NumberLibs}
use jiter.Number.Float.{NumberAny}
use jiter.Number.Float.Steps.{LexicalLaws, decode_any-Ensures}
use jiter.Jiter.{Jiter, JiterResult, J, put_parser, and_then, slice}
use jiter.Jiter.Errors.{
  actual_type, wrong_num, wrong_type, maybe_number_error, int_error, is_float_expecting_int,
}
use jiter.Jiter.Next.{peek, expecting}

-- The same data, in the iterator and in its parser, and an index no further back.
pub record Later (j k : Jiter) : Type 0 where
  pub held : k.bytes ≡ j.bytes
  pub parsed : k.parser.bytes ≡ j.parser.bytes
  pub ahead : j.parser.index ≤ k.parser.index

-- A value with a property, or an error, and the iterator later in both cases: neither a panic nor a
-- loop whose fuel is spent.
pub data Steps {A : Type 0} (j : Jiter) (P : A → Jiter → Type 0)
    : JiterResult A × Jiter → Type 0 where
  returns : {a : A} {k : Jiter} → Later j k → P a k → Steps j P (JiterResult.ok a, k)
  refuses : {e : JiterError} {k : Jiter} → Later j k → Steps j P (JiterResult.err e, k)

-- An error.
pub data Fails {A : Type 0} : JiterResult A → Type 0 where
  fails : {e : JiterError} → Fails (JiterResult.err e)

Later-trans : {i j k : Jiter} → Later i j → Later j k → Later i k
Later-trans a b = record {
  held = b.held ∙ a.held;
  parsed = b.parsed ∙ a.parsed;
  ahead = omega arith;
}

Later-moved : (j : Jiter) (q : Parser) → Ahead j.parser q → Later j (record j { parser = q })
Later-moved j q a = record { held = refl; parsed = a.0; ahead = a.1 }

pub Later-refl : (j : Jiter) → Later j j
Later-refl j = record { held = refl; parsed = refl; ahead = omega arith }

module _ {A : Type 0} where
  pub refused :
      {P : A → Jiter → Type 0} {i j : Jiter} {r : JiterResult A}
      → Fails r
      → Later i j
      → Steps i P (r, j)
  refused fails l = refuses l

  pub Steps-from :
      {P P' : A → Jiter → Type 0} {i j : Jiter} {r : JiterResult A × Jiter}
      → Later i j
      → Steps j P r
      → ((a : A) (k : Jiter) → Later j k → P a k → P' a k)
      → Steps i P' r
  Steps-from h (returns b x) f = returns (Later-trans h b) (f _ _ b x)
  Steps-from h (refuses b) f = refuses (Later-trans h b)

  pub Steps-next :
      {B : Type 0} {P : A → Jiter → Type 0} {P' : B → Jiter → Type 0} {j : Jiter}
      {r : JiterResult A × Jiter} {f : A → J B}
      → Steps j P r
      → ((a : A) (k : Jiter) → Later j k → P a k → Steps j P' (f a k))
      → Steps j P' (and_then r f)
  Steps-next (returns {a} {k} l x) f = f a k l x
  Steps-next (refuses l) f = refuses l

  pub parsing_or-Steps :
      {Q : A → Parser → Type 0} (j : Jiter) (f : JsonError → Jiter → JiterResult A)
      {r : JsonResult A × Parser}
      → ((e : JsonError) (k : Jiter) → Fails (f e k))
      → Runs j.parser Q r
      → Steps j (λ a k. Q a k.parser) (put_parser f j r)
  parsing_or-Steps j f h (Runs.returns a x) = returns (Later-moved j _ a) x
  parsing_or-Steps j f h (Runs.refuses {e} {q} a) =
      refused (h e (record j { parser = q })) (Later-moved j q a)

  pub parsing-Steps :
      {Q : A → Parser → Type 0} (j : Jiter) {r : JsonResult A × Parser}
      → Runs j.parser Q r
      → Steps j (λ a k. Q a k.parser) (put_parser (λ e k. JiterResult.err (jiter_error_from e)) j r)
  parsing-Steps j = parsing_or-Steps j _ (λ e k. fails {e = jiter_error_from e})

pub slice-Steps :
    (i j : ℕ) (k : Jiter) → i ≤ j → j ≤ length k.bytes → Steps k (λ s l. l ≡ k) (slice i j k)
slice-Steps i j k h l = rw (get_range-some k.bytes i j h l) (returns (Later-refl k) refl)

pub peek-Steps : (j : Jiter) → Steps j (λ c k. At c k.parser) (peek j)
unfolding peek
peek-Steps j = parsing-Steps {Q = At} j (peek-Runs j.parser)

module _ (L : NumberLibs) (laws : LexicalLaws L) where
  open L use {Float, BigInt}

  test :
      {A : Type 0} (b : Bool) {x y : JiterResult A} → Fails x → Fails y → Fails (if b then x else y)
  test true x y = x
  test false x y = y

  asked :
      {A : Type 0} (b : Bool) {x y : JiterResult A}
      → (b ≡ true → Fails x)
      → Fails y
      → Fails (if b then x else y)
  asked true x y = x refl
  asked false x y = y

  answered :
      {A : Type 0} (b : Bool) {x y : JiterResult A}
      → Fails x
      → (b ≡ false → Fails y)
      → Fails (if b then x else y)
  answered true x y = x
  answered false x y = y refl

  found-Fails :
      {A : Type 0} (expected : JsonType) (index : ℕ) (n : NumberAny Float BigInt)
      → Fails {A = A} (actual_type L expected index (JsonResult.ok n))
  unfolding actual_type
  found-Fails expected index (NumberAny.int n) = fails
  found-Fails expected index (NumberAny.float x) = fails

  actual-Fails :
      {A : Type 0} (expected : JsonType) (index : ℕ) (p : Parser)
      {r : JsonResult (NumberAny Float BigInt × ℕ)} {P : NumberAny Float BigInt × ℕ → Type 0}
      → Ensures P r
      → Fails {A = A} (actual_type L expected index (set_index p r).0)
  unfolding actual_type
  actual-Fails expected index p (Ensures.returns {a} h) = found-Fails expected index a.0
  actual-Fails expected index p Ensures.refuses = fails

  wrong_num-Fails :
      {A : Type 0} (c : ℕ) (expected : JsonType) (j : Jiter)
      → At c j.parser
      → Fails {A = A} (wrong_num L c expected j)
  unfolding wrong_num consume_number
  wrong_num-Fails c expected j h =
      actual-Fails expected j.parser.index j.parser
        (decode_any-Ensures L laws j.parser.bytes j.parser.index c j.allow_inf_nan h)

  pub wrong_type-Fails :
      {A : Type 0} (expected : JsonType) (c : ℕ) (j : Jiter)
      → (is_num c ≡ true → At c j.parser)
      → Fails {A = A} (wrong_type L expected c j)
  unfolding wrong_type
  wrong_type-Fails expected c j h = test (c == b't' || c == b'f') fails (
      test (c == b'n') fails (
        test (c == b'"') fails (
          test (c == b'[') fails (
            test (c == b'{') fails
              (asked (is_num c) (λ t. wrong_num-Fails c expected j (h t)) fails)))))

  pub maybe_number_error-Fails :
      {A : Type 0} (expected : JsonType) (c : ℕ) (e : JsonError) (j : Jiter)
      → Fails {A = A} (maybe_number_error L expected c e j)
  unfolding maybe_number_error
  maybe_number_error-Fails expected c e j =
      answered (is_num c) fails λ n. wrong_type-Fails expected c j λ t. cc

  pub int_error-Fails :
      {A : Type 0} (c : ℕ) (e : JsonError) (j : Jiter) → Fails {A = A} (int_error L c e j)
  unfolding int_error
  int_error-Fails c e j =
      test (is_float_expecting_int e.error_type) fails (maybe_number_error-Fails JsonType.int c e j)

  -- A method that asks for a value of one type.
  pub expecting-Steps :
      {A : Type 0} {P : A → Jiter → Type 0} (byte : ℕ) (expected : JsonType) (known : J A)
      (j : Jiter)
      → ((k : Jiter) → Later j k → At byte k.parser → Steps k P (known k))
      → Steps j P (expecting L byte expected known j)
  unfolding expecting
  expecting-Steps {P} byte expected known j f = Steps-next (peek-Steps j) λ c k l h.
      elim (Bool-cases (c == byte)) [
        | inl e ↦ rw e (Steps-from l (f k l (rw ((==_iff c byte).0 e) at h)) λ a m b x. x)
        | inr e ↦ rw e (refused (wrong_type-Fails expected c k λ _. h) l)
      ]
