-- ===== src/Jiter/Total.antt =====
-- The runs of `next_skip` of crates/jiter/src/jiter.rs.
use jiter.Prelude.{ℕ, ◌≤◌, ◌<◌, refl, arith}
use jiter.Errors.{JsonResult, JiterError, jiter_error_from}
use jiter.Parse.{Parser}
use jiter.Parse.Runs.{Runs, At, Runs-from, peek-Runs}
use jiter.Value.Total.{skip_value-Runs}
use jiter.Jiter.{Jiter, JiterResult, J, put_parser, and_then}
use jiter.Jiter.Next.{peek, known_skip, next_skip}

-- A value with a property, or an error: neither a panic nor a loop whose fuel is spent.
pub data Answers {A : Type 0} (P : A → Jiter → Type 0) : JiterResult A × Jiter → Type 0 where
  returns : {a : A} {j : Jiter} → P a j → Answers P (JiterResult.ok a, j)
  refuses : {e : JiterError} {j : Jiter} → Answers P (JiterResult.err e, j)

module _ {A : Type 0} where
  parsing-Answers :
      {Q : A → Parser → Type 0} (j : Jiter) (p : Parser) {r : JsonResult A × Parser}
      → Runs p Q r
      → Answers (λ a k. Q a k.parser) (put_parser (λ e k. JiterResult.err (jiter_error_from e)) j r)
  parsing-Answers j p (Runs.returns a x) = returns x
  parsing-Answers j p (Runs.refuses a) = refuses

  Answers-next :
      {B : Type 0} {P : A → Jiter → Type 0} {P' : B → Jiter → Type 0} {r : JiterResult A × Jiter}
      {f : A → J B}
      → Answers P r
      → ((a : A) (j : Jiter) → P a j → Answers P' (f a j))
      → Answers P' (and_then r f)
  Answers-next (returns {a} {j} x) k = k a j x
  Answers-next refuses k = refuses

  Answers-weaken :
      {P P' : A → Jiter → Type 0} {r : JiterResult A × Jiter}
      → Answers P r
      → ((a : A) (j : Jiter) → P a j → P' a j)
      → Answers P' r
  Answers-weaken (returns {a} {j} x) k = returns (k a j x)
  Answers-weaken refuses k = refuses

peek-Answers :
    (j : Jiter) → Answers (λ c k. (j.parser.index ≤ k.parser.index) × At c k.parser) (peek j)
unfolding peek
peek-Answers j =
    parsing-Answers {Q = λ c q. (j.parser.index ≤ q.index) × At c q} j j.parser
      (Runs-from (refl, omega arith) (peek-Runs j.parser) λ c q a h. (a.1, h))

known_skip-Answers :
    (c : ℕ) (j : Jiter)
    → At c j.parser
    → Answers (λ u k. j.parser.index < k.parser.index) (known_skip c j)
unfolding known_skip
known_skip-Answers c j h =
    parsing-Answers {Q = λ u q. j.parser.index < q.index} j j.parser
      (skip_value-Runs j.allow_inf_nan c j.parser h)

-- From every state `next_skip` returns with the index further on, or gives an error. It neither panics
-- nor runs out of fuel.
pub next_skip-Answers : (j : Jiter) → Answers (λ u k. j.parser.index < k.parser.index) (next_skip j)
unfolding next_skip
next_skip-Answers j =
    Answers-next (peek-Answers j)
      λ c k h. Answers-weaken (known_skip-Answers c k h.1) λ u l g. omega arith
