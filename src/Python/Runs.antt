-- ===== src/Python/Runs.antt =====
-- How the methods of `PythonParser` in crates/jiter/src/python.rs move its state.
use jiter.Prelude.{
  ◌≡◌, ◌∙◌, refl, Bool, true, false, Option, none, some, Bytes, arith, if◌then◌else◌,
}
use jiter.Errors.{JsonError, JsonResult, ok, err, PartialMode}
use jiter.Parse.{Parser, M}
use jiter.Parse.Runs.{Ahead, Runs, Ahead-trans}
use jiter.StringCache.{PyStrings}
use jiter.StringCache.Mode.{Shared, Made, IsShared, Makes}
use jiter.Value.Take.{tolerate}
use jiter.Python.State.{
  PythonParser, S, and_then, put_beside, beside, put_parser, parsing, put_made, making,
}

-- Nothing more is said of a value.
abbrev pub Any : {X A : Type 0} → A → X → Type 0
Any a x = Unit

-- What is tolerated is an error or nothing.
abbrev pub OrNone : {X A : Type 0} → (A → X → Type 0) → Option A → X → Type 0
OrNone Q none x = Unit
OrNone Q (some a) x = Q a x

module _ {P : PyStrings} where
  -- The parser ahead in the same data, the limit as it was, and a cache that later calls can use.
  pub record From (s t : PythonParser P) : Type 0 where
    pub ahead : Ahead s.parser t.parser
    pub same_limit : t.recursion_limit ≡ s.recursion_limit
    pub shares : IsShared P t.shared.0

  pub From-refl : (s : PythonParser P) → IsShared P s.shared.0 → From s s
  From-refl s h = record { ahead = (refl, omega arith); same_limit = refl; shares = h }

  pub From-trans : {s t u : PythonParser P} → From s t → From t u → From s u
  From-trans a b = record {
    ahead = Ahead-trans (a.ahead) (b.ahead);
    same_limit = b.same_limit ∙ a.same_limit;
    shares = b.shares;
  }

  -- A value with a property, or an error, and in both cases the state as `From` says. `at` gives the
  -- state in what is passed on: that state itself, or one beside a list or a dict.
  pub data Goes {X A : Type 0} (at : X → PythonParser P) (s : PythonParser P) (Q : A → X → Type 0)
      : JsonResult A × X → Type 0 where
    returns : {a : A} {x : X} → From s (at x) → Q a x → Goes at s Q (ok a, x)
    refuses : {e : JsonError} {x : X} → From s (at x) → Goes at s Q (err e, x)

  abbrev pub Self : PythonParser P → PythonParser P
  Self s = s

  abbrev pub Beside : {C : Type 0} → C × PythonParser P → PythonParser P
  Beside x = x.1

  module _ {X A : Type 0} {at : X → PythonParser P} {s : PythonParser P} {Q : A → X → Type 0} where
    pub Goes-next :
        {B : Type 0} {Q' : B → X → Type 0} {r : JsonResult A × X} {f : A → S X B}
        → Goes at s Q r
        → ((a : A) (x : X) → From s (at x) → Q a x → Goes at s Q' (f a x))
        → Goes at s Q' (and_then r f)
    Goes-next (returns b x) k = k _ _ b x
    Goes-next (refuses b) k = refuses b

    pub Goes-weaken :
        {t : PythonParser P} {Q' : A → X → Type 0} {r : JsonResult A × X}
        → From t s
        → Goes at s Q r
        → ((a : A) (x : X) → From s (at x) → Q a x → Q' a x)
        → Goes at t Q' r
    Goes-weaken h (returns b x) k = returns (From-trans h b) (k _ _ b x)
    Goes-weaken h (refuses b) k = refuses (From-trans h b)

    -- Where the test stands before the state is given.
    pub Goes-choice :
        {y : X} (b : Bool) (m n : S X A)
        → (b ≡ true → Goes at s Q (m y))
        → (b ≡ false → Goes at s Q (n y))
        → Goes at s Q ((if b then m else n) y)
    Goes-choice true m n hm hn = hm refl
    Goes-choice false m n hm hn = hn refl

  tolerate_error-Goes :
      {X A : Type 0} {at : X → PythonParser P} {s : PythonParser P} (Q : A → X → Type 0) (b : Bool)
      (e : JsonError) (x : X)
      → From s (at x)
      → Goes at s (OrNone Q) (if b then (ok none, x) else (err e, x))
  tolerate_error-Goes Q true e x h = returns h tt
  tolerate_error-Goes Q false e x h = refuses h

  pub tolerate-Goes :
      {X A : Type 0} {at : X → PythonParser P} {s : PythonParser P} {Q : A → X → Type 0}
      {r : JsonResult A × X} (mode : PartialMode)
      → Goes at s Q r
      → Goes at s (OrNone Q) (tolerate mode r)
  unfolding tolerate
  tolerate-Goes mode (returns h x) = returns h x
  tolerate-Goes mode (refuses {e} {x} h) = tolerate_error-Goes _ _ e x h

  put_parser-Goes :
      {A : Type 0} {Q : A → Parser → Type 0} (s : PythonParser P) {r : JsonResult A × Parser}
      → IsShared P s.shared.0
      → Runs s.parser Q r
      → Goes Self s (λ a t. Q a t.parser) (put_parser s r)
  put_parser-Goes s h (Runs.returns a x) =
      returns record { ahead = a; same_limit = refl; shares = h } x
  put_parser-Goes s h (Runs.refuses a) = refuses record { ahead = a; same_limit = refl; shares = h }

  pub parsing-Goes :
      {A : Type 0} {Q : A → Parser → Type 0} (s : PythonParser P) (m : M A)
      → IsShared P s.shared.0
      → Runs s.parser Q (m s.parser)
      → Goes Self s (λ a t. Q a t.parser) (parsing m s)
  parsing-Goes s m h r = put_parser-Goes s h r

  put_beside-Goes :
      {C A : Type 0} {s : PythonParser P} {Q : A → PythonParser P → Type 0}
      {r : JsonResult A × PythonParser P} (c : C)
      → Goes Self s Q r
      → Goes Beside s (λ a x. Q a x.1) (put_beside c r)
  put_beside-Goes c (returns h x) = returns h x
  put_beside-Goes c (refuses h) = refuses h

  pub beside-Goes :
      {C A : Type 0} {s : PythonParser P} {Q : A → PythonParser P → Type 0} {t : PythonParser P}
      (m : S (PythonParser P) A) (c : C)
      → Goes Self s Q (m t)
      → Goes Beside s (λ a x. Q a x.1) (beside m (c, t))
  beside-Goes m c h = put_beside-Goes c h

  put_made-Goes :
      (s : PythonParser P) (text : Bytes) (r : Made P)
      → Makes P text r
      → Goes Self s (λ o t. t.parser ≡ s.parser) (put_made s r)
  put_made-Goes s text r (q, e, t, h) =
      rw e (returns record { ahead = (refl, omega arith); same_limit = refl; shares = h } refl)

  pub making-Goes :
      (s : PythonParser P) (text : Bytes) (make : Shared P → Made P)
      → Makes P text (make s.shared)
      → Goes Self s (λ o t. t.parser ≡ s.parser) (making make s)
  making-Goes s text make h = put_made-Goes s text (make s.shared) h
