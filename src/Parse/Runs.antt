-- ===== src/Parse/Runs.antt =====
-- How the operations of `Parser` in crates/jiter/src/parse.rs move the parser.
pub mod Decoders
use jiter.Prelude.{
  ℕ, zero, suc, ◌+◌, ◌≤◌, ◌<◌, ◌≡◌, refl, ◌∙◌, Bool, true, false, Option, none, some, [], ◌∷◌, ◌++◌,
  arith, Bytes, length, get_elem?, drop, ◌==◌, Bool-cases, Option-cases, inl, inr, if◌then◌else◌,
}
use jiter.Prelude.Slices.{drop-append, get_elem?-drop_cons, get_range, get_range-bounds}
use jiter.Errors.{JsonErrorType, JsonError, JsonResult, ok, err}
use jiter.Errors.Ensures.{Ensures, Ensures-test, Ensures-weaken}
use jiter.Parse.{
  Parser, M, pure, and_then, ◌>>=◌, bytes_eq, advance, eaten, set_index, moved_to, on_next, peek,
  finished, finish, array_first, array_peek, array_step, not_trailing, ident_error,
  consume_ident_at, consume_ident, DecodeString, DecodeNumber, consume_string, consume_number,
  object_key, object_first, object_step,
}
use jiter.Parse.Whitespace.{first, eat_whitespace_lem}

-- The same data, no further back.
abbrev pub Ahead : Parser → Parser → Type 0
Ahead p q = (q.bytes ≡ p.bytes) × (p.index ≤ q.index)

-- A value with a property, or an error, and the parser ahead in both cases.
pub data Runs {A : Type 0} (p : Parser) (Q : A → Parser → Type 0)
    : JsonResult A × Parser → Type 0 where
  returns : {a : A} {q : Parser} → Ahead p q → Q a q → Runs p Q (ok a, q)
  refuses : {e : JsonError} {q : Parser} → Ahead p q → Runs p Q (err e, q)

-- The parser stands at the byte.
abbrev pub At : ℕ → Parser → Type 0
At c p = get_elem? p.bytes p.index ≡ some c

abbrev pub AtSome : Option ℕ → Parser → Type 0
AtSome none p = Unit
AtSome (some c) p = At c p

pub Ahead-trans : {p q r : Parser} → Ahead p q → Ahead q r → Ahead p r
Ahead-trans {p} {q} {r} a b = (b.0 ∙ a.0, omega arith)

module _ {A : Type 0} {Q : A → Parser → Type 0} where
  pub Runs-from :
      {p q : Parser} {Q' : A → Parser → Type 0} {r : JsonResult A × Parser}
      → Ahead p q
      → Runs q Q r
      → ((a : A) (s : Parser) → Ahead q s → Q a s → Q' a s)
      → Runs p Q' r
  Runs-from h (returns b x) k = returns (Ahead-trans h b) (k _ _ b x)
  Runs-from h (refuses b) k = refuses (Ahead-trans h b)

  pub Runs-next :
      {p : Parser} {B : Type 0} {Q' : B → Parser → Type 0} {r : JsonResult A × Parser} {f : A → M B}
      → Runs p Q r
      → ((a : A) (q : Parser) → Ahead p q → Q a q → Runs p Q' (f a q))
      → Runs p Q' (and_then r f)
  Runs-next (returns b x) k = k _ _ b x
  Runs-next (refuses b) k = refuses b

  pub Runs-test :
      {p : Parser} (b : Bool) {x y : JsonResult A × Parser}
      → (b ≡ true → Runs p Q x)
      → (b ≡ false → Runs p Q y)
      → Runs p Q (if b then x else y)
  Runs-test true hx hy = hx refl
  Runs-test false hx hy = hy refl

  -- The same where the test stands before the parser is given.
  pub Runs-choice :
      {p q : Parser} (b : Bool) (m n : M A)
      → (b ≡ true → Runs p Q (m q))
      → (b ≡ false → Runs p Q (n q))
      → Runs p Q ((if b then m else n) q)
  Runs-choice true m n hm hn = hm refl
  Runs-choice false m n hm hn = hn refl

  eaten-Runs :
      (t : JsonErrorType) (f : ℕ → M A) (p : Parser) (ws rest : Bytes)
      → drop p.index p.bytes ≡ ws ++ rest
      → ((c : ℕ) (q : Parser) → Ahead p q → At c q → Runs p Q (f c q))
      → Runs p Q (eaten t f (first rest, advance (length ws) p))
  eaten-Runs t f p ws [] e k = refuses (refl, omega arith)
  eaten-Runs t f p ws (c ∷ cs) e k =
      k c (advance (length ws) p) (refl, omega arith)
        (get_elem?-drop_cons (p.index + length ws) p.bytes (drop-append ws p.index p.bytes e))

  pub on_next-Runs :
      (t : JsonErrorType) (f : ℕ → M A) (p : Parser)
      → ((c : ℕ) (q : Parser) → Ahead p q → At c q → Runs p Q (f c q))
      → Runs p Q (on_next t f p)
  on_next-Runs t f p k =
      let (ws, rest, e, b, s, eq) = eat_whitespace_lem p in rw eq (eaten-Runs t f p ws rest e k)

pub peek-Runs : (p : Parser) → Runs p At (peek p)
unfolding peek
peek-Runs p = on_next-Runs _ _ p λ c q a h. returns a h

finished-Runs : (p : Parser) (o : Option ℕ) → Runs p (λ u q. q ≡ p) (finished (o, p))
finished-Runs p none = returns (refl, omega arith) refl
finished-Runs p (some c) = refuses (refl, omega arith)

pub finish-Runs : (p : Parser) → Runs p (λ u q. Unit) (finish p)
unfolding finish
finish-Runs p =
    let (ws, rest, e, b, s, eq) = eat_whitespace_lem p in
    rw eq (
      Runs-from (refl, omega arith) (finished-Runs (advance (length ws) p) (first rest))
        λ u q a h. tt)

-- The first value or a further one of an array: the parser has passed a byte and stands at it.
abbrev pub Stepped : Parser → Option ℕ → Parser → Type 0
Stepped p o q = (p.index < q.index) × AtSome o q

pub array_first-Runs : (p : Parser) → Runs p (Stepped p) (array_first p)
unfolding array_first
array_first-Runs p =
    Runs-from {Q = Stepped p} (refl, omega arith)
      (on_next-Runs _ _ (advance 1 p) λ c q a h.
        Runs-test (c == b']') (λ _. returns (a.0, omega arith) (omega arith, tt))
          (λ _. returns a (omega arith, h)))
      (λ o r a x. x)

array_peek-Runs : (p : Parser) → Runs p (λ o q. AtSome o q) (array_peek p)
unfolding array_peek
array_peek-Runs p = on_next-Runs _ _ p λ c q a h. elim (Bool-cases (c == b']')) [
  | inl e ↦ rw e (returns a tt)
  | inr e ↦ rw e (returns a h)
]

not_trailing-Runs :
    (p : Parser) (o : Option ℕ) → AtSome o p → Runs p (λ o q. AtSome o q) (not_trailing o p)
not_trailing-Runs p none h = refuses (refl, omega arith)
not_trailing-Runs p (some c) h = returns (refl, omega arith) h

pub array_step-Runs : (p : Parser) → Runs p (Stepped p) (array_step p)
unfolding array_step
array_step-Runs p = on_next-Runs _ _ p λ c q a h.
    Runs-test (c == b',')
      (λ _.
        Runs-from (a.0, omega arith)
          (Runs-next (array_peek-Runs (advance 1 q))
            λ o r b x. Runs-from b (not_trailing-Runs r o x) λ o' s d y. y)
          (λ o s d y. (omega arith, y)))
      (λ _.
        Runs-test (c == b']') (λ _. returns (a.0, omega arith) (omega arith, tt)) (λ _. refuses a))

ident_error-Ensures :
    {P : ℕ → Type 0} (bytes : Bytes) (index : ℕ) (expected : Bytes)
    → Ensures P (ident_error bytes index expected)
unfolding ident_error
ident_error-Ensures bytes index [] = Ensures.refuses
ident_error-Ensures bytes index (c ∷ expected) = elim (Option-cases (get_elem? bytes index)) [
  | inl e ↦ rw (e, ident_error) Ensures.refuses
  | inr (v, e) ↦
      rw (e, ident_error)
        (Ensures-test (v == c) (λ _. ident_error-Ensures bytes (index + 1) expected)
          (λ _. Ensures.refuses))
]

pub consume_ident_at-Ensures :
    (bytes : Bytes) (index : ℕ) (expected : Bytes)
    → Ensures (λ i. (index < i) × (i ≤ length bytes)) (consume_ident_at bytes index expected)
unfolding consume_ident_at
consume_ident_at-Ensures bytes index expected =
    elim (Option-cases (get_range bytes (index + 1) (index + length expected + 1))) [
      | inl e ↦ rw (e, consume_ident_at) (ident_error-Ensures bytes (index + 1) expected)
      | inr (s, e) ↦
          rw (e, consume_ident_at)
            (Ensures-test (bytes_eq s expected)
              (λ _. Ensures.returns (omega arith, (get_range-bounds bytes _ _ e).1))
              (λ _. ident_error-Ensures bytes (index + 1) expected))
    ]

-- A value is behind the start.
abbrev pub Past : {A : Type 0} → Parser → A → Parser → Type 0
Past p a q = p.index < q.index

moved_to-Runs :
    (p : Parser) {r : JsonResult ℕ} → Ensures (λ i. p.index < i) r → Runs p (Past p) (moved_to p r)
moved_to-Runs p (Ensures.returns h) = returns (refl, omega arith) h
moved_to-Runs p Ensures.refuses = refuses (refl, omega arith)

pub consume_ident-Runs :
    (expected : Bytes) (p : Parser) → Runs p (Past p) (consume_ident expected p)
unfolding consume_ident
consume_ident-Runs expected p =
    moved_to-Runs p (Ensures-weaken (consume_ident_at-Ensures p.bytes p.index expected) λ i h. h.0)
