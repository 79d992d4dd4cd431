-- ===== src/Value/Skip/Rounds.antt =====
-- The runs of the steps of `take_value_skip` of crates/jiter/src/value.rs: how a value begins and how
-- its container goes on, for any decoders that go forward.
use jiter.Prelude.{
  ℕ, ◌≤◌, ◌<◌, Bool, true, false, Option, none, some, List, [], ◌∷◌, arith, length, ◌==◌,
}
use jiter.Errors.{JsonResult}
use jiter.Parse.{Peek, Parser, M, is_num, DecodeString, DecodeNumber}
use jiter.Parse.Runs.{
  Ahead, Runs, returns, refuses, At, Past, Stepped, Runs-from, Runs-next, Runs-test, Runs-choice,
  peek-Runs, array_first-Runs, array_step-Runs, consume_ident-Runs,
}
use jiter.Parse.Runs.Decoders.{
  StringSteps, StringSteps-StringGives, NumberSteps, consume_number-Runs, consume_string-Runs,
  object_first-Runs, object_step-Runs,
}
use jiter.Value.Take.{number_error}
use jiter.Value.Skip.{
  Entered, skip_scalar, enter_array, enter_object, skip_open, stepped_object, skip_step, popped,
  skip_pop,
}

pub number_error-Runs :
    {A : Type 0} {Q : A → Parser → Type 0} (c : ℕ) {p : Parser} {r : JsonResult A × Parser}
    → Runs p Q r
    → Runs p Q (number_error c r)
unfolding number_error
number_error-Runs c (returns a x) = returns a x
number_error-Runs c (refuses a) = Runs-test (is_num c) (λ _. refuses a) (λ _. refuses a)

-- A container that is gone into stands at its first value.
abbrev pub EnteredAt : Parser → Entered → Parser → Type 0
EnteredAt p none q = p.index < q.index
EnteredAt p (some (c, kind)) q = (p.index < q.index) × At c q

-- A container that goes on stands at its next value, and no more containers are open.
abbrev pub PoppedAt : Parser → List Bool → Option (Peek × Bool × List Bool) → Parser → Type 0
PoppedAt p stack none q = p.index < q.index
PoppedAt p stack (some (c, kind, rest)) q =
    (p.index < q.index) × At c q × (length rest ≤ length stack)

pub PoppedAt-from :
    (p q : Parser) (stack deeper : List Bool) (o : Option (Peek × Bool × List Bool)) (r : Parser)
    → Ahead p q
    → length stack ≤ length deeper
    → PoppedAt q stack o r
    → PoppedAt p deeper o r
PoppedAt-from p q stack deeper none r a n h = omega arith
PoppedAt-from p q stack deeper (some (c, kind, rest)) r a n h = (omega arith, h.1, omega arith)

module _ {S N : Type 0} (decode_str : DecodeString S) (decode_num : DecodeNumber N)
    (recursion_limit : ℕ) (allow_inf_nan : Bool) (strings : StringSteps decode_str)
    (numbers : NumberSteps decode_num) where
  skip_scalar-Runs :
      (c : ℕ) (p : Parser)
      → At c p
      → Runs p (Past p) (skip_scalar decode_str decode_num recursion_limit allow_inf_nan c p)
  unfolding skip_scalar
  skip_scalar-Runs c p h =
      Runs-choice (c == b't') _ _ (λ _. consume_ident-Runs _ p)
        λ _.
          Runs-choice (c == b'f') _ _ (λ _. consume_ident-Runs _ p)
            λ _.
              Runs-choice (c == b'n') _ _ (λ _. consume_ident-Runs _ p)
                λ _.
                  Runs-choice (c == b'"') _ _
                    (λ _.
                      Runs-next
                        (consume_string-Runs (λ _. Unit) decode_str
                          (StringSteps-StringGives strings) false c p h)
                        λ s q a l. returns a l.0)
                    λ _.
                      Runs-next
                        (number_error-Runs c
                          (consume_number-Runs decode_num numbers c allow_inf_nan p h))
                        λ n q a l. returns a l

  enter_array-Runs :
      (p q : Parser) (o : Option ℕ)
      → Ahead p q
      → Stepped p o q
      → Runs p (EnteredAt p) (enter_array decode_str decode_num recursion_limit allow_inf_nan o q)
  unfolding enter_array
  enter_array-Runs p q none a h = returns a h.0
  enter_array-Runs p q (some c) a h = returns a h

  enter_object-Runs :
      (p q : Parser) (o : Option S)
      → Ahead p q
      → p.index < q.index
      → Runs p (EnteredAt p) (enter_object decode_str decode_num recursion_limit allow_inf_nan o q)
  unfolding enter_object
  enter_object-Runs p q none a l = returns a l
  enter_object-Runs p q (some key) a l =
      Runs-next
        (Runs-from {Q' = λ c r. (p.index < r.index) × At c r} a (peek-Runs q)
          λ c r b h. (omega arith, h))
        λ c r b h. returns b h

  pub skip_open-Runs :
      (c : ℕ) (p : Parser)
      → At c p
      → Runs p (EnteredAt p) (skip_open decode_str decode_num recursion_limit allow_inf_nan c p)
  unfolding skip_open
  skip_open-Runs c p h =
      Runs-choice (c == b'[') _ _
        (λ _. Runs-next (array_first-Runs p) λ o q a s. enter_array-Runs p q o a s)
        λ _.
          Runs-choice (c == b'{') _ _
            (λ _.
              Runs-next
                (object_first-Runs (λ _. Unit) decode_str (StringSteps-StringGives strings) p)
                λ o q a l. enter_object-Runs p q o a l.0)
            λ _. Runs-next (skip_scalar-Runs c p h) λ u q a l. returns a l

  stepped_object-Runs :
      (p q : Parser) (o : Option S)
      → Ahead p q
      → p.index < q.index
      → Runs p (Stepped p) (stepped_object decode_str decode_num recursion_limit allow_inf_nan o q)
  unfolding stepped_object
  stepped_object-Runs p q none a l = returns a (l, tt)
  stepped_object-Runs p q (some key) a l =
      Runs-next
        (Runs-from {Q' = λ c r. (p.index < r.index) × At c r} a (peek-Runs q)
          λ c r b h. (omega arith, h))
        λ c r b h. returns b h

  skip_step-Runs :
      (kind : Bool) (p : Parser)
      → Runs p (Stepped p) (skip_step decode_str decode_num recursion_limit allow_inf_nan kind p)
  unfolding skip_step
  skip_step-Runs false p = array_step-Runs p
  skip_step-Runs true p =
      Runs-next (object_step-Runs (λ _. Unit) decode_str (StringSteps-StringGives strings) p)
        λ o q a l. stepped_object-Runs p q o a l.0

  Stepped-past : (p q : Parser) (o : Option ℕ) → Stepped p o q → p.index < q.index
  Stepped-past p q o h = h.0

  popped-Runs :
      (current : Bool) (stack : List Bool) (p q : Parser) (o : Option ℕ)
      (below : M (Option (Peek × Bool × List Bool)))
      → Ahead p q
      → Stepped p o q
      → Runs p (PoppedAt p stack) (below q)
      → Runs p
          (PoppedAt p stack)
          (popped decode_str decode_num recursion_limit allow_inf_nan current stack below o q)
  unfolding popped
  popped-Runs current stack p q (some c) below a h k = returns a (h.0, h.1, omega arith)
  popped-Runs current stack p q none below a h k = k

  pub skip_pop-Runs :
      (current : Bool) (stack : List Bool) (p : Parser)
      → Runs p
          (PoppedAt p stack)
          (skip_pop decode_str decode_num recursion_limit allow_inf_nan current stack p)
  unfolding skip_pop
  skip_pop-Runs current [] p =
      Runs-next (skip_step-Runs current p)
        λ o q a h. popped-Runs current [] p q o _ a h (returns a (Stepped-past p q o h))
  skip_pop-Runs current (below ∷ rest) p = Runs-next (skip_step-Runs current p) λ o q a h.
      popped-Runs current (below ∷ rest) p q o _ a h (
        Runs-from a (skip_pop-Runs below rest q)
          λ o' r b k. PoppedAt-from p q rest (below ∷ rest) o' r a (omega arith) k)
