-- ===== src/Value/Take/Runs.antt =====
-- The runs of `take_value` of crates/jiter/src/value.rs, for any decoders that go forward.
use jiter.Prelude.{
  ℕ, ◌<◌, refl, Bool, true, false, Option, none, some, List, [], ◌∷◌, arith, Bytes, ◌==◌,
  if◌then◌else◌,
}
use jiter.Errors.{JsonError, JsonResult, ok, err, PartialMode, allow_trailing_str}
use jiter.Parse.{Parser, M, pure, peek, DecodeString, DecodeNumber}
use jiter.Parse.Runs.{
  Ahead, Runs, returns, refuses, At, Stepped, Runs-from, Runs-next, Runs-choice, peek-Runs,
  array_first-Runs, array_step-Runs, consume_ident-Runs,
}
use jiter.Parse.Runs.Decoders.{
  StringSteps, StringSteps-StringGives, NumberSteps, consume_number-Runs, consume_string-Runs,
  object_first-Runs, object_step-Runs,
}
use jiter.Number.Float.{NumberAny}
use jiter.Strings.Decode.{StringOutput}
use jiter.Value.Skip.Rounds.{number_error-Runs}
use jiter.Value.Data.{
  JsonValue, JsonArray, JsonObject, push, insert, RecursedValue, in_array, in_object,
}
use jiter.Value.Take.{
  Config, Opened, enter, whole, Advanced, next, closed, Popped, resume, returned, tolerate,
  take_scalar, opened_array, open_array, opened_object, first_key, open_object, open_value,
  advanced_array, advanced_object, next_key, advance, pop,
}

-- An error that is tolerated leaves nothing.
abbrev pub OrNone : {A : Type 0} → (A → Parser → Type 0) → Option A → Parser → Type 0
OrNone Q none p = Unit
OrNone Q (some a) p = Q a p

tolerate_error-Runs :
    {A : Type 0} (Q : A → Parser → Type 0) (b : Bool) (e : JsonError) {p : Parser} (q : Parser)
    → Ahead p q
    → Runs p (OrNone Q) (if b then (ok none, q) else (err e, q))
tolerate_error-Runs Q true e q a = returns a tt
tolerate_error-Runs Q false e q a = refuses a

pub tolerate-Runs :
    {A : Type 0} {Q : A → Parser → Type 0} {p : Parser} {r : JsonResult A × Parser}
    (mode : PartialMode)
    → Runs p Q r
    → Runs p (OrNone Q) (tolerate mode r)
unfolding tolerate
tolerate-Runs mode (returns a x) = returns a x
tolerate-Runs {Q} mode (refuses {e} {q} a) = tolerate_error-Runs Q _ e q a

module _ {F B : Type 0} (decode_str : DecodeString StringOutput)
    (decode_num : DecodeNumber (NumberAny F B)) (create_cow : StringOutput → Bytes)
    (config : Config) (strings : StringSteps decode_str) (numbers : NumberSteps decode_num) where
  open config use {recursion_limit, allow_inf_nan, allow_partial}

  abbrev pub Value : Type 0
  Value = JsonValue F B

  abbrev pub Container : Type 0
  Container = RecursedValue F B

  abbrev pub Any : {A : Type 0} → A → Parser → Type 0
  Any a q = Unit

  take_scalar-Runs :
      (c : ℕ) (p : Parser)
      → At c p
      → Runs p Any (take_scalar decode_str decode_num create_cow config c p)
  unfolding take_scalar
  take_scalar-Runs c p h =
      Runs-choice (c == b't') _ _ (λ _. Runs-next (consume_ident-Runs _ p) λ u q a l. returns a tt)
        λ _.
          Runs-choice (c == b'f') _ _
            (λ _. Runs-next (consume_ident-Runs _ p) λ u q a l. returns a tt)
            λ _.
              Runs-choice (c == b'n') _ _
                (λ _. Runs-next (consume_ident-Runs _ p) λ u q a l. returns a tt)
                λ _.
                  Runs-choice (c == b'"') _ _
                    (λ _.
                      Runs-next
                        (consume_string-Runs (λ _. Unit) decode_str
                          (StringSteps-StringGives strings) (allow_trailing_str allow_partial) c p
                          h)
                        λ s q a l. returns a tt)
                    λ _.
                      Runs-next
                        (number_error-Runs c
                          (consume_number-Runs decode_num numbers c allow_inf_nan p h))
                        λ n q a l. returns a tt

  -- A container that is gone into stands at its first value.
  abbrev pub OpenedAt : Parser → Opened F B → Parser → Type 0
  OpenedAt p (enter c r) q = (p.index < q.index) × At c q
  OpenedAt p (whole v) q = Unit

  opened_array-Runs :
      (p q : Parser) (o : Option (Option ℕ))
      → Ahead p q
      → OrNone (Stepped p) o q
      → Runs p (OpenedAt p) (opened_array decode_str decode_num create_cow config o q)
  unfolding opened_array
  opened_array-Runs p q (some (some c)) a h = returns a h
  opened_array-Runs p q (some none) a h = returns a tt
  opened_array-Runs p q none a h = returns a tt

  abbrev PeekedPast : Parser → ℕ → Parser → Type 0
  PeekedPast p c q = (p.index < q.index) × At c q

  opened_object-Runs :
      (key : StringOutput) (p q : Parser) (o : Option ℕ)
      → Ahead p q
      → OrNone (PeekedPast p) o q
      → Runs p (OpenedAt p) (opened_object decode_str decode_num create_cow config key o q)
  unfolding opened_object
  opened_object-Runs key p q (some c) a h = returns a h
  opened_object-Runs key p q none a h = returns a tt

  -- A peek behind the start.
  peek_past-Runs :
      (p q : Parser)
      → Ahead p q
      → p.index < q.index
      → Runs p (OrNone (PeekedPast p)) (tolerate allow_partial (peek q))
  peek_past-Runs p q a l =
      tolerate-Runs allow_partial (Runs-from a (peek-Runs q) λ c r b h. (omega arith, h))

  first_key-Runs :
      (p q : Parser) (o : Option (Option StringOutput))
      → Ahead p q
      → OrNone (λ (k : Option StringOutput) (r : Parser). p.index < r.index) o q
      → Runs p (OpenedAt p) (first_key decode_str decode_num create_cow config o q)
  unfolding first_key
  first_key-Runs p q (some (some key)) a l =
      Runs-next (peek_past-Runs p q a l) λ o r b h. opened_object-Runs key p r o b h
  first_key-Runs p q (some none) a l = returns a tt
  first_key-Runs p q none a l = returns a tt

  pub open_value-Runs :
      (c : ℕ) (p : Parser)
      → At c p
      → Runs p (OpenedAt p) (open_value decode_str decode_num create_cow config c p)
  unfolding open_value open_array open_object
  open_value-Runs c p h =
      Runs-choice (c == b'[') _ _
        (λ _.
          Runs-next (tolerate-Runs allow_partial (array_first-Runs p))
            λ o q a s. opened_array-Runs p q o a s)
        λ _.
          Runs-choice (c == b'{') _ _
            (λ _.
              Runs-next
                (tolerate-Runs allow_partial (
                  Runs-from (refl, omega arith)
                    (object_first-Runs (λ _. Unit) decode_str (StringSteps-StringGives strings) p)
                    λ o q a l. l.0))
                λ o q a l. first_key-Runs p q o a l)
            λ _. Runs-next (take_scalar-Runs c p h) λ v q a l. returns a tt

  -- A container that goes on stands at its next value.
  abbrev AdvancedAt : Parser → Advanced F B → Parser → Type 0
  AdvancedAt p (next c r) q = (p.index < q.index) × At c q
  AdvancedAt p (closed v) q = Unit

  advanced_array-Runs :
      (values : JsonArray F B) (p q : Parser) (o : Option (Option ℕ))
      → Ahead p q
      → OrNone (Stepped p) o q
      → Runs p (AdvancedAt p) (advanced_array decode_str decode_num create_cow config values o q)
  unfolding advanced_array
  advanced_array-Runs values p q (some (some c)) a h = returns a h
  advanced_array-Runs values p q (some none) a h = returns a tt
  advanced_array-Runs values p q none a h = returns a tt

  advanced_object-Runs :
      (entries : JsonObject F B) (key : StringOutput) (p q : Parser) (o : Option ℕ)
      → Ahead p q
      → OrNone (PeekedPast p) o q
      → Runs p
          (AdvancedAt p)
          (advanced_object decode_str decode_num create_cow config entries key o q)
  unfolding advanced_object
  advanced_object-Runs entries key p q (some c) a h = returns a h
  advanced_object-Runs entries key p q none a h = returns a tt

  next_key-Runs :
      (entries : JsonObject F B) (p q : Parser) (o : Option (Option StringOutput))
      → Ahead p q
      → OrNone (λ (k : Option StringOutput) (r : Parser). p.index < r.index) o q
      → Runs p (AdvancedAt p) (next_key decode_str decode_num create_cow config entries o q)
  unfolding next_key
  next_key-Runs entries p q (some (some key)) a l =
      Runs-next (peek_past-Runs p q a l) λ o r b h. advanced_object-Runs entries key p r o b h
  next_key-Runs entries p q (some none) a l = returns a tt
  next_key-Runs entries p q none a l = returns a tt

  advance-Runs :
      (v : Value) (r : Container) (p : Parser)
      → Runs p (AdvancedAt p) (advance decode_str decode_num create_cow config v r p)
  unfolding advance
  advance-Runs v (in_array values) p =
      Runs-next (tolerate-Runs allow_partial (array_step-Runs p))
        λ o q a h. advanced_array-Runs (push v values) p q o a h
  advance-Runs v (in_object entries key) p =
      Runs-next
        (tolerate-Runs allow_partial (
          Runs-from (refl, omega arith)
            (object_step-Runs (λ _. Unit) decode_str (StringSteps-StringGives strings) p)
            λ o q a l. l.0))
        λ o q a l. next_key-Runs (insert key v entries) p q o a l

  -- Where the loop over the stack ends.
  abbrev pub PoppedAt : Parser → Popped F B → Parser → Type 0
  PoppedAt p (resume c r rest) q = (p.index < q.index) × At c q
  PoppedAt p (returned v) q = Unit

  PoppedAt-from :
      (p q : Parser) (o : Popped F B) (r : Parser) → Ahead p q → PoppedAt q o r → PoppedAt p o r
  PoppedAt-from p q (resume c k rest) r a h = (omega arith, h.1)
  PoppedAt-from p q (returned v) r a h = tt

  advanced-Runs :
      (stack : List Container) (p q : Parser) (o : Advanced F B)
      → Ahead p q
      → AdvancedAt p o q
      → ((v : Value) → Runs q (PoppedAt q) (pop decode_str decode_num create_cow config stack v q))
      → Runs p (PoppedAt p) (
          (elim o as (λ _. M (Popped F B)) [
            | next c r ↦ pure (resume c r stack)
            | closed w ↦ pop decode_str decode_num create_cow config stack w
          ])
            q)
  advanced-Runs stack p q (next c r) a h k = returns a h
  advanced-Runs stack p q (closed w) a h k = Runs-from a (k w) λ o s b x. PoppedAt-from p q o s a x

  pub pop-Runs :
      (stack : List Container) (v : Value) (p : Parser)
      → Runs p (PoppedAt p) (pop decode_str decode_num create_cow config stack v p)
  unfolding pop
  pop-Runs [] v p = returns (refl, omega arith) tt
  pop-Runs (current ∷ stack) v p =
      Runs-next (advance-Runs v current p)
        λ o q a h. advanced-Runs stack p q o a h λ w. pop-Runs stack w q
