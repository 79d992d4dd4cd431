-- ===== src/Parse/Runs/Decoders.antt =====
-- How strings, numbers and the keys of objects move the parser of crates/jiter/src/parse.rs.
use jiter.Prelude.{
  ℕ, zero, suc, ◌≤◌, ◌<◌, ◌≡◌, ◌∙◌, refl, Bool, false, Option, none, some, [], ◌∷◌, arith, Bytes,
  length, get_elem?, ◌==◌,
}
use jiter.Errors.{JsonResult}
use jiter.Errors.Ensures.{Ensures, Ensures-weaken}
use jiter.Parse.{
  Parser, pure, ◌>>=◌, advance, set_index, DecodeString, DecodeNumber, consume_string,
  consume_number, object_key, object_first, object_step,
}
use jiter.Parse.Runs.{
  Runs, returns, refuses, At, Past, Runs-from, Runs-next, Runs-test, on_next-Runs,
}

pub set_index-Runs :
    {O : Type 0} {G : O → Type 0} (p : Parser) {r : JsonResult (O × ℕ)}
    → Ensures (λ v. (p.index < v.1) × G v.0) r
    → Runs p (λ o q. (p.index < q.index) × G o) (set_index p r)
set_index-Runs p (Ensures.returns h) = returns (refl, omega arith) h
set_index-Runs p Ensures.refuses = refuses (refl, omega arith)

-- What the parser relies on in a string or a number decoder: at a byte of the data it returns an
-- index behind that byte, or an error.
abbrev pub StringSteps : {O : Type 0} → DecodeString O → Type 0
StringSteps {O} decode =
    (bytes : Bytes) (index : ℕ) (allow_partial : Bool)
    → index < length bytes
    → Ensures (λ (v : O × ℕ). index < v.1) (decode bytes index allow_partial)

-- The same, with a property of the strings.
abbrev pub GivesAt : {O : Type 0} → Bytes → (O → Type 0) → DecodeString O → Type 0
GivesAt {O} bytes G decode =
    (index : ℕ) (allow_partial : Bool)
    → index < length bytes
    → Ensures (λ (v : O × ℕ). (index < v.1) × G v.0) (decode bytes index allow_partial)

abbrev pub StringGives : {O : Type 0} → (O → Type 0) → DecodeString O → Type 0
StringGives G decode = (bytes : Bytes) → GivesAt bytes G decode

pub StringSteps-StringGives :
    {O : Type 0} {decode : DecodeString O} → StringSteps decode → StringGives (λ _. Unit) decode
StringSteps-StringGives steps bytes index allow_partial h =
    Ensures-weaken (steps bytes index allow_partial h) λ v l. (l, tt)

abbrev pub NumberSteps : {O : Type 0} → DecodeNumber O → Type 0
NumberSteps {O} decode =
    (bytes : Bytes) (index first : ℕ) (allow_inf_nan : Bool)
    → get_elem? bytes index ≡ some first
    → Ensures (λ (v : O × ℕ). index < v.1) (decode bytes index first allow_inf_nan)

pub get_elem?-lt : (cs : Bytes) (i : ℕ) {c : ℕ} → get_elem? cs i ≡ some c → i < length cs
get_elem?-lt [] i h = cc
get_elem?-lt (c ∷ cs) zero h = omega arith
get_elem?-lt (c ∷ cs) (suc i) h = omega (arith, get_elem?-lt cs i h)

pub consume_number-Runs :
    {O : Type 0} (decode : DecodeNumber O)
    → NumberSteps decode
    → (c : ℕ) (inf_nan : Bool) (p : Parser) → At c p
    → Runs p (Past p) (consume_number decode c inf_nan p)
unfolding consume_number
consume_number-Runs decode steps c inf_nan p h =
    Runs-from {Q = λ o q. (p.index < q.index) × Unit} (refl, omega arith)
      (set_index-Runs {G = λ _. Unit} p
        (Ensures-weaken (steps p.bytes p.index c inf_nan h) λ v l. (l, tt)))
      λ o q a l. l.0

-- A string with the property, or none at the end of an object.
abbrev pub Given : {O : Type 0} → (O → Type 0) → Option O → Type 0
Given G none = Unit
Given G (some o) = G o

module _ {O : Type 0} (G : O → Type 0) where
  abbrev pub PastString : Parser → O → Parser → Type 0
  PastString p o q = (p.index < q.index) × G o

  abbrev pub PastKey : Parser → Option O → Parser → Type 0
  PastKey p o q = (p.index < q.index) × Given G o × (q.index ≤ length q.bytes)

module _ {O : Type 0} (G : O → Type 0) (decode : DecodeString O) (bytes : Bytes)
    (steps : GivesAt bytes G decode) where
  past : {c : ℕ} (q : Parser) → At c q → q.index < length q.bytes
  past q h = get_elem?-lt q.bytes q.index h

  pub consume_string_here-Runs :
      (allow_partial : Bool) (c : ℕ) (p : Parser)
      → p.bytes ≡ bytes
      → At c p
      → Runs p (PastString G p) (consume_string decode allow_partial p)
  unfolding consume_string
  consume_string_here-Runs allow_partial c p at h =
      set_index-Runs {G = G} p
        (rw at (steps p.index allow_partial (rw at at (get_elem?-lt p.bytes p.index h))))

  object_key-Runs :
      (c : ℕ) (p : Parser)
      → p.bytes ≡ bytes
      → At c p
      → Runs p (λ o q. (p.index < q.index) × G o × (q.index ≤ length q.bytes)) (object_key decode p)
  unfolding object_key
  object_key-Runs c p at h = Runs-next (consume_string_here-Runs false c p at h) λ o q a l.
      Runs-from {Q = λ v r. (q.index < r.index) × G v × (r.index ≤ length r.bytes)} a
        (on_next-Runs _ _ q λ d r b k.
          Runs-test (d == b':')
            (λ _. returns (b.0, omega arith) (omega arith, l.1, omega (arith, past r k)))
            (λ _. refuses b))
        (λ v s e x. (omega arith, x.1, x.2))

  some_key-Runs :
      (c : ℕ) (p : Parser)
      → p.bytes ≡ bytes
      → At c p
      → Runs p (PastKey G p) ((object_key decode >>= λ k. pure (some k)) p)
  some_key-Runs c p at h = Runs-next (object_key-Runs c p at h) λ o q a l. returns a l

  pub object_first_here-Runs :
      (p : Parser) → p.bytes ≡ bytes → Runs p (PastKey G p) (object_first decode p)
  unfolding object_first
  object_first_here-Runs p at =
      Runs-from {Q = PastKey G p} (refl, omega arith)
        (on_next-Runs _ _ (advance 1 p) λ c q a h.
          Runs-test (c == b'"')
            (λ _. Runs-from a (some_key-Runs c q (a.0 ∙ at) h) (λ o r b l. (omega arith, l.1, l.2)))
            (λ _.
              Runs-test (c == b'}')
                (λ _. returns (a.0, omega arith) (omega arith, tt, omega (arith, past q h)))
                (λ _. refuses a)))
        (λ o r a x. x)

  pub object_step_here-Runs :
      (p : Parser) → p.bytes ≡ bytes → Runs p (PastKey G p) (object_step decode p)
  unfolding object_step
  object_step_here-Runs p at = on_next-Runs _ _ p λ c q a h.
      Runs-test (c == b',')
        (λ _.
          Runs-from {Q = PastKey G p} (a.0, omega arith)
            (on_next-Runs _ _ (advance 1 q) λ d r b k.
              Runs-test (d == b'"')
                (λ _.
                  Runs-from b (some_key-Runs d r (b.0 ∙ (a.0 ∙ at)) k)
                    (λ o s e l. (omega arith, l.1, l.2)))
                (λ _. Runs-test (d == b'}') (λ _. refuses b) (λ _. refuses b)))
            (λ o s e x. x))
        (λ _.
          Runs-test (c == b'}')
            (λ _. returns (a.0, omega arith) (omega arith, tt, omega (arith, past q h)))
            (λ _. refuses a))

module _ {O : Type 0} (G : O → Type 0) (decode : DecodeString O)
    (steps : StringGives G decode) where
  pub consume_string-Runs :
      (allow_partial : Bool) (c : ℕ) (p : Parser)
      → At c p
      → Runs p (PastString G p) (consume_string decode allow_partial p)
  consume_string-Runs allow_partial c p h =
      consume_string_here-Runs G decode p.bytes (steps p.bytes) allow_partial c p refl h

  pub object_first-Runs : (p : Parser) → Runs p (PastKey G p) (object_first decode p)
  object_first-Runs p = object_first_here-Runs G decode p.bytes (steps p.bytes) p refl

  pub object_step-Runs : (p : Parser) → Runs p (PastKey G p) (object_step decode p)
  object_step-Runs p = object_step_here-Runs G decode p.bytes (steps p.bytes) p refl
