-- ===== src/Jiter/Methods.antt =====
-- The `next_*` methods of crates/jiter/src/jiter.rs from any state.
use jiter.Prelude.{
  ℕ, ◌≤◌, ◌<◌, ◌≡◌, ◌∙◌, refl, sym, ap, Option, none, some, arith, Bytes, length, [],
}
use jiter.Errors.{JsonResult, jiter_error_from}
use jiter.Errors.Ensures.{Ensures-weaken}
use jiter.Parse.{Parser, null_rest}
use jiter.Parse.Runs.{
  Runs, At, Past, Runs-from, array_first-Runs, array_step-Runs, consume_ident-Runs, finish-Runs,
}
use jiter.Parse.Runs.Decoders.{
  GivesAt, StringSteps-StringGives, consume_string-Runs, consume_string_here-Runs, Given, PastKey,
}
use jiter.Strings.Decode.{StringOutput, ByteRange, decode, decode_range}
use jiter.Strings.Decode.Range.{decode_range-Ensures}
use jiter.Value.Total.{skip_value-Runs, decode-StringSteps}
use jiter.Jiter.{Jiter, JiterResult, J, ◌>>=◌, and_then, put_parser, slice}
use jiter.Jiter.Next.{
  peek, known_null, known_array, array_step, finish, known_str, known_bytes, key_str, key_bytes,
  known_skip,
}
use jiter.Jiter.Steps.{
  Later, Later-refl, Steps, returns, Steps-from, Steps-next, parsing-Steps, slice-Steps, peek-Steps,
}

-- The iterator holds the data that its parser reads.
abbrev pub Holds : Jiter → Type 0
Holds j = j.parser.bytes ≡ j.bytes

-- A method moves the iterator on, or only not back.
abbrev pub Moves : {A : Type 0} → Jiter → A → Jiter → Type 0
Moves j a k = j.parser.index < k.parser.index

abbrev pub Stays : {A : Type 0} → A → Jiter → Type 0
Stays a k = Unit

pub Holds-Later : {j k : Jiter} → Holds j → Later j k → Holds k
Holds-Later h l = l.parsed ∙ h ∙ sym l.held

-- A method that peeks and goes on from the byte at which the parser stands.
pub peeked-Steps :
    {A : Type 0} (known : ℕ → J A) (j : Jiter)
    → Holds j
    → ((c : ℕ) (k : Jiter) → Holds k → At c k.parser → Steps k (Moves k) (known c k))
    → Steps j (Moves j) ((peek >>= known) j)
peeked-Steps known j holds f =
    Steps-next (peek-Steps j)
      λ c k l h. Steps-from l (f c k (Holds-Later holds l) h) λ a m b x. omega (arith, l.ahead)

-- A range of the bytes.
abbrev pub Span : Bytes → ℕ → ℕ → Type 0
Span bytes from to = (from ≤ to) × (to ≤ length bytes)

abbrev pub InData : Bytes → ByteRange → Type 0
InData bytes r = Span bytes r.from r.to

-- A slice of a range that was read.
pub sliced-Steps :
    {A : Type 0} {r : JiterResult A × Jiter} (from to : A → ℕ) (j : Jiter)
    → Holds j
    → Steps j (λ a k. (j.parser.index < k.parser.index) × Span j.parser.bytes (from a) (to a)) r
    → Steps j (Moves j) (and_then r λ a. slice (from a) (to a))
sliced-Steps from to j holds h = Steps-next h λ a k l x.
    let e : length k.bytes ≡ length j.parser.bytes = ap length (l.held ∙ sym holds) in
    Steps-from l (slice-Steps (from a) (to a) k x.1.0 (omega (arith, x.1.1))) λ s m b e'. rw e' x.0

pub decode_range-GivesAt : (bytes : Bytes) → GivesAt bytes (InData bytes) decode_range
decode_range-GivesAt bytes index partial l =
    Ensures-weaken (decode_range-Ensures bytes index partial l)
      λ v h. (h.0, (omega (arith, h.1, h.2), h.3))

pub known_null-Steps : (k : Jiter) → Steps k (Moves k) (known_null k)
unfolding known_null
known_null-Steps k = parsing-Steps {Q = Past k.parser} k (consume_ident-Runs null_rest k.parser)

pub known_array-Steps : (k : Jiter) → Steps k (Moves k) (known_array k)
unfolding known_array
known_array-Steps k =
    parsing-Steps {Q = Past k.parser} k
      (Runs-from (refl, omega arith) (array_first-Runs k.parser) λ o q a h. h.0)

pub array_step-Steps : (k : Jiter) → Steps k (Moves k) (array_step k)
unfolding array_step
array_step-Steps k =
    parsing-Steps {Q = Past k.parser} k
      (Runs-from (refl, omega arith) (array_step-Runs k.parser) λ o q a h. h.0)

pub finish-Steps : (k : Jiter) → Steps k Stays (finish k)
unfolding finish
finish-Steps k = parsing-Steps {Q = λ u q. Unit} k (finish-Runs k.parser)

pub known_str-Steps : (k : Jiter) → At b'"' k.parser → Steps k (Moves k) (known_str k)
unfolding known_str
known_str-Steps k h =
    Steps-next
      (parsing-Steps {Q = Past k.parser} k (
        Runs-from (refl, omega arith)
          (consume_string-Runs (λ _. Unit) (decode []) (StringSteps-StringGives decode-StringSteps)
            k.allow_partial_strings b'"' k.parser h)
          λ o q a x. x.0))
      λ o m l x. returns l x

pub known_bytes-Steps : (k : Jiter) → Holds k → At b'"' k.parser → Steps k (Moves k) (known_bytes k)
unfolding known_bytes
known_bytes-Steps k holds h =
    sliced-Steps (λ (r : ByteRange). r.from) (λ (r : ByteRange). r.to) k holds
      (parsing-Steps {Q = λ r q. (k.parser.index < q.index) × InData k.parser.bytes r} k (
        consume_string_here-Runs (InData k.parser.bytes) decode_range k.parser.bytes
          (decode_range-GivesAt k.parser.bytes) k.allow_partial_strings b'"' k.parser refl h))

pub known_skip-Steps : (c : ℕ) (k : Jiter) → At c k.parser → Steps k (Moves k) (known_skip c k)
unfolding known_skip
known_skip-Steps c k h =
    parsing-Steps {Q = Past k.parser} k (skip_value-Runs k.allow_inf_nan c k.parser h)

-- A key of an object, or its end.
known_key-Steps :
    {A B : Type 0} (G : A → Type 0) (f : Option A → J B) (k : Jiter)
    {r : JiterResult (Option A) × Jiter}
    → Steps k (λ o m. (k.parser.index < m.parser.index) × Given G o) r
    → ((o : Option A) (m : Jiter) → Later k m → Given G o → Steps m (λ b n. n ≡ m) (f o m))
    → Steps k (Moves k) (and_then r f)
known_key-Steps G f k h g = Steps-next h λ o m l x. Steps-from l (g o m l x.1) λ b n c e. rw e x.0

key_str-Steps : (o : Option StringOutput) (m : Jiter) → Steps m (λ b n. n ≡ m) (key_str o m)
unfolding key_str
key_str-Steps none m = returns (Later-refl m) refl
key_str-Steps (some s) m = returns (Later-refl m) refl

key_bytes-Steps :
    (o : Option ByteRange) (k m : Jiter)
    → Holds k
    → Later k m
    → Given (InData k.parser.bytes) o
    → Steps m (λ b n. n ≡ m) (key_bytes o m)
unfolding key_bytes
key_bytes-Steps none k m holds l h = returns (Later-refl m) refl
key_bytes-Steps (some r) k m holds l h =
    let e : length m.bytes ≡ length k.parser.bytes = ap length (l.held ∙ sym holds) in
    Steps-next (slice-Steps r.from r.to m h.0 (omega (arith, h.1))) λ s n b q. returns b q

pub object-Steps :
    (k : Jiter) {r : JsonResult (Option StringOutput) × Parser}
    → Runs k.parser (PastKey (λ _. Unit) k.parser) r
    → Steps k
        (Moves k)
        (and_then (put_parser (λ e j. JiterResult.err (jiter_error_from e)) k r) key_str)
object-Steps k h =
    known_key-Steps (λ _. Unit) key_str k
      (parsing-Steps {Q = λ o q. (k.parser.index < q.index) × Given (λ _. Unit) o} k
        (Runs-from (refl, omega arith) h λ o q a x. (x.0, x.1)))
      λ o m l x. key_str-Steps o m

pub object_bytes-Steps :
    (k : Jiter) {r : JsonResult (Option ByteRange) × Parser}
    → Holds k
    → Runs k.parser (PastKey (InData k.parser.bytes) k.parser) r
    → Steps k
        (Moves k)
        (and_then (put_parser (λ e j. JiterResult.err (jiter_error_from e)) k r) key_bytes)
object_bytes-Steps k holds h =
    known_key-Steps (InData k.parser.bytes) key_bytes k
      (parsing-Steps {Q = λ o q. (k.parser.index < q.index) × Given (InData k.parser.bytes) o} k
        (Runs-from (refl, omega arith) h λ o q a x. (x.0, x.1)))
      λ o m l x. key_bytes-Steps o k m holds l x
