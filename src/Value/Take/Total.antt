-- ===== src/Value/Take/Total.antt =====
-- The loop of `take_value_recursive` of crates/jiter/src/value.rs.
use jiter.Prelude.{
  ℕ, zero, suc, ◌+◌, ◌<◌, ◌≡◌, ap, Option, none, some, List, [], ◌∷◌, arith, Bytes, length, leb,
  if◌then◌else◌,
}
use jiter.Errors.{recursion_limit_exceeded}
use jiter.Parse.{Peek, Parser, M, pure, fail, ◌>>=◌, DecodeString, DecodeNumber}
use jiter.Parse.Runs.{Ahead, Runs, returns, refuses, At, Runs-from, Runs-next, Runs-choice}
use jiter.Parse.Runs.Decoders.{StringSteps, NumberSteps, get_elem?-lt}
use jiter.Number.Float.{NumberAny}
use jiter.Strings.Decode.{StringOutput}
use jiter.Value.Data.{JsonValue, RecursedValue}
use jiter.Value.Take.{
  Config, Opened, enter, whole, Popped, resume, returned, close, pop, take_value_loop, take_value,
}
use jiter.Value.Take.Runs.{OrNone, OpenedAt, PoppedAt, tolerate-Runs, open_value-Runs, pop-Runs}

module _ {F B : Type 0} (decode_str : DecodeString StringOutput)
    (decode_num : DecodeNumber (NumberAny F B)) (create_cow : StringOutput → Bytes)
    (config : Config) (strings : StringSteps decode_str) (numbers : NumberSteps decode_num) where
  open config use {recursion_limit, allow_partial}

  abbrev Loop : ℕ → Peek → RecursedValue F B → List (RecursedValue F B) → M (JsonValue F B)
  Loop = take_value_loop decode_str decode_num create_cow config

  abbrev Taken : JsonValue F B → Parser → Type 0
  Taken v q = Unit

  abbrev Opens : Parser → Opened F B → Parser → Type 0
  Opens = OpenedAt decode_str decode_num create_cow config strings numbers

  abbrev Pops : Parser → Popped F B → Parser → Type 0
  Pops = PoppedAt decode_str decode_num create_cow config strings numbers

  -- What a round of the loop comes to, with the fuel that is left behind it.
  abbrev Loops : ℕ → Type 0
  Loops fuel =
      (c : ℕ) (current : RecursedValue F B) (stack : List (RecursedValue F B)) (p : Parser)
      → At c p
      → length p.bytes < fuel + p.index
      → Runs p Taken (Loop fuel c current stack p)

  -- The fuel is enough from further on too.
  further :
      (fuel : ℕ) (p q : Parser)
      → Ahead p q
      → p.index < q.index
      → length p.bytes < suc fuel + p.index
      → length q.bytes < fuel + q.index
  further fuel p q a l f = let e : length q.bytes ≡ length p.bytes = ap length a.0 in omega arith

  enough :
      (fuel : ℕ) (p q : Parser)
      → Ahead p q
      → length p.bytes < suc fuel + p.index
      → length q.bytes < suc fuel + q.index
  enough fuel p q a f = let e : length q.bytes ≡ length p.bytes = ap length a.0 in omega arith

  go_on-Runs :
      (fuel : ℕ) (p q : Parser) (o : Popped F B)
      → Loops fuel
      → length p.bytes < suc fuel + p.index
      → Ahead p q
      → Pops p o q
      → Runs p Taken (
          (elim o as (λ _. M (JsonValue F B)) [
            | resume d r rest ↦ Loop fuel d r rest
            | returned v ↦ pure v
          ])
            q)
  go_on-Runs fuel p q (resume d r rest) k f a h =
      Runs-from a (k d r rest q h.1 (further fuel p q a h.0 f)) λ v s b x. tt
  go_on-Runs fuel p q (returned v) k f a h = returns a tt

  popped-Runs :
      (fuel : ℕ) (p q : Parser) (stack : List (RecursedValue F B)) (v : JsonValue F B)
      → Loops fuel
      → length p.bytes < suc fuel + p.index
      → Ahead p q
      → Runs p Taken (
          (pop decode_str decode_num create_cow config stack v >>= λ outcome.
          elim outcome as (λ _. M (JsonValue F B)) [
            | resume d r rest ↦ Loop fuel d r rest
            | returned w ↦ pure w
          ])
            q)
  popped-Runs fuel p q stack v k f a =
      Runs-from a
        (Runs-next (pop-Runs decode_str decode_num create_cow config strings numbers stack v q)
          λ o r b h. go_on-Runs fuel q r o k (enough fuel p q a f) b h)
        λ w s b x. tt

  entered-Runs :
      (fuel : ℕ) (p q : Parser) (d : ℕ) (r : RecursedValue F B) (stack : List (RecursedValue F B))
      → Loops fuel
      → length p.bytes < suc fuel + p.index
      → Ahead p q
      → (p.index < q.index) × At d q
      → Runs p Taken (
          (if leb recursion_limit (length stack)
              then fail recursion_limit_exceeded
              else Loop fuel d r stack)
            q)
  entered-Runs fuel p q d r stack k f a h =
      Runs-choice (leb recursion_limit (length stack)) _ _ (λ _. refuses a)
        λ _. Runs-from a (k d r stack q h.1 (further fuel p q a h.0 f)) λ v s b x. tt

  round-Runs :
      (fuel : ℕ) (current : RecursedValue F B) (stack : List (RecursedValue F B)) (p q : Parser)
      (o : Option (Opened F B))
      → Loops fuel
      → length p.bytes < suc fuel + p.index
      → Ahead p q
      → OrNone (Opens p) o q
      → Runs p Taken (
          (elim o as (λ _. M (JsonValue F B)) [
            | some (enter d r) ↦
                (if leb recursion_limit (length (current ∷ stack))
                  then fail recursion_limit_exceeded
                  else Loop fuel d r (current ∷ stack))
            | some (whole v) ↦
                (pop decode_str decode_num create_cow config (current ∷ stack) v >>= λ outcome.
                elim outcome as (λ _. M (JsonValue F B)) [
                  | resume d r rest ↦ Loop fuel d r rest
                  | returned w ↦ pure w
                ])
            | none ↦
                (pop decode_str decode_num create_cow config stack
                    (close decode_str decode_num create_cow config current)
                  >>= λ outcome. elim outcome as (λ _. M (JsonValue F B)) [
                    | resume d r rest ↦ Loop fuel d r rest
                    | returned w ↦ pure w
                  ])
          ])
            q)
  round-Runs fuel current stack p q (some (enter d r)) k f a h =
      entered-Runs fuel p q d r (current ∷ stack) k f a h
  round-Runs fuel current stack p q (some (whole v)) k f a h =
      popped-Runs fuel p q (current ∷ stack) v k f a
  round-Runs fuel current stack p q none k f a h = popped-Runs fuel p q stack _ k f a

  take_value_loop-Runs : (fuel : ℕ) → Loops fuel
  unfolding take_value_loop
  take_value_loop-Runs zero c current stack p h f =
      absurd (omega (arith, get_elem?-lt p.bytes p.index h))
  take_value_loop-Runs (suc fuel) c current stack p h f =
      Runs-next
        (tolerate-Runs allow_partial
          (open_value-Runs decode_str decode_num create_cow config strings numbers c p h))
        λ o q a x. round-Runs fuel current stack p q o (take_value_loop-Runs fuel) f a x

  opened-Runs :
      (p q : Parser) (o : Opened F B)
      → Ahead p q
      → Opens p o q
      → Runs p Taken (
          (elim o as (λ _. M (JsonValue F B)) [
            | enter d r ↦ Loop (length p.bytes + 2) d r []
            | whole v ↦ pure v
          ])
            q)
  opened-Runs p q (enter d r) a h =
      let e : length q.bytes ≡ length p.bytes = ap length a.0 in
      Runs-from a (take_value_loop-Runs (length p.bytes + 2) d r [] q h.1 (omega arith))
        λ v s b x. tt
  opened-Runs p q (whole v) a h = returns a tt

  -- For decoders that return an index behind the byte they start at, or an error, `take_value` at a
  -- byte of the data returns, or gives an error, with the parser no further back in the same data.
  pub take_value-Runs :
      (c : ℕ) (p : Parser)
      → At c p
      → Runs p Taken (take_value decode_str decode_num create_cow config c p)
  unfolding take_value
  take_value-Runs c p h =
      Runs-next (open_value-Runs decode_str decode_num create_cow config strings numbers c p h)
        λ o q a x. opened-Runs p q o a x
