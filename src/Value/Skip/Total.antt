-- ===== src/Value/Skip/Total.antt =====
-- The runs of `take_value_skip` of crates/jiter/src/value.rs, for any decoders that go forward.
use jiter.Prelude.{
  ℕ, zero, suc, ◌+◌, ◌≤◌, ◌<◌, ◌≡◌, ap, Bool, Option, none, some, List, [], ◌∷◌, arith, length, leb,
}
use jiter.Parse.{Peek, Parser, M, DecodeString, DecodeNumber}
use jiter.Parse.Runs.{Ahead, Runs, returns, refuses, At, Past, Runs-from, Runs-next, Runs-choice}
use jiter.Parse.Runs.Decoders.{StringSteps, NumberSteps, get_elem?-lt}
use jiter.Value.Skip.{
  Entered, push_recursion, resumed, entered, entered_first, stack_bits, skip_loop, take_value_skip,
}
use jiter.Value.Skip.Rounds.{EnteredAt, PoppedAt, PoppedAt-from, skip_open-Runs, skip_pop-Runs}

module _ {S N : Type 0} (decode_str : DecodeString S) (decode_num : DecodeNumber N)
    (recursion_limit : ℕ) (allow_inf_nan : Bool) (strings : StringSteps decode_str)
    (numbers : NumberSteps decode_num) where
  -- What a round of the loop comes to, with the fuel that is left behind it.
  abbrev Skips : (Peek → Bool → List Bool → M (Unit {0})) → ℕ → Type 0
  Skips go_on fuel =
      (c : ℕ) (kind : Bool) (stack : List Bool) (p : Parser)
      → At c p
      → length p.bytes + 2 ≤ fuel + p.index
      → length stack < stack_bits
      → Runs p (Past p) (go_on c kind stack p)

  push_recursion-Runs :
      (stack : List Bool) (inner : M (Unit {0})) (p q : Parser)
      → recursion_limit ≤ stack_bits
      → Ahead p q
      → length stack < stack_bits
      → (length stack + 1 < stack_bits → Runs p (Past p) (inner q))
      → Runs p
          (Past p)
          (push_recursion decode_str decode_num recursion_limit allow_inf_nan stack inner q)
  unfolding push_recursion
  push_recursion-Runs stack inner p q m a l k =
      Runs-choice (leb stack_bits (length stack)) _ _ (λ e. absurd (ground arith))
        λ _.
          Runs-choice (leb recursion_limit (length stack + 1)) _ _ (λ _. refuses a)
            λ e. k (ground arith)

  resumed-Runs :
      (go_on : Peek → Bool → List Bool → M (Unit {0})) (fuel : ℕ) (stack : List Bool) (p q : Parser)
      (o : Option (Peek × Bool × List Bool))
      → Skips go_on fuel
      → length p.bytes + 2 ≤ suc fuel + p.index
      → length stack < stack_bits
      → Ahead p q
      → PoppedAt p stack o q
      → Runs p (Past p) (resumed decode_str decode_num recursion_limit allow_inf_nan go_on o q)
  unfolding resumed
  resumed-Runs go_on fuel stack p q none k f l a h = returns a h
  resumed-Runs go_on fuel stack p q (some (c, kind, rest)) k f l a h =
      let e : length q.bytes ≡ length p.bytes = ap length a.0 in
      Runs-from a (k c kind rest q h.1 (omega arith) (omega arith)) λ u r b x. omega arith

  entered-Runs :
      (go_on : Peek → Bool → List Bool → M (Unit {0})) (fuel : ℕ) (current : Bool)
      (stack : List Bool) (p q : Parser) (o : Entered)
      → recursion_limit ≤ stack_bits
      → Skips go_on fuel
      → length p.bytes + 2 ≤ suc fuel + p.index
      → length stack < stack_bits
      → Ahead p q
      → EnteredAt p o q
      → Runs p
          (Past p)
          (entered decode_str decode_num recursion_limit allow_inf_nan go_on current stack o q)
  unfolding entered
  entered-Runs go_on fuel current stack p q (some (c, kind)) m k f l a h =
      let e : length q.bytes ≡ length p.bytes = ap length a.0 in
      push_recursion-Runs stack _ p q m a l λ n.
        Runs-from a (k c kind (current ∷ stack) q h.1 (omega arith) (omega arith))
          λ u r b x. omega arith
  entered-Runs go_on fuel current stack p q none m k f l a h =
      Runs-next
        (Runs-from {Q' = PoppedAt p stack} a
          (skip_pop-Runs decode_str decode_num recursion_limit allow_inf_nan strings numbers current
            stack q)
          λ o r b x. PoppedAt-from p q stack stack o r a (omega arith) x)
        λ o r b x. resumed-Runs go_on fuel stack p r o k f l b x

  skip_loop-Runs :
      (fuel : ℕ)
      → recursion_limit ≤ stack_bits
      → Skips (skip_loop decode_str decode_num recursion_limit allow_inf_nan fuel) fuel
  unfolding skip_loop
  skip_loop-Runs zero m c kind stack p h f l =
      absurd (omega (arith, get_elem?-lt p.bytes p.index h))
  skip_loop-Runs (suc fuel) m c kind stack p h f l =
      Runs-next
        (skip_open-Runs decode_str decode_num recursion_limit allow_inf_nan strings numbers c p h)
        λ o q a x.
          entered-Runs (skip_loop decode_str decode_num recursion_limit allow_inf_nan fuel) fuel
            kind stack p q o m (skip_loop-Runs fuel m) f l a x

  entered_first-Runs :
      (fuel : ℕ) (p q : Parser) (o : Entered)
      → recursion_limit ≤ stack_bits
      → length p.bytes + 2 ≤ fuel
      → Ahead p q
      → EnteredAt p o q
      → Runs p (Past p) (entered_first decode_str decode_num recursion_limit allow_inf_nan fuel o q)
  unfolding entered_first
  entered_first-Runs fuel p q (some (c, kind)) m f a h =
      let e : length q.bytes ≡ length p.bytes = ap length a.0 in
      Runs-from a (skip_loop-Runs fuel m c kind [] q h.1 (omega arith) (omega arith))
        λ u r b x. omega arith
  entered_first-Runs fuel p q none m f a h = returns a h

  -- For decoders that return an index behind the byte they start at, or an error, and a limit that
  -- the stack of 256 bits holds, `take_value_skip` at a byte of the data returns, or gives an error,
  -- with the parser ahead in the same data. The loop over containers neither panics nor runs out of
  -- fuel.
  pub take_value_skip-Runs :
      (c : ℕ) (p : Parser)
      → recursion_limit ≤ stack_bits
      → At c p
      → Runs p (Past p) (take_value_skip decode_str decode_num recursion_limit allow_inf_nan c p)
  unfolding take_value_skip
  take_value_skip-Runs c p m h =
      Runs-next
        (skip_open-Runs decode_str decode_num recursion_limit allow_inf_nan strings numbers c p h)
        λ o q a x. entered_first-Runs (length p.bytes + 2) p q o m (omega arith) a x
