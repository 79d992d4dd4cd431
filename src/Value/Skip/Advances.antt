-- ===== src/Value/Skip/Advances.antt =====
-- The rounds of `take_value_skip_recursive` of crates/jiter/src/value.rs.
use jiter.Prelude.{
  ℕ, suc, ◌+◌, ◌<◌, ◌≤◌, ◌≡◌, refl, false, Option, some, none, Bool, List, [], ◌∷◌, ◌++◌, arith,
  Bytes, length, ◌==◌, drop, leb,
}
use jiter.Prelude.Slices.{drop-append, drop-cons}
use jiter.Parse.{Parser, is_whitespace, pure, M, ◌>>=◌, DecodeString, DecodeNumber}
use jiter.Parse.Whitespace.{Blank}
use jiter.Parse.Reads.{
  ReadsString, at, drop-colon, peek_some, array_step-some, array_step-none, object_step-some,
  object_step-none,
}
use jiter.Value.Skip.{
  array_kind, object_kind, stack_bits, skip_open, skip_step, skip_pop, resumed, skip_loop,
}

module _ {S N : Type 0} (decode_str : DecodeString S) (decode_num : DecodeNumber N)
    (recursion_limit : ℕ) (allow_inf_nan : Bool) where
  abbrev pub Run : ℕ → ℕ → Bool → List Bool → M (Unit {0})
  Run = skip_loop decode_str decode_num recursion_limit allow_inf_nan

  -- How the loop goes on behind a value, with the containers that it stands in.
  unfoldable pub After : ℕ → List Bool → M (Unit {0})
  After fuel [] = pure tt
  After fuel (kind ∷ stack) =
      skip_pop decode_str decode_num recursion_limit allow_inf_nan kind stack
      >>= resumed decode_str decode_num recursion_limit allow_inf_nan (Run fuel)

  abbrev Step : Bool → M (Option ℕ)
  Step = skip_step decode_str decode_num recursion_limit allow_inf_nan

  pub After-next :
      (fuel : ℕ) (kind : Bool) (stack : List Bool) (d : ℕ) (p q : Parser)
      → Step kind p ≡ pure (some d) q
      → After fuel (kind ∷ stack) p ≡ Run fuel d kind stack q
  unfolding After skip_pop skip_loop resumed
  After-next fuel kind [] d p q e = rw e refl
  After-next fuel kind (below ∷ stack) d p q e = rw e refl

  pub After-closed :
      (fuel : ℕ) (kind : Bool) (stack : List Bool) (p q : Parser)
      → Step kind p ≡ pure none q
      → After fuel (kind ∷ stack) p ≡ After fuel stack q
  unfolding After skip_pop resumed
  After-closed fuel kind [] p q e = rw e refl
  After-closed fuel kind (below ∷ stack) p q e = rw e refl

  pub Run-consumed :
      (fuel n c : ℕ) (kind : Bool) (stack : List Bool) (p q : Parser)
      → n ≡ suc fuel
      → skip_open decode_str decode_num recursion_limit allow_inf_nan c p ≡ pure none q
      → Run n c kind stack p ≡ After fuel (kind ∷ stack) q
  unfolding skip_loop After
  Run-consumed fuel n c kind stack p q f e = rw (f, e) refl

  pub Run-entered :
      (fuel n c d : ℕ) (inner kind : Bool) (stack : List Bool) (p q : Parser)
      → n ≡ suc fuel
      → length (kind ∷ stack) < recursion_limit
      → recursion_limit ≤ stack_bits
      → skip_open decode_str decode_num recursion_limit allow_inf_nan c p ≡ pure (some (d, inner)) q
      → Run n c kind stack p ≡ Run fuel d inner (kind ∷ stack) q
  unfolding skip_loop
  Run-entered fuel n c d inner kind stack p q f l m e =
      let bits : leb stack_bits (length stack) ≡ false = ground arith in
      let small : leb recursion_limit (length stack + 1) ≡ false = ground arith in
      rw (f, e, bits, small) refl

  module _ (bytes : Bytes) where
    pub step-entry :
        (i : ℕ) (w x s a b : Bytes) (d : ℕ) (rest : Bytes) (o : S)
        → ReadsString decode_str bytes (i + length w + 1 + length x) false s o
        → drop i bytes ≡ w ++ (b',' ∷ (x ++ (b'"' ∷ (s ++ (a ++ (b':' ∷ (b ++ (d ∷ rest))))))))
        → Blank w
        → Blank x
        → Blank a
        → Blank b
        → is_whitespace d ≡ false
        → Step object_kind (at bytes i)
          ≡ pure
              (some d)
              (at bytes (i + length w + 1 + length x + 1 + length s + length a + 1 + length b))
    unfolding skip_step
    step-entry i w x s a b d rest o r e bw bx ba bb n =
        let k = i + length w + 1 + length x in
        let start =
          drop-append x (i + length w + 1) bytes
            (drop-cons (i + length w) bytes (drop-append w i bytes e)) in
        let behind = drop-colon decode_str bytes k s a (b ++ (d ∷ rest)) start in
        rw
          (
            object_step-some decode_str bytes i w x s a (b ++ (d ∷ rest)) o r e bw bx ba,
            peek_some bytes (k + 1 + length s + length a + 1) b d rest behind bb n,
          )
          refl

    pub step-last_entry :
        (i : ℕ) (w rest : Bytes)
        → drop i bytes ≡ w ++ (b'}' ∷ rest)
        → Blank w
        → Step object_kind (at bytes i) ≡ pure none (at bytes (i + length w + 1))
    unfolding skip_step
    step-last_entry i w rest e bw = rw (object_step-none decode_str bytes i w rest e bw) refl

    pub step-item :
        (i : ℕ) (w x : Bytes) (d : ℕ) (rest : Bytes)
        → drop i bytes ≡ w ++ (b',' ∷ (x ++ (d ∷ rest)))
        → Blank w
        → Blank x
        → is_whitespace d ≡ false
        → d == b']' ≡ false
        → Step array_kind (at bytes i) ≡ pure (some d) (at bytes (i + length w + 1 + length x))
    unfolding skip_step
    step-item i w x d rest e bw bx s n = array_step-some bytes i w x d rest e bw bx s n

    pub step-last_item :
        (i : ℕ) (w rest : Bytes)
        → drop i bytes ≡ w ++ (b']' ∷ rest)
        → Blank w
        → Step array_kind (at bytes i) ≡ pure none (at bytes (i + length w + 1))
    unfolding skip_step
    step-last_item i w rest e bw = array_step-none bytes i w rest e bw
