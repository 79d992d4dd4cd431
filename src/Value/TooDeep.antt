-- ===== src/Value/TooDeep.antt =====
-- The entry points of crates/jiter/src/value.rs on containers that are nested too deep.
use jiter.Prelude.{ℕ, ◌+◌, ◌≡◌, refl, ◌∷◌, ◌++◌, [], arith, Bytes, Bool, length}
use jiter.Prelude.Slices.{drop-append}
use jiter.Errors.{PartialMode, json_err, recursion_limit_exceeded}
use jiter.Parse.{new, peek, fail, ◌>>=◌}
use jiter.Parse.Whitespace.{Blank}
use jiter.Parse.Reads.{at, peek_some}
use jiter.Number.Libs.{NumberLibs}
use jiter.Number.Float.{decode_any}
use jiter.Strings.Decode.{StringOutput, as_str, decode}
use jiter.Value.Take.{take_value}
use jiter.Value.Data.{JsonValue}
use jiter.Value.Take.Opens.{Decodes}
use jiter.Value.Take.Deep.{Nested, Nested-first, take_value-Nested}
use jiter.Value.Accepts.{StringText, reads_literal, cow_from-as_str, string_from-as_str}
use jiter.Value.Entry.{
  cow_from, string_from, default_config, take_value_borrowed, take_value_owned, parse_with_config,
  parse_owned,
}

-- No numbers are read.
abbrev NoNumber : {F B : Type 0} → ℕ → Bytes → JsonValue F B → Type 0
NoNumber c t v = ⊥

module _ (L : NumberLibs) where
  reads_keys :
      (create_cow : StringOutput → Bytes) (bytes : Bytes) (inf_nan : Bool)
      → ((o : StringOutput) → create_cow o ≡ as_str o)
      → Decodes StringText NoNumber (decode []) (decode_any L) create_cow inf_nan bytes
  reads_keys create_cow bytes inf_nan same = record {
    reads_string =
        λ s x i rest partial l e. reads_literal create_cow bytes s x i rest partial same l e;
    number_first = λ c t v h. absurd h;
    number_count = λ c t v h. absurd h;
    reads_number = λ c t v i rest h e b. absurd h;
  }

  refused :
      (create_cow : StringOutput → Bytes) (w t u : Bytes) (c d j : ℕ) (inf_nan : Bool)
      (mode : PartialMode)
      → ((o : StringOutput) → create_cow o ≡ as_str o)
      → Blank w
      → Nested StringText 201 c t d u
      → j + length u ≡ length w + length t
      → (peek >>= take_value (decode []) (decode_any L) create_cow (default_config inf_nan mode))
          (new (w ++ (c ∷ t)))
        ≡ fail recursion_limit_exceeded (at (w ++ (c ∷ t)) j)
  refused create_cow w t u c d j inf_nan mode same b h k =
      let text = w ++ (c ∷ t) in
      let config = default_config inf_nan mode in
      let reads = reads_keys create_cow text inf_nan same in
      let (first, _) =
        Nested-first StringText NoNumber (decode []) (decode_any L) create_cow config text reads
          h in
      rw (peek_some text 0 w c t refl b first) (
        take_value-Nested StringText NoNumber (decode []) (decode_any L) create_cow config text
          reads 199 (0 + length w) j h (drop-append w 0 text refl) refl (omega arith))

  -- Where a text begins, behind whitespace, with 201 containers of which each but the first is the
  -- first value of the one around it, with keys that are literals of valid UTF-8, and in the last,
  -- behind its bracket or its first colon and whitespace, stands a byte that is no whitespace and
  -- no `]`: whatever that byte begins and whatever follows, `parse_with_config`, in every mode, and
  -- `parse_owned` give `RecursionLimitExceeded` at the index of that byte.
  pub parse_with_config-Nested :
      (inf_nan : Bool) (mode : PartialMode) (w t u : Bytes) (c d j : ℕ)
      → Blank w
      → Nested StringText 201 c t d u
      → j + length u ≡ length w + length t
      → ((parse_with_config L (w ++ (c ∷ t)) inf_nan mode).0 ≡ json_err recursion_limit_exceeded j)
        × ((parse_owned L (w ++ (c ∷ t)) inf_nan mode).0 ≡ json_err recursion_limit_exceeded j)
  unfolding parse_with_config parse_owned take_value_borrowed take_value_owned
  parse_with_config-Nested inf_nan mode w t u c d j b h k = (
    rw (refused cow_from w t u c d j inf_nan mode cow_from-as_str b h k) refl,
    rw (refused string_from w t u c d j inf_nan mode string_from-as_str b h k) refl,
  )
