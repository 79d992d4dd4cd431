-- ===== src/Value/Total.antt =====
-- The runs of the entry points of crates/jiter/src/value.rs with the decoders that they name.
use jiter.Prelude.{ℕ, ◌<◌, ◌≡◌, refl, [], Bytes, Bool, some, get_elem?, arith}
use jiter.Errors.Ensures.{Ensures-weaken}
use jiter.Errors.{PartialMode, is_active}
use jiter.Number.Libs.{NumberLibs}
use jiter.Number.Float.{decode_any}
use jiter.Number.Float.Steps.{LexicalLaws, decode_any-Ensures}
use jiter.Strings.Decode.{StringOutput, decode}
use jiter.Value.Take.{take_value}
use jiter.Strings.Decode.Sound.{decode-IsDecoded}
use jiter.Value.Take.Total.{take_value-Runs}
use jiter.Parse.{Parser, peek, new, finish, pure, ◌>>=◌}
use jiter.Parse.Runs.{Runs, Runs-from, Runs-next, Runs-choice, returns, peek-Runs, finish-Runs}
use jiter.Parse.Runs.Decoders.{StringSteps, NumberSteps}
use jiter.Strings.Decode.Range
use jiter.Number.Range.Steps
use jiter.Value.Skip.Total.{take_value_skip-Runs}
use jiter.Value.Entry.{
  skip_value, cow_from, string_from, default_config, take_value_borrowed, take_value_owned,
  parse_with_config, parse_owned,
}

-- On every input `take_value_skip` at a byte of the data returns, or gives an error, with the same data
-- and the index no further back, and behind the byte where it returns. It neither panics nor runs out
-- of fuel, however deep the containers are nested: 200 of them are the limit.
pub skip_value-Runs :
    (allow_inf_nan : Bool) (c : ℕ) (p : Parser)
    → get_elem? p.bytes p.index ≡ some c
    → Runs p (λ u q. p.index < q.index) (skip_value allow_inf_nan c p)
unfolding skip_value
skip_value-Runs allow_inf_nan c p h =
    take_value_skip-Runs _ _ 200 allow_inf_nan
      (λ bytes index partial l.
        Ensures-weaken (Range.decode_range-Ensures bytes index partial l) λ r e. e.0)
      (λ bytes index first inf_nan _.
        Ensures-weaken (Steps.decode_range-Ensures bytes index first inf_nan) λ r e. e.2)
      c p (omega arith) h

-- What the parser relies on in a decoder, for the decoders of strings and of numbers.
pub decode-StringSteps : StringSteps (decode [])
decode-StringSteps bytes index partial l =
    Ensures-weaken (decode-IsDecoded [] bytes index partial l) λ v d. d.1

module _ (L : NumberLibs) (laws : LexicalLaws L) where
  abbrev Any : {A : Type 0} → A → Parser → Type 0
  Any a q = Unit

  pub decode_any-NumberSteps : NumberSteps (decode_any L)
  decode_any-NumberSteps bytes index first inf_nan g =
      decode_any-Ensures L laws bytes index first inf_nan g

  finished-Runs : {A : Type 0} (v : A) (p : Parser) → Runs p Any ((finish >>= λ u. pure v) p)
  finished-Runs v p = Runs-next (finish-Runs p) λ u q a h. returns a tt

  taken-Runs :
      (create_cow : StringOutput → Bytes) (bytes : Bytes) (inf_nan : Bool) (mode : PartialMode)
      → Runs (new bytes) Any (
          (peek >>= take_value (decode []) (decode_any L) create_cow (default_config inf_nan mode))
            (new bytes))
  taken-Runs create_cow bytes inf_nan mode = Runs-next (peek-Runs (new bytes)) λ c p a h.
      Runs-from a
        (take_value-Runs (decode []) (decode_any L) create_cow (default_config inf_nan mode)
          decode-StringSteps decode_any-NumberSteps c p h)
        λ v q b x. tt

  -- Where lexical_parse_float takes a byte at least and refuses, of what begins with a digit or
  -- with a minus and a digit, only what `NumberRange` refuses too, `parse_with_config` and
  -- `parse_owned` of any bytes, in every mode, return a value or an error, with the parser still on
  -- the same bytes; they neither panic nor run out of fuel.
  pub parse_with_config-Runs :
      (bytes : Bytes) (inf_nan : Bool) (mode : PartialMode)
      → Runs (new bytes) (λ v q. Unit) (parse_with_config L bytes inf_nan mode)
        × Runs (new bytes) (λ v q. Unit) (parse_owned L bytes inf_nan mode)
  unfolding parse_with_config take_value_borrowed parse_owned take_value_owned
  parse_with_config-Runs bytes inf_nan mode = (
    Runs-next (taken-Runs cow_from bytes inf_nan mode) λ v q b x.
        Runs-from b
          (Runs-choice (is_active mode) _ _ (λ _. returns (refl, omega arith) tt)
            (λ _. finished-Runs v q))
          λ w r d y. tt,
    Runs-next (taken-Runs string_from bytes inf_nan mode)
        λ v q b x. Runs-from b (finished-Runs v q) λ w r d y. tt,
  )
