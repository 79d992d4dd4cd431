-- ===== src/Value/Owned.antt =====
-- Borrowed and owned values of crates/jiter/src/value.rs.
use jiter.Prelude.{Bool, Bytes, ◌≡◌, refl, sym, ap, []}
use mathlib.Core.Path.{fun_ext}
use jiter.Errors.{off}
use jiter.Parse.{Peek, M, new, pure, ◌>>=◌, peek, finish}
use jiter.Number.Libs.{NumberLibs}
use jiter.Strings.Decode.{StringOutput, of_tape, of_data, decode}
use jiter.Number.Float.{decode_any}
use jiter.Value.Take.{Config, take_value}
use jiter.Value.Entry.{
  Value, default_config, cow_from, string_from, take_value_borrowed, take_value_owned,
  parse_with_config, parse, parse_owned,
}

cow_from-string_from : (s : StringOutput) → cow_from s ≡ string_from s
unfolding cow_from string_from
cow_from-string_from (of_tape s ascii) = refl
cow_from-string_from (of_data s ascii) = refl

take_value_owned-borrowed :
    (L : NumberLibs) (config : Config) → take_value_owned L config ≡ take_value_borrowed L config
unfolding take_value_owned take_value_borrowed
take_value_owned-borrowed L config =
    ap (λ create_cow. take_value (decode []) (decode_any L) create_cow config)
      (fun_ext (λ s. sym (cow_from-string_from s)))

-- Outside partial mode `parse_owned` and `parse` agree: on the value or the error, and on where the
-- parser stops.
pub parse_owned-parse :
    (L : NumberLibs) (bytes : Bytes) (allow_inf_nan : Bool)
    → parse_owned L bytes allow_inf_nan off ≡ parse L bytes allow_inf_nan
unfolding parse_owned parse parse_with_config
parse_owned-parse L bytes inf_nan =
    ap
      (λ (take : Config → Peek → M (Value L)).
        (peek >>= take (default_config inf_nan off) >>= λ v. finish >>= λ u. pure v) (new bytes))
      (fun_ext (take_value_owned-borrowed L))
