-- ===== src/Tests/Texts.antt =====
-- Texts of the grammar, and what crates/jiter/src/value.rs, crates/jiter/src/jiter.rs and
-- crates/jiter/src/py_lossless_float.rs make of them.
use jiter.Prelude.{ℕ, zero, suc, ◌≡◌, refl, true, false, [], ◌∷◌, ◌++◌, arith, Bytes, length}
use jiter.Prelude.Text.{codes}
use jiter.Prelude.Int.{negsuc}
use jiter.Errors.{ok, json_err, off, recursion_limit_exceeded}
use jiter.Parse.{is_whitespace}
use jiter.Number.Chunk.Laws.{decimal}
use jiter.Number.Float.Texts.{fraction, above_one}
use jiter.Strings.Table.{byte_kind}
use jiter.Strings.Utf8.{invalid_utf8}
use jiter.Strings.Decode.{simple_escape}
use jiter.Strings.Decode.Literal.{LiteralText, plain_end, escape_then, letter}
use jiter.Value.Data.{float, int, str, array, object, no_value, value_then, no_entry, entry_then}
use jiter.Value.Grammar.{
  ValueText, string_text, number_text, array_text, object_text, last_item, next_item, last_entry,
  next_entry, depth,
}
use jiter.Jiter.{pure}
use jiter.Parse.Reads.{at}
use jiter.Jiter.Values.{moved, next_value-Text}
use jiter.Value.Consumes.{range_of, is_integer, decode_range-NumberText}
use jiter.Number.Range as Range
use jiter.Value.NumberTexts.{NumberText, Reads, int_text, float_text, negative_text}
use jiter.Value.Accepts.{StringText, JsonText, json_text, parse_with_config-JsonText}
use jiter.Value.Take.Deep.{Nested, within_all, into_array}
use jiter.Value.TooDeep.{parse_with_config-Nested}
use jiter.Value.Entry.{Value, parse_with_config, parse_owned}
use jiter.Jiter.{Jiter, new}
use jiter.Jiter.Next.{
  next_value, next_value_owned, next_skip, next_null, next_bool, next_number, next_int, next_float,
  next_number_bytes, next_str, next_bytes, next_array, array_step, next_object, next_object_bytes,
  next_key, next_key_bytes, finish,
}
use jiter.Jiter.Steps.{Steps}
use jiter.Jiter.Methods.{Moves, Stays}
use jiter.Jiter.Moves.{next-Steps}
use jiter.Python.LosslessFloat.{checked_new}
use jiter.Python.LosslessFloat.Checks.{Checked, checked_new-Checked}
use jiter.Tests.Scanner.{scanning, scans}
use jiter.Tests.Numbers.{libs, lexing, lexed}

-- `"a"` and `"c\n"`, behind their first quotes.
key : LiteralText (codes "a\"") (codes "a")
unfolding byte_kind
key = plain_end (codes "a") (refl, tt)

text : LiteralText (codes "c\\n\"") (codes "c\n")
unfolding byte_kind simple_escape
text =
    escape_then (codes "c") (codes "n") (codes "\"") (refl, tt) (letter b'n' refl) (plain_end [] tt)

-- `{"a": [2.5, -20], "a":"c\n" }` and its value.
abbrev sample : Bytes
sample = codes " {\"a\": [2.5, -20], \"a\":\"c\\n\" }"

abbrev sample_value : Value scanning
sample_value = object (
    entry_then (codes "a") (array (value_then (float tt) (value_then (int (negsuc 19)) no_value)))
      (entry_then (codes "a") (str (codes "c\n")) no_entry))

-- The sample behind its blank and its brace.
abbrev sample_tail : Bytes
sample_tail = codes "\"a\": [2.5, -20], \"a\":\"c\\n\" }"

sample-ValueText : ValueText StringText (NumberText scans.float_value) b'{' sample_tail sample_value
unfolding is_whitespace invalid_utf8 decimal
sample-ValueText =
    object_text [] (codes "a\"") [] (codes " ") (codes "2.5, -20], \"a\":\"c\\n\" }") tt (key, refl)
      tt (refl, tt)
      (next_entry (codes "2.5, -20]") [] (codes " ") (codes "a\"") [] [] (codes "c\\n\" }")
        (array_text [] (codes ".5, -20]") tt (
          next_item (codes ".5") [] (codes " ") (codes "20]")
            (number_text (
              float_text (
                above_one true b'2' [] (codes ".5") refl tt (omega arith)
                  (fraction b'5' [] (refl, tt)))))
            tt (refl, tt)
            (last_item (codes "20") []
              (number_text (int_text (negative_text refl (refl, tt) (omega arith)))) tt)))
        tt (refl, tt) (key, refl) tt tt
        (last_entry (codes "c\\n\"") (codes " ") (string_text (text, refl)) (refl, tt)))

sample-JsonText : JsonText scans.float_value sample sample_value
unfolding is_whitespace
sample-JsonText = json_text (codes " ") sample_tail [] (refl, tt) sample-ValueText tt

parse_with_config-JsonText_example :
    ((parse_with_config scanning sample false off).0 ≡ ok sample_value)
    × ((parse_owned scanning sample false off).0 ≡ ok sample_value)
unfolding depth
parse_with_config-JsonText_example =
    parse_with_config-JsonText scanning scans false off sample-JsonText (omega arith)

-- `n` brackets and a digit.
abbrev head : ℕ → ℕ
head zero = b'1'
head (suc n) = b'['

abbrev tail : ℕ → Bytes
tail zero = []
tail (suc n) = head n ∷ tail n

length-tail : (n : ℕ) → length (tail n) ≡ n
length-tail zero = refl
length-tail (suc n) = omega (arith, length-tail n)

brackets : (n : ℕ) → Nested StringText n (head n) (tail n) b'1' []
unfolding is_whitespace
brackets zero = within_all refl refl
brackets (suc n) = into_array [] (tail n) tt (brackets n)

parse_with_config-Nested_example :
    ((parse_with_config libs (head 201 ∷ tail 201) false off).0
      ≡ json_err recursion_limit_exceeded 201)
    × ((parse_owned libs (head 201 ∷ tail 201) false off).0 ≡ json_err recursion_limit_exceeded 201)
parse_with_config-Nested_example =
    parse_with_config-Nested libs false off [] (tail 201) [] b'[' b'1' 201 tt (brackets 201)
      (omega (arith, length-tail 201))

abbrev started : Jiter
started = new (codes "[1]")

next-Steps_example :
    Steps started Stays (next_value lexing started)
    × Steps started Stays (next_value_owned lexing started)
    × Steps started (Moves started) (next_skip started)
    × Steps started (Moves started) (next_null lexing started)
    × Steps started (Moves started) (next_bool lexing started)
    × Steps started (Moves started) (next_number lexing started)
    × Steps started (Moves started) (next_int lexing started)
    × Steps started (Moves started) (next_float lexing started)
    × Steps started (Moves started) (next_number_bytes lexing started)
    × Steps started (Moves started) (next_str lexing started)
    × Steps started (Moves started) (next_bytes lexing started)
    × Steps started (Moves started) (next_array lexing started)
    × Steps started (Moves started) (array_step started)
    × Steps started (Moves started) (next_object lexing started)
    × Steps started (Moves started) (next_object_bytes lexing started)
    × Steps started (Moves started) (next_key started)
    × Steps started (Moves started) (next_key_bytes started)
    × Steps started Stays (finish started)
next-Steps_example = next-Steps lexing lexed started refl

checked_new-Checked_example :
    Checked lexing lexed (λ s. s) (codes "1.5") (checked_new lexing (λ s. s) (codes "1.5"))
checked_new-Checked_example = checked_new-Checked lexing lexed (λ s. s) (codes "1.5")

-- An iterator in an array, at its second value.
abbrev between : Bytes
between = codes "[ 0," ++ (sample ++ codes ", 1]")

abbrev at_second : Jiter
at_second = record (new between) { parser = at between 4 }

next_value-Text_example :
    (next_value scanning at_second ≡ pure sample_value (moved at_second 34))
    × (next_value_owned scanning at_second ≡ pure sample_value (moved at_second 34))
    × (next_skip at_second ≡ pure tt (moved at_second 34))
unfolding is_whitespace depth
next_value-Text_example =
    next_value-Text scanning scans at_second (codes " ") (codes ", 1]") sample-ValueText refl
      (refl, tt) refl (omega arith)

decode_range-NumberText_example :
    (Range.decode_range (codes "[-20]") 1 b'-' false ≡ ok (range_of true 1 4, 4))
    × Reads scanning (codes "[-20]") 1 b'-' 4 false (int (negsuc 19))
unfolding is_integer decimal is_whitespace
decode_range-NumberText_example =
    decode_range-NumberText scanning scans
      (int_text (negative_text {c = b'2'} {ds = codes "0"} refl (refl, tt) (omega arith)))
      (codes "[-20]") 1 (codes "]") false refl refl
