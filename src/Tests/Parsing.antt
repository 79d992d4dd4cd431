-- ===== src/Tests/Parsing.antt =====
-- Tests of crates/jiter/src/parse.rs and of `LinePosition::find`.
use jiter.Prelude.{ℕ, some, ◌+◌, ◌≡◌, ◌↔◌, ◌++◌, refl, arith, Bytes, length, drop, take}
use jiter.Errors.{ok, json_err, expected_colon, expected_some_ident, eof_while_parsing_value}
use jiter.Errors.Position.{
  LinePosition, find, newlines, columns, find_inside, find_past, find_newline,
}
use jiter.Parse.{pure, new, advance, eat_whitespace, peek, finish, consume_ident_at, true_rest}
use jiter.Errors.Display.{short, description}
use jiter.Errors.Display.Short.{read_short, read_short-short}
use jiter.Parse.Ident.{read_ident, consume_ident_at-read_ident}
use jiter.Parse.Whitespace.{
  Blank, Stops, first, eat_whitespace_lem, IsSpace, space, line_feed, tab, carriage_return,
  peek-IsSpace, finish_iff,
}
use jiter.Prelude.Text.{codes}

abbrev two_lines : Bytes
two_lines = codes "ab\ncd"

find_second_line : find two_lines 4 ≡ record { line = 2; column = 2 }
unfolding find
find_second_line = refl

find_inside_example :
    find two_lines 4
    ≡ record { line = 1 + newlines (take 5 two_lines); column = columns 0 (take 5 two_lines) }
find_inside_example = find_inside two_lines 4 (omega arith)

find_past_example :
    find two_lines 9 ≡ record { line = 1 + newlines two_lines; column = columns 0 two_lines }
find_past_example = find_past two_lines 9 (omega arith)

find_newline_example : (find two_lines 2).column ≡ 0
find_newline_example = find_newline two_lines 2 refl

true_runs : consume_ident_at (codes "true") 0 true_rest ≡ ok 4
unfolding consume_ident_at
true_runs = refl

trap_runs : consume_ident_at (codes "trap") 0 true_rest ≡ json_err expected_some_ident 2
unfolding consume_ident_at
trap_runs = refl

tr_runs : consume_ident_at (codes "tr") 0 true_rest ≡ json_err eof_while_parsing_value 2
unfolding consume_ident_at
tr_runs = refl

consume_ident_at-read_ident_example :
    consume_ident_at (codes "trap") 0 true_rest
    ≡ read_ident true_rest (drop (0 + 1) (codes "trap")) (0 + 1)
consume_ident_at-read_ident_example =
    consume_ident_at-read_ident (codes "trap") 0 true_rest (omega arith)

eat_whitespace_lem_example :
    (ws : Bytes) × (rest : Bytes) × (drop 0 (codes " \n1") ≡ ws ++ rest)
    × Blank ws
    × Stops rest
    × (eat_whitespace (new (codes " \n1")) ≡ (first rest, advance (length ws) (new (codes " \n1"))))
eat_whitespace_lem_example = eat_whitespace_lem (new (codes " \n1"))

comma_no_space : IsSpace b',' → ⊥
comma_no_space h = by_code _ h refl
  where
    by_code : (c : ℕ) → IsSpace c → c ≡ b',' → ⊥
    by_code _ tab e = absurd (omega arith)
    by_code _ line_feed e = absurd (omega arith)
    by_code _ carriage_return e = absurd (omega arith)
    by_code _ space e = absurd (omega arith)

peek-IsSpace_example :
    (peek (new (codes " \n,")) ≡ pure b',' (record { bytes = codes " \n,"; index = 2 }))
    × (peek (peek (new (codes " \n,"))).1 ≡ peek (new (codes " \n,")))
peek-IsSpace_example =
    peek-IsSpace (new (codes " \n,")) (codes " \n") (codes ",") refl (space, (line_feed, tt))
      comma_no_space

finish_iff_example : ((finish (new (codes " \n"))).0 ≡ ok tt) ↔ Blank (drop 0 (codes " \n"))
finish_iff_example = finish_iff (new (codes " \n"))

abbrev somewhere : LinePosition
somewhere = record { line = 12; column = 305 }

short-somewhere : short somewhere ≡ codes "12:305"
unfolding short
short-somewhere = refl

description-colon :
    description (λ s. s) (record { error_type = expected_colon; index = 4 }) (codes "[1\n 2]")
    ≡ codes "expected `:` at line 2 column 2"
unfolding description find
description-colon = refl

read_short-short_example : read_short (short somewhere) ≡ some somewhere
read_short-short_example = read_short-short somewhere
