-- ===== src/Errors/Display/Short.antt =====
-- `LinePosition::short` of crates/jiter/src/errors.rs, read back.
use jiter.Prelude.{
  ℕ, ◌≡◌, ap, ◌∙◌, Option, some, none, [], ◌∷◌, Bytes, ◌==◌, if◌then◌else◌, sym, append-nil,
}
use jiter.Prelude.Text.{usize_text, read_usize, read_usize-usize_text}
use jiter.Errors.Position.{LinePosition}
use jiter.Errors.Display.{short}

-- A line and a column, of a text `line:column`.
column_of : ℕ → ℕ × Bytes → Option LinePosition
column_of line (column, []) = some record { line = line; column = column }
column_of line (column, c ∷ cs) = none

line_of : ℕ × Bytes → Option LinePosition
line_of (line, []) = none
line_of (line, c ∷ cs) = if c == b':' then column_of line (read_usize 0 cs) else none

unfoldable pub read_short : Bytes → Option LinePosition
unfolding line_of column_of read_usize
read_short s = line_of (read_usize 0 s)

read_usize-whole : (n : ℕ) → read_usize 0 (usize_text n) ≡ (n, [])
unfolding read_usize
read_usize-whole n =
    ap (read_usize 0) (sym (append-nil (usize_text n))) ∙ read_usize-usize_text n []

-- `short` keeps the line and the column apart: they are read back from it.
pub read_short-short : (p : LinePosition) → read_short (short p) ≡ some p
unfolding read_short short read_usize
read_short-short p =
    ap line_of (read_usize-usize_text p.line (b':' ∷ usize_text p.column))
    ∙ ap (column_of p.line) (read_usize-whole p.column)
