-- ===== src/Jiter/Values.antt =====
-- `next_value`, `next_value_owned` and `next_skip` of crates/jiter/src/jiter.rs on the texts of the
-- grammar.
use jiter.Prelude.{ℕ, ◌+◌, ◌≤◌, ◌≡◌, refl, ◌∷◌, ◌++◌, Bytes, length, drop}
use jiter.Prelude.Slices.{drop-append}
use jiter.Errors.{off, default_recursion_limit}
use jiter.Parse.Whitespace.{Blank}
use jiter.Parse.Reads.{at, Behind, peek_some}
use jiter.Number.Libs.{NumberLibs}
use jiter.Number.Float.Texts.{LexicalReads}
use jiter.Value.Grammar.{ValueText, depth}
use jiter.Value.Grammar.Firsts.{Text-first}
use jiter.Value.NumberTexts.{NumberText, NumberText-first}
use jiter.Value.Accepts.{StringText}
use jiter.Value.Consumes.{skip_value-Text}
use jiter.Value.Entry.{Value}
use jiter.Jiter.{Jiter, pure}
use jiter.Jiter.Next.{next_value, next_value_owned, next_skip}

-- The iterator at another index.
abbrev pub moved : Jiter → ℕ → Jiter
moved j index = record j { parser = at j.parser.bytes index }

module _ (L : NumberLibs) (laws : LexicalReads L) where
  -- Where lexical_parse_float reads the floats of JSON, and what lies before an iterator is
  -- whitespace and a text of JSON, with a comma, a closing bracket or brace, whitespace or nothing
  -- behind it, in its numbers at most 18 digits in front of a point or an exponent, or in all, its
  -- `\u` escapes, in capitals or not, standing for characters, alone or as surrogate pairs, its
  -- strings valid UTF-8 and its containers nested at most 200 deep: `next_value` and
  -- `next_value_owned` return the value of the text, `next_skip` returns, and all three leave the
  -- iterator behind the text.
  pub next_value-Text :
      (j : Jiter) {c : ℕ} {t : Bytes} {v : Value L} (w rest : Bytes)
      → ValueText StringText (NumberText laws.float_value) c t v
      → drop j.parser.index j.parser.bytes ≡ w ++ (c ∷ (t ++ rest))
      → Blank w
      → Behind rest
      → depth v ≤ default_recursion_limit
      → (next_value L j ≡ pure v (moved j (j.parser.index + length w + 1 + length t)))
        × (next_value_owned L j ≡ pure v (moved j (j.parser.index + length w + 1 + length t)))
        × (next_skip j ≡ pure tt (moved j (j.parser.index + length w + 1 + length t)))
  unfolding next_value next_value_owned next_skip
  next_value-Text j {c} {t} w rest h e b r d =
      let bytes = j.parser.bytes in
      let i = j.parser.index in
      let (first, _) =
        Text-first StringText (NumberText laws.float_value) (λ d u y n. NumberText-first n) h in
      let (borrowed, owned, skipped) =
        skip_value-Text L laws j.allow_inf_nan off h bytes (i + length w) rest
          (drop-append w i bytes e) r d in
      let peeked = peek_some bytes i w c (t ++ rest) e b first in
      (rw (peeked, borrowed) refl, rw (peeked, owned) refl, rw (peeked, skipped) refl)
