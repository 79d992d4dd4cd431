-- ===== src/Errors/Position.antt =====
-- `LinePosition::find` of crates/jiter/src/errors.rs, the line and column of a byte index.
use jiter.Prelude.{
  ℕ, zero, suc, ◌+◌, ◌-◌, ◌≤◌, ◌<◌, ◌≡◌, refl, ap, [], ◌∷◌, ◌++◌, arith, Bytes, length, take,
  get_elem?, some, ◌==◌, if◌then◌else◌,
}

pub record LinePosition : Type 0 where
  pub line : ℕ
  pub column : ℕ

-- The loop of `find`: the bytes are those from `index` on.
find_from : Bytes → ℕ → ℕ → ℕ → ℕ → LinePosition
find_from [] index line last_line_start target = record {
  line = line;
  column = index - last_line_start;
}
find_from (c ∷ cs) index line last_line_start target =
    let line' = if c == b'\n' then line + 1 else line in
    let start' = if c == b'\n' then index + 1 else last_line_start in
    let rest = find_from cs (index + 1) line' start' target in
    if index == target then record { line = line'; column = index + 1 - start' } else rest

unfoldable pub find : Bytes → ℕ → LinePosition
unfolding find_from
find json_data target = find_from json_data 0 1 0 target

-- The newlines of some bytes, and the bytes after the last of them.
pub newlines : Bytes → ℕ
newlines [] = 0
newlines (c ∷ cs) = (if c == b'\n' then 1 else 0) + newlines cs

-- `columns k bs`: the bytes after the last newline of `bs`, or `k` and all of them.
pub columns : ℕ → Bytes → ℕ
columns k [] = k
columns k (c ∷ cs) = columns (if c == b'\n' then 0 else k + 1) cs

find_from-read :
    (cs : Bytes) (index line start n : ℕ)
    → start ≤ index
    → n < length cs
    → find_from cs index line start (index + n) ≡ record {
      line = line + newlines (take (suc n) cs);
      column = columns (index - start) (take (suc n) cs);
    }
unfolding find_from newlines columns
find_from-read [] index line start n le h = absurd (omega arith)
find_from-read (c ∷ cs) index line start zero le h = ground arith
find_from-read (c ∷ cs) index line start (suc n) le h = ground (
  arith,
  find_from-read cs (index + 1) (line + 1) (index + 1) n,
  find_from-read cs (index + 1) line start n,
)

find_from-past :
    (cs : Bytes) (index line start target : ℕ)
    → start ≤ index
    → index + length cs ≤ target
    → find_from cs index line start target
      ≡ record { line = line + newlines cs; column = columns (index - start) cs }
unfolding find_from newlines columns
find_from-past [] index line start target le h = ground arith
find_from-past (c ∷ cs) index line start target le h = ground (
  arith,
  find_from-past cs (index + 1) (line + 1) (index + 1) target,
  find_from-past cs (index + 1) line start target,
)

-- For an index inside the data, the line is one more than the newlines up to and including that
-- byte, and the column counts the bytes after the last of these newlines.
pub find_inside :
    (json_data : Bytes) (i : ℕ)
    → i < length json_data
    → find json_data i ≡ record {
      line = 1 + newlines (take (suc i) json_data);
      column = columns 0 (take (suc i) json_data);
    }
unfolding find
find_inside json_data i h = ground (arith, find_from-read json_data 0 1 0 i)

-- Past the end of the data the position is that of its end, whatever the index.
pub find_past :
    (json_data : Bytes) (i : ℕ)
    → length json_data ≤ i
    → find json_data i ≡ record { line = 1 + newlines json_data; column = columns 0 json_data }
unfolding find
find_past json_data i h = ground (arith, find_from-past json_data 0 1 0 i)

columns-concat_newline : (k : ℕ) (cs : Bytes) → columns k (cs ++ b'\n' ∷ []) ≡ 0
unfolding columns
columns-concat_newline k [] = refl
columns-concat_newline k (c ∷ cs) = columns-concat_newline (if c == b'\n' then 0 else k + 1) cs

take-suc_newline :
    (cs : Bytes) (i : ℕ) → get_elem? cs i ≡ some b'\n' → take (suc i) cs ≡ take i cs ++ b'\n' ∷ []
take-suc_newline [] i h = cc
take-suc_newline (c ∷ cs) zero h = cc
take-suc_newline (c ∷ cs) (suc i) h = ap (◌∷◌ c) (take-suc_newline cs i h)

lt_of_get_elem? : (cs : Bytes) (i : ℕ) {c : ℕ} → get_elem? cs i ≡ some c → i < length cs
lt_of_get_elem? [] i h = cc
lt_of_get_elem? (c ∷ cs) zero h = omega arith
lt_of_get_elem? (c ∷ cs) (suc i) h = omega (arith, lt_of_get_elem? cs i h)

-- At the index of a newline byte the column is 0, though columns are said to start at 1.
pub find_newline :
    (json_data : Bytes) (i : ℕ) → get_elem? json_data i ≡ some b'\n' → (find json_data i).column ≡ 0
find_newline json_data i h =
    rw (find_inside json_data i (lt_of_get_elem? json_data i h))
      (rw (take-suc_newline json_data i h) (columns-concat_newline 0 (take i json_data)))
