-- ===== src/Number/IntParse/Value.antt =====
-- The integers that `IntParse::parse` of crates/jiter/src/number_decoder.rs gives.
use jiter.Prelude.{
  ℕ, ◌+◌, ◌-◌, ◌*◌, ◌^◌, ◌≤◌, ◌<◌, ◌≡◌, ◌∙◌, refl, ap, sym, Bool, true, false, [], ◌∷◌, ◌++◌,
  append_assoc, arith, Bytes, length, take, drop, take-append-drop, length-take_of_le, length-drop,
  All-take, All-drop, within, if◌then◌else◌,
}
use jiter.Prelude.Slices.{drop-append, drop-cons, get_elem?-drop_cons}
use jiter.Prelude.Int.{pos, -ℤ◌, i64_half, as_i64, neg_i64, as_i64-pos}
use jiter.Errors.{ok}
use jiter.Number.Chunk.{ongoing, done, decode_int_chunk_fallback, parse_small}
use jiter.Number.Chunk.Laws.{
  Digits, decimal, int_chunk_loop-ends, int_chunk_loop-fills, decimal-append, decimal-bound,
}
use jiter.Number.Table.{digit_value, digit_value_lem}
use jiter.Number.Libs.{NumberLibs, BigIntLaws}
use jiter.Number.IntParse.Big.{
  IntEnds, signed, IntEnds-NoDigit, chunk_end-done, big_loop-Digits, ten_pow_le,
}
use jiter.Number.IntParse.{int, big_int, big_loop, after_digit, parse, max_digits, big_rounds}

-- A number without a leading zero: a first digit from 1 to 9, and the digits behind it.
abbrev pub Nonzero : ℕ → Type 0
Nonzero c = within b'1' b'9' c ≡ true

pub small_bound :
    (c k : ℕ) (ds : Bytes)
    → Digits ds
    → c < 10
    → length ds ≤ k
    → (c + 1) * 10 ^ length ds ≤ 10 * 10 ^ k
small_bound c k ds d h l = grind (arith, ten_pow_le (length ds) k l)

neg_i64-pos : (n : ℕ) → neg_i64 (pos n) ≡ (-ℤ◌ (pos n))
unfolding neg_i64
neg_i64-pos n = refl

small_sign :
    (positive : Bool) (n : ℕ)
    → n < i64_half
    → (if positive then as_i64 n else neg_i64 (as_i64 n)) ≡ signed positive n
small_sign true n h = as_i64-pos n h
small_sign false n h = rw (as_i64-pos n h) (neg_i64-pos n)

small_chunk-ends :
    (c : ℕ) (ds rest bytes : Bytes) (index : ℕ)
    → drop index bytes ≡ ds ++ rest
    → Digits ds
    → IntEnds rest
    → c < 10
    → length ds < 18
    → parse_small bytes index c ≡ (done (decimal c ds), index + length ds)
unfolding decode_int_chunk_fallback
small_chunk-ends c ds rest bytes index e d s h l =
    int_chunk_loop-ends 18 ds rest bytes index c e d (IntEnds-NoDigit rest s) l
      (omega (arith, small_bound c 17 ds d h (omega arith)))
    ∙ rw (chunk_end-done rest (decimal c ds) s)

small_chunk-fills :
    (c : ℕ) (ds rest bytes : Bytes) (index : ℕ)
    → drop index bytes ≡ ds ++ rest
    → Digits ds
    → c < 10
    → length ds ≡ 18
    → parse_small bytes index c ≡ (ongoing (decimal c ds), index + 18)
unfolding decode_int_chunk_fallback
small_chunk-fills c ds rest bytes index e d h l = rw l at (
    int_chunk_loop-fills ds rest bytes index c e d
      (omega (arith, small_bound c 18 ds d h (omega arith))))

module _ (L : NumberLibs) where
  after_digit-small :
      (c : ℕ) (ds rest bytes : Bytes) (start index : ℕ) (positive : Bool)
      → drop index bytes ≡ ds ++ rest
      → Digits ds
      → IntEnds rest
      → c < 10
      → length ds < 18
      → after_digit L bytes start positive index c
        ≡ ok (int (int (signed positive (decimal c ds))), index + length ds)
  unfolding after_digit
  after_digit-small c ds rest bytes start index positive e d s h l =
      let r = small_chunk-ends c ds rest bytes index e d s h l in
      let b : decimal c ds < i64_half =
        omega (arith, decimal-bound c ds d, small_bound c 17 ds d h (omega arith)) in
      rw (ap (λ t. t.0) r, after_digit, ap (λ t. t.1) r, small_sign positive (decimal c ds) b)

  open L use {from_u64}

  after_digit-ongoing :
      (c start : ℕ) (positive : Bool) (index : ℕ) (bytes : Bytes) (n new_index : ℕ)
      → parse_small bytes index c ≡ (ongoing n, new_index)
      → after_digit L bytes start positive index c
        ≡ big_loop L big_rounds bytes start positive (from_u64 n) new_index
  unfolding after_digit
  after_digit-ongoing c start positive index bytes n new_index r =
      rw (ap (λ t. t.0) r, after_digit, ap (λ t. t.1) r)

module _ (L : NumberLibs) (laws : BigIntLaws L) where
  open L use {BigInt, from_u64}
  open laws use {value, value-from_u64}

  -- At least 18 digits behind the first: a `BigInt` with their value.
  after_digit-big :
      (c : ℕ) (ds rest bytes : Bytes) (start index : ℕ) (positive : Bool)
      → drop index bytes ≡ ds ++ rest
      → Digits ds
      → IntEnds rest
      → c < 10
      → 18 ≤ length ds
      → index + length ds ≤ start + max_digits
      → start ≤ index
      → (b : BigInt) × (after_digit L bytes start positive index c
          ≡ ok (int (big_int b), index + length ds))
        × (value b ≡ signed positive (decimal c ds))
  after_digit-big c ds rest bytes start index positive e d s h l m le =
      let d1 = take 18 ds in
      let d2 = drop 18 ds in
      let whole : d1 ++ d2 ≡ ds = take-append-drop 18 ds in
      let l1 : length d1 ≡ 18 = length-take_of_le 18 ds l in
      let l2 : length d2 ≡ length ds - 18 = length-drop 18 ds in
      let e1 : drop index bytes ≡ d1 ++ (d2 ++ rest) =
        e ∙ ap (λ t. t ++ rest) (sym whole) ∙ append_assoc d1 d2 rest in
      let r = small_chunk-fills c d1 (d2 ++ rest) bytes index e1 (All-take _ 18 ds d) h l1 in
      let e2 : drop (index + 18) bytes ≡ d2 ++ rest = rw l1 at (drop-append d1 index bytes e1) in
      let (b, q, v) =
        big_loop-Digits L laws big_rounds d2 rest bytes start (index + 18) positive
          (from_u64 (decimal c d1)) (decimal c d1) e2 (All-drop _ 18 ds d) s (omega arith)
          (omega arith) (value-from_u64 (decimal c d1)) in
      let i : index + 18 + length d2 ≡ index + length ds = omega arith in
      (
        b,
        after_digit-ongoing L c start positive index bytes (decimal c d1) (index + 18) r
            ∙ q
            ∙ ap (λ k. ok (int (big_int b), k)) i,
        v ∙ ap (signed positive) (sym (decimal-append c d1 d2) ∙ ap (decimal c) whole),
      )

-- The sign in front of a number, and the first byte of the number with it.
abbrev pub minus : Bool → Bytes
minus true = []
minus false = b'-' ∷ []

abbrev pub lead : Bool → ℕ → ℕ
lead true c = c
lead false c = b'-'

module _ (L : NumberLibs) where
  -- Behind the sign and a first digit that is not 0, the decoder goes on with `after_digit`.
  pub parse-after_digit :
      (positive : Bool) (c : ℕ) (tail bytes : Bytes) (start : ℕ)
      → drop start bytes ≡ minus positive ++ (c ∷ tail)
      → Nonzero c
      → parse L bytes start (lead positive c)
        ≡ after_digit L bytes start positive (start + length (minus positive) + 1) (c - 48)
  unfolding parse
  parse-after_digit true c tail bytes start e h =
      let z : start + 0 ≡ start = omega arith in
      let v : digit_value c ≡ c - 48 = digit_value_lem c (ground arith) in
      rw (z, ← v) (ground arith)
  parse-after_digit false c tail bytes start e h =
      let g = get_elem?-drop_cons (start + 1) bytes (drop-cons start bytes e) in
      let v : digit_value c ≡ c - 48 = digit_value_lem c (ground arith) in
      rw (← v, g) (ground arith)

  pub drop-after_digit :
      (positive : Bool) (c : ℕ) (tail bytes : Bytes) (start : ℕ)
      → drop start bytes ≡ minus positive ++ (c ∷ tail)
      → drop (start + length (minus positive) + 1) bytes ≡ tail
  drop-after_digit positive c tail bytes start e =
      drop-cons (start + length (minus positive)) bytes (drop-append (minus positive) start bytes e)

decimal-cons : (c : ℕ) (ds : Bytes) → decimal 0 (c ∷ ds) ≡ decimal (c - 48) ds
unfolding decimal
decimal-cons c ds = let z : 0 * 10 + (c - 48) ≡ c - 48 = omega arith in rw z

pub digit_lt : (c : ℕ) → Nonzero c → c - 48 < 10
digit_lt c h = ground arith

-- A number of at most 18 digits, with a `-` in front or not, behind which stand no digit, `.`, `e` or
-- `E`, is read to its end as the `i64` that it stands for: nothing wraps on the way.
pub parse-i64 :
    (L : NumberLibs) (positive : Bool) (c : ℕ) (ds rest bytes : Bytes) (start : ℕ)
    → drop start bytes ≡ minus positive ++ (c ∷ (ds ++ rest))
    → Nonzero c
    → Digits ds
    → IntEnds rest
    → length (c ∷ ds) ≤ 18
    → parse L bytes start (lead positive c)
      ≡ ok (
        int (int (signed positive (decimal 0 (c ∷ ds)))),
        start + length (minus positive) + length (c ∷ ds),
      )
parse-i64 L positive c ds rest bytes start e h d s l =
    let i : start + length (minus positive) + 1 + length ds
        ≡ start + length (minus positive) + length (c ∷ ds) =
      omega arith in
    parse-after_digit L positive c (ds ++ rest) bytes start e h
    ∙ after_digit-small L (c - 48) ds rest bytes start (start + length (minus positive) + 1)
        positive (drop-after_digit L positive c (ds ++ rest) bytes start e) d s (digit_lt c h)
        (omega arith)
    ∙ rw (i, ← (decimal-cons c ds)) refl

-- A number of 19 digits or more is read to its end as a `BigInt` of the value that it stands for, if
-- the number with its sign has at most 4300 bytes.
pub parse-big_int :
    (L : NumberLibs) (laws : BigIntLaws L) (positive : Bool) (c : ℕ) (ds rest bytes : Bytes)
    (start : ℕ)
    → drop start bytes ≡ minus positive ++ (c ∷ (ds ++ rest))
    → Nonzero c
    → Digits ds
    → IntEnds rest
    → 19 ≤ length (c ∷ ds)
    → length (minus positive) + length (c ∷ ds) ≤ max_digits
    → (b : L.BigInt) × (parse L bytes start (lead positive c)
        ≡ ok (int (big_int b), start + length (minus positive) + length (c ∷ ds)))
      × (laws.value b ≡ signed positive (decimal 0 (c ∷ ds)))
parse-big_int L laws positive c ds rest bytes start e h d s l m =
    let i : start + length (minus positive) + 1 + length ds
        ≡ start + length (minus positive) + length (c ∷ ds) =
      omega arith in
    let (b, q, v) =
      after_digit-big L laws (c - 48) ds rest bytes start (start + length (minus positive) + 1)
        positive (drop-after_digit L positive c (ds ++ rest) bytes start e) d s (digit_lt c h)
        (omega arith) (omega arith) (omega arith) in
    (
      b,
      parse-after_digit L positive c (ds ++ rest) bytes start e h
          ∙ q
          ∙ ap (λ k. ok (int (big_int b), k)) i,
      v ∙ ap (signed positive) (sym (decimal-cons c ds)),
    )
