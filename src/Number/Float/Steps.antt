-- ===== src/Number/Float/Steps.antt =====
-- The runs of `NumberAny::decode` of crates/jiter/src/number_decoder.rs.
use jiter.Prelude.{
  ℕ, ◌+◌, ◌≤◌, ◌<◌, ◌≡◌, Bool, true, false, Option, some, none, arith, Bytes, get_elem?, drop, ◌==◌,
  Option-cases, inl, inr, refl, sym, ◌∙◌, ◌||◌, ◌&&◌, some-injective,
}
use jiter.Errors.{JsonError, JsonResult, err, map_ok}
use jiter.Errors.Ensures.{Ensures, returns, refuses, Ensures-next, Ensures-test}
use jiter.Parse.{nan_rest}
use jiter.Parse.Runs.{consume_ident_at-Ensures}
use jiter.Number.Table.{is_digit, int_char_map, int_char_map-is_digit}
use jiter.Number.Libs.{NumberLibs}
use jiter.Number.IntParse.{IntParse, int, float, float_inf, float_nan}
use jiter.Number.IntParse.Steps.{Seen, parse-Ensures}
use jiter.Number.Range.{decode_range, allowed_nan}
use jiter.Number.Range.Steps.{consume_inf-Ensures}
use jiter.Number.Float.{
  consume_inf_f64, consume_nan, lexical, float_first, decode_float, any_of, decode_any,
}

-- A digit, or a minus and a digit behind it: where the code calls the float parser.
abbrev pub starts_number : ℕ → Option ℕ → Bool
starts_number first none = is_digit first
starts_number first (some c) = is_digit first || (first == b'-' && is_digit c)

-- What the code relies on in `from_lexical_partial_with_options` with the JSON format: a float takes a
-- byte at least, and where bytes that begin with a digit, or with a minus and a digit, do not begin with
-- a float, they do not begin with a number of JSON, so that `NumberRange` finds an error too.
pub record LexicalLaws (L : NumberLibs) : Type 0 where
  pub takes : (s : Bytes) (x : L.Float) (n : ℕ) → L.from_lexical_partial s ≡ some (x, n) → 0 < n
  pub refused :
      (bytes : Bytes) (start first : ℕ) (allow_inf_nan : Bool)
      → get_elem? bytes start ≡ some first
      → starts_number first (get_elem? bytes (start + 1)) ≡ true
      → L.from_lexical_partial (drop start bytes) ≡ none
      → (e : JsonError) × (decode_range bytes start first allow_inf_nan ≡ err e)

module _ (L : NumberLibs) (laws : LexicalLaws L) where
  open L use {Float, BigInt, from_lexical_partial}

  abbrev Behind : {A : Type 0} → ℕ → A × ℕ → Type 0
  Behind start r = start < r.1

  map_ok-Ensures :
      {A B : Type 0} (f : A → B × ℕ) {P : A → Type 0} (start : ℕ) {r : JsonResult A}
      → Ensures P r
      → ((a : A) → P a → start < (f a).1)
      → Ensures (Behind start) (map_ok f r)
  map_ok-Ensures f start (returns {a} h) k = returns (k a h)
  map_ok-Ensures f start refuses k = refuses

  consume_inf_f64-Ensures :
      (bytes : Bytes) (start index : ℕ) (positive allow_inf_nan : Bool)
      → start ≤ index
      → Ensures (Behind start) (consume_inf_f64 L bytes index positive allow_inf_nan)
  unfolding consume_inf_f64
  consume_inf_f64-Ensures bytes start index positive allow_inf_nan l =
      map_ok-Ensures _ start (consume_inf-Ensures bytes index positive allow_inf_nan)
        λ end h. omega arith

  consume_nan-Ensures :
      (bytes : Bytes) (start index : ℕ) (allow_inf_nan : Bool)
      → start ≤ index
      → Ensures (Behind start) (consume_nan L bytes index allow_inf_nan)
  unfolding consume_nan allowed_nan
  consume_nan-Ensures bytes start index allow_inf_nan l =
      map_ok-Ensures _ start
        (Ensures-test allow_inf_nan (λ _. consume_ident_at-Ensures bytes index nan_rest)
          (λ _. refuses))
        λ end h. omega arith

  lexical-Ensures :
      (bytes : Bytes) (start first : ℕ) (allow_inf_nan : Bool)
      → get_elem? bytes start ≡ some first
      → starts_number first (get_elem? bytes (start + 1)) ≡ true
      → Ensures
          (Behind start)
          (lexical L bytes start first allow_inf_nan (from_lexical_partial (drop start bytes)))
  unfolding lexical
  lexical-Ensures bytes start first allow_inf_nan g n =
      elim (Option-cases (from_lexical_partial (drop start bytes))) [
        | inl e ↦
            let (x, q) = laws.refused bytes start first allow_inf_nan g n e in
            rw (e, lexical, q) refuses
        | inr ((x, n), e) ↦ let l = laws.takes _ x n e in rw (e, lexical) (returns (omega arith))
      ]

  -- With a digit behind the sign.
  float_first-Ensures :
      (bytes : Bytes) (start first : ℕ) (allow_inf_nan positive : Bool) (index : ℕ) (o : Option ℕ)
      → start ≤ index
      → get_elem? bytes start ≡ some first
      → ((c : ℕ)
          → o ≡ some c
          → is_digit c ≡ true
          → starts_number first (get_elem? bytes (start + 1)) ≡ true)
      → Ensures (Behind start) (float_first L bytes start first allow_inf_nan positive index o)
  unfolding float_first
  float_first-Ensures bytes start first allow_inf_nan positive index none l g n = refuses
  float_first-Ensures bytes start first allow_inf_nan positive index (some c) l g n =
      Ensures-test (int_char_map c)
        (λ d.
          lexical-Ensures bytes start first allow_inf_nan g
            (n c refl (sym (int_char_map-is_digit c) ∙ d)))
        λ _.
          Ensures-test (c == b'I')
            (λ _. consume_inf_f64-Ensures bytes start index positive allow_inf_nan l) (λ _. refuses)

  starts-digit : (first : ℕ) (o : Option ℕ) → is_digit first ≡ true → starts_number first o ≡ true
  starts-digit first none h = h
  starts-digit first (some c) h = ground arith

  starts-minus :
      (first c : ℕ) (o : Option ℕ)
      → first == b'-' ≡ true
      → o ≡ some c
      → is_digit c ≡ true
      → starts_number first o ≡ true
  starts-minus first c o m e d = rw e (ground arith)

  pub decode_float-Ensures :
      (bytes : Bytes) (index first : ℕ) (allow_inf_nan : Bool)
      → get_elem? bytes index ≡ some first
      → Ensures (Behind index) (decode_float L bytes index first allow_inf_nan)
  unfolding decode_float
  decode_float-Ensures bytes index first allow_inf_nan g =
      Ensures-test (first == b'N')
        (λ _. consume_nan-Ensures bytes index index allow_inf_nan (omega arith))
        λ _.
          Ensures-test (first == b'-')
            (λ m.
              float_first-Ensures bytes index first allow_inf_nan false (index + 1)
                (get_elem? bytes (index + 1)) (omega arith) g (λ c. starts-minus first c _ m))
            (λ _.
              float_first-Ensures bytes index first allow_inf_nan true index (some first)
                (omega arith) g λ c e d. starts-digit first _ (rw (some-injective e) d))

  any_of-Ensures :
      (bytes : Bytes) (start first : ℕ) (allow_inf_nan : Bool) (r : IntParse BigInt × ℕ)
      → get_elem? bytes start ≡ some first
      → Seen L start r
      → Ensures (Behind start) (any_of L bytes start first allow_inf_nan r)
  unfolding any_of
  any_of-Ensures bytes start first allow_inf_nan (int n, index) g h = returns h
  any_of-Ensures bytes start first allow_inf_nan (float, index) g h =
      map_ok-Ensures _ start (decode_float-Ensures bytes start first allow_inf_nan g) λ r l. l
  any_of-Ensures bytes start first allow_inf_nan (float_inf positive, index) g h =
      map_ok-Ensures _ start (consume_inf_f64-Ensures bytes start index positive allow_inf_nan h)
        λ r l. l
  any_of-Ensures bytes start first allow_inf_nan (float_nan, index) g h =
      map_ok-Ensures _ start (consume_nan-Ensures bytes start index allow_inf_nan h) λ r l. l

  -- Where lexical_parse_float takes a byte at least and refuses, of what begins with a digit or
  -- with a minus and a digit, only what `NumberRange` refuses too, `NumberAny::decode` at every
  -- byte of every data, told of that byte, returns an index behind the one that it starts at, or an
  -- error; it does not panic.
  pub decode_any-Ensures :
      (bytes : Bytes) (index first : ℕ) (allow_inf_nan : Bool)
      → get_elem? bytes index ≡ some first
      → Ensures (λ r. index < r.1) (decode_any L bytes index first allow_inf_nan)
  unfolding decode_any
  decode_any-Ensures bytes index first allow_inf_nan g =
      Ensures-next (parse-Ensures L bytes index first)
        λ r h. any_of-Ensures bytes index first allow_inf_nan r g h
