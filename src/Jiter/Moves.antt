-- ===== src/Jiter/Moves.antt =====
-- Every `next_*` method of crates/jiter/src/jiter.rs, from any state.
use jiter.Prelude.{ℕ, ◌<◌, refl, Bool, arith, [], ◌==◌, true, false, if◌then◌else◌}
use jiter.Errors.{JsonType, JsonError}
use jiter.Errors.Ensures.{Ensures-weaken}
use jiter.Parse.{DecodeNumber, true_rest, false_rest, consume_number}
use jiter.Parse.Runs.{At, Past, consume_ident-Runs}
use jiter.Parse.Runs.Decoders.{
  NumberSteps, StringSteps-StringGives, consume_number-Runs, object_first-Runs,
  object_first_here-Runs, object_step-Runs, object_step_here-Runs, set_index-Runs,
}
use jiter.Number.Libs.{NumberLibs}
use jiter.Number.Float.Steps.{LexicalLaws, decode_float-Ensures}
use jiter.Number.IntParse.Steps.{decode_int-Ensures}
use jiter.Number.Float.{decode_any}
use jiter.Number.Range.{NumberRange}
use jiter.Number.Range.Steps
use jiter.Strings.Decode.{decode, decode_range}
use jiter.Value.Take.Total.{take_value-Runs}
use jiter.Value.Entry.{take_value_borrowed, take_value_owned, cow_from, string_from}
use jiter.Value.Total.{decode-StringSteps, decode_any-NumberSteps}
use jiter.Jiter.{Jiter, JiterResult, J, put_parser}
use jiter.Jiter.Next.{
  expecting, known_null, known_array, array_step, finish, known_str, known_bytes, known_object,
  next_key, next_key_bytes, known_skip, next_skip, next_null, known_bool, next_bool, known_number,
  next_number, known_int, next_int, known_float, next_float, known_number_bytes, next_number_bytes,
  next_str, next_bytes, value_config, known_value, next_value, known_value_owned, next_value_owned,
  next_array, next_object, next_object_bytes,
}
use jiter.Jiter.Steps.{
  Later-refl, Steps, returns, Steps-from, Steps-next, parsing-Steps, parsing_or-Steps, peek-Steps,
  Fails, wrong_type-Fails, maybe_number_error-Fails, int_error-Fails, expecting-Steps, refused,
}
use jiter.Jiter.Methods.{
  Holds, Moves, Stays, Span, InData, Holds-Later, peeked-Steps, sliced-Steps, known_null-Steps,
  known_array-Steps, array_step-Steps, finish-Steps, known_str-Steps, known_bytes-Steps,
  known_skip-Steps, object-Steps, object_bytes-Steps, decode_range-GivesAt,
}

module _ (L : NumberLibs) (laws : LexicalLaws L) where
  open L use {Float, BigInt}

  -- A method that asks for a value of one type, by its first byte.
  asked-Steps :
      {A : Type 0} (byte : ℕ) (expected : JsonType) (known : J A) (j : Jiter)
      → Holds j
      → ((k : Jiter) → Holds k → At byte k.parser → Steps k (Moves k) (known k))
      → Steps j (Moves j) (expecting L byte expected known j)
  asked-Steps byte expected known j holds f = expecting-Steps L laws byte expected known j λ k l h.
      Steps-from (Later-refl k) (f k (Holds-Later holds l) h) λ a m b x. omega (arith, l.ahead)

  -- A number of any decoder that goes forward.
  number-Steps :
      {O : Type 0} (decode_num : DecodeNumber O) (steps : NumberSteps decode_num)
      (f : JsonError → Jiter → JiterResult O) (c : ℕ) (k : Jiter)
      → ((e : JsonError) (m : Jiter) → Fails (f e m))
      → At c k.parser
      → Steps k (Moves k) (put_parser f k (consume_number decode_num c k.allow_inf_nan k.parser))
  number-Steps decode_num steps f c k h at =
      parsing_or-Steps {Q = Past k.parser} k f h
        (consume_number-Runs decode_num steps c k.allow_inf_nan k.parser at)

  known_number-Steps : (c : ℕ) (k : Jiter) → At c k.parser → Steps k (Moves k) (known_number L c k)
  unfolding known_number
  known_number-Steps c k h =
      number-Steps _ (decode_any-NumberSteps L laws) _ c k
        (maybe_number_error-Fails L laws JsonType.int c) h

  known_int-Steps : (c : ℕ) (k : Jiter) → At c k.parser → Steps k (Moves k) (known_int L c k)
  unfolding known_int
  known_int-Steps c k h =
      number-Steps _ (λ bytes index first inf_nan l. decode_int-Ensures L bytes index first inf_nan)
        _ c k (int_error-Fails L laws c) h

  known_float-Steps : (c : ℕ) (k : Jiter) → At c k.parser → Steps k (Moves k) (known_float L c k)
  unfolding known_float
  known_float-Steps c k h =
      number-Steps _
        (λ bytes index first inf_nan g. decode_float-Ensures L laws bytes index first inf_nan g) _ c
        k (maybe_number_error-Fails L laws JsonType.float c) h

  known_number_bytes-Steps :
      (c : ℕ) (k : Jiter) → Holds k → At c k.parser → Steps k (Moves k) (known_number_bytes L c k)
  unfolding known_number_bytes consume_number
  known_number_bytes-Steps c k holds h =
      sliced-Steps (λ (r : NumberRange). r.from) (λ (r : NumberRange). r.to) k holds
        (parsing_or-Steps {Q = λ r q. (k.parser.index < q.index) × Span k.parser.bytes r.from r.to}
          k _ (maybe_number_error-Fails L laws JsonType.float c)
          (set_index-Runs {G = λ r. Span k.parser.bytes r.from r.to} k.parser (
            Ensures-weaken
              (Steps.decode_range-Ensures k.parser.bytes k.parser.index c k.allow_inf_nan)
              λ v e. (omega arith, (omega arith, omega arith)))))

  either :
      {A : Type 0} (b : Bool) (k : Jiter) (f g : J A)
      → Steps k (Moves k) (f k)
      → Steps k (Moves k) (g k)
      → Steps k (Moves k) ((if b then f else g) k)
  either true k f g x y = x
  either false k f g x y = y

  known_bool-Steps : (c : ℕ) (k : Jiter) → At c k.parser → Steps k (Moves k) (known_bool L c k)
  unfolding known_bool
  known_bool-Steps c k h =
      either (c == b't') k _ _
        (Steps-next (parsing-Steps {Q = Past k.parser} k (consume_ident-Runs true_rest k.parser))
          λ u m l x. returns l x)
        (either (c == b'f') k _ _
          (Steps-next (parsing-Steps {Q = Past k.parser} k (consume_ident-Runs false_rest k.parser))
            λ u m l x. returns l x)
          (refused (wrong_type-Fails L laws JsonType.bool c k λ _. h) (Later-refl k)))

  next_value-Steps :
      (j : Jiter) → Steps j Stays (next_value L j) × Steps j Stays (next_value_owned L j)
  unfolding next_value known_value next_value_owned known_value_owned take_value_borrowed
      take_value_owned
  next_value-Steps j = (
    Steps-next (peek-Steps j) λ c k l h.
        Steps-from l
          (parsing-Steps {Q = λ v q. Unit} k (
            take_value-Runs (decode []) (decode_any L) cow_from (value_config L k)
              decode-StringSteps (decode_any-NumberSteps L laws) c k.parser h))
          λ v m b x. tt,
    Steps-next (peek-Steps j) λ c k l h.
        Steps-from l
          (parsing-Steps {Q = λ v q. Unit} k (
            take_value-Runs (decode []) (decode_any L) string_from (value_config L k)
              decode-StringSteps (decode_any-NumberSteps L laws) c k.parser h))
          λ v m b x. tt,
  )

  -- Where lexical_parse_float takes a byte at least and refuses, of what begins with a digit or
  -- with a minus and a digit, only what `NumberRange` refuses too, `finish`, `array_step` and every
  -- `next_*` method give a value or an error from every state in which the parser reads the
  -- iterator's data: they neither panic nor run out of fuel; the index is no further back in the
  -- same data, and further on behind a value of every method but `finish`, `next_value` and
  -- `next_value_owned`.
  pub next-Steps :
      (j : Jiter)
      → Holds j
      → Steps j Stays (next_value L j)
        × Steps j Stays (next_value_owned L j)
        × Steps j (Moves j) (next_skip j)
        × Steps j (Moves j) (next_null L j)
        × Steps j (Moves j) (next_bool L j)
        × Steps j (Moves j) (next_number L j)
        × Steps j (Moves j) (next_int L j)
        × Steps j (Moves j) (next_float L j)
        × Steps j (Moves j) (next_number_bytes L j)
        × Steps j (Moves j) (next_str L j)
        × Steps j (Moves j) (next_bytes L j)
        × Steps j (Moves j) (next_array L j)
        × Steps j (Moves j) (array_step j)
        × Steps j (Moves j) (next_object L j)
        × Steps j (Moves j) (next_object_bytes L j)
        × Steps j (Moves j) (next_key j)
        × Steps j (Moves j) (next_key_bytes j)
        × Steps j Stays (finish j)
  unfolding next_skip next_null next_bool next_number next_int next_float next_number_bytes next_str
      next_bytes next_array next_object next_object_bytes next_key next_key_bytes known_object
  next-Steps j h = (
    (next_value-Steps j).0,
    (next_value-Steps j).1,
    peeked-Steps known_skip j h (λ c k m a. known_skip-Steps c k a),
    asked-Steps b'n' JsonType.null known_null j h (λ k m a. known_null-Steps k),
    peeked-Steps (known_bool L) j h (λ c k m a. known_bool-Steps c k a),
    peeked-Steps (known_number L) j h (λ c k m a. known_number-Steps c k a),
    peeked-Steps (known_int L) j h (λ c k m a. known_int-Steps c k a),
    peeked-Steps (known_float L) j h (λ c k m a. known_float-Steps c k a),
    peeked-Steps (known_number_bytes L) j h known_number_bytes-Steps,
    asked-Steps b'"' JsonType.string known_str j h (λ k m a. known_str-Steps k a),
    asked-Steps b'"' JsonType.string known_bytes j h known_bytes-Steps,
    asked-Steps b'[' JsonType.array known_array j h (λ k m a. known_array-Steps k),
    array_step-Steps j,
    asked-Steps b'{' JsonType.object known_object j h (λ k m a. object-Steps k (
        object_first-Runs (λ _. Unit) (decode []) (StringSteps-StringGives decode-StringSteps)
          k.parser)),
    asked-Steps b'{' JsonType.object _ j h (λ k m a. object_bytes-Steps k m (
        object_first_here-Runs (InData k.parser.bytes) decode_range k.parser.bytes
          (decode_range-GivesAt k.parser.bytes) k.parser refl)),
    object-Steps j (
        object_step-Runs (λ _. Unit) (decode []) (StringSteps-StringGives decode-StringSteps)
          j.parser),
    object_bytes-Steps j h (
        object_step_here-Runs (InData j.parser.bytes) decode_range j.parser.bytes
          (decode_range-GivesAt j.parser.bytes) j.parser refl),
    finish-Steps j,
  )
