-- ===== src/Value/Take/Opens.antt =====
-- What `take_value` of crates/jiter/src/value.rs begins a value of the grammar with.
use jiter.Prelude.{
  ℕ, ◌+◌, ◌≡◌, refl, true, false, Bool, ◌||◌, ◌∷◌, ◌++◌, arith, Bytes, length, drop, ◌==◌,
}
use jiter.Prelude.Slices.{drop-append, drop-cons}
use jiter.Errors.{ok, allow_trailing_str}
use jiter.Parse.{
  is_whitespace, is_ascii_digit, pure, M, DecodeString, DecodeNumber, consume_string,
  consume_number, true_rest, false_rest, null_rest,
}
use jiter.Parse.Whitespace.{Blank}
use jiter.Parse.Reads.{
  at, Behind, ReadsString, array_first-some, array_first-none, object_first-some, object_first-none,
  drop-colon, peek_some, consume_ident_whole,
}
use jiter.Number.Float.{NumberAny}
use jiter.Strings.Decode.{StringOutput}
use jiter.Value.Data.{
  JsonValue, null, bool, str, array, object, no_value, no_entry, in_array, in_object,
}
use jiter.Value.Grammar.{count}
use jiter.Value.Take.{Config, Opened, enter, whole, number_value, take_scalar, open_value}

-- What the parser relies on in its decoders: they read the literals of the grammar to their end.
pub record Decodes {F B : Type 0} (IsString : Bytes → Bytes → Type 0)
    (IsNumber : ℕ → Bytes → JsonValue F B → Type 0) (decode_str : DecodeString StringOutput)
    (decode_num : DecodeNumber (NumberAny F B)) (create_cow : StringOutput → Bytes)
    (allow_inf_nan : Bool) (bytes : Bytes) : Type 0 where
  pub reads_string :
      (s x : Bytes) (i : ℕ) (rest : Bytes) (partial : Bool)
      → IsString s x
      → drop i bytes ≡ b'"' ∷ (s ++ rest)
      → (o : StringOutput) × ReadsString decode_str bytes i partial s o × (create_cow o ≡ x)
  pub number_first :
      (c : ℕ) (t : Bytes) (v : JsonValue F B)
      → IsNumber c t v
      → (is_ascii_digit c || c == b'-') ≡ true
  pub number_count : (c : ℕ) (t : Bytes) (v : JsonValue F B) → IsNumber c t v → count v ≡ 1
  pub reads_number :
      (c : ℕ) (t : Bytes) (v : JsonValue F B) (i : ℕ) (rest : Bytes)
      → IsNumber c t v
      → drop i bytes ≡ c ∷ (t ++ rest)
      → Behind rest
      → (n : NumberAny F B) × (number_value n ≡ v)
        × (decode_num bytes i c allow_inf_nan ≡ ok (n, i + 1 + length t))

module _ {F B : Type 0} (decode_str : DecodeString StringOutput)
    (decode_num : DecodeNumber (NumberAny F B)) (create_cow : StringOutput → Bytes)
    (config : Config) (bytes : Bytes) where
  open config use {allow_inf_nan, allow_partial}

  abbrev Open : ℕ → M (Opened F B)
  Open = open_value decode_str decode_num create_cow config

  abbrev Scalar : ℕ → M (JsonValue F B)
  Scalar = take_scalar decode_str decode_num create_cow config

  open_value-whole :
      (c i j : ℕ) (v : JsonValue F B)
      → c == b'[' ≡ false
      → c == b'{' ≡ false
      → Scalar c (at bytes i) ≡ pure v (at bytes j)
      → Open c (at bytes i) ≡ pure (whole v) (at bytes j)
  unfolding open_value
  open_value-whole c i j v h k e = rw (h, k, e) refl

  pub open_value-null :
      (i : ℕ) (rest : Bytes)
      → drop i bytes ≡ b'n' ∷ (null_rest ++ rest)
      → Open b'n' (at bytes i) ≡ pure (whole null) (at bytes (i + 1 + length null_rest))
  unfolding open_value
  open_value-null i rest e =
      rw (consume_ident_whole bytes i b'n' null_rest rest e, take_scalar) refl

  pub open_value-true :
      (i : ℕ) (rest : Bytes)
      → drop i bytes ≡ b't' ∷ (true_rest ++ rest)
      → Open b't' (at bytes i) ≡ pure (whole (bool true)) (at bytes (i + 1 + length true_rest))
  unfolding open_value
  open_value-true i rest e =
      rw (consume_ident_whole bytes i b't' true_rest rest e, take_scalar) refl

  pub open_value-false :
      (i : ℕ) (rest : Bytes)
      → drop i bytes ≡ b'f' ∷ (false_rest ++ rest)
      → Open b'f' (at bytes i) ≡ pure (whole (bool false)) (at bytes (i + 1 + length false_rest))
  unfolding open_value
  open_value-false i rest e =
      rw (consume_ident_whole bytes i b'f' false_rest rest e, take_scalar) refl

  pub open_value-string :
      (i : ℕ) (s : Bytes) (o : StringOutput)
      → ReadsString decode_str bytes i (allow_trailing_str allow_partial) s o
      → Open b'"' (at bytes i) ≡ pure (whole (str (create_cow o))) (at bytes (i + 1 + length s))
  unfolding open_value consume_string
  open_value-string i s o r = rw (r, take_scalar) refl

  pub open_value-number :
      (c i j : ℕ) (n : NumberAny F B)
      → (is_ascii_digit c || c == b'-') ≡ true
      → decode_num bytes i c allow_inf_nan ≡ ok (n, j)
      → Open c (at bytes i) ≡ pure (whole (number_value n)) (at bytes j)
  unfolding open_value consume_number
  open_value-number c i j n h e =
      let not_true : c == b't' ≡ false = ground arith in
      let not_false : c == b'f' ≡ false = ground arith in
      let not_null : c == b'n' ≡ false = ground arith in
      let not_string : c == b'"' ≡ false = ground arith in
      open_value-whole c i j (number_value n) (ground arith) (ground arith)
        (rw (not_true, not_false, not_null, not_string, e) refl)

  pub open_value-array :
      (i : ℕ) (w : Bytes) (c : ℕ) (rest : Bytes)
      → drop i bytes ≡ b'[' ∷ (w ++ (c ∷ rest))
      → Blank w
      → is_whitespace c ≡ false
      → c == b']' ≡ false
      → Open b'[' (at bytes i) ≡ pure (enter c (in_array no_value)) (at bytes (i + 1 + length w))
  unfolding open_value
  open_value-array i w c rest e b s n = rw (array_first-some bytes i w c rest e b s n) refl

  pub open_value-empty_array :
      (i : ℕ) (w rest : Bytes)
      → drop i bytes ≡ b'[' ∷ (w ++ (b']' ∷ rest))
      → Blank w
      → Open b'[' (at bytes i) ≡ pure (whole (array no_value)) (at bytes (i + 1 + length w + 1))
  unfolding open_value
  open_value-empty_array i w rest e b = rw (array_first-none bytes i w rest e b) refl

  pub open_value-empty_object :
      (i : ℕ) (w rest : Bytes)
      → drop i bytes ≡ b'{' ∷ (w ++ (b'}' ∷ rest))
      → Blank w
      → Open b'{' (at bytes i) ≡ pure (whole (object no_entry)) (at bytes (i + 1 + length w + 1))
  unfolding open_value
  open_value-empty_object i w rest e b = rw (object_first-none decode_str bytes i w rest e b) refl

  pub open_value-object :
      (i : ℕ) (w s a b : Bytes) (c : ℕ) (rest : Bytes) (o : StringOutput)
      → ReadsString decode_str bytes (i + 1 + length w) false s o
      → drop i bytes ≡ b'{' ∷ (w ++ (b'"' ∷ (s ++ (a ++ (b':' ∷ (b ++ (c ∷ rest)))))))
      → Blank w
      → Blank a
      → Blank b
      → is_whitespace c ≡ false
      → Open b'{' (at bytes i)
        ≡ pure
            (enter c (in_object no_entry (create_cow o)))
            (at bytes (i + 1 + length w + 1 + length s + length a + 1 + length b))
  unfolding open_value
  open_value-object i w s a b c rest o r e bw ba bb n =
      let k = drop-append w (i + 1) bytes (drop-cons i bytes e) in
      let d = drop-colon decode_str bytes (i + 1 + length w) s a (b ++ (c ∷ rest)) k in
      rw
        (
          object_first-some decode_str bytes i w s a (b ++ (c ∷ rest)) o r e bw ba,
          peek_some bytes (i + 1 + length w + 1 + length s + length a + 1) b c rest d bb n,
        )
        refl
