-- ===== src/Value/Take/Deep.antt =====
-- `take_value` of crates/jiter/src/value.rs on containers that are nested too deep.
use jiter.Prelude.{
  ℕ, zero, suc, ◌+◌, ◌<◌, ◌≤◌, ◌≡◌, ◌∙◌, refl, true, false, List, [], ◌∷◌, ◌++◌, arith, Bytes,
  length, length-append, length-drop, ap, drop, leb, ◌==◌,
}
use jiter.Prelude.Slices.{drop-append, drop-cons}
use jiter.Errors.{recursion_limit_exceeded}
use jiter.Parse.{is_whitespace, M, fail, pure, DecodeString, DecodeNumber}
use jiter.Parse.Whitespace.{Blank}
use jiter.Parse.Reads.{at, drop-colon}
use jiter.Number.Float.{NumberAny}
use jiter.Strings.Decode.{StringOutput}
use jiter.Value.Data.{JsonValue, RecursedValue, in_array, in_object, no_value, no_entry}
use jiter.Value.Grammar.Lengths.{length-object}
use jiter.Value.Take.{Config, enter, open_value, take_value, take_value_loop}
use jiter.Value.Take.Opens.{Decodes, open_value-array, open_value-object}
use jiter.Value.Take.Advances.{Loop, Loop-enter}

-- `Nested n c t d u`: the text `c ∷ t` opens `n` containers, each the first value of the one around it,
-- down to the first value of the last, which begins with `d` and is all there is from there on, `u`.
pub data Nested (IsString : Bytes → Bytes → Type 0) : ℕ → ℕ → Bytes → ℕ → Bytes → Type 0 where
  within_all :
      {d : ℕ} {u : Bytes} → is_whitespace d ≡ false → d == b']' ≡ false → Nested IsString 0 d u d u
  into_array :
      {n c d : ℕ} (w t : Bytes) {u : Bytes}
      → Blank w
      → Nested IsString n c t d u
      → Nested IsString (suc n) b'[' (w ++ (c ∷ t)) d u
  into_object :
      {n c d : ℕ} (w s a b t : Bytes) {k u : Bytes}
      → Blank w
      → IsString s k
      → Blank a
      → Blank b
      → Nested IsString n c t d u
      → Nested IsString (suc n) b'{' (w ++ (b'"' ∷ (s ++ (a ++ (b':' ∷ (b ++ (c ∷ t))))))) d u

module _ {F B : Type 0} (IsString : Bytes → Bytes → Type 0)
    (IsNumber : ℕ → Bytes → JsonValue F B → Type 0) (decode_str : DecodeString StringOutput)
    (decode_num : DecodeNumber (NumberAny F B)) (create_cow : StringOutput → Bytes)
    (config : Config) (bytes : Bytes)
    (decodes : Decodes IsString IsNumber decode_str decode_num create_cow config.allow_inf_nan
      bytes) where
  open config use {recursion_limit}
  open decodes use {reads_string}

  pub Nested-first :
      {n c d : ℕ} {t u : Bytes}
      → Nested IsString n c t d u
      → (is_whitespace c ≡ false) × (c == b']' ≡ false)
  unfolding is_whitespace
  Nested-first (within_all s n) = (s, n)
  Nested-first (into_array w t b h) = (refl, refl)
  Nested-first (into_object w s a b t bw k ba bb h) = (refl, refl)

  innermost : {n c d : ℕ} {t u : Bytes} → Nested IsString n c t d u → n ≡ 0 → length t ≡ length u
  innermost (within_all s n) z = refl
  innermost (into_array w t b h) z = absurd (omega arith)
  innermost (into_object w s a b t bw k ba bb h) z = absurd (omega arith)

  -- The first value of a container, where the parser goes when it opens the container.
  record Inner (n c i end d : ℕ) (u : Bytes) : Type 0 where
    pub byte : ℕ
    pub behind : Bytes
    pub place : ℕ
    pub container : RecursedValue F B
    pub opens :
        open_value decode_str decode_num create_cow config c (at bytes i)
        ≡ pure (enter byte container) (at bytes place)
    pub nested : Nested IsString n byte behind d u
    pub stands : drop place bytes ≡ byte ∷ behind
    pub ends : place + length behind ≡ end

  inner :
      {n c d : ℕ} {t u : Bytes} (i : ℕ)
      → Nested IsString (suc n) c t d u
      → drop i bytes ≡ c ∷ t
      → Inner n c i (i + length t) d u
  inner i (into_array {c} w t bw h) e =
      let (first, bracket) = Nested-first h in
      record {
        byte = c;
        behind = t;
        place = i + 1 + length w;
        container = in_array no_value;
        opens =
            open_value-array decode_str decode_num create_cow config bytes i w c t e bw first
              bracket;
        nested = h;
        stands = drop-append w (i + 1) bytes (drop-cons i bytes e);
        ends = omega (arith, length-append w (c ∷ t));
      }
  inner i (into_object {c} w s a b t {k} bw l ba bb h) e =
      let (first, _) = Nested-first h in
      let i1 = i + 1 + length w in
      let i2 = i1 + 1 + length s + length a + 1 in
      let quote = drop-append w (i + 1) bytes (drop-cons i bytes e) in
      let (o, r, q) = reads_string s k i1 (a ++ (b':' ∷ (b ++ (c ∷ t)))) false l quote in
      record {
        byte = c;
        behind = t;
        place = i2 + length b;
        container = in_object no_entry (create_cow o);
        opens =
            open_value-object decode_str decode_num create_cow config bytes i w s a b c t o r e bw
              ba bb first;
        nested = h;
        stands = drop-append b i2 bytes (drop-colon decode_str bytes i1 s a (b ++ (c ∷ t)) quote);
        ends = omega (arith, length-object w s a b t c);
      }

  abbrev Run : ℕ → ℕ → RecursedValue F B → List (RecursedValue F B) → M (JsonValue F B)
  Run = Loop decode_str decode_num create_cow config

  Run-limit :
      (fuel c d i k : ℕ) (current r : RecursedValue F B) (stack : List (RecursedValue F B))
      → length (current ∷ stack) ≡ recursion_limit
      → open_value decode_str decode_num create_cow config c (at bytes i)
        ≡ pure (enter d r) (at bytes k)
      → Run (suc fuel) c current stack (at bytes i) ≡ fail recursion_limit_exceeded (at bytes k)
  unfolding take_value_loop
  Run-limit fuel c d i k current r stack l e =
      let full : leb recursion_limit (length (current ∷ stack)) ≡ true = ground arith in
      rw (e, full) refl

  Run-Nested :
      (m fuel i j : ℕ) {c d : ℕ} {t u : Bytes} (current : RecursedValue F B)
      (stack : List (RecursedValue F B))
      → Nested IsString (suc m) c t d u
      → drop i bytes ≡ c ∷ t
      → m < fuel
      → length (current ∷ stack) + m ≡ recursion_limit
      → j + length u ≡ i + length t
      → Run fuel c current stack (at bytes i) ≡ fail recursion_limit_exceeded (at bytes j)
  Run-Nested m zero i j current stack h e f l k = absurd (omega arith)
  Run-Nested zero (suc fuel) i j {c} {d} {t} {u} current stack h e f l k =
      let x = inner i h e in
      let p : j ≡ x.place = omega (arith, x.ends, innermost x.nested refl) in
      rw p (Run-limit fuel c x.byte i x.place current x.container stack (omega arith) x.opens)
  Run-Nested (suc m) (suc fuel) i j {c} current stack h e f l k =
      let x = inner i h e in
      Loop-enter decode_str decode_num create_cow config fuel (suc fuel) c x.byte current
        x.container stack (at bytes i) (at bytes x.place) refl (omega arith) x.opens
      ∙ Run-Nested m fuel x.place j x.container (current ∷ stack) x.nested x.stands (omega arith)
          (omega arith) (omega (arith, x.ends))

  deep_enough : {n c d : ℕ} {t u : Bytes} → Nested IsString n c t d u → n ≤ length t
  deep_enough (within_all s n) = omega arith
  deep_enough (into_array {c} w t b h) = omega (arith, deep_enough h, length-append w (c ∷ t))
  deep_enough (into_object {c} w s a b t bw k ba bb h) =
      omega (arith, deep_enough h, length-object w s a b t c)

  -- One container more than the limit: the error names the first value of the last.
  pub take_value-Nested :
      (m i j : ℕ) {c d : ℕ} {t u : Bytes}
      → Nested IsString (suc (suc m)) c t d u
      → drop i bytes ≡ c ∷ t
      → suc m ≡ recursion_limit
      → j + length u ≡ i + length t
      → take_value decode_str decode_num create_cow config c (at bytes i)
        ≡ fail recursion_limit_exceeded (at bytes j)
  unfolding take_value
  take_value-Nested m i j {c} {t} h e l k =
      let x = inner i h e in
      let room : m < length bytes + 2 =
        omega (arith, deep_enough h, ap length e, length-drop i bytes) in
      rw x.opens (
        Run-Nested m (length bytes + 2) x.place j x.container [] x.nested x.stands room
          (omega arith) (omega (arith, x.ends)))
