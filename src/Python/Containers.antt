-- ===== src/Python/Containers.antt =====
-- The runs of `parse_array` and of `parse_object` of `PythonParser` in crates/jiter/src/python.rs.
use jiter.Prelude.{
  ℕ, zero, suc, ◌+◌, ◌≤◌, ◌<◌, ◌≡◌, refl, ap, Bool, true, Option, none, some, List, [], ◌∷◌, ◌++◌,
  arith, Bytes, length,
}
use jiter.Errors.{JsonResult}
use jiter.Errors.Ensures.{Ensures, Ensures-test}
use jiter.Parse.{Peek, peek, array_step, object_first, object_step, DecodeString}
use jiter.Parse.Runs.{At, AtSome, peek-Runs, array_step-Runs}
use jiter.Parse.Runs.Decoders.{
  StringGives, Given, get_elem?-lt, object_first-Runs, object_step-Runs,
}
use jiter.Number.Libs.{NumberLibs}
use jiter.Number.Float.Steps.{LexicalLaws}
use jiter.Strings.Decode.{StringOutput, as_str, ascii_only_of}
use jiter.Strings.Utf8.Ascii.{all_ascii}
use jiter.StringCache.{PyStrings, PyStringLaws}
use jiter.StringCache.Mode.{IsShared, get_key, get_key-Makes}
use jiter.Python.Libs.{PyObjects, PythonParse}
use jiter.Python.State.{PythonParser, S, beside, parsing, making}
use jiter.Python.Take.{
  contains, check_key, restored, limited, check_take_value, while_some, parse_array, put_dict,
  set_item, checked, parse_entry, parse_entries, parse_object,
}
use jiter.Python.Runs.{
  From, From-refl, Goes, returns, refuses, Self, Beside, Goes-next, Goes-weaken, Any, parsing-Goes,
  beside-Goes, making-Goes,
}

-- A string that is flagged as ASCII is ASCII.
abbrev pub Flagged : StringOutput → Type 0
Flagged s = ascii_only_of s ≡ true → all_ascii (as_str s) ≡ true

-- `PyDict_SetItem` does not fail for a string.
abbrev pub SetsItems : {L : NumberLibs} {P : PyStrings} → PyObjects L P → Type 0
SetsItems {L} {P} O =
    (key : P.PyString) (v : O.Object) (d : O.Dict)
    → (filled : O.Dict) × (O.set_item key v d ≡ some filled)

module _ {L : NumberLibs} {P : PyStrings} (O : PyObjects L P)
    (decode_str : DecodeString StringOutput) (config : PythonParse) (poisoned : Bool)
    (lexical : LexicalLaws L) (texts : PyStringLaws P) (sets : SetsItems O)
    (strings : StringGives Flagged decode_str) where
  open O use {Object, Dict}
  open config use {allow_inf_nan, cache_mode, partial_mode, catch_duplicate_keys, float_mode}

  abbrev pub St : Type 0
  St = PythonParser P

  -- What holds before a value is taken: the cache can be used, and the limit allows fewer containers.
  abbrev pub Ready : ℕ → St → Type 0
  Ready depth s = IsShared P s.shared.0 × (s.recursion_limit < depth) × (s.recursion_limit < 256)

  pub Ready-weaken : (depth : ℕ) {s t : St} → Ready depth s → From s t → Ready depth t
  Ready-weaken depth r f = (f.shares, omega (arith, f.same_limit), omega (arith, f.same_limit))

  -- Taking a value with at most so many containers in it.
  abbrev pub Takes : (Peek → S St Object) → ℕ → Type 0
  Takes take depth = (c : ℕ) (s : St) → Ready depth s → At c s.parser → Goes Self s Any (take c s)

  restored-Goes :
      (s : St) (limit : ℕ) {r : JsonResult Object × St}
      → s.recursion_limit ≡ suc limit
      → suc limit < 256
      → Goes Self (record s { recursion_limit = limit }) Any r
      → Goes Self s Any (restored O decode_str config poisoned r)
  unfolding restored
  restored-Goes s limit e l (returns f x) =
      returns
        record { ahead = f.ahead; same_limit = omega (arith, f.same_limit); shares = f.shares } x
  restored-Goes s limit e l (refuses f) =
      refuses
        record { ahead = f.ahead; same_limit = omega (arith, f.same_limit); shares = f.shares }

  limited-Goes :
      (take : Peek → S St Object) (depth : ℕ) (c : ℕ) (s : St) (limit : ℕ)
      → Takes take depth
      → Ready (suc depth) s
      → At c s.parser
      → s.recursion_limit ≡ limit
      → Goes Self s Any (limited O decode_str config poisoned limit (take c) s)
  unfolding limited
  limited-Goes take depth c s zero k r h e = refuses (From-refl s r.0)
  limited-Goes take depth c s (suc limit) k r h e =
      restored-Goes s limit e (omega arith)
        (k c (record s { recursion_limit = limit }) (r.0, omega arith, omega arith) h)

  pub check_take_value-Goes :
      (take : Peek → S St Object) (depth : ℕ) (c : ℕ) (s : St)
      → Takes take depth
      → Ready (suc depth) s
      → At c s.parser
      → Goes Self s Any (check_take_value O decode_str config poisoned take c s)
  unfolding check_take_value
  check_take_value-Goes take depth c s k r h =
      limited-Goes take depth c s s.recursion_limit k r h refl

  while_some-Goes :
      (go : Peek → S (List Object × St) (Unit {0})) (s : St) (x : List Object × St)
      (o : Option Peek)
      → From s x.1
      → AtSome o x.1.parser
      → ((c : ℕ) → At c x.1.parser → Goes Beside x.1 Any (go c x))
      → Goes Beside s Any (while_some O decode_str config poisoned go o x)
  unfolding while_some
  while_some-Goes go s x none a h k = returns a tt
  while_some-Goes go s x (some c) a h k = Goes-weaken a (k c h) λ u y b l. tt

  pub parse_array-Goes :
      (rounds : ℕ) (take : Peek → S St Object) (depth : ℕ) (c : ℕ) (vec : List Object) (s : St)
      → Takes take depth
      → Ready (suc depth) s
      → At c s.parser
      → length s.parser.bytes < rounds + s.parser.index
      → Goes Beside s Any (parse_array O decode_str config poisoned rounds take c (vec, s))
  unfolding parse_array
  parse_array-Goes zero take depth c vec s k r h f =
      absurd (omega (arith, get_elem?-lt s.parser.bytes s.parser.index h))
  parse_array-Goes (suc rounds) take depth c vec s k r h f =
      Goes-next
        (beside-Goes (check_take_value O decode_str config poisoned take c) vec
          (check_take_value-Goes take depth c s k r h))
        λ v x a l.
          Goes-next
            (Goes-weaken a
              (beside-Goes (parsing array_step) (x.0 ++ (v ∷ []))
                (parsing-Goes x.1 array_step a.shares (array_step-Runs x.1.parser)))
              λ o y b h. h)
            λ o y b m.
              let e : length y.1.parser.bytes ≡ length s.parser.bytes = ap length b.ahead.0 in
              while_some-Goes _ s y o b m.1 λ d h'.
                parse_array-Goes rounds take depth d y.0 y.1 k (Ready-weaken (suc depth) r b) h'
                  (omega (arith, a.ahead))

  -- The state stays as it is.
  abbrev pub Still : {A : Type 0} → St → A → St → Type 0
  Still s a t = t.parser ≡ s.parser

  pub ensured-Goes :
      {A : Type 0} {Q : A → Type 0} (s : St) {r : JsonResult A}
      → IsShared P s.shared.0
      → Ensures Q r
      → Goes Self s (Still s) (r, s)
  ensured-Goes s h (Ensures.returns x) = returns (From-refl s h) refl
  ensured-Goes s h Ensures.refuses = refuses (From-refl s h)

  checked-Goes :
      (keys : List Bytes) (key : Bytes) (s : St)
      → IsShared P s.shared.0
      → Goes Self s (Still s) (checked O decode_str config poisoned keys key s)
  unfolding checked check_key
  checked-Goes keys key s h = ensured-Goes s h (
      Ensures-test {P = λ seen. Unit} catch_duplicate_keys
        (λ _. Ensures-test (contains keys key) (λ _. Ensures.refuses) (λ _. Ensures.returns tt))
        (λ _. Ensures.returns tt))

  set_item-Goes :
      (key : P.PyString) (v : Object) (dict : Dict) (s : St)
      → IsShared P s.shared.0
      → Goes Beside s (λ u x. x.1 ≡ s) (set_item O decode_str config poisoned key v (dict, s))
  unfolding set_item put_dict
  set_item-Goes key v dict s h =
      let (filled, e) = sets key v dict in rw e (returns (From-refl s h) refl)

  -- A step that follows another one, from where that one has come.
  then-Goes :
      {C A : Type 0} {Q : A → St → Type 0} (m : S St A) (s : St) (x : C × St)
      → From s x.1
      → Goes Self x.1 Q (m x.1)
      → Goes Beside s (λ a y. Q a y.1) (beside m x)
  then-Goes m s x a h = Goes-weaken a (beside-Goes m x.0 h) λ v y b q. q

  parse_entry-Goes :
      (take : Peek → S St Object) (depth : ℕ) (keys : List Bytes) (key : StringOutput) (dict : Dict)
      (s : St)
      → Takes take depth
      → Ready (suc depth) s
      → Flagged key
      → Goes Beside s Any (parse_entry O decode_str config poisoned take keys key (dict, s))
  unfolding parse_entry
  parse_entry-Goes take depth keys key dict s k r g =
      Goes-next
        (beside-Goes (checked O decode_str config poisoned keys (as_str key)) dict
          (checked-Goes keys (as_str key) s r.0))
        λ seen x a i.
          Goes-next
            (then-Goes (making (get_key P cache_mode poisoned (as_str key) (ascii_only_of key))) s x
              a
              (making-Goes x.1 (as_str key)
                (get_key P cache_mode poisoned (as_str key) (ascii_only_of key))
                (get_key-Makes P texts cache_mode poisoned (as_str key) (ascii_only_of key)
                  x.1.shared.0 x.1.shared.1 a.shares g).0))
            λ py_key y b j.
              Goes-next
                (then-Goes (parsing peek) s y b
                  (parsing-Goes y.1 peek b.shares (peek-Runs y.1.parser)))
                λ c z d h.
                  Goes-next
                    (then-Goes (check_take_value O decode_str config poisoned take c) s z d
                      (check_take_value-Goes take depth c z.1 k (Ready-weaken (suc depth) r d) h))
                    λ v w e l.
                      Goes-next
                        (Goes-weaken e (set_item-Goes py_key v w.0 w.1 e.shares) λ u y' f q. q)
                        λ u y' f q. returns f tt

  parse_entries-Goes :
      (rounds : ℕ) (take : Peek → S St Object) (depth : ℕ) (keys : List Bytes)
      (o : Option StringOutput) (dict : Dict) (s : St)
      → Takes take depth
      → Ready (suc depth) s
      → Given Flagged o
      → s.parser.index ≤ length s.parser.bytes
      → length s.parser.bytes < rounds + s.parser.index
      → Goes Beside s Any (parse_entries O decode_str config poisoned rounds take keys o (dict, s))
  unfolding parse_entries
  parse_entries-Goes zero take depth keys o dict s k r g b f = absurd (omega arith)
  parse_entries-Goes (suc rounds) take depth keys none dict s k r g n f =
      returns (From-refl s r.0) tt
  parse_entries-Goes (suc rounds) take depth keys (some key) dict s k r g n f =
      Goes-next (parse_entry-Goes take depth keys key dict s k r g) λ seen x a l.
        Goes-next
          (then-Goes (parsing (object_step decode_str)) s x a (
            parsing-Goes x.1 (object_step decode_str) a.shares
              (object_step-Runs Flagged decode_str strings x.1.parser)))
          λ o y b m.
            let e : length y.1.parser.bytes ≡ length s.parser.bytes = ap length b.ahead.0 in
            Goes-weaken b
              (parse_entries-Goes rounds take depth seen o y.0 y.1 k (Ready-weaken (suc depth) r b)
                m.1 m.2 (omega (arith, a.ahead)))
              λ u z c n. tt

  pub parse_object-Goes :
      (rounds : ℕ) (take : Peek → S St Object) (depth : ℕ) (dict : Dict) (s : St)
      → Takes take depth
      → Ready (suc depth) s
      → length s.parser.bytes < rounds
      → Goes Beside s Any (parse_object O decode_str config poisoned rounds take (dict, s))
  unfolding parse_object
  parse_object-Goes rounds take depth dict s k r f =
      Goes-next
        (beside-Goes (parsing (object_first decode_str)) dict (
          parsing-Goes s (object_first decode_str) r.0
            (object_first-Runs Flagged decode_str strings s.parser)))
        λ o x a m.
          let e : length x.1.parser.bytes ≡ length s.parser.bytes = ap length a.ahead.0 in
          Goes-weaken a
            (parse_entries-Goes rounds take depth [] o x.0 x.1 k (Ready-weaken (suc depth) r a) m.1
              m.2 (omega arith))
            λ u z c n. tt
