-- ===== src/Python/Total.antt =====
-- The runs of `PythonParser::py_take_value` and of `python_parse` of crates/jiter/src/python.rs.
use jiter.Prelude.{
  ℕ, zero, suc, ◌+◌, ◌<◌, Bool, true, false, Option, none, some, [], arith, Bytes, ◌==◌, length,
}
use jiter.Errors.{JsonResult, is_active, allow_trailing_str}
use jiter.Errors.Ensures.{Ensures-weaken}
use jiter.Parse.{Peek, consume_ident, peek, array_first, finish, consume_string, DecodeString}
use jiter.Parse.Runs.{finish-Runs, At, AtSome, peek-Runs, array_first-Runs, consume_ident-Runs}
use jiter.Parse.Runs.Decoders.{StringGives, consume_string-Runs}
use jiter.Number.Libs.{NumberLibs}
use jiter.Number.Float.Steps.{LexicalLaws}
use jiter.Strings.Decode.{StringOutput, as_str, ascii_only_of, decode}
use jiter.Strings.Decode.Sound.{decode-IsDecoded}
use jiter.StringCache.{PyStrings, PyStringLaws}
use jiter.StringCache.Mode.{Shared, IsShared, get_value, get_key-Makes}
use jiter.Python.Libs.{PyObjects, PythonParse}
use jiter.Python.Numbers.{converted, parse_number}
use jiter.Python.Numbers.Runs.{converted-Runs, parse_number-Runs}
use jiter.Python.State.{PythonParser, S, pure, ◌>>=◌, parsing}
use jiter.Python.Take.{
  kept, first_value, take_array, take_object, take_string, py_take_value, finishing, parse,
}
use jiter.Python.Entry.{initial, python_parse}
use jiter.Python.Runs.{
  From, From-refl, Any, Goes, returns, refuses, Self, Beside, Goes-next, Goes-weaken, Goes-choice,
  OrNone, tolerate-Goes, parsing-Goes, making-Goes,
}
use jiter.Python.Containers.{
  Flagged, SetsItems, Ready, Takes, Ready-weaken, parse_array-Goes, parse_object-Goes,
}

module _ {L : NumberLibs} {P : PyStrings} (O : PyObjects L P)
    (decode_str : DecodeString StringOutput) (config : PythonParse) (poisoned : Bool)
    (lexical : LexicalLaws L) (texts : PyStringLaws P) (sets : SetsItems O)
    (strings : StringGives Flagged decode_str) where
  open O use {Object, Dict}
  open config use {allow_inf_nan, cache_mode, partial_mode, float_mode}

  abbrev State : Type 0
  State = PythonParser P

  abbrev Steps : (Peek → S State Object) → ℕ → Type 0
  Steps = Takes O decode_str config poisoned lexical texts sets strings

  abbrev Before : ℕ → State → Type 0
  Before = Ready O decode_str config poisoned lexical texts sets strings

  literal-Goes :
      (v : Object) (expected : Bytes) (s : State)
      → IsShared P s.shared.0
      → Goes Self s Any ((parsing (consume_ident expected) >>= (λ u. pure v)) s)
  literal-Goes v expected s h =
      Goes-next (parsing-Goes s (consume_ident expected) h (consume_ident-Runs expected s.parser))
        λ u t a l. returns a tt

  take_string-Goes :
      (c : ℕ) (s : State)
      → IsShared P s.shared.0
      → At c s.parser
      → Goes Self s Any (take_string O decode_str config poisoned s)
  unfolding take_string
  take_string-Goes c s h g =
      Goes-next
        (parsing-Goes s (consume_string decode_str (allow_trailing_str partial_mode)) h (
          consume_string-Runs Flagged decode_str strings (allow_trailing_str partial_mode) c
            s.parser g))
        λ str t a l.
          Goes-next
            (Goes-weaken a
              (making-Goes t (as_str str)
                (get_value P cache_mode poisoned (as_str str) (ascii_only_of str))
                (get_key-Makes P texts cache_mode poisoned (as_str str) (ascii_only_of str)
                  t.shared.0 t.shared.1 a.shares l.1).1)
              λ o u b q. q)
            λ py_str u b q. returns b tt

  -- What is filled is kept where it ended with an error that is tolerated.
  kept-Goes :
      {C : Type 0} (make : C → S State Object) (s : State)
      {r : JsonResult (Option (Unit {0})) × (C × State)}
      → Goes Beside s (OrNone Any) r
      → ((x : C × State) → From s x.1 → Goes Self x.1 Any (make x.0 x.1))
      → Goes Self s Any (kept O decode_str config poisoned make r)
  unfolding kept
  kept-Goes make s (returns {x = x} a q) k = Goes-weaken a (k x a) λ o t b u. tt
  kept-Goes make s (refuses a) k = refuses a

  first_value-Goes :
      (take : Peek → S State Object) (depth : ℕ) (o : Option (Option Peek)) (s : State)
      → Steps take depth
      → Before (suc depth) s
      → OrNone (λ (p : Option ℕ) (t : State). AtSome p t.parser) o s
      → Goes Self s Any (first_value O decode_str config poisoned take o s)
  unfolding first_value
  first_value-Goes take depth (some (some c)) s k r h =
      kept-Goes _ s
        (tolerate-Goes partial_mode (
          parse_array-Goes O decode_str config poisoned lexical texts sets strings
            (length s.parser.bytes + 2) take depth c [] s k r h (omega arith)))
        λ x a.
          Goes-weaken (From-refl x.1 a.shares)
            (parsing-Goes x.1 (converted O (O.list x.0)) a.shares
              (converted-Runs O lexical (O.list x.0) x.1.parser))
            λ o t b q. tt
  first_value-Goes take depth (some none) s k r h = returns (From-refl s r.0) tt
  first_value-Goes take depth none s k r h = returns (From-refl s r.0) tt

  take_array-Goes :
      (take : Peek → S State Object) (depth : ℕ) (s : State)
      → Steps take depth
      → Before (suc depth) s
      → Goes Self s Any (take_array O decode_str config poisoned take s)
  unfolding take_array
  take_array-Goes take depth s k r =
      Goes-next
        (tolerate-Goes partial_mode (
          Goes-weaken (From-refl s r.0) (parsing-Goes s array_first r.0 (array_first-Runs s.parser))
            λ o t a h. h.1))
        λ o t a h.
          Goes-weaken a
            (first_value-Goes take depth o t k
              (Ready-weaken O decode_str config poisoned lexical texts sets strings (suc depth) r a)
              h)
            λ v u b q. tt

  take_object-Goes :
      (take : Peek → S State Object) (depth : ℕ) (s : State)
      → Steps take depth
      → Before (suc depth) s
      → Goes Self s Any (take_object O decode_str config poisoned take s)
  unfolding take_object
  take_object-Goes take depth s k r =
      kept-Goes _ s
        (tolerate-Goes partial_mode (
          parse_object-Goes O decode_str config poisoned lexical texts sets strings
            (length s.parser.bytes + 2) take depth O.empty_dict s k r (omega arith)))
        λ x a. returns (From-refl x.1 a.shares) tt

  py_take_value-Goes : (depth : ℕ) → Steps (py_take_value O decode_str config poisoned depth) depth
  unfolding py_take_value
  py_take_value-Goes zero c s r h = absurd (omega (arith, r.1))
  py_take_value-Goes (suc depth) c s r h =
      let inner = py_take_value-Goes depth in
      Goes-choice (c == b'n') _ _ (λ _. literal-Goes O.none _ s r.0)
        λ _.
          Goes-choice (c == b't') _ _ (λ _. literal-Goes (O.bool true) _ s r.0)
            λ _.
              Goes-choice (c == b'f') _ _ (λ _. literal-Goes (O.bool false) _ s r.0)
                λ _.
                  Goes-choice (c == b'"') _ _ (λ _. take_string-Goes c s r.0 h)
                    λ _.
                      Goes-choice (c == b'[') _ _ (λ _. take_array-Goes _ depth s inner r)
                        λ _.
                          Goes-choice (c == b'{') _ _ (λ _. take_object-Goes _ depth s inner r)
                            λ _.
                              Goes-weaken (From-refl s r.0)
                                (parsing-Goes s (parse_number O float_mode c allow_inf_nan) r.0 (
                                  parse_number-Runs O lexical float_mode c allow_inf_nan s.parser
                                    h))
                                λ v t a q. tt

  finishing-Goes :
      (v : Object) (s : State)
      → IsShared P s.shared.0
      → Goes Self s Any (finishing O decode_str config poisoned v s)
  unfolding finishing
  finishing-Goes v s h =
      Goes-choice (is_active partial_mode) _ _ (λ _. returns (From-refl s h) tt)
        λ _. Goes-next (parsing-Goes s finish h (finish-Runs s.parser)) λ u t a q. returns a tt

  parse-Goes :
      (s : State)
      → IsShared P s.shared.0
      → s.recursion_limit < 256
      → Goes Self s Any (parse O decode_str config poisoned s)
  unfolding parse
  parse-Goes s h l = Goes-next (parsing-Goes s peek h (peek-Runs s.parser)) λ c t a at.
      let ready : Before (s.recursion_limit + 1) t =
        (a.shares, omega (arith, a.same_limit), omega (arith, a.same_limit)) in
      Goes-next
        (Goes-weaken a (py_take_value-Goes (s.recursion_limit + 1) c t ready at) λ v u b q. tt)
        λ v u b q. Goes-weaken b (finishing-Goes v u b.shares) λ w x d q'. tt

-- Where lexical_parse_float takes a byte at least and refuses, of what begins with a digit or with
-- a minus and a digit, only what `NumberRange` refuses too, a new Python string has the text it is
-- made of and a dictionary takes every string as a key, `python_parse` of any bytes, in every mode
-- and on a string cache as an earlier parse leaves it, makes an object or gives an error: it
-- neither panics nor runs out of fuel, the recursion limit is back at 200 whatever the end, and the
-- string cache is one that the next parse can use.
pub python_parse-Goes :
    {L : NumberLibs} {P : PyStrings} (O : PyObjects L P) (lexical : LexicalLaws L)
    (texts : PyStringLaws P) (sets : SetsItems O) (config : PythonParse) (poisoned : Bool)
    (json_data : Bytes) (shared : Shared P)
    → IsShared P shared.0
    → Goes Self (initial O json_data shared) Any (python_parse O config poisoned json_data shared)
unfolding python_parse
python_parse-Goes O lexical texts sets config poisoned json_data shared h =
    parse-Goes O (decode []) config poisoned lexical texts sets
      (λ bytes index partial l.
        Ensures-weaken (decode-IsDecoded [] bytes index partial l) λ v d. (d.1, d.3))
      (initial O json_data shared) h (omega arith)
