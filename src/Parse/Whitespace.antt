-- ===== src/Parse/Whitespace.antt =====
-- What `eat_whitespace` of crates/jiter/src/parse.rs skips and where it stops, and `peek` and
-- `finish`, which rest on it.
use jiter.Prelude.{
  ◌⊎◌, ℕ, ◌+◌, ◌≡◌, refl, ap, true, false, Option, none, some, [], ◌∷◌, ◌++◌, ◌↔◌, append-nil, inl,
  inr, arith, Bytes, length, drop, All, Bool-cases,
}
use jiter.Prelude.Slices.{drop-append}
use jiter.Errors.{JsonErrorType, ok, eof_while_parsing_value}
use jiter.Parse.{
  Parser, M, advance, fail, pure, eaten, on_next, is_whitespace, eat_from, eat_whitespace, peek,
  finish,
}

abbrev pub Blank : Bytes → Type 0
Blank = All (λ c. is_whitespace c ≡ true)

-- The bytes start with no whitespace.
abbrev pub Stops : Bytes → Type 0
Stops [] = Unit
Stops (c ∷ cs) = is_whitespace c ≡ false

abbrev pub first : Bytes → Option ℕ
first [] = none
first (c ∷ cs) = some c

eat_from-Blank :
    (ws rest : Bytes) (index : ℕ)
    → Blank ws
    → Stops rest
    → eat_from (ws ++ rest) index ≡ (first rest, index + length ws)
unfolding eat_from
eat_from-Blank [] [] index b s = ground arith
eat_from-Blank [] (c ∷ cs) index b s = ground arith
eat_from-Blank (w ∷ ws) rest index (h, b) s = ground (arith, eat_from-Blank ws rest (index + 1) b s)

pub eat_whitespace-Blank :
    (p : Parser) (ws rest : Bytes)
    → drop p.index p.bytes ≡ ws ++ rest
    → Blank ws
    → Stops rest
    → eat_whitespace p ≡ (first rest, advance (length ws) p)
unfolding eat_whitespace
eat_whitespace-Blank p ws rest e b s = rw e (rw (eat_from-Blank ws rest p.index b s))

-- How bytes split into their leading whitespace and the rest.
record Split (cs : Bytes) : Type 0 where
  pub ws : Bytes
  pub rest : Bytes
  pub splits : cs ≡ ws ++ rest
  pub blank : Blank ws
  pub stops : Stops rest

split : (cs : Bytes) → Split cs
split [] = record { ws = []; rest = []; splits = refl; blank = tt; stops = tt }
split (c ∷ cs) =
    let s = split cs in
    elim (Bool-cases (is_whitespace c)) [
      | inl h ↦ record {
        ws = c ∷ s.ws;
        rest = s.rest;
        splits = ap (◌∷◌ c) s.splits;
        blank = (h, s.blank);
        stops = s.stops;
      }
      | inr h ↦ record { ws = []; rest = c ∷ cs; splits = refl; blank = tt; stops = h }
    ]

-- On every input `eat_whitespace` skips exactly the whitespace in front: what is left splits into
-- whitespace and a rest that starts with none, the index moves to that rest, and the result is the
-- first byte of the rest, or nothing where the rest is empty.
pub eat_whitespace_lem :
    (p : Parser)
    → (ws : Bytes) × (rest : Bytes) × (drop p.index p.bytes ≡ ws ++ rest)
      × Blank ws
      × Stops rest
      × (eat_whitespace p ≡ (first rest, advance (length ws) p))
eat_whitespace_lem p =
    let s = split (drop p.index p.bytes) in
    (
      s.ws,
      s.rest,
      s.splits,
      s.blank,
      s.stops,
      eat_whitespace-Blank p s.ws s.rest s.splits s.blank s.stops,
    )

pub on_next-some :
    {A : Type 0} (t : JsonErrorType) (f : ℕ → M A) (p : Parser) (ws : Bytes) (c : ℕ) (rest : Bytes)
    → drop p.index p.bytes ≡ ws ++ c ∷ rest
    → Blank ws
    → is_whitespace c ≡ false
    → on_next t f p ≡ f c (advance (length ws) p)
on_next-some t f p ws c rest e b s = ap (eaten t f) (eat_whitespace-Blank p ws (c ∷ rest) e b s)

pub on_next-none :
    {A : Type 0} (t : JsonErrorType) (f : ℕ → M A) (p : Parser) (ws : Bytes)
    → drop p.index p.bytes ≡ ws ++ []
    → Blank ws
    → on_next t f p ≡ fail t (advance (length ws) p)
on_next-none t f p ws e b = ap (eaten t f) (eat_whitespace-Blank p ws [] e b tt)

-- A parser that stands at no whitespace stays where it is.
pub eat_whitespace-stays :
    (p : Parser) (rest : Bytes)
    → drop p.index p.bytes ≡ rest
    → Stops rest
    → eat_whitespace p ≡ (first rest, p)
eat_whitespace-stays p rest e s = ground (arith, eat_whitespace-Blank p [] rest e tt s)

eat_whitespace-again : (p : Parser) → eat_whitespace (eat_whitespace p).1 ≡ eat_whitespace p
eat_whitespace-again p =
    let (ws, rest, e, b, s, q) = eat_whitespace_lem p in
    rw q (eat_whitespace-stays (advance (length ws) p) rest (drop-append ws p.index p.bytes e) s)

-- The four bytes that JSON has as whitespace.
pub data IsSpace : ℕ → Type 0 where
  tab : IsSpace 0x09
  line_feed : IsSpace 0x0A
  carriage_return : IsSpace 0x0D
  space : IsSpace 0x20

IsSpace-is_whitespace : (c : ℕ) → IsSpace c → is_whitespace c ≡ true
unfolding is_whitespace
IsSpace-is_whitespace _ tab = refl
IsSpace-is_whitespace _ line_feed = refl
IsSpace-is_whitespace _ carriage_return = refl
IsSpace-is_whitespace _ space = refl

is_whitespace-IsSpace : (c : ℕ) → is_whitespace c ≡ true → IsSpace c
unfolding is_whitespace
is_whitespace-IsSpace c h =
    let e : (c ≡ 0x20) ⊎ ((c ≡ 0x0D) ⊎ ((c ≡ 0x09) ⊎ (c ≡ 0x0A))) = ground arith in
    elim e [
      | inl e ↦ rw e space
      | inr (inl e) ↦ rw e carriage_return
      | inr (inr (inl e)) ↦ rw e tab
      | inr (inr (inr e)) ↦ rw e line_feed
    ]

All-Blank : (ws : Bytes) → All IsSpace ws → Blank ws
All-Blank [] h = tt
All-Blank (w ∷ ws) (h, hs) = (IsSpace-is_whitespace w h, All-Blank ws hs)

-- No whitespace stands in front.
abbrev pub NoSpace : Bytes → Type 0
NoSpace [] = Unit
NoSpace (c ∷ cs) = IsSpace c → ⊥

NoSpace-Stops : (rest : Bytes) → NoSpace rest → Stops rest
NoSpace-Stops [] h = tt
NoSpace-Stops (c ∷ cs) h = elim (Bool-cases (is_whitespace c)) [
  | inl t ↦ absurd (h (is_whitespace-IsSpace c t))
  | inr f ↦ f
]

-- The byte that a text begins with, or the end of the data.
abbrev pub peeked : Bytes → M ℕ
peeked [] = fail eof_while_parsing_value
peeked (c ∷ cs) = pure c

-- `peek` skips the spaces, tabs, line feeds and carriage returns in front, and nothing else: its
-- result is the byte behind them, whatever other byte it is, or an error at the end of the data,
-- with the parser at that byte or at that end; a second call gives the same result and parser.
pub peek-IsSpace :
    (p : Parser) (ws rest : Bytes)
    → drop p.index p.bytes ≡ ws ++ rest
    → All IsSpace ws
    → NoSpace rest
    → (peek p ≡ peeked rest (advance (length ws) p)) × (peek (peek p).1 ≡ peek p)
unfolding peek
peek-IsSpace p ws rest e b n =
    (skipped rest e (NoSpace-Stops rest n), ground (arith, eat_whitespace-again p))
  where
    skipped :
        (rest : Bytes)
        → drop p.index p.bytes ≡ ws ++ rest
        → Stops rest
        → peek p ≡ peeked rest (advance (length ws) p)
    skipped [] e s = on_next-none _ _ p ws e (All-Blank ws b)
    skipped (c ∷ cs) e s = on_next-some _ _ p ws c cs e (All-Blank ws b) s

Blank-after : (ws : Bytes) (c : ℕ) (cs : Bytes) → Blank (ws ++ c ∷ cs) → is_whitespace c ≡ true
Blank-after [] c cs h = h.0
Blank-after (w ∷ ws) c cs h = Blank-after ws c cs h.1

finish_iff_split :
    (p : Parser) (ws rest : Bytes)
    → drop p.index p.bytes ≡ ws ++ rest
    → Blank ws
    → Stops rest
    → ((finish p).0 ≡ ok tt) ↔ Blank (drop p.index p.bytes)
unfolding finish
finish_iff_split p ws [] e b s =
    rw (eat_whitespace-Blank p ws [] e b s) (λ _. rw (e, append-nil) b, λ _. refl)
finish_iff_split p ws (c ∷ cs) e b s =
    rw (eat_whitespace-Blank p ws (c ∷ cs) e b s)
      (λ h. cc, λ h. cc (Blank-after ws c cs (rw e at h)))

-- `finish` accepts exactly when nothing but whitespace is left.
pub finish_iff : (p : Parser) → ((finish p).0 ≡ ok tt) ↔ Blank (drop p.index p.bytes)
finish_iff p = let (ws, rest, e, b, s, _) = eat_whitespace_lem p in finish_iff_split p ws rest e b s
