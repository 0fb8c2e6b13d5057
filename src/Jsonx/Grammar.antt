-- ===== src/Jsonx/Grammar.antt =====
-- The texts that the brace scan of agent/util/jsonx.c runs through to their end, as a grammar.
use mathlib.Core.Option.{some-injective}
use mathlib.Core.Bool.{false≢true}
use isky.Prelude.{
  ℕ, suc, ◌+◌, ◌-◌, ◌<◌, ◌≡◌, ◌≢◌, refl, sym, ap, ◌∙◌, ◌⊎◌, inl, inr, [], ◌∷◌, ◌++◌, Bool, true,
  false, none, some, Text, length, ◌==◌, ==_iff, Bool-cases, Option-cases, arith,
}
use isky.Jsonx.{
  lbrace, rbrace, dquote, backslash, Scan, scan_start, scan_char, scan_ends, scan_object,
}

-- The rest of a JSON string up to its closing quote, in which a backslash takes the next character.
pub data InString : Text → Type 0 where
  close_quote : InString (dquote ∷ [])
  escaped : {c : ℕ} {s : Text} → InString s → InString (backslash ∷ c ∷ s)
  plain : {c : ℕ} {s : Text} → c ≢ dquote → c ≢ backslash → InString s → InString (c ∷ s)

-- The rest of a text in which `d` braces are open: it closes them all, the last at its very end.
-- Braces inside strings do not count.
pub data Closes : ℕ → Text → Type 0 where
  done : Closes 0 []
  quoted : {d : ℕ} {s r : Text} → 0 < d → InString s → Closes d r → Closes d (dquote ∷ (s ++ r))
  open_brace : {d : ℕ} {r : Text} → 0 < d → Closes (d + 1) r → Closes d (lbrace ∷ r)
  close_brace : {d : ℕ} {r : Text} → 0 < d → Closes (d - 1) r → Closes d (rbrace ∷ r)
  other :
      {d c : ℕ} {r : Text}
      → 0 < d
      → c ≢ dquote
      → c ≢ lbrace
      → c ≢ rbrace
      → Closes d r
      → Closes d (c ∷ r)

abbrev outside : ℕ → Scan
outside d = record { depth = d; in_str = false; esc = false }

abbrev inside : ℕ → Bool → Scan
inside d e = record { depth = d; in_str = true; esc = e }

-- one character of a text that is run through to its end
scan_step :
    (s : Scan) (c : ℕ) (r : Text)
    → scan_object s (c ∷ r) ≡ some (length (c ∷ r))
    → ((scan_ends s c ≡ true) × (r ≡ []))
      ⊎ ((scan_ends s c ≡ false) × (scan_object (scan_char s c) r ≡ some (length r)))
unfolding scan_object
scan_step s c r h = elim (Bool-cases (scan_ends s c)) [
  | inl e ↦ inl (e, empty_rest r (some-injective _ _ (rw e at h)))
  | inr e ↦ elim (Option-cases (scan_object (scan_char s c) r)) [
    | inl f ↦ absurd (none≢some_length (rw (e, f) at h))
    | inr (n, f) ↦
        (let q = some-injective _ _ (rw (e, f) at h) in inr (e, f ∙ ap some (omega arith)))
  ]
]
  where
    empty_rest : (t : Text) → 1 ≡ suc (length t) → t ≡ []
    empty_rest [] q = refl
    empty_rest (x ∷ xs) q = absurd (omega arith)

    none≢some_length : {n : ℕ} → none ≢ some n
    none≢some_length q = cc

is_not : (a b : ℕ) → (a == b) ≡ false → a ≢ b
is_not a b e q = false≢true (sym e ∙ (==_iff a b).1 q)

-- A string, and what follows it.
record AfterString (d : ℕ) (t : Text) : Type 0 where
  str : Text
  rest : Text
  split : t ≡ str ++ rest
  is_string : InString str
  closes : Closes d rest

-- The same behind a backslash.
record AfterEscape (d : ℕ) (t : Text) : Type 0 where
  char : ℕ
  tail : Text
  split : t ≡ char ∷ tail
  after : AfterString d tail

RunsOut : Scan → Text → Type 0
RunsOut s t = scan_object s t ≡ some (length t)

-- What a run to the end says, from each of the three modes of the scan.
record Runs (d : ℕ) (t : Text) : Type 0 where
  plainly : RunsOut (outside d) t → Closes d t
  in_string : RunsOut (inside d false) t → AfterString d t
  in_escape : RunsOut (inside d true) t → AfterEscape d t

run_outside :
    (c : ℕ) (r : Text)
    → ((d : ℕ) → 0 < d → Runs d r)
    → (d : ℕ) → 0 < d
    → RunsOut (outside d) (c ∷ r)
    → Closes d (c ∷ r)
unfolding RunsOut scan_ends scan_char
run_outside c r runs d p h = elim (scan_step (outside d) c r h) [
  | inl (e, nil) ↦
      (let i : c ≡ rbrace = ground arith in
        let j : d - 1 ≡ 0 = ground arith in rw (i, nil) (close_brace p (rw j done)))
  | inr (e, k) ↦ elim (Bool-cases (c == dquote)) [
    | inl q ↦
        (let a = (runs d p).in_string (rw q at k) in
          rw ((==_iff c dquote).0 q, a.split) (quoted p a.is_string a.closes))
    | inr nq ↦ elim (Bool-cases (c == lbrace)) [
      | inl o ↦
          rw ((==_iff c lbrace).0 o)
            (open_brace p ((runs (d + 1) (omega arith)).plainly (rw (nq, o) at k)))
      | inr no_open ↦ elim (Bool-cases (c == rbrace)) [
        | inl b ↦
            (let more : 0 < d - 1 = ground arith in
              rw ((==_iff c rbrace).0 b)
                (close_brace p ((runs (d - 1) more).plainly (rw (nq, no_open, b) at k))))
        | inr no_close ↦
            other p (is_not c dquote nq) (is_not c lbrace no_open) (is_not c rbrace no_close)
              ((runs d p).plainly (rw (nq, no_open, no_close) at k))
      ]
    ]
  ]
]

run_inside :
    (c : ℕ) (r : Text) (d : ℕ) → Runs d r → RunsOut (inside d false) (c ∷ r) → AfterString d (c ∷ r)
unfolding RunsOut scan_ends scan_char
run_inside c r d runs h = elim (scan_step (inside d false) c r h) [
  | inl (e, nil) ↦ cc
  | inr (e, k) ↦ elim (Bool-cases (c == backslash)) [
    | inl b ↦
        (let a = runs.in_escape (rw b at k) in
          record {
            str = backslash ∷ a.char ∷ a.after.str;
            rest = a.after.rest;
            split = rw ((==_iff c backslash).0 b, a.split, a.after.split) refl;
            is_string = escaped a.after.is_string;
            closes = a.after.closes;
          })
    | inr nb ↦ elim (Bool-cases (c == dquote)) [
      | inl q ↦ record {
        str = dquote ∷ [];
        rest = r;
        split = rw ((==_iff c dquote).0 q) refl;
        is_string = close_quote;
        closes = runs.plainly (rw (nb, q) at k);
      }
      | inr nq ↦
          (let a = runs.in_string (rw (nb, nq) at k) in
            record {
              str = c ∷ a.str;
              rest = a.rest;
              split = ap (◌∷◌ c) a.split;
              is_string = plain (is_not c dquote nq) (is_not c backslash nb) a.is_string;
              closes = a.closes;
            })
    ]
  ]
]

run_escape :
    (c : ℕ) (r : Text) (d : ℕ) → Runs d r → RunsOut (inside d true) (c ∷ r) → AfterEscape d (c ∷ r)
unfolding RunsOut scan_ends scan_char
run_escape c r d runs h = elim (scan_step (inside d true) c r h) [
  | inl (e, nil) ↦ cc
  | inr (e, k) ↦ record { char = c; tail = r; split = refl; after = runs.in_string k }
]

runs : (t : Text) (d : ℕ) → 0 < d → Runs d t
unfolding RunsOut scan_object
runs [] d p = record { plainly = λ h. cc; in_string = λ h. cc; in_escape = λ h. cc }
runs (c ∷ r) d p = record {
  plainly = run_outside c r (runs r) d p;
  in_string = run_inside c r d (runs r d p);
  in_escape = run_escape c r d (runs r d p);
}

-- An object from its opening brace to the brace that closes it.
abbrev pub IsObject : Text → Type 0
IsObject t = (r : Text) × (t ≡ lbrace ∷ r) × Closes 1 r

pub scan_object-IsObject :
    (r : Text)
    → scan_object scan_start (lbrace ∷ r) ≡ some (length (lbrace ∷ r))
    → IsObject (lbrace ∷ r)
unfolding RunsOut scan_char scan_ends
scan_object-IsObject r h = elim (scan_step scan_start lbrace r h) [
  | inl (e, nil) ↦ cc
  | inr (e, k) ↦ (r, refl, (runs r 1 (omega arith)).plainly k)
]
