-- ===== src/Jsonx/Extract.antt =====
-- What `jx_extract_object` of agent/util/jsonx.c finds, against a scan with no fuel and no
-- jumps, and what the candidates look like.
use isky.Prelude.{
  ℕ, zero, suc, ◌+◌, ◌≤◌, ◌<◌, ◌≡◌, refl, sym, ap, ◌∙◌, [], ◌∷◌, ◌++◌, Option, none, some, ◌⊎◌, inl,
  inr, Text, length, take, drop, take-append-drop, length-drop, ◌==◌, ==_iff, true, Bool-cases,
  Option-cases, if◌then◌else◌, arith,
}
use isky.Jsonx.Grammar.{IsObject, scan_object-IsObject}
use isky.Jsonx.{
  Json, lbrace, skip_to_brace, Scan, scan_start, scan_char, scan_ends, scan_object, find_object,
  Found, extract_from, jx_extract_object,
}

module _ {J : Type 0} (json : Json J) where
  -- The first balanced candidate that parses. A candidate that never closes ends the search.
  candidate : Text → Option (Found J) → Option ℕ → Option (Found J)
  candidate t later none = none
  candidate t later (some n) = elim (json.parse (take n t)) [
    | some j ↦ some (record { value = j; span = take n t })
    | none ↦ later
  ]

  pub first_object : Text → Option (Found J)
  unfolding candidate
  first_object [] = none
  first_object (c ∷ r) =
      let later = first_object r in
      if c == lbrace then candidate (c ∷ r) later (scan_object scan_start (c ∷ r)) else later

  first_object-skip : (t : Text) → first_object (skip_to_brace t) ≡ first_object t
  unfolding first_object skip_to_brace
  first_object-skip [] = refl
  first_object-skip (c ∷ r) = elim (Bool-cases (c == lbrace)) [
    | inl e ↦ rw e (rw e)
    | inr e ↦ rw e (first_object-skip r)
  ]

data Skipped : Text → Type 0 where
  nothing : Skipped []
  brace : (r : Text) → Skipped (lbrace ∷ r)

skip_to_brace-Skipped : (t : Text) → Skipped (skip_to_brace t)
unfolding skip_to_brace
skip_to_brace-Skipped [] = nothing
skip_to_brace-Skipped (c ∷ r) = elim (Bool-cases (c == lbrace)) [
  | inl e ↦ let q : c ≡ lbrace = ground arith in rw q (brace r)
  | inr e ↦ rw e (skip_to_brace-Skipped r)
]

length-skip-le : (t : Text) → length (skip_to_brace t) ≤ length t
unfolding skip_to_brace
length-skip-le [] = omega arith
length-skip-le (c ∷ r) = ground (arith, length-skip-le r)

find_object-none :
    (s u : Text) → skip_to_brace s ≡ u → scan_object scan_start u ≡ none → find_object s ≡ none
unfolding find_object
find_object-none s u e h = rw (e, h)

find_object-some :
    (s u : Text) (n : ℕ)
    → skip_to_brace s ≡ u
    → scan_object scan_start u ≡ some n
    → find_object s ≡ some (u, n)
unfolding find_object
find_object-some s u n e h = rw (e, h)

module _ {J : Type 0} (json : Json J) where
  first_object-candidate :
      (t : Text) {o : Option ℕ}
      → scan_object scan_start (lbrace ∷ t) ≡ o
      → first_object json (lbrace ∷ t) ≡ candidate json (lbrace ∷ t) (first_object json t) o
  unfolding first_object
  first_object-candidate t h = rw h

  extract_at :
      (fuel c : ℕ) (r u : Text)
      → Skipped u
      → skip_to_brace (c ∷ r) ≡ u
      → extract_from json fuel (drop 1 u) ≡ first_object json (drop 1 u)
      → extract_from json (suc fuel) (c ∷ r) ≡ first_object json u
  unfolding extract_from candidate
  extract_at fuel c r u nothing e ih =
      rw (find_object-none (c ∷ r) [] e (unfold scan_object in refl), extract_from)
        (unfold first_object in refl)
  extract_at fuel c r u (brace t) e ih = elim (Option-cases (scan_object scan_start (lbrace ∷ t))) [
    | inl never ↦
        rw (find_object-none (c ∷ r) _ e never, extract_from) (rw (first_object-candidate t never))
    | inr (n, closed) ↦
        rw (find_object-some (c ∷ r) _ n e closed, extract_from)
          (rw (first_object-candidate t closed)
            (elim (Option-cases (json.parse (take n (lbrace ∷ t)))) [
              | inl bad ↦ rw (bad, candidate) ih
              | inr (j, good) ↦ rw (good, candidate) refl
            ]))
  ]

  length-drop_skip-le : (c : ℕ) (r : Text) → length (drop 1 (skip_to_brace (c ∷ r))) ≤ length r
  length-drop_skip-le c r =
      omega (arith, length-skip-le (c ∷ r), length-drop 1 (skip_to_brace (c ∷ r)))

  extract_from-first_object :
      (fuel : ℕ) (t : Text) → length t < fuel → extract_from json fuel t ≡ first_object json t
  extract_from-first_object zero t h = absurd (omega arith)
  extract_from-first_object (suc fuel) [] h = unfold extract_from first_object in refl
  extract_from-first_object (suc fuel) (c ∷ r) h =
      extract_at fuel c r (skip_to_brace (c ∷ r)) (skip_to_brace-Skipped (c ∷ r)) refl (
        extract_from-first_object fuel (drop 1 (skip_to_brace (c ∷ r)))
          (omega (arith, length-drop_skip-le c r)))
      ∙ first_object-skip json (c ∷ r)

  -- Extraction takes the first candidate, from the left, that is balanced and parses; it gives up
  -- at a brace whose object never closes. The jumps of the loop and its fuel change nothing.
  pub jx_extract_object-first_object : (t : Text) → jx_extract_object json t ≡ first_object json t
  unfolding jx_extract_object
  jx_extract_object-first_object t = extract_from-first_object (length t + 1) t (omega arith)

scan_object-take :
    (s : Scan) (t : Text) (n : ℕ)
    → scan_object s t ≡ some n
    → (scan_object s (take n t) ≡ some n) × (length (take n t) ≡ n)
unfolding scan_object
scan_object-take s [] n h = cc
scan_object-take s (c ∷ r) n h = elim (Bool-cases (scan_ends s c)) [
  | inl e ↦ let q : 1 ≡ n = ground arith in rw (← q) (rw e, refl)
  | inr e ↦ elim (Option-cases (scan_object (scan_char s c) r)) [
    | inl never ↦ absurd (ground arith)
    | inr (m, closed) ↦
        let q : suc m ≡ n = ground arith in
        let (again, len) = scan_object-take (scan_char s c) r m closed in
        rw (← q) (rw (e, again), ap suc len)
  ]
]

module _ {J : Type 0} (json : Json J) where
  pub record Occurs (t : Text) (f : Found J) : Type 0 where
    pub before : Text
    pub after : Text
    pub place : t ≡ before ++ (f.span ++ after)
    pub balanced : IsObject f.span
    pub parses : json.parse f.span ≡ some f.value

  Occurs-cons : (c : ℕ) (t : Text) (f : Found J) → Occurs t f → Occurs (c ∷ t) f
  Occurs-cons c t f o = record {
    before = c ∷ o.before;
    after = o.after;
    place = ap (◌∷◌ c) o.place;
    balanced = o.balanced;
    parses = o.parses;
  }

  candidate-IsObject :
      (c : ℕ) (r : Text) (n : ℕ)
      → (c == lbrace) ≡ true
      → scan_object scan_start (take n (c ∷ r)) ≡ some (length (take n (c ∷ r)))
      → IsObject (take n (c ∷ r))
  unfolding scan_object
  candidate-IsObject c r zero starts h = cc
  candidate-IsObject c r (suc n) starts h =
      let i = (==_iff c lbrace).0 starts in rw i (scan_object-IsObject (take n r) (rw i at h))

  candidate-Occurs :
      (c : ℕ) (r : Text) (later : Option (Found J)) (f : Found J) (n : ℕ)
      → (c == lbrace) ≡ true
      → scan_object scan_start (c ∷ r) ≡ some n
      → candidate json (c ∷ r) later (some n) ≡ some f
      → (later ≡ some f) ⊎ Occurs (c ∷ r) f
  unfolding candidate
  candidate-Occurs c r later f n starts closed h =
      elim (Option-cases (json.parse (take n (c ∷ r)))) [
        | inl bad ↦ inl (rw (bad, candidate) at h)
        | inr (j, good) ↦
            let q : ◌≡◌ {A = Found J} (record { value = j; span = take n (c ∷ r) }) f =
              ground arith in
            let (again, len) = scan_object-take scan_start (c ∷ r) n closed in
            inr (
              rw (← q) (record {
                before = [];
                after = drop n (c ∷ r);
                place = sym (take-append-drop n (c ∷ r));
                balanced = candidate-IsObject c r n starts (rw len again);
                parses = good;
              }))
      ]

  first_object-Occurs : (t : Text) (f : Found J) → first_object json t ≡ some f → Occurs t f
  unfolding first_object
  first_object-Occurs [] f h = cc
  first_object-Occurs (c ∷ r) f h = elim (Bool-cases (c == lbrace)) [
    | inr e ↦ Occurs-cons c r f (first_object-Occurs r f (rw e at h))
    | inl e ↦ elim (Option-cases (scan_object scan_start (c ∷ r))) [
      | inl never ↦ absurd (ground arith)
      | inr (n, closed) ↦
          elim (candidate-Occurs c r (first_object json r) f n e closed (rw (e, closed) at h)) [
            | inl later ↦ Occurs-cons c r f (first_object-Occurs r f later)
            | inr now ↦ now
          ]
    ]
  ]

  -- What is extracted stands in the text as it is, runs from an opening brace to the brace that
  -- closes it, with braces inside strings not counted, and is what the strict parser makes of exactly
  -- those bytes.
  pub jx_extract_object-Occurs :
      (t : Text) (f : Found J) → jx_extract_object json t ≡ some f → Occurs t f
  jx_extract_object-Occurs t f h =
      first_object-Occurs t f (rw (jx_extract_object-first_object json t) at h)
