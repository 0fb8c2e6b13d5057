-- ===== src/Ascii/Search.antt =====
-- `contains_ci` of agent/reasoning/verification.c against the places of a text.
use isky.Prelude.{
  ◌≡◌, refl, ap, ◌↔◌, ◌≢◌, [], ◌∷◌, ◌++◌, map, true, Text, Bool-cases, inl, inr, arith,
}
use isky.Ascii.{tolower, starts_with_ci, contains_ci}

-- The needle stands in the text, letters compared in lower case.
pub record Contains (hay needle : Text) : Type 0 where
  pub before : Text
  pub middle : Text
  pub after : Text
  pub place : hay ≡ before ++ (middle ++ after)
  pub same : map tolower middle ≡ map tolower needle

prefix_of :
    (needle t : Text)
    → starts_with_ci needle t ≡ true
    → (m : Text) × (r : Text) × (t ≡ m ++ r) × (map tolower m ≡ map tolower needle)
unfolding starts_with_ci
prefix_of [] t h = ([], t, refl, refl)
prefix_of (x ∷ xs) [] h = cc
prefix_of (x ∷ xs) (y ∷ ys) h =
    let e : tolower x ≡ tolower y = ground arith in
    let (m, r, p, q) = prefix_of xs ys (ground arith) in (y ∷ m, r, ap (◌∷◌ y) p, cc)

starts_with_ci-append :
    (needle m r : Text) → map tolower m ≡ map tolower needle → starts_with_ci needle (m ++ r) ≡ true
unfolding starts_with_ci
starts_with_ci-append [] m r h = refl
starts_with_ci-append (x ∷ xs) [] r h = cc
starts_with_ci-append (x ∷ xs) (y ∷ m) r h =
    let e : map tolower m ≡ map tolower xs = cc in
    let f : tolower y ≡ tolower x = cc in ground (arith, starts_with_ci-append xs m r e)

contains_ci-Contains : (hay needle : Text) → contains_ci hay needle ≡ true → Contains hay needle
unfolding contains_ci
contains_ci-Contains [] needle h = cc
contains_ci-Contains (c ∷ r) needle h = elim (Bool-cases (starts_with_ci needle (c ∷ r))) [
  | inl here ↦
      let (m, rest, p, q) = prefix_of needle (c ∷ r) here in
      record { before = []; middle = m; after = rest; place = p; same = q }
  | inr later ↦
      let k = contains_ci-Contains r needle (ground arith) in
      record {
        before = c ∷ k.before;
        middle = k.middle;
        after = k.after;
        place = ap (◌∷◌ c) k.place;
        same = k.same;
      }
]

Contains-contains_ci :
    (before middle after needle : Text)
    → needle ≢ []
    → map tolower middle ≡ map tolower needle
    → contains_ci (before ++ (middle ++ after)) needle ≡ true
unfolding contains_ci
Contains-contains_ci [] [] after [] n h = absurd (n refl)
Contains-contains_ci [] [] after (x ∷ xs) n h = cc
Contains-contains_ci [] (y ∷ m) after needle n h =
    ground (arith, starts_with_ci-append needle (y ∷ m) after h)
Contains-contains_ci (c ∷ before) middle after needle n h =
    ground (arith, Contains-contains_ci before middle after needle n h)

-- The search answers yes exactly when the needle, which is not empty, stands somewhere in the
-- text up to the case of ASCII letters.
pub contains_ci_iff :
    (hay needle : Text) → needle ≢ [] → (contains_ci hay needle ≡ true) ↔ Contains hay needle
contains_ci_iff hay needle n = (
  contains_ci-Contains hay needle,
  λ k. rw (k.place) (Contains-contains_ci k.before k.middle k.after needle n k.same),
)
