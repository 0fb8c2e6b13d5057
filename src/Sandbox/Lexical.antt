-- ===== src/Sandbox/Lexical.antt =====
-- agent/security/sandbox.c and agent/util/platform.c: the texts of the paths, with no look at the disk.
use mathlib.Core.Option.{some-injective}
use isky.Prelude.{
  ℕ, fit, length-take, Option-cases, leb, ◌-◌, ◌<◌, ◌==◌, ◌==◌, Bool, ltb, Bool-cases, ◌⊎◌, ◌&&◌,
  if◌then◌else◌, ℕ, ◌+◌, ◌≤◌, ◌≡◌, refl, sym, ap, ◌∙◌, [], ◌∷◌, ◌++◌, true, false, Option, none,
  some, Text, length, inl, inr, ◌⊎◌, arith, ltb,
}
use isky.Sandbox.{last_slash, Sandbox, within, has_dots, joined_path, let_through, path_max}

-- the root itself, or the root with a slash and what follows
pub IsInside : Text → Text → Type 0
IsInside root path = (path ≡ root) ⊎ ((rest : Text) × (path ≡ root ++ (47 ∷ rest)))

below : (x y : ℕ) (root path : Text) → x ≡ y → IsInside root path → IsInside (x ∷ root) (y ∷ path)
unfolding IsInside
below x y root path same (inl e) = inl cc
below x y root path same (inr (rest, e)) = inr (rest, cc)

within-IsInside : (root path : Text) → within root path ≡ true → IsInside root path
unfolding within IsInside
within-IsInside [] [] h = inl refl
within-IsInside [] (c ∷ r) h = let slash : c ≡ 47 = ground arith in inr (r, ap (λ k. k ∷ r) slash)
within-IsInside (x ∷ xs) [] h = cc
within-IsInside (x ∷ xs) (y ∷ ys) h =
    below x y xs ys (ground arith) (within-IsInside xs ys (ground arith))

-- `..` or `../`
up_here : Text → Bool
up_here [] = false
up_here (a ∷ []) = false
up_here (a ∷ (b ∷ [])) = a == 46 && b == 46
up_here (a ∷ (b ∷ (c ∷ r))) = a == 46 && b == 46 && c == 47

-- Some component of the path is `..`.
unfoldable pub climbs : Text → Bool
unfolding up_here
climbs [] = false
climbs (c ∷ r) = if c == 47 && up_here r then true else climbs r

no_dots-up_here : (t : Text) → has_dots t ≡ false → up_here t ≡ false
unfolding up_here has_dots
no_dots-up_here [] h = refl
no_dots-up_here (a ∷ []) h = refl
no_dots-up_here (a ∷ (b ∷ [])) h = ground arith
no_dots-up_here (a ∷ (b ∷ (c ∷ r))) h = ground arith

no_dots-climbs : (t : Text) → has_dots t ≡ false → climbs t ≡ false
unfolding climbs has_dots
no_dots-climbs [] h = refl
no_dots-climbs (c ∷ []) h = unfold up_here in ground arith
no_dots-climbs (c ∷ (d ∷ r)) h =
    let later : has_dots (d ∷ r) ≡ false = ground arith in
    ground (arith, no_dots-up_here (d ∷ r) later, no_dots-climbs (d ∷ r) later)

pub climbs-leaf : (leaf : Text) → has_dots leaf ≡ false → climbs (47 ∷ leaf) ≡ false
unfolding climbs
climbs-leaf leaf h = ground (arith, no_dots-up_here leaf h, no_dots-climbs leaf h)

up_here-append : (p t : Text) → up_here p ≡ false → up_here (p ++ (47 ∷ t)) ≡ false
unfolding up_here
up_here-append [] [] h = refl
up_here-append [] (a ∷ []) h = refl
up_here-append [] (a ∷ (b ∷ r)) h = refl
up_here-append (a ∷ []) [] h = ground arith
up_here-append (a ∷ []) (b ∷ r) h = ground arith
up_here-append (a ∷ (b ∷ [])) t h = ground arith
up_here-append (a ∷ (b ∷ (c ∷ r))) t h = h

pub climbs-append :
    (p t : Text) → climbs p ≡ false → climbs (47 ∷ t) ≡ false → climbs (p ++ (47 ∷ t)) ≡ false
unfolding climbs
climbs-append [] t h k = k
climbs-append (c ∷ p) t h k = ground (arith, up_here-append p t, climbs-append p t)

pub let_through-IsInside :
    (s : Sandbox) (outsz : ℕ) (r : Option Text) (out : Text)
    → s.enabled ≡ true
    → let_through s outsz r ≡ some out
    → IsInside s.root out × (length out + 1 ≤ outsz)
unfolding let_through
let_through-IsInside s outsz none out on h = cc
let_through-IsInside s outsz (some path) out on h =
    let inside : within s.root path ≡ true = ground arith in
    let small : ltb outsz (length path + 1) ≡ false = ground arith in
    let e : path ≡ out = ground arith in
    let room : length path + 1 ≤ outsz = ground arith in
    rw (sym e) (within-IsInside s.root path inside, room)

pub last_slash-append :
    (t before after : Text) → last_slash t ≡ some (before, after) → t ≡ before ++ (47 ∷ after)
unfolding last_slash
last_slash-append [] before after h = cc
last_slash-append (c ∷ r) before after h = elim (Option-cases (last_slash r)) [
  | inr (p, e) ↦
      let pair = some-injective (c ∷ p.0, p.1) (before, after) (rw (last_slash, e) at h) in
      ap (◌∷◌ c) (last_slash-append r p.0 p.1 e)
      ∙ (ap (λ b. b ++ (47 ∷ p.1)) (ap (λ q. q.0) pair)
          ∙ ap (λ a. before ++ (47 ∷ a)) (ap (λ q. q.1) pair))
  | inl no_slash ↦ elim (Bool-cases (c == 47)) [
    | inr other ↦ absurd (ground (arith, rw (last_slash, no_slash) at h))
    | inl slash ↦
        let pair = some-injective ([], r) (before, after) (rw (last_slash, no_slash, slash) at h) in
        let is : c ≡ 47 = ground arith in
        ap (λ k. k ∷ r) is
        ∙ (ap (λ a. 47 ∷ a) (ap (λ q. q.1) pair) ∙ ap (λ b. b ++ (47 ∷ after)) (ap (λ q. q.0) pair))
  ]
]

pub joined_path-short :
    (s : Sandbox) (asked joined : Text)
    → joined_path s asked ≡ some joined
    → length joined < path_max
unfolding joined_path fit
joined_path-short s [] joined h = cc
joined_path-short s (c ∷ r) joined h =
    let cut = length-take (path_max - 1) (c ∷ r) in
    elim (Bool-cases (c == 47)) [
      | inl absolute ↦
          let same =
            some-injective (fit path_max (c ∷ r)) joined (rw (joined_path, absolute) at h) in
          omega (arith, cut, ap length same)
      | inr relative ↦ elim (Bool-cases (leb path_max (length (s.root ++ (47 ∷ (c ∷ r)))))) [
        | inl long ↦ absurd (ground (arith, rw (joined_path, relative, long) at h))
        | inr fits ↦
            let same =
              some-injective (s.root ++ (47 ∷ (c ∷ r))) joined
                (rw (joined_path, relative, fits) at h) in
            let below_max : length (s.root ++ (47 ∷ (c ∷ r))) < path_max = ground arith in
            omega (arith, below_max, ap length same)
      ]
    ]
