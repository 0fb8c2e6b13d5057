-- ===== src/Safetensors/Index/Built.antt =====
-- src/io/k3_st.c: the index that `k3_st_open` builds, against a search from the front.
use isky.Prelude.{
  ℕ, zero, suc, ◌+◌, ◌-◌, ◌≤◌, ◌<◌, ◌≡◌, ◌≢◌, refl, sym, ◌∙◌, ap, inl, inr, List, [], ◌∷◌, none,
  some, Option-cases, Bool-cases, ltb, ltb→lt, length, get_elem?, Text, str_eq, str_eq_refl,
  str_eq-eq, arith, bit_and_le,
}
use isky.Safetensors.{K3Tensor}
use isky.Safetensors.Index.{Bucket, has_name, Stop, vacant, walk, home, put, lookup}
use isky.Safetensors.Index.Circle.{
  ahead, IsPowerOfTwo, positive, ahead_reaches, used, some_vacant, used-put_le, put-put_kept,
}
use isky.Safetensors.Index.Walk.{IsEnd, walk-IsEnd}

home-lt : (name : Text) (nb : ℕ) → 0 < nb → home name nb < nb
unfolding home
home-lt name nb h = omega (arith, bit_and_le _ (nb - 1))

-- No two places of the list have one name.
abbrev pub IsDistinct : List K3Tensor → Type 0
IsDistinct ts =
    (name : Text) (i k : ℕ) (t u : K3Tensor)
    → has_name ts name i ≡ some t
    → has_name ts name k ≡ some u
    → i ≡ k

pub has_name_self :
    (ts : List K3Tensor) (i : ℕ) (t : K3Tensor)
    → get_elem? ts i ≡ some t
    → has_name ts t.name i ≡ some t
has_name_self ts i t at_i = rw (has_name, at_i, str_eq_refl t.name) refl

pub has_name-name :
    (ts : List K3Tensor) (name : Text) (i : ℕ) (t : K3Tensor)
    → has_name ts name i ≡ some t
    → (get_elem? ts i ≡ some t) × (t.name ≡ name)
has_name-name ts name i t h = elim (Option-cases (get_elem? ts i)) [
  | inl e ↦ absurd (ground arith)
  | inr (u, e) ↦ elim (Bool-cases (str_eq u.name name)) [
    | inr other ↦ absurd (ground arith)
    | inl same ↦
        let found : u ≡ t = ground arith in
        let named : u.name ≡ name = str_eq-eq u.name name same in (cc, cc)
  ]
]

pub has_name-lookup-none :
    (ts : List K3Tensor) (name : Text) (i : ℕ) → lookup ts name ≡ none → has_name ts name i ≡ none
has_name-lookup-none [] name i h = refl
has_name-lookup-none (t ∷ ts) name zero h = ground arith
has_name-lookup-none (t ∷ ts) name (suc i) h = has_name-lookup-none ts name i (ground arith)

pub has_name-lookup-some :
    (ts : List K3Tensor) (name : Text) (t : K3Tensor)
    → lookup ts name ≡ some t
    → (i : ℕ) × (i < length ts) × (has_name ts name i ≡ some t)
has_name-lookup-some [] name t h = absurd (ground arith)
has_name-lookup-some (u ∷ ts) name t h = elim (Bool-cases (str_eq u.name name)) [
  | inl same ↦ (0, omega arith, ground arith)
  | inr other ↦
      let (i, below, found) = has_name-lookup-some ts name t (ground arith) in
      (suc i, omega arith, found)
]

-- The tensors before the `i`-th are in the buckets, each on an unbroken run from its home.
abbrev pub IsPlaced : Bucket → ℕ → ℕ → Text → Type 0
IsPlaced b nb m name =
    (d : ℕ) × (b (ahead nb d (home name nb)) ≡ some m)
    × ((e : ℕ) → e < d → (k : ℕ) × (b (ahead nb e (home name nb)) ≡ some k))

pub record Holds (ts : List K3Tensor) (b : Bucket) (nb i : ℕ) : Type 0 where
  pub below : (k m : ℕ) → b k ≡ some m → m < i
  pub count : used b nb ≤ i
  pub placed : (m : ℕ) (t : K3Tensor) → m < i → get_elem? ts m ≡ some t → IsPlaced b nb m t.name
  pub distinct :
      (name : Text) (m k : ℕ) (t u : K3Tensor)
      → m < i
      → k < i
      → has_name ts name m ≡ some t
      → has_name ts name k ≡ some u
      → m ≡ k

module _ (ts : List K3Tensor) (nb : ℕ) (two : IsPowerOfTwo nb) where
  -- While fewer tensors than buckets are in, a walk from a home ends.
  pub home-IsEnd :
      (b : Bucket) (i : ℕ) (name : Text)
      → Holds ts b nb i
      → i < nb
      → (s : Stop) × (walk ts b nb name nb (home name nb) ≡ some s)
        × IsEnd ts b nb name (home name nb) s
  home-IsEnd b i name inv lt =
      let (k, below, free) = some_vacant b nb (omega (arith, inv.count)) in
      let (d, near, meets) =
        ahead_reaches nb (home name nb) k two (home-lt name nb (positive nb two)) below in
      walk-IsEnd ts b nb name nb d (home name nb) near (ap b meets ∙ free)

  put-below :
      (b : Bucket) (i v k m : ℕ)
      → ((k m : ℕ) → b k ≡ some m → m < i)
      → put b v i k ≡ some m
      → m < i + 1
  unfolding put
  put-below b i v k m below held = ground (arith, below k m)

  put-IsPlaced :
      (b : Bucket) (i v m : ℕ) (name : Text)
      → b v ≡ none
      → IsPlaced b nb m name
      → IsPlaced (put b v i) nb m name
  put-IsPlaced b i v m name free (d, held, run) = (
    d,
    put-put_kept b v i _ m free held,
    λ e lt. let (k, full) = run e lt in (k, put-put_kept b v i _ k free full),
  )

  end-IsPlaced :
      (b : Bucket) (i v : ℕ) (name : Text)
      → IsEnd ts b nb name (home name nb) (vacant v)
      → IsPlaced (put b v i) nb i name
  unfolding put
  end-IsPlaced b i v name (free, (d, meets, before)) = (
    d,
    ground (arith, meets),
    λ e lt. let (k, full, other) = before e lt in (k, put-put_kept b v i _ k free full),
  )

  last-name :
      (i : ℕ) (t u : K3Tensor) (name : Text)
      → get_elem? ts i ≡ some t
      → has_name ts name i ≡ some u
      → t.name ≡ name
  last-name i t u name here found =
      let (there, named) = has_name-name ts name i u found in let same : t ≡ u = ground arith in cc

  clash :
      (i m : ℕ) (t u w : K3Tensor) (name : Text)
      → get_elem? ts i ≡ some t
      → has_name ts name i ≡ some u
      → has_name ts t.name m ≡ none
      → has_name ts name m ≢ some w
  clash i m t u w name here found fresh old =
      let named : t.name ≡ name = last-name i t u name here found in
      let gone : has_name ts name m ≡ none = rw named at fresh in absurd (ground arith)

  -- A tensor whose name no bucket has goes in at the end of its walk.
  pub put-Holds :
      (b : Bucket) (i v : ℕ) (t : K3Tensor)
      → Holds ts b nb i
      → get_elem? ts i ≡ some t
      → IsEnd ts b nb t.name (home t.name nb) (vacant v)
      → ((m : ℕ) → m < i → has_name ts t.name m ≡ none)
      → Holds ts (put b v i) nb (i + 1)
  put-Holds b i v t inv here (free, (d, meets, before)) fresh = record {
    below = λ k m held. put-below b i v k m inv.below held;
    count = omega (arith, used-put_le b nb v i, inv.count);
    placed = λ m u lt at_m. elim (Bool-cases (ltb m i)) [
      | inl early ↦ put-IsPlaced b i v m u.name free (inv.placed m u (ltb→lt m i early) at_m)
      | inr late ↦
          let last : i ≡ m = ground arith in
          let same : t ≡ u = ground arith in
          rw (← last, ← same) (end-IsPlaced b i v t.name (free, (d, meets, before)))
    ];
    distinct = λ name m k u w lt_m lt_k is_u is_w. elim (Bool-cases (ltb m i)) [
      | inl early ↦ elim (Bool-cases (ltb k i)) [
        | inl early_k ↦ inv.distinct name m k u w (ltb→lt m i early) (ltb→lt k i early_k) is_u is_w
        | inr late ↦
            let last : k ≡ i = ground arith in
            absurd (clash i m t w u name here (rw last at is_w) (fresh m (ltb→lt m i early)) is_u)
      ]
      | inr late ↦ elim (Bool-cases (ltb k i)) [
        | inl early_k ↦
            let last : m ≡ i = ground arith in
            absurd (clash i k t u w name here (rw last at is_u) (fresh k (ltb→lt k i early_k)) is_w)
        | inr late_k ↦ ground arith
      ]
    ];
  }

  -- A walk that ends at an empty bucket has met every tensor of its name.
  pub vacant-fresh :
      (b : Bucket) (i v m : ℕ) (name : Text)
      → Holds ts b nb i
      → IsEnd ts b nb name (home name nb) (vacant v)
      → m < i
      → has_name ts name m ≡ none
  vacant-fresh b i v m name inv (free, (d, meets, before)) lt =
      elim (Option-cases (has_name ts name m)) [
        | inl fresh ↦ fresh
        | inr (t, held) ↦
            let (there, named) = has_name-name ts name m t held in
            let (e, full, run) : IsPlaced b nb m name = rw named at (inv.placed m t lt there) in
            elim (Bool-cases (ltb d e)) [
              | inl short ↦
                  let (k, busy) = run d (ltb→lt d e short) in absurd (ground (arith, meets))
              | inr long ↦ elim (Bool-cases (ltb e d)) [
                | inl sooner ↦
                    let (k, busy, other) = before e (ltb→lt e d sooner) in absurd (ground arith)
                | inr same ↦
                    let level : d ≡ e = ground arith in
                    let busy : b v ≡ some m =
                      ap b (sym meets) ∙ (ap (λ n. b (ahead nb n (home name nb))) level ∙ full) in
                    absurd (ground arith)
              ]
            ]
      ]
