-- ===== src/Safetensors/Index/Refines.antt =====
-- src/io/k3_st.c: `k3_st_open`'s loop over the tensors, and `k3_st_find` after it.
use native.Mathlib.Nat.{pow-suc}
use isky.Prelude.{
  ℕ, zero, suc, ◌+◌, ◌*◌, ◌≤◌, ◌<◌, ◌≡◌, refl, ap, ◌∙◌, ◌⊎◌, inl, inr, List, [], ◌∷◌, none, some,
  Option-cases, Bool-cases, ltb, length, get_elem?, drop, drop_head, drop_nil, length_last, Text,
  arith,
}
use isky.Safetensors.{K3Tensor}
use isky.Safetensors.Index.{
  Bucket, has_name, Stop, vacant, taken, home, bucket_count_from, bucket_count, Indexed, indexed,
  duplicate, stuck, put, index_from, no_buckets, build_index, find, lookup,
}
use isky.Safetensors.Index.Circle.{IsPowerOfTwo, used}
use isky.Safetensors.Index.Walk.{IsEnd}
use isky.Safetensors.Index.Built.{
  Holds, IsDistinct, home-IsEnd, put-Holds, has_name_self, has_name-lookup-none,
  has_name-lookup-some, vacant-fresh, has_name-name,
}

bucket_count_from_lem :
    (fuel nb nt : ℕ)
    → IsPowerOfTwo nb
    → 1024 ≤ nb
    → nt * 2 ≤ nb + fuel * 2
    → IsPowerOfTwo (bucket_count_from fuel nb nt)
      × (1024 ≤ bucket_count_from fuel nb nt)
      × (nt * 2 ≤ bucket_count_from fuel nb nt)
unfolding bucket_count_from
bucket_count_from_lem zero nb nt two big enough = (two, big, omega arith)
bucket_count_from_lem (suc fuel) nb nt (k, e) big enough = elim (Bool-cases (ltb nb (nt * 2))) [
  | inl more ↦
      rw (bucket_count_from, more)
        (bucket_count_from_lem fuel (nb * 2) nt (suc k, omega (arith, pow-suc 2 k)) (omega arith)
          (omega arith))
  | inr stops ↦ rw (bucket_count_from, stops) ((k, e), big, ground arith)
]

bucket_count_lem :
    (nt : ℕ)
    → IsPowerOfTwo (bucket_count nt) × (1024 ≤ bucket_count nt) × (nt * 2 ≤ bucket_count nt)
unfolding bucket_count
bucket_count_lem nt = bucket_count_from_lem nt 1024 nt (10, refl) (omega arith) (omega arith)

-- Two places have the name.
abbrev pub IsRepeated : List K3Tensor → Text → Type 0
IsRepeated ts name =
    (m : ℕ) × (k : ℕ) × (t : K3Tensor) × (u : K3Tensor) × (m < k)
    × (has_name ts name m ≡ some t)
    × (has_name ts name k ≡ some u)

abbrev IsIndexed : List K3Tensor → ℕ → Indexed → Type 0
IsIndexed ts nb (indexed b) = Holds ts b nb (length ts)
IsIndexed ts nb (duplicate name) = IsRepeated ts name
IsIndexed ts nb stuck = ⊥

module _ (ts : List K3Tensor) (nb : ℕ) (two : IsPowerOfTwo nb) (room : length ts < nb) where
  index_from-IsIndexed :
      (left : List K3Tensor) (i : ℕ) (b : Bucket)
      → drop i ts ≡ left
      → i ≤ length ts
      → Holds ts b nb i
      → IsIndexed ts nb (index_from ts nb b i left)
  unfolding index_from
  index_from-IsIndexed [] i b rest le inv =
      let whole : i ≡ length ts = omega (arith, drop_nil ts i rest) in rw (← whole) inv
  index_from-IsIndexed (t ∷ left) i b rest le inv =
      let (here, later) = drop_head ts i t left rest in
      let (s, ends, end) = home-IsEnd ts nb two b i t.name inv (omega arith) in
      rw (index_from, ends)
        (step s here end (λ j next.
          index_from-IsIndexed left (i + 1) (put b j i)
            (ap (λ n. drop n ts) {x = i + 1} {y = suc i} (omega arith) ∙ later)
            (omega (arith, length_last ts i (length ts) t here (omega arith))) next))
    where
      step :
          (s : Stop)
          → get_elem? ts i ≡ some t
          → IsEnd ts b nb t.name (home t.name nb) s
          → ((j : ℕ)
              → Holds ts (put b j i) nb (i + 1)
              → IsIndexed ts nb (index_from ts nb (put b j i) (i + 1) left))
          → IsIndexed ts nb (elim s [
            | taken k old ↦ duplicate t.name
            | vacant j ↦ index_from ts nb (put b j i) (i + 1) left
          ])
      step (taken k old) here ((j, held), same) go =
          (k, i, old, t, inv.below j k held, same, has_name_self ts i t here)
      step (vacant j) here end go = go j (
          put-Holds ts nb two b i j t inv here end
            (λ m lt. vacant-fresh ts nb two b i j m t.name inv end lt))

start-Holds : (ts : List K3Tensor) (nb : ℕ) → Holds ts no_buckets nb 0
unfolding no_buckets used
start-Holds ts nb = record {
  below = λ k m held. absurd (ground arith);
  count = unused nb;
  placed = λ m t lt at_m. absurd (omega arith);
  distinct = λ name m k t u lt_m lt_k is_t is_u. absurd (omega arith);
}
  where
    unused : (n : ℕ) → used no_buckets n ≤ 0
    unused zero = omega arith
    unused (suc n) = omega (arith, unused n)

room : (n : ℕ) → n < bucket_count n
room n = let (two, big, twice) = bucket_count_lem n in omega arith

build_index-IsIndexed :
    (ts : List K3Tensor) → IsIndexed ts (bucket_count (length ts)) (build_index ts)
unfolding build_index
build_index-IsIndexed ts =
    let nb = bucket_count (length ts) in
    index_from-IsIndexed ts nb (bucket_count_lem (length ts)).0 (room (length ts)) ts 0 no_buckets
      refl (omega arith) (start-Holds ts nb)

Holds-IsDistinct :
    (ts : List K3Tensor) (b : Bucket) (nb : ℕ) → Holds ts b nb (length ts) → IsDistinct ts
Holds-IsDistinct ts b nb inv name m k t u is_t is_u =
    inv.distinct name m k t u (inside m t is_t) (inside k u is_u) is_t is_u
  where
    inside : (m : ℕ) (t : K3Tensor) → has_name ts name m ≡ some t → m < length ts
    inside m t h = length_last ts m (length ts) t (has_name-name ts name m t h).0 (omega arith)

-- Indexing always ends: with an index of tensors that all have different names, or with a name
-- that two of them have.
pub build_index-cases :
    (ts : List K3Tensor)
    → ((b : Bucket) × (build_index ts ≡ indexed b) × IsDistinct ts)
      ⊎ ((name : Text) × (build_index ts ≡ duplicate name) × IsRepeated ts name)
build_index-cases ts = outcome (build_index ts) refl (build_index-IsIndexed ts)
  where
    outcome :
        (r : Indexed)
        → build_index ts ≡ r
        → IsIndexed ts (bucket_count (length ts)) r
        → ((b : Bucket) × (build_index ts ≡ indexed b) × IsDistinct ts)
          ⊎ ((name : Text) × (build_index ts ≡ duplicate name) × IsRepeated ts name)
    outcome (indexed b) e h = inl (b, e, Holds-IsDistinct ts b _ h)
    outcome (duplicate name) e h = inr (name, e, h)
    outcome stuck e h = absurd h

-- On an index that was built without a duplicate, `k3_st_find` ends for every name, with the
-- tensor that a search of the whole list from the front finds, or with none where that finds none.
pub find-lookup :
    (ts : List K3Tensor) (b : Bucket) (name : Text)
    → build_index ts ≡ indexed b
    → find (record { tensors = ts; bucket = b; nbucket = bucket_count (length ts) }) name
      ≡ some (lookup ts name)
unfolding find
find-lookup ts b name built =
    let nb = bucket_count (length ts) in
    let inv : Holds ts b nb (length ts) = rw built at (build_index-IsIndexed ts) in
    let (s, ends, end) =
      home-IsEnd ts nb (bucket_count_lem (length ts)).0 b (length ts) name inv (room (length ts)) in
    rw (find, ends) (verdict s inv end)
  where
    verdict :
        (s : Stop)
        → Holds ts b (bucket_count (length ts)) (length ts)
        → IsEnd ts b (bucket_count (length ts)) name (home name (bucket_count (length ts))) s
        → elim s [ taken i t ↦ some (some t) | vacant j ↦ some none ] ≡ some (lookup ts name)
    verdict (taken i t) inv ((j, held), same) = elim (Option-cases (lookup ts name)) [
      | inl gone ↦ absurd (ground (arith, has_name-lookup-none ts name i gone))
      | inr (u, first) ↦
          let (k, below, found) = has_name-lookup-some ts name u first in
          let level : i ≡ k = Holds-IsDistinct ts b _ inv name i k t u same found in
          let twice : has_name ts name k ≡ some t = rw level at same in ground arith
    ]
    verdict (vacant j) inv end = elim (Option-cases (lookup ts name)) [
      | inl gone ↦ rw gone refl
      | inr (u, first) ↦
          let (k, below, found) = has_name-lookup-some ts name u first in
          let (two, big, twice) = bucket_count_lem (length ts) in
          absurd (ground (arith, vacant-fresh ts _ two b (length ts) j k name inv end below))
    ]
