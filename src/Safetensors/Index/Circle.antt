-- ===== src/Safetensors/Index/Circle.antt =====
-- src/io/k3_st.c: the circle of buckets that `(j + 1) & (nb - 1)` goes around, and how many of them
-- are in use.
use Prim.Native.Nat.{bit_and}
use isky.Prelude.{
  ℕ, zero, suc, ◌+◌, ◌-◌, ◌^◌, ◌≤◌, ◌<◌, ◌≡◌, refl, ◌∙◌, ap, inl, inr, Bool, true, false, none,
  some, ltb, is_some, Bool-cases, Option-cases, ◌==◌, arith, bit_and-mask, bit_and-mask_wrap,
  pow_pos,
}
use isky.Safetensors.Index.{Bucket, put}

-- the bucket `d` steps on from `j`
unfoldable pub ahead : ℕ → ℕ → ℕ → ℕ
ahead nb zero j = j
ahead nb (suc d) j = ahead nb d (bit_and (j + 1) (nb - 1))

abbrev pub IsPowerOfTwo : ℕ → Type 0
IsPowerOfTwo nb = (k : ℕ) × (nb ≡ 2 ^ k)

pub positive : (nb : ℕ) → IsPowerOfTwo nb → 0 < nb
positive nb (k, e) = omega (arith, pow_pos k)

next_inside : (nb j : ℕ) → IsPowerOfTwo nb → j + 1 < nb → bit_and (j + 1) (nb - 1) ≡ j + 1
next_inside nb j (k, e) lt = rw e (bit_and-mask k (j + 1) (omega arith))

next_wraps : (nb j : ℕ) → IsPowerOfTwo nb → j + 1 ≡ nb → bit_and (j + 1) (nb - 1) ≡ 0
next_wraps nb j (k, e) last = rw e (bit_and-mask_wrap k (j + 1) (omega arith))

pub ahead_add : (nb c d j : ℕ) → ahead nb (c + d) j ≡ ahead nb d (ahead nb c j)
unfolding ahead
ahead_add nb zero d j = ap (λ n. ahead nb n j) {x = 0 + d} {y = d} (omega arith)
ahead_add nb (suc c) d j =
    ap (λ n. ahead nb n j) {x = suc c + d} {y = suc (c + d)} (omega arith) ∙ ahead_add nb c d _

pub ahead_one : (nb d j : ℕ) → ahead nb (suc d) j ≡ bit_and (ahead nb d j + 1) (nb - 1)
unfolding ahead
ahead_one nb zero j = refl
ahead_one nb (suc d) j = ahead_one nb d _

ahead_inside : (nb d j : ℕ) → IsPowerOfTwo nb → j + d < nb → ahead nb d j ≡ j + d
unfolding ahead
ahead_inside nb zero j p lt = omega arith
ahead_inside nb (suc d) j p lt =
    rw (next_inside nb j p (omega arith)) (ahead_inside nb d (j + 1) p (omega arith) ∙ omega arith)

-- From any bucket every bucket is reached within `nb` steps.
pub ahead_reaches :
    (nb j k : ℕ) → IsPowerOfTwo nb → j < nb → k < nb → (d : ℕ) × (d < nb) × (ahead nb d j ≡ k)
ahead_reaches nb j k p lj lk = elim (Bool-cases (ltb k j)) [
  | inr e ↦ (k - j, omega arith, ahead_inside nb (k - j) j p (ground arith) ∙ ground arith)
  | inl e ↦ (
    suc (nb - 1 - j) + k,
    ground arith,
    ahead_add nb (suc (nb - 1 - j)) k j
        ∙ ap (ahead nb k) (
            ahead_one nb (nb - 1 - j) j
            ∙ ap (λ x. bit_and (x + 1) (nb - 1)) (ahead_inside nb (nb - 1 - j) j p (omega arith))
            ∙ next_wraps nb _ p (omega arith))
        ∙ (ahead_inside nb k 0 p (omega arith) ∙ omega arith),
  )
]

abbrev one_if : Bool → ℕ
one_if true = 1
one_if false = 0

-- how many of the first `n` buckets are in use
unfoldable pub used : Bucket → ℕ → ℕ
used b zero = 0
used b (suc n) = used b n + one_if (is_some (b n))

pub some_vacant : (b : Bucket) (n : ℕ) → used b n < n → (k : ℕ) × (k < n) × (b k ≡ none)
unfolding used
some_vacant b zero lt = absurd (omega arith)
some_vacant b (suc n) lt = elim (Option-cases (b n)) [
  | inl e ↦ (n, omega arith, e)
  | inr (i, e) ↦ let (k, below, vacant) = some_vacant b n (ground arith) in (k, omega arith, vacant)
]

used-put_above : (b : Bucket) (n j i : ℕ) → n ≤ j → used (put b j i) n ≡ used b n
unfolding used put
used-put_above b zero j i h = refl
used-put_above b (suc n) j i h = ground (arith, used-put_above b n j i)

pub used-put_le : (b : Bucket) (n j i : ℕ) → used (put b j i) n ≤ used b n + 1
unfolding used put
used-put_le b zero j i = omega arith
used-put_le b (suc n) j i = elim (Bool-cases (n == j)) [
  | inl e ↦ ground (arith, used-put_above b n j i)
  | inr e ↦ ground (arith, used-put_le b n j i)
]

pub put-put_kept : (b : Bucket) (j i k m : ℕ) → b j ≡ none → b k ≡ some m → put b j i k ≡ some m
unfolding put
put-put_kept b j i k m vacant held = ground arith
