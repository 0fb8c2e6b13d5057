-- ===== src/Safetensors/Index.antt =====
-- src/io/k3_st.c: the open-addressed hash index from names to tensors.
pub mod Circle
pub mod Walk
pub mod Built
pub mod Refines
use Prim.Native.Nat.{bit_and}
use isky.Prelude.{
  ℕ, zero, suc, ◌+◌, ◌-◌, ◌*◌, List, [], ◌∷◌, Bool, true, false, Option, none, some, ltb, length,
  get_elem?, ◌==◌, Text, str_eq, if◌then◌else◌,
}
use isky.Safetensors.{K3Tensor, fnv1a}

-- `bucket[j]` is none for -1. The array is a function of its index.
abbrev pub Bucket : Type 0
Bucket = ℕ → Option ℕ

pub record Index : Type 0 where
  pub tensors : List K3Tensor
  pub bucket : Bucket
  pub nbucket : ℕ

abbrev pub has_name : List K3Tensor → Text → ℕ → Option K3Tensor
has_name ts name i = elim (get_elem? ts i) [
  | none ↦ none
  | some t ↦ if str_eq t.name name then some t else none
]

-- Where a walk along the buckets ends: at an empty bucket, or at a tensor of the name.
pub data Stop : Type 0 where
  vacant : ℕ → Stop
  taken : ℕ → K3Tensor → Stop

-- `while (bucket[j] >= 0) { if (!strcmp(...)) ...; j = (j + 1) & (nb - 1); }`, which the insertion and
-- the lookup share; none when the fuel runs out
unfoldable pub walk : List K3Tensor → Bucket → ℕ → Text → ℕ → ℕ → Option Stop
walk ts b nb name zero j = none
walk ts b nb name (suc fuel) j = elim (b j) [
  | none ↦ some (vacant j)
  | some i ↦ elim (has_name ts name i) [
    | some t ↦ some (taken i t)
    | none ↦ walk ts b nb name fuel (bit_and (j + 1) (nb - 1))
  ]
]

-- `(int)(h & (uint64_t)(nb - 1))`
unfoldable pub home : Text → ℕ → ℕ
home name nb = bit_and (fnv1a name) (nb - 1)

-- `nb = 1024; while (nb < nt * 2) nb <<= 1;`
unfoldable pub bucket_count_from : ℕ → ℕ → ℕ → ℕ
bucket_count_from zero nb nt = nb
bucket_count_from (suc fuel) nb nt = elim (ltb nb (nt * 2)) [
  | true ↦ bucket_count_from fuel (nb * 2) nt
  | false ↦ nb
]

unfoldable pub bucket_count : ℕ → ℕ
unfolding bucket_count_from
bucket_count nt = bucket_count_from nt 1024 nt

-- What indexing gives: the buckets, or a duplicate name; `stuck` is a walk that does not end.
pub data Indexed : Type 0 where
  indexed : Bucket → Indexed
  duplicate : Text → Indexed
  stuck : Indexed

unfoldable pub put : Bucket → ℕ → ℕ → Bucket
put b j i k = if k == j then some i else b k

-- the loop over the tensors from the `i`-th on, which are the list `left`
unfoldable pub index_from : List K3Tensor → ℕ → Bucket → ℕ → List K3Tensor → Indexed
unfolding walk home put
index_from ts nb b i [] = indexed b
index_from ts nb b i (t ∷ left) = elim (walk ts b nb t.name nb (home t.name nb)) [
  | none ↦ stuck
  | some s ↦ elim s [
    | taken k old ↦ duplicate t.name
    | vacant j ↦ index_from ts nb (put b j i) (i + 1) left
  ]
]

unfoldable pub no_buckets : Bucket
no_buckets j = none

unfoldable pub build_index : List K3Tensor → Indexed
unfolding bucket_count index_from no_buckets
build_index ts = index_from ts (bucket_count (length ts)) no_buckets 0 ts

-- `k3_st_find` once the index is built; the outer none when the walk does not end
unfoldable pub find : Index → Text → Option (Option K3Tensor)
unfolding walk home
find s name = elim (walk s.tensors s.bucket s.nbucket name s.nbucket (home name s.nbucket)) [
  | none ↦ none
  | some stop ↦ elim stop [ taken i t ↦ some (some t) | vacant j ↦ some none ]
]

-- the tensor of a name by a search from the front, as an independent description of the index
abbrev pub lookup : List K3Tensor → Text → Option K3Tensor
lookup [] name = none
lookup (t ∷ ts) name = if str_eq t.name name then some t else lookup ts name
