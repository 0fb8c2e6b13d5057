-- ===== src/Safetensors/Index/Walk.antt =====
-- src/io/k3_st.c: where a walk along the buckets ends.
use Prim.Native.Nat.{bit_and}
use isky.Prelude.{
  ℕ, zero, suc, ◌+◌, ◌-◌, ◌<◌, ◌≡◌, refl, inl, inr, List, none, some, Option-cases, Text, arith,
}
use isky.Safetensors.{K3Tensor}
use isky.Safetensors.Index.{Bucket, has_name, Stop, vacant, taken, walk}
use isky.Safetensors.Index.Circle.{ahead}

module _ (ts : List K3Tensor) (b : Bucket) (nb : ℕ) (name : Text) where
  -- a bucket in use, with a tensor of another name
  abbrev pub IsMiss : ℕ → Type 0
  IsMiss j = (i : ℕ) × (b j ≡ some i) × (has_name ts name i ≡ none)

  -- where a walk from `j` may end
  abbrev pub IsEnd : ℕ → Stop → Type 0
  IsEnd j (vacant k) =
      (b k ≡ none) × ((d : ℕ) × (ahead nb d j ≡ k) × ((e : ℕ) → e < d → IsMiss (ahead nb e j)))
  IsEnd j (taken i t) = ((k : ℕ) × (b k ≡ some i)) × (has_name ts name i ≡ some t)

  later : (j : ℕ) (s : Stop) → IsMiss j → IsEnd (bit_and (j + 1) (nb - 1)) s → IsEnd j s
  unfolding ahead
  later j (vacant k) miss (empty, (d, meets, before)) = (empty, (suc d, meets, earlier))
    where
      earlier : (e : ℕ) → e < suc d → IsMiss (ahead nb e j)
      earlier zero lt = miss
      earlier (suc e) lt = before e (omega arith)
  later j (taken i t) miss end = end

  -- With an empty bucket fewer than `fuel` steps on, the walk ends.
  pub walk-IsEnd :
      (fuel d j : ℕ)
      → d < fuel
      → b (ahead nb d j) ≡ none
      → (s : Stop) × (walk ts b nb name fuel j ≡ some s) × IsEnd j s
  unfolding ahead walk
  walk-IsEnd zero d j lt e = absurd (omega arith)
  walk-IsEnd (suc fuel) d j lt e = elim (Option-cases (b j)) [
    | inl free ↦ (vacant j, rw (walk, free) refl, (free, (0, refl, λ e l. absurd (omega arith))))
    | inr (i, held) ↦ elim (Option-cases (has_name ts name i)) [
      | inr (t, same) ↦ (taken i t, rw (walk, held, same) refl, ((j, held), same))
      | inl other ↦
          let (c, below, free) = onward d j e held in
          let (s, ends, end) = walk-IsEnd fuel c (bit_and (j + 1) (nb - 1)) (omega arith) free in
          (s, rw (walk, held, other) ends, later j s (i, held, other) end)
    ]
  ]
    where
      onward :
          {i : ℕ} (d j : ℕ)
          → b (ahead nb d j) ≡ none
          → b j ≡ some i
          → (c : ℕ) × (suc c ≡ d) × (b (ahead nb c (bit_and (j + 1) (nb - 1))) ≡ none)
      onward zero j e held = cc
      onward (suc d) j e held = (d, refl, e)
