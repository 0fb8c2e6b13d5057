-- ===== src/Loader/Layout.antt =====
-- src/io/k3_load.c: where `k3_expert_ref` puts the six spans of an expert.
use isky.Prelude.{ℕ, ◌+◌, ◌≤◌, ◌≡◌, List, true, ℤ, pos, All}
use isky.Safetensors.{K3Tensor}
use isky.Loader.{K3ExpertRef, Pair, Extent, extent}

-- An offset and a size that are not negative.
abbrev pub IsSpan : K3Tensor → ℕ → ℕ → Type 0
IsSpan t off nbytes = (t.off ≡ pos off) × (t.nbytes ≡ pos nbytes)

abbrev pub IsPlain : K3Tensor → Type 0
IsPlain t = (off : ℕ) × (nbytes : ℕ) × IsSpan t off nbytes

-- An extent with these bounds around tensors that all lie between them.
record Bounds (e : Extent) (lo hi own : ℕ) (ts : List K3Tensor) : Type 0 where
  low : ℕ
  high : ℕ
  sum : ℕ
  is_low : (extent e ts).lo ≡ pos low
  is_high : (extent e ts).hi ≡ pos high
  is_sum : (extent e ts).own ≡ pos sum
  low_le : low ≤ lo
  high_le : hi ≤ high
  sum_le : own ≤ sum
  around :
      All
        (λ t. (off : ℕ) (nbytes : ℕ) → IsSpan t off nbytes → (low ≤ off) × (off + nbytes ≤ high))
        ts

-- The bytes of a tensor stand at `o` inside the run; in a run that is one piece of the file they are
-- the file's, at the tensor's own offset.
pub record InRun (r : K3ExpertRef) (t : K3Tensor) (o : ℤ) : Type 0 where
  pub start : ℕ
  pub size : ℕ
  pub run : ℕ
  pub is_start : o ≡ pos start
  pub is_size : t.nbytes ≡ pos size
  pub is_run : r.nbytes ≡ pos run
  pub inside : start + size ≤ run
  pub of_file : r.contiguous ≡ true → (base : ℕ) × (r.off ≡ pos base) × (t.off ≡ pos (base + start))

-- all six tensors of an expert
abbrev pub AllInRun : K3ExpertRef → Pair → Pair → Pair → Type 0
AllInRun r a b c =
    InRun r a.0 r.w1.p_off
    × InRun r a.1 r.w1.s_off
    × InRun r b.0 r.w2.p_off
    × InRun r b.1 r.w2.s_off
    × InRun r c.0 r.w3.p_off
    × InRun r c.1 r.w3.s_off
