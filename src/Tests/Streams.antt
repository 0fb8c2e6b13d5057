-- ===== src/Tests/Streams.antt =====
-- The expert loader and the trunk at concrete inputs.
use isky.Prelude.{
  ℕ, zero, suc, ◌+◌, ◌%◌, ◌≡◌, refl, List, [], ◌∷◌, Bool, true, false, Option, none, some, pos,
  text, get_elem?, arith,
}
use isky.Safetensors.{K3Tensor, dt_u8}
use isky.Safetensors.Index.{no_buckets}
use isky.Safetensors.Open.{K3St}
use isky.Loader.{K3ExpertRef, Pair, k3_expert_load_direct}
use isky.Loader.Layout.{InRun}
use isky.Loader.Fetch.{Fetched, k3_expert_load_direct-Fetched}
use isky.Trunk.{K3TrunkLayer, trunk_align, plan_ring}
use isky.Trunk.Sizing.{RingFits, plan_ring-RingFits}
use isky.Trunk.Ring.{
  K3Trunk, Base, slot_at, bind_demand, k3_trunk_bind, k3_trunk_prefetch, contents, threads,
  stream_layers,
}
use isky.Trunk.Ring.Coherent.{Coherent, IsIdle}
use isky.Trunk.Ring.Walk.{AreRuns, stream_layers-AreRuns}
use isky.Trunk.Ring.Survive.{bind_demand-survives}
use isky.Tests.Checkpoint.{disk, on_disk, disk-IsFaithful, shards}

abbrev part : ℕ → K3Tensor
part off = record {
  name = text "part";
  shard = 0;
  dtype = dt_u8;
  shape = pos 1 ∷ pos 1 ∷ [];
  off = pos off;
  nbytes = pos 1;
}

-- Six tensors of a byte each, in file order.
abbrev first : Pair
first = (part 1, part 0)

abbrev second : Pair
second = (part 2, part 3)

abbrev third : Pair
third = (part 4, part 5)

-- A run of four bytes at the offset 1 of the shard, with a matrix of two at 1.
abbrev run_of_four : K3ExpertRef
run_of_four = record {
  layer = 0;
  expert = 7;
  shard = 0;
  off = pos 1;
  nbytes = pos 4;
  contiguous = true;
  w1 = record {
    p_off = pos 1;
    p_bytes = pos 2;
    s_off = pos 0;
    s_bytes = pos 1;
    rows = pos 1;
    pcols = pos 2;
    scols = pos 1;
  };
  w2 = record {
    p_off = pos 1;
    p_bytes = pos 2;
    s_off = pos 0;
    s_bytes = pos 1;
    rows = pos 1;
    pcols = pos 2;
    scols = pos 1;
  };
  w3 = record {
    p_off = pos 1;
    p_bytes = pos 2;
    s_off = pos 0;
    s_bytes = pos 1;
    rows = pos 1;
    pcols = pos 2;
    scols = pos 1;
  };
}

abbrev two_bytes : K3Tensor
two_bytes = record (part 2) { nbytes = pos 2 }

in_run : InRun run_of_four two_bytes (pos 1)
in_run = record {
  start = 1;
  size = 2;
  run = 4;
  is_start = refl;
  is_size = refl;
  is_run = refl;
  inside = omega arith;
  of_file = λ one. (1, refl, refl);
}

abbrev no_checkpoint : K3St
no_checkpoint = record {
  shards = [];
  index = record { tensors = []; bucket = no_buckets; nbucket = 1024 };
}

k3_expert_load_direct-Fetched_example :
    Fetched
      (k3_expert_load_direct disk no_checkpoint shards run_of_four (λ j. 0) (pos 9000) 0).0
      (on_disk 0)
      4
      1
      2
      2
unfolding in_run
k3_expert_load_direct-Fetched_example =
    k3_expert_load_direct-Fetched disk on_disk disk-IsFaithful no_checkpoint shards run_of_four
      two_bytes (pos 1) in_run 1 9000 (λ j. 0) 0 refl refl (omega arith) (omega arith) (omega arith)

abbrev layer_of_size : ℕ → K3TrunkLayer
layer_of_size n = record { file_off = 0; nbytes = n; tensors = [] }

abbrev three_layers : List K3TrunkLayer
three_layers = layer_of_size 12288 ∷ layer_of_size 8192 ∷ layer_of_size 8192 ∷ []

whole : (j : ℕ) (l : K3TrunkLayer) → get_elem? three_layers j ≡ some l → l.nbytes % trunk_align ≡ 0
whole zero l e = ground arith
whole (suc zero) l e = ground arith
whole (suc (suc zero)) l e = ground arith
whole (suc (suc (suc j))) l e = absurd (ground arith)

plan_ring-RingFits_example : RingFits three_layers 4096 40000 (plan_ring three_layers 4096 40000)
plan_ring-RingFits_example = plan_ring-RingFits three_layers 4096 40000 (omega arith) whole

-- Layers that are no whole blocks: the passes alternate, and the layer of 12000 bytes is left to a
-- slot of 8192.
test_alternating :
    plan_ring (layer_of_size 12000 ∷ layer_of_size 8000 ∷ []) 0 24400
    ≡ record { ring_slot = 8192; npin = 0; spent = 16384; nslot = 2 }
unfolding plan_ring
test_alternating = refl

-- The run of a layer is its number and a hundred; every read succeeds.
abbrev run : ℕ → ℕ
run L = L + 100

abbrev load : ℕ → ℕ → (ℕ × Bool) × ℕ
load L w = ((run L, true), w + 1)

abbrev start : K3Trunk ℕ ℕ
start = record {
  n_layers = 4;
  npin = 1;
  nslot = 2;
  pin = λ L. 0;
  arena = λ s. 0;
  layer_of = λ s. none;
  slot_of = λ L. none;
  ring = 0;
  io = some (record { busy = false; done = false; layer = 0; slot = 0; succeeded = false });
  hits = 0;
  misses = 0;
  world = 0;
}

start-IsIdle : IsIdle load run start
start-IsIdle io e = ground arith

start-Coherent : Coherent load run start
start-Coherent = record {
  pinned = λ L s lt held. absurd (ground arith);
  ringed = λ s L held. absurd (ground arith);
  reserved = λ io e pending. ground arith;
  result = λ io e done ok. absurd (ground arith);
  settled = λ io e done. ground arith;
  above = λ L s held. absurd (ground arith);
  asked_above = λ io e pending. absurd (ground arith);
}

stream_layers-AreRuns_example :
    AreRuns load run (λ L w ok. refl) 0 (stream_layers load (0 ∷ 1 ∷ 0 ∷ 2 ∷ []) 0 start).0
stream_layers-AreRuns_example =
    stream_layers-AreRuns load run (λ L w ok. refl) (0 ∷ 1 ∷ 0 ∷ 2 ∷ []) 0 start start-Coherent
      (λ io e pending. absurd (ground arith))

test_walk : (stream_layers load (0 ∷ 1 ∷ 0 ∷ 2 ∷ []) 0 start).0 ≡ 100 ∷ 101 ∷ 102 ∷ 103 ∷ []
unfolding stream_layers
test_walk = refl

bind_demand-survives_example :
    contents load
      (threads load 1 (k3_trunk_prefetch load 2 (bind_demand load 1 start).0))
      (slot_at 0)
    ≡ 101
unfolding bind_demand
bind_demand-survives_example =
    bind_demand-survives load run (λ L w ok. refl) start 1 2 1 (slot_at 0) start-Coherent
      start-IsIdle (omega arith) (omega arith) (omega arith) refl

-- A layer that is found in the ring, at the hand, is overwritten by the next hint.
abbrev found_again : K3Trunk ℕ ℕ × Option Base
found_again = k3_trunk_bind load 1 (k3_trunk_bind load 2 (k3_trunk_bind load 1 start).0).0

test_overwritten :
    (contents load found_again.0 (slot_at 0) ≡ 101)
    × (contents load (threads load 1 (k3_trunk_prefetch load 3 found_again.0)) (slot_at 0) ≡ 103)
unfolding k3_trunk_bind k3_trunk_prefetch threads contents
test_overwritten = (refl, refl)
