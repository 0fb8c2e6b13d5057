-- ===== src/Tests/Caches.antt =====
-- The expert cache at concrete inputs: a checkpoint whose experts are numbers, and a cache of a few slots.
use isky.Prelude.{ℕ, ◌+◌, ◌*◌, ◌≡◌, refl, [], ◌∷◌, true, false, some, pos, negsuc, arith}
use isky.Cache.{
  ExpertRef, Store, K3Cache, is_full, admit, pick_victim, write, publish, touch, settle, evict,
}
use isky.Cache.Requests.{
  slot_stride, new_cache, probe, sized, k3_cache_init, cache_get, cache_resident, in_range,
  k3_cache_pin, pin_slot,
}
use isky.Cache.Victim.{IsVictim, pick_victim-IsVictim}
use isky.Cache.Coherence.{Coherent}
use isky.Cache.Service.{Answered, admit-Admits, cache_get-Answered}
use isky.Cache.Resident.{cache_resident-cache_get}
use isky.Cache.Pins.{Keeps, admit-Keeps, k3_cache_pin-Coherent}
use isky.Cache.Sizing.{Sized, k3_cache_init-Sized}
use isky.Cache.Batch.{cache_getmany}
use isky.Cache.Batch.Fetch.{cache_getmany-Coherent}

expert : ℕ → ExpertRef
expert n = record {
  shard = 0;
  off = n;
  nbytes = 100;
  w1 = record { p_off = 0; s_off = 10 };
  w2 = record { p_off = 20; s_off = 30 };
  w3 = record { p_off = 40; s_off = 50 };
}

-- `W` counts the reads.
checkpoint : Store ℕ ℕ
unfolding expert
checkpoint = record {
  expert_ref = λ layer e. some (expert (layer * 4 + e));
  load = λ r w. (record { bytes = r.off; got = some r.nbytes; pad = 0 }, w + 1);
}

abbrev content : ExpertRef → ℕ
content r = r.off

whole :
    (r : ExpertRef) (w : ℕ)
    → is_full (checkpoint.load r w).0.got r.nbytes ≡ true
    → (checkpoint.load r w).0.bytes ≡ content r
unfolding checkpoint
whole r w e = refl

abbrev cold : K3Cache ℕ ℕ
cold = new_cache 2 4 12288 3 0 0

k3_cache_init-Sized_example : Sized checkpoint content false 2 36864 cold 36864
unfolding k3_cache_init probe sized checkpoint expert slot_stride new_cache
k3_cache_init-Sized_example =
    k3_cache_init-Sized checkpoint content (λ l. false) false 2 4 2 36864 0 0 cold 36864 refl

cold-Coherent : Coherent checkpoint content cold
unfolding k3_cache_init probe sized checkpoint expert slot_stride new_cache
cold-Coherent =
    (k3_cache_init-Sized checkpoint content (λ l. false) false 2 4 2 36864 0 0 cold 36864
      refl).coherent

cache_getmany-Coherent_example :
    Coherent checkpoint content
      (cache_getmany checkpoint 1 (pos 3 ∷ negsuc 0 ∷ pos 0 ∷ pos 3 ∷ []) cold).0
cache_getmany-Coherent_example =
    cache_getmany-Coherent checkpoint content 1 whole (pos 3 ∷ negsuc 0 ∷ pos 0 ∷ pos 3 ∷ []) cold
      cold-Coherent

cache_get-Answered_example :
    let x = cache_get checkpoint (pos 1) (pos 3) cold in
    Coherent checkpoint content x.0
    × ((s : ℕ) → x.1 ≡ some s → Answered checkpoint content 1 3 x.0 s)
unfolding new_cache
cache_get-Answered_example =
    cache_get-Answered checkpoint content whole 1 3 cold cold-Coherent (omega arith) (omega arith)

-- the expert 3 of layer 1 in a slot, and pinned there
abbrev warm : K3Cache ℕ ℕ
warm = (admit checkpoint 1 3 cold).0

abbrev pinned : K3Cache ℕ ℕ
pinned = (k3_cache_pin warm 1 3 true).0

warm-Coherent : Coherent checkpoint content warm
unfolding new_cache
warm-Coherent =
    (admit-Admits checkpoint content whole 1 3 cold cold-Coherent (omega arith)).coherent

pinned-Coherent : Coherent checkpoint content pinned
pinned-Coherent = (k3_cache_pin-Coherent checkpoint content 1 3 true warm warm-Coherent).0

admit-Keeps_example : Keeps 0 pinned (admit checkpoint 0 2 pinned).0
unfolding k3_cache_pin pin_slot admit pick_victim checkpoint expert new_cache write publish touch
    settle evict is_full
admit-Keeps_example = admit-Keeps checkpoint content 0 0 2 pinned pinned-Coherent refl

pick_victim-IsVictim_example : IsVictim warm (pick_victim warm)
pick_victim-IsVictim_example = pick_victim-IsVictim warm

cache_resident-cache_get_example :
    let x = cache_get checkpoint (pos 1) (pos 3) warm in
    (x.1 ≡ some 0) × (x.0.world ≡ warm.world) × (x.0.arena ≡ warm.arena)
unfolding cache_resident in_range admit pick_victim checkpoint expert new_cache write publish touch
    settle evict is_full
cache_resident-cache_get_example = cache_resident-cache_get checkpoint (pos 1) (pos 3) warm 0 refl
