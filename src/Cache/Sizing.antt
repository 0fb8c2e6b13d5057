-- ===== src/Cache/Sizing.antt =====
-- What `k3_cache_init` of src/cache/k3_cache.c makes of a budget.
use mathlib.Core.Option.{some-injective}
use native.Mathlib.Nat.{div-mul-le_self}
use isky.Prelude.{
  ◌≢◌, ℕ, ◌+◌, ◌*◌, ◌/◌, ◌%◌, ◌<◌, ◌≤◌, ◌≡◌, ◌^◌, refl, ap, true, false, Bool, Option, none, some,
  ltb, Bool-cases, inl, inr, arith,
}
use isky.Cache.{ExpertRef, Store, K3Cache}
use isky.Cache.Victim.{empty≢holds}
use isky.Cache.Coherence.{Coherent}
use isky.Cache.Requests.{align, slot_stride, arena_size, new_cache, sized, probe, k3_cache_init}

-- A slot has room for an expert and a page at either end, and a slot starts at a page wherever the
-- arena does; no more than a page less one is lost to that.
pub slot_stride-bounds :
    (nbytes : ℕ)
    → (slot_stride nbytes % align ≡ 0)
      × (nbytes + 2 * align ≤ slot_stride nbytes)
      × (slot_stride nbytes < nbytes + 3 * align)
unfolding slot_stride
slot_stride-bounds nbytes = (omega arith, omega arith, omega arith)

arena_size-bounds :
    (huge : Bool) (want : ℕ)
    → (want ≤ arena_size huge want)
      × (arena_size huge want < want + 2 ^ 21)
      × (huge ≡ false → arena_size huge want ≡ want)
unfolding arena_size
arena_size-bounds true want = (omega arith, omega arith, λ h. cc)
arena_size-bounds false want = (omega arith, omega arith, λ h. refl)

module _ {W A : Type 0} (st : Store W A) (content : ExpertRef → A) where
  new_cache-Coherent :
      (n_layers n_experts slot_bytes nslot : ℕ) (blank : A) (w : W)
      → Coherent st content (new_cache n_layers n_experts slot_bytes nslot blank w)
  unfolding new_cache
  new_cache-Coherent n_layers n_experts slot_bytes nslot blank w = record {
    resident = λ k s e. cc;
    listed = λ s k _ e. absurd (empty≢holds e);
    served = λ s k _ e. absurd (empty≢holds e);
    pins = λ s e. cc;
  }

  pub record Sized (huge : Bool) (topk budget : ℕ) (c : K3Cache W A) (arena : ℕ) : Type 0 where
    pub coherent : Coherent st content c
    pub enough : topk < c.nslot
    pub within : c.nslot * c.slot_bytes ≤ budget
    pub held : c.nslot * c.slot_bytes ≤ arena
    pub over : arena < c.nslot * c.slot_bytes + 2 ^ 21
    pub exact : huge ≡ false → arena ≡ c.nslot * c.slot_bytes
    pub aligned : c.slot_bytes % align ≡ 0

  sized-Sized :
      (huge : Bool) (n_layers n_experts topk budget : ℕ) (blank : A) (w : W) (o : Option ExpertRef)
      (c : K3Cache W A) (arena : ℕ)
      → sized huge n_layers n_experts topk budget blank w o ≡ some (c, arena)
      → Sized huge topk budget c arena
  unfolding sized
  sized-Sized huge n_layers n_experts topk budget blank w none c arena h = cc
  sized-Sized huge n_layers n_experts topk budget blank w (some r) c arena h =
      elim (Bool-cases (ltb (budget / slot_stride r.nbytes) (topk + 1))) [
        | inl e ↦ absurd (none≢some_cache (rw e at h))
        | inr e ↦
            let same = some-injective _ (c, arena) (rw e at h) in
            let (held, over, exact) =
              arena_size-bounds huge (budget / slot_stride r.nbytes * slot_stride r.nbytes) in
            rw (← ap (λ p. p.0) same, ← ap (λ p. p.1) same)
              (record {
                coherent = new_cache-Coherent n_layers n_experts (slot_stride r.nbytes) _ blank w;
                enough = (unfold new_cache in ground arith);
                within = (unfold new_cache in div-mul-le_self budget (slot_stride r.nbytes));
                held = (unfold new_cache in held);
                over = (unfold new_cache in over);
                exact = (unfold new_cache in exact);
                aligned = (unfold new_cache in (slot_stride-bounds r.nbytes).0);
              })
      ]
    where
      none≢some_cache : {d : K3Cache W A × ℕ} → none ≢ some d
      none≢some_cache q = cc

  -- A cache that is set up is coherent, has a slot more than the experts of a token, and its slots are
  -- whole pages that together stay within the budget; its arena holds them and is less than 2 MiB
  -- larger, and no larger without huge pages.
  pub k3_cache_init-Sized :
      (is_dense : ℕ → Bool) (huge : Bool) (n_layers n_experts topk budget : ℕ) (blank : A) (w : W)
      (c : K3Cache W A) (arena : ℕ)
      → k3_cache_init st is_dense huge n_layers n_experts topk budget blank w ≡ some (c, arena)
      → Sized huge topk budget c arena
  unfolding k3_cache_init
  k3_cache_init-Sized is_dense huge n_layers n_experts topk budget blank w c arena h =
      sized-Sized huge n_layers n_experts topk budget blank w (probe st is_dense n_layers 0) c arena
        h
