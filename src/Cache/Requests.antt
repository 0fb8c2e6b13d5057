-- ===== src/Cache/Requests.antt =====
-- src/cache/k3_cache.c: the requests of the model (`cache_get`, `cache_resident`), pins, statistics and
-- the sizing of `k3_cache_init`. Allocations succeed.
use isky.Prelude.{
  ℕ, zero, suc, ◌+◌, ◌-◌, ◌*◌, ◌/◌, ◌%◌, ◌^◌, [], ◌∷◌, ◌++◌, Bool, true, false, ◌||◌, Option, none,
  some, ℤ, pos, negsuc, ltb, leb, if◌then◌else◌,
}
use isky.Cache.{empty, ExpertRef, Store, K3Cache, write, key_at, admit}

-- The six pointers of K3ExpertQ, as offsets into the arena.
pub record ExpertQ : Type 0 where
  pub p1 : ℕ
  pub s1 : ℕ
  pub p2 : ℕ
  pub s2 : ℕ
  pub p3 : ℕ
  pub s3 : ℕ

quads : ℕ → ExpertRef → ExpertQ
quads b r = record {
  p1 = b + r.w1.p_off;
  s1 = b + r.w1.s_off;
  p2 = b + r.w2.p_off;
  s2 = b + r.w2.s_off;
  p3 = b + r.w3.p_off;
  s3 = b + r.w3.s_off;
}

module _ {W A : Type 0} where
  -- A slot that holds an expert has its geometry.
  unfoldable pub fill_q : K3Cache W A → ℕ → Option ExpertQ
  unfolding quads
  fill_q c slot = elim (c.ref slot) [
    | none ↦ none
    | some r ↦ some (quads (slot * c.slot_bytes + c.pad slot) r)
  ]

  -- a layer and an expert in range
  unfoldable pub in_range : K3Cache W A → ℤ → ℤ → Option (ℕ × ℕ)
  in_range c (pos layer) (pos expert) =
      if leb c.n_layers layer || leb c.n_experts expert then none else some (layer, expert)
  in_range c (pos layer) (negsuc n) = none
  in_range c (negsuc n) expert = none

  -- The request is counted and traced before it is served. The trace grows as it needs to.
  unfoldable pub record_request : ℕ → ℕ → K3Cache W A → K3Cache W A
  unfolding write
  record_request layer expert c =
      let key = key_at c layer expert in
      record c {
        hist = write c.hist key ((c.hist key + 1) % 2 ^ 32);
        trace = c.trace ++ layer ∷ expert ∷ [];
      }

  unfoldable pub get_at : Store W A → K3Cache W A → Option (ℕ × ℕ) → K3Cache W A × Option ℕ
  unfolding record_request admit
  get_at st c none = (c, none)
  get_at st c (some (layer, expert)) = admit st layer expert (record_request layer expert c)

  -- `cache_get`: the slot that `fill_q` reads, or none for the return value -1.
  unfoldable pub cache_get : Store W A → ℤ → ℤ → K3Cache W A → K3Cache W A × Option ℕ
  unfolding get_at in_range
  cache_get st layer expert c = get_at st c (in_range c layer expert)

  unfoldable pub resident_at : K3Cache W A → Option (ℕ × ℕ) → Option ℕ
  resident_at c none = none
  resident_at c (some (layer, expert)) = c.slot_of (key_at c layer expert)

  unfoldable pub cache_resident : K3Cache W A → ℤ → ℤ → Option ℕ
  unfolding resident_at in_range
  cache_resident c layer expert = resident_at c (in_range c layer expert)

  unfoldable pub pin_slot : K3Cache W A → Bool → Option ℕ → K3Cache W A × Bool
  unfolding write
  pin_slot c pin none = (c, false)
  pin_slot c pin (some slot) = (record c { pinned = write c.pinned slot pin }, true)

  -- The layer and the expert are not negative. The key is checked, and not each of the two.
  unfoldable pub k3_cache_pin : K3Cache W A → ℕ → ℕ → Bool → K3Cache W A × Bool
  unfolding pin_slot
  k3_cache_pin c layer expert pin =
      let key = key_at c layer expert in
      if leb (c.n_layers * c.n_experts) key then (c, false) else pin_slot c pin (c.slot_of key)

  unfoldable pub k3_cache_prefetch : Store W A → ℕ → ℕ → K3Cache W A → K3Cache W A × Bool
  unfolding admit
  k3_cache_prefetch st layer expert c =
      let (c', slot) = admit st layer expert c in (c', elim slot [ none ↦ false | some s ↦ true ])

  unfoldable pub k3_cache_reset_stats : K3Cache W A → K3Cache W A
  k3_cache_reset_stats c = record c {
    hits = 0;
    misses = 0;
    evictions = 0;
    bytes_read = 0;
    prefetch_reads = 0;
  }

abbrev pub align : ℕ
align = 4096

-- the stride of the slots: an expert and two pages, rounded up to a page (the code does it by a mask)
unfoldable pub slot_stride : ℕ → ℕ
slot_stride nbytes = (nbytes + 2 * align + align - 1) / align * align

-- `want` of `k3_cache_init`: with huge pages the arena is rounded up to 2 MiB
unfoldable pub arena_size : Bool → ℕ → ℕ
arena_size true want = (want + (2 ^ 21 - 1)) / 2 ^ 21 * 2 ^ 21
arena_size false want = want

-- `K3_MAX_TOPK`
abbrev pub max_topk : ℕ
max_topk = 64

module _ {W A : Type 0} where
  -- the first layer that is not dense and has an expert 0, from `layer` on
  unfoldable pub probe : Store W A → (ℕ → Bool) → ℕ → ℕ → Option ExpertRef
  probe st is_dense zero layer = none
  probe st is_dense (suc left) layer =
      let later = probe st is_dense left (layer + 1) in
      if is_dense layer
      then later
      else elim (st.expert_ref layer 0) [ none ↦ later | some r ↦ some r ]

  unfoldable pub new_cache : ℕ → ℕ → ℕ → ℕ → A → W → K3Cache W A
  new_cache n_layers n_experts slot_bytes nslot blank w = record {
    n_layers = n_layers;
    n_experts = n_experts;
    slot_bytes = slot_bytes;
    nslot = nslot;
    arena = λ s. blank;
    slot_of = λ k. none;
    key_of = λ s. empty;
    used_at = λ s. 0;
    pinned = λ s. false;
    ref = λ s. none;
    pad = λ s. 0;
    clock = 0;
    hits = 0;
    misses = 0;
    evictions = 0;
    bytes_read = 0;
    prefetch_reads = 0;
    hist = λ k. 0;
    trace = [];
    world = w;
  }

  unfoldable pub sized : Bool → ℕ → ℕ → ℕ → ℕ → A → W → Option ExpertRef → Option (K3Cache W A × ℕ)
  unfolding slot_stride new_cache arena_size
  sized huge n_layers n_experts topk budget blank w none = none
  sized huge n_layers n_experts topk budget blank w (some r) =
      let stride = slot_stride r.nbytes in
      let nslot = budget / stride in
      if ltb nslot (topk + 1)
      then none
      else some
          (new_cache n_layers n_experts stride nslot blank w, arena_size huge (nslot * stride))

  -- The slots are sized from the first expert found; too few of them is an error. `huge` is that
  -- K3_NOHUGE is not set. The result is the cache and the size of its arena, which is allocated.
  unfoldable pub k3_cache_init :
      Store W A → (ℕ → Bool) → Bool → ℕ → ℕ → ℕ → ℕ → A → W → Option (K3Cache W A × ℕ)
  unfolding probe sized
  k3_cache_init st is_dense huge n_layers n_experts topk budget blank w =
      sized huge n_layers n_experts topk budget blank w (probe st is_dense n_layers 0)
