-- ===== src/Cache.antt =====
-- src/cache/k3_cache.c and k3_cache.h: the streaming cache of routed experts. Slots of one arena hold
-- one expert each; a miss takes the least recently used slot that is not pinned.
pub mod Requests
pub mod Batch
pub mod Victim
pub mod Coherence
pub mod Service
pub mod Pins
pub mod Resident
pub mod Sizing
use isky.Prelude.{
  ℕ, zero, suc, ◌+◌, ◌-◌, ◌*◌, ◌/◌, ◌%◌, ◌^◌, List, [], ◌∷◌, ◌++◌, Bool, true, false, not, ◌&&◌,
  ◌||◌, Option, none, some, ℤ, pos, negsuc, ltb, leb, ◌==◌, length, if◌then◌else◌,
}

-- The states of `key_of[slot]`: K3_SLOT_EMPTY, K3_SLOT_INFLIGHT, or a key.
pub data SlotKey : Type 0 where
  empty inflight : SlotKey
  holds : ℕ → SlotKey

-- src/io/k3_load.h, without the sizes that the cache does not read
pub record QMat : Type 0 where
  pub p_off : ℕ
  pub s_off : ℕ

pub record ExpertRef : Type 0 where
  pub shard : ℕ
  pub off : ℕ
  pub nbytes : ℕ
  pub w1 : QMat
  pub w2 : QMat
  pub w3 : QMat

-- What `k3_expert_load_direct` leaves in a slot and returns; `got` is none for a negative result.
pub record Load (A : Type 0) : Type 0 where
  pub bytes : A
  pub got : Option ℕ
  pub pad : ℕ

-- The checkpoint. `W` is the state of the disk, and `A` the contents of a slot.
pub record Store (W A : Type 0) : Type 0 where
  pub expert_ref : ℕ → ℕ → Option ExpertRef
  pub load : ExpertRef → W → Load A × W

-- The arrays are functions of an index; `slot_of` gives none for -1, and `arena` the contents of
-- a slot. Seconds are floats and are left out.
pub record K3Cache (W A : Type 0) : Type 0 where
  pub n_layers : ℕ
  pub n_experts : ℕ
  pub slot_bytes : ℕ
  pub nslot : ℕ
  pub arena : ℕ → A
  pub slot_of : ℕ → Option ℕ
  pub key_of : ℕ → SlotKey
  pub used_at : ℕ → ℕ
  pub pinned : ℕ → Bool
  pub ref : ℕ → Option ExpertRef
  pub pad : ℕ → ℕ
  pub clock : ℕ
  pub hits : ℕ
  pub misses : ℕ
  pub evictions : ℕ
  pub bytes_read : ℕ
  pub prefetch_reads : ℕ
  pub hist : ℕ → ℕ
  pub trace : List ℕ
  pub world : W

-- an assignment to an array
unfoldable pub write : {A : Type 0} → (ℕ → A) → ℕ → A → ℕ → A
write f i v j = if j == i then v else f j

-- `uint64_t` arithmetic
unfoldable pub add64 : ℕ → ℕ → ℕ
add64 n m = (n + m) % 2 ^ 64

abbrev pub oldest_start : ℕ
oldest_start = 2 ^ 64 - 1

-- `got == r.nbytes`
unfoldable pub is_full : Option ℕ → ℕ → Bool
is_full none nbytes = false
is_full (some got) nbytes = got == nbytes

module _ {W A : Type 0} where
  -- One slot of the scan that is not empty: the best slot so far, and its stamp.
  unfoldable pub consider : K3Cache W A → ℕ → Option ℕ × ℕ → Option ℕ × ℕ
  consider c i (best, oldest) = elim (c.key_of i) [
    | inflight ↦ (best, oldest)
    | empty ↦ (best, oldest)
    | holds k ↦
        if c.pinned i
        then (best, oldest)
        else if ltb (c.used_at i) oldest
        then (some i, c.used_at i)
        else (best, oldest)
  ]

  -- the loop from the slot `i` on, with `left` slots to go
  unfoldable pub pick_from : K3Cache W A → ℕ → ℕ → Option ℕ × ℕ → Option ℕ
  unfolding consider
  pick_from c zero i b = b.0
  pick_from c (suc left) i b = elim (c.key_of i) [
    | empty ↦ some i
    | inflight ↦ pick_from c left (i + 1) (consider c i b)
    | holds k ↦ pick_from c left (i + 1) (consider c i b)
  ]

  unfoldable pub pick_victim : K3Cache W A → Option ℕ
  unfolding pick_from
  pick_victim c = pick_from c c.nslot 0 (none, oldest_start)

  abbrev pub key_at : K3Cache W A → ℕ → ℕ → ℕ
  key_at c layer expert = layer * c.n_experts + expert

  -- `used_at[slot] = ++clock`
  unfoldable pub touch : ℕ → K3Cache W A → K3Cache W A
  unfolding write add64
  touch slot c =
      let now = add64 c.clock 1 in record c { clock = now; used_at = write c.used_at slot now }

  -- The key of a slot that is taken is forgotten.
  unfoldable pub evict : ℕ → K3Cache W A → K3Cache W A
  unfolding write add64
  evict slot c = elim (c.key_of slot) [
    | empty ↦ c
    | inflight ↦ c
    | holds k ↦ record c { slot_of = write c.slot_of k none; evictions = add64 c.evictions 1 }
  ]

  -- A slot is registered to its key.
  unfoldable pub publish : ℕ → ℕ → ExpertRef → ℕ → ℕ → K3Cache W A → K3Cache W A
  unfolding write add64 touch
  publish key slot r pad got c = touch slot (record c {
    bytes_read = add64 c.bytes_read got;
    ref = write c.ref slot (some r);
    pad = write c.pad slot pad;
    key_of = write c.key_of slot (holds key);
    slot_of = write c.slot_of key (some slot);
  })

  -- `admit` behind the read
  unfoldable pub settle : ℕ → ℕ → ExpertRef → K3Cache W A → Load A × W → K3Cache W A × Option ℕ
  unfolding write publish is_full
  settle key slot r c (l, w) =
      let c' = record c { world = w; arena = write c.arena slot l.bytes } in
      if is_full l.got r.nbytes
      then (publish key slot r l.pad r.nbytes c', some slot)
      else (record c' { key_of = write c.key_of slot empty }, none)

  pub admit_into : Store W A → ℕ → ExpertRef → K3Cache W A → Option ℕ → K3Cache W A × Option ℕ
  unfolding evict settle
  admit_into st key r c none = (c, none)
  admit_into st key r c (some slot) =
      let c' = evict slot c in settle key slot r c' (st.load r c'.world)

  pub admit_miss : Store W A → ℕ → K3Cache W A → Option ExpertRef → K3Cache W A × Option ℕ
  unfolding admit_into pick_victim
  admit_miss st key c none = (c, none)
  admit_miss st key c (some r) =
      if ltb c.slot_bytes r.nbytes then (c, none) else admit_into st key r c (pick_victim c)

  pub admit_key : Store W A → ℕ → ℕ → K3Cache W A → Option ℕ → K3Cache W A × Option ℕ
  unfolding admit_miss touch add64
  admit_key st layer expert c (some slot) =
      (touch slot (record c { hits = add64 c.hits 1 }), some slot)
  admit_key st layer expert c none =
      admit_miss st (key_at c layer expert) (record c { misses = add64 c.misses 1 })
        (st.expert_ref layer expert)

  -- The slot of the expert, or none for -1.
  unfoldable pub admit : Store W A → ℕ → ℕ → K3Cache W A → K3Cache W A × Option ℕ
  unfolding admit_key
  admit st layer expert c = admit_key st layer expert c (c.slot_of (key_at c layer expert))
