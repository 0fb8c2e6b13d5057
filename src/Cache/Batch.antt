-- ===== src/Cache/Batch.antt =====
-- `cache_getmany` of src/cache/k3_cache.c: a whole top-k in three phases. The reads of the second phase
-- run in parallel, each into a slot of its own; here they stand in the order of the sorted work.
pub mod Distinct
pub mod Phases
pub mod Fetch
use isky.Prelude.{
  ℕ, ◌+◌, List, [], ◌∷◌, Bool, true, false, ◌&&◌, ◌||◌, Option, none, some, ℤ, pos, negsuc, ltb,
  leb, ◌==◌, length, if◌then◌else◌,
}
use isky.Cache.{
  SlotKey, empty, inflight, ExpertRef, Load, Store, K3Cache, write, add64, is_full, pick_victim,
  key_at, touch, evict, publish,
}
use isky.Cache.Requests.{max_topk}

pub record Work : Type 0 where
  pub slot : ℕ
  pub expert : ℕ
  pub ref : ExpertRef

-- is the expert among the work already?
unfoldable pub is_dup : ℕ → List Work → Bool
is_dup e [] = false
is_dup e (w ∷ ws) = if w.expert == e then true else is_dup e ws

-- Does `w` lie behind `t` on the disk?
unfoldable pub is_after : Work → Work → Bool
is_after w t =
    ltb t.ref.shard w.ref.shard || (w.ref.shard == t.ref.shard && ltb t.ref.off w.ref.off)

-- One round of the insertion sort. The sorted part stands in reverse, so its last element is first.
unfoldable pub insert : Work → List Work → List Work
insert t [] = t ∷ []
insert t (w ∷ ws) = if is_after w t then w ∷ insert t ws else t ∷ w ∷ ws

unfoldable pub sort_onto : List Work → List Work → List Work
unfolding insert
sort_onto done [] = done
sort_onto done (t ∷ ws) = sort_onto (insert t done) ws

pub back_onto : List Work → List Work → List Work
back_onto done [] = done
back_onto done (w ∷ ws) = back_onto (w ∷ done) ws

-- by shard and offset
unfoldable pub sort_work : List Work → List Work
unfolding sort_onto back_onto
sort_work ws = back_onto [] (sort_onto [] ws)

-- `continue`, `break`, or a slot that is reserved.
pub data Reserve : Type 0 where
  skip stop : Reserve
  take : ℕ → ExpertRef → Reserve

pub reserve_slot : ExpertRef → Option ℕ → Reserve
reserve_slot r none = stop
reserve_slot r (some slot) = take slot r

pub count_full : {A : Type 0} → List (Work × Load A) → ℕ
unfolding is_full
count_full [] = 0
count_full ((w, l) ∷ xs) = (if is_full l.got w.ref.nbytes then 1 else 0) + count_full xs

module _ {W A : Type 0} where
  pub reserve_ref : K3Cache W A → Option ExpertRef → Reserve
  unfolding reserve_slot pick_victim
  reserve_ref c none = skip
  reserve_ref c (some r) =
      if ltb c.slot_bytes r.nbytes then skip else reserve_slot r (pick_victim c)

  pub reserve_key : Store W A → K3Cache W A → ℕ → ℕ → List Work → Option ℕ → Reserve
  unfolding reserve_ref is_dup
  reserve_key st c layer e ws (some slot) = skip
  reserve_key st c layer e ws none =
      if is_dup e ws then skip else reserve_ref c (st.expert_ref layer e)

  -- what the first phase does with one expert
  unfoldable pub reserve : Store W A → K3Cache W A → ℕ → ℕ → List Work → Reserve
  unfolding reserve_key
  reserve st c layer e ws =
      if leb c.n_experts e then skip else reserve_key st c layer e ws (c.slot_of (key_at c layer e))

  -- A slot is marked as in flight.
  unfoldable pub mark : ℕ → K3Cache W A → K3Cache W A
  unfolding evict write touch
  mark slot c =
      let c' = evict slot c in touch slot (record c' { key_of = write c'.key_of slot inflight })

  -- The first phase. `ws` is the work so far, its last entry first; order plays no part in it.
  unfoldable pub reserve_all :
      Store W A → ℕ → List ℤ → K3Cache W A → List Work → K3Cache W A × List Work
  unfolding reserve mark
  reserve_all st layer [] c ws = (c, ws)
  reserve_all st layer (negsuc n ∷ ids) c ws =
      if leb max_topk (length ws) then (c, ws) else reserve_all st layer ids c ws
  reserve_all st layer (pos e ∷ ids) c ws = elim (leb max_topk (length ws)) [
    | true ↦ (c, ws)
    | false ↦ elim (reserve st c layer e ws) [
      | stop ↦ (c, ws)
      | skip ↦ reserve_all st layer ids c ws
      | take slot r ↦
          reserve_all st layer ids (mark slot c) (record { slot = slot; expert = e; ref = r } ∷ ws)
    ]
  ]

  pub into_slot : K3Cache W A → ℕ → Load A × W → K3Cache W A × Load A
  unfolding write
  into_slot c slot (l, w) = (record c { world = w; arena = write c.arena slot l.bytes }, l)

  -- The second phase.
  unfoldable pub read_all : Store W A → List Work → K3Cache W A → K3Cache W A × List (Work × Load A)
  unfolding into_slot
  read_all st [] c = (c, [])
  read_all st (w ∷ ws) c =
      let (c', l) = into_slot c w.slot (st.load w.ref c.world) in
      let (c'', ls) = read_all st ws c' in (c'', (w, l) ∷ ls)

  -- one entry of the third phase
  unfoldable pub publish_one : ℕ → Work × Load A → K3Cache W A → K3Cache W A
  unfolding write is_full publish add64
  publish_one layer (w, l) c =
      if is_full l.got w.ref.nbytes
      then (let c' = publish (key_at c layer w.expert) w.slot w.ref l.pad w.ref.nbytes c in
          record c' { prefetch_reads = add64 c'.prefetch_reads 1 })
      else record c { key_of = write c.key_of w.slot empty }

  unfoldable pub publish_all : ℕ → List (Work × Load A) → K3Cache W A → K3Cache W A
  unfolding publish_one
  publish_all layer [] c = c
  publish_all layer (x ∷ xs) c = publish_all layer xs (publish_one layer x c)

  pub published : ℕ → K3Cache W A × List (Work × Load A) → K3Cache W A × ℕ
  unfolding publish_all count_full
  published layer (c, xs) = (publish_all layer xs c, count_full xs)

  pub fetched : Store W A → ℕ → K3Cache W A × List Work → K3Cache W A × ℕ
  unfolding read_all published sort_work
  fetched st layer (c, ws) = published layer (read_all st (sort_work (back_onto [] ws)) c)

  -- The cache, and how many experts were read.
  unfoldable pub cache_getmany : Store W A → ℕ → List ℤ → K3Cache W A → K3Cache W A × ℕ
  unfolding reserve_all fetched
  cache_getmany st layer ids c = fetched st layer (reserve_all st layer ids c [])
