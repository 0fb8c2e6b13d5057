-- ===== src/Cache/Batch/Fetch.antt =====
-- `cache_getmany` (src/cache/k3_cache.c) as a whole: the reads into the reserved slots, and what is
-- published.
use isky.Prelude.{
  ℕ, ◌≡◌, refl, sym, ◌∙◌, ap, ◌≢◌, inl, inr, List, [], ◌∷◌, true, some, ℤ, All, Bool-cases, arith,
}
use isky.Cache.{
  empty, inflight, holds, ExpertRef, Load, Store, K3Cache, is_full, key_at, touch, publish,
}
use isky.Cache.Victim.{inflight≢holds, empty≢holds}
use isky.Cache.Coherence.{
  Coherent, CoherentBut, arena-but, clear-Coherent, publish-Coherent, Coherent-but, write_self,
  write-other,
}
use isky.Cache.Batch.{
  Work, into_slot, read_all, publish_one, publish_all, sort_work, back_onto, reserve_all, fetched,
  published, cache_getmany,
}
use isky.Cache.Batch.Distinct.{
  Apart, Distinct, All-back_onto, Distinct-back, All-sort_work, Distinct-sort_work,
}
use isky.Cache.Batch.Phases.{Pending, Ready, reserve_all-Ready}

heads : {A : Type 0} → List (Work × Load A) → List Work
heads [] = []
heads ((w, l) ∷ xs) = w ∷ heads xs

module _ {W A : Type 0} (st : Store W A) (content : ExpertRef → A) (layer : ℕ) where
  But-Coherent :
      (slot : ℕ) (c : K3Cache W A)
      → CoherentBut st content slot c
      → c.key_of slot ≡ inflight
      → Coherent st content c
  But-Coherent slot c h e = record {
    resident = λ k s q. (let (lt, _, key) = h.resident k s q in (lt, tt, key));
    listed = λ s k _ q. h.listed s k (other s k q) q;
    served = λ s k _ q. h.served s k (other s k q) q;
    pins = λ s p. (let (_, x) = h.pins s p in (tt, x));
  }
    where
      other : (s k : ℕ) → c.key_of s ≡ holds k → s ≢ slot
      other s k q i = inflight≢holds (sym e ∙ ap c.key_of (sym i) ∙ q)

  -- a state that differs in the arena alone
  record SameTables (c d : K3Cache W A) : Type 0 where
    slots : d.slot_of ≡ c.slot_of
    keys : d.key_of ≡ c.key_of
    shape : d.nslot ≡ c.nslot
    experts : d.n_experts ≡ c.n_experts

  read_all-SameTables : (ws : List Work) (c : K3Cache W A) → SameTables c (read_all st ws c).0
  unfolding read_all
  read_all-SameTables [] c = record { slots = refl; keys = refl; shape = refl; experts = refl }
  read_all-SameTables (w ∷ ws) c =
      let h = read_all-SameTables ws (into_slot c w.slot (st.load w.ref c.world)).0 in
      record { slots = h.slots; keys = h.keys; shape = h.shape; experts = h.experts }

  read_all-heads : (ws : List Work) (c : K3Cache W A) → heads (read_all st ws c).1 ≡ ws
  unfolding read_all heads
  read_all-heads [] c = refl
  read_all-heads (w ∷ ws) c = ap (◌∷◌ w) (read_all-heads ws _)

  read_all-arena :
      (ws : List Work) (c : K3Cache W A) (w : Work)
      → All (Apart w) ws
      → (read_all st ws c).0.arena w.slot ≡ c.arena w.slot
  unfolding read_all into_slot
  read_all-arena [] c w a = refl
  read_all-arena (v ∷ ws) c w (a, more) =
      read_all-arena ws _ w more ∙ write-other c.arena v.slot _ w.slot a.slots

  Pending-same :
      (c d : K3Cache W A) (w : Work)
      → SameTables c d
      → Pending st content layer c w
      → Pending st content layer d w
  Pending-same c d w s p = record {
    in_arena = rw s.shape p.in_arena;
    reserved = ap (λ f. f w.slot) s.keys ∙ p.reserved;
    new = rw (s.slots, s.experts) p.new;
    is_expert = rw s.experts p.is_expert;
    found = p.found;
  }

  -- An entry that was read: where the read is whole, the slot has the bytes of the expert.
  record Filled (c : K3Cache W A) (x : Work × Load A) : Type 0 where
    pending : Pending st content layer c x.0
    bytes : is_full x.1.got x.0.ref.nbytes ≡ true → c.arena x.0.slot ≡ content x.0.ref

  into-Pending :
      (c : K3Cache W A) (slot : ℕ) (x : Load A × W) (ws : List Work)
      → All (Pending st content layer c) ws
      → All (Pending st content layer (into_slot c slot x).0) ws
  unfolding into_slot
  into-Pending c slot x [] p = tt
  into-Pending c slot x (w ∷ ws) (p, ps) = (
    Pending-same c _ w (record { slots = refl; keys = refl; shape = refl; experts = refl }) p,
    into-Pending c slot x ws ps,
  )

  into-Coherent :
      (c : K3Cache W A) (slot : ℕ) (x : Load A × W)
      → Coherent st content c
      → c.key_of slot ≡ inflight
      → Coherent st content (into_slot c slot x).0
  unfolding into_slot
  into-Coherent c slot (l, w) h e =
      But-Coherent slot _
        (arena-but st content slot c w l.bytes
          (Coherent-but st content slot c h (λ k q. inflight≢holds (sym e ∙ q))))
        e

  read_all-Filled :
      (reads : (r : ExpertRef) (w : W)
        → is_full (st.load r w).0.got r.nbytes ≡ true
        → (st.load r w).0.bytes ≡ content r)
      → (ws : List Work) (c : K3Cache W A) → Ready st content layer c ws
      → let x = read_all st ws c in Coherent st content x.0 × All (Filled x.0) x.1
  unfolding read_all
  read_all-Filled reads [] c h = (h.coherent, tt)
  read_all-Filled reads (w ∷ ws) c h =
      let x = st.load w.ref c.world in
      let c' = (into_slot c w.slot x).0 in
      let (p, ps) = h.pending in
      let (a, d) = h.distinct in
      let (coherent, filled) = read_all-Filled reads ws c' (record {
        coherent = into-Coherent c w.slot x h.coherent p.reserved;
        pending = into-Pending c w.slot x ws ps;
        distinct = d;
      }) in
      (
        coherent,
        (
          record {
            pending =
                Pending-same c' _ w (read_all-SameTables ws c')
                  (into-Pending c w.slot x (w ∷ ws) (p, ps)).0;
            bytes = λ e.
                read_all-arena ws c' w a
                ∙ (unfold into_slot in write_self c.arena w.slot x.0.bytes ∙ reads w.ref c.world e);
          },
          filled,
        ),
      )

  publish_other :
      (c : K3Cache W A) (x : Work × Load A) (y : Work × Load A)
      → Apart x.0 y.0
      → Filled c y
      → Filled (publish_one layer x c) y
  unfolding publish_one publish touch
  publish_other c (w, l) (v, m) a f =
      let p = f.pending in
      let ne : v.slot ≢ w.slot = λ e. a.slots (sym e) in
      let nk : key_at c layer v.expert ≢ key_at c layer w.expert = λ e. a.experts (omega arith) in
      elim (Bool-cases (is_full l.got w.ref.nbytes)) [
        | inl e ↦ rw e (record {
          pending = record {
            in_arena = p.in_arena;
            reserved = write-other c.key_of w.slot (holds _) v.slot ne ∙ p.reserved;
            new = write-other c.slot_of _ (some w.slot) _ nk ∙ p.new;
            is_expert = p.is_expert;
            found = p.found;
          };
          bytes = f.bytes;
        })
        | inr e ↦ rw e (record {
          pending = record {
            in_arena = p.in_arena;
            reserved = write-other c.key_of w.slot empty v.slot ne ∙ p.reserved;
            new = p.new;
            is_expert = p.is_expert;
            found = p.found;
          };
          bytes = f.bytes;
        })
      ]

  publish_rest :
      (c : K3Cache W A) (x : Work × Load A) (ys : List (Work × Load A))
      → All (Apart x.0) (heads ys)
      → All (Filled c) ys
      → All (Filled (publish_one layer x c)) ys
  unfolding heads
  publish_rest c x [] a f = tt
  publish_rest c x ((v, m) ∷ ys) (a, more) (f, fs) =
      (publish_other c x (v, m) a f, publish_rest c x ys more fs)

  publish_one-Coherent :
      (c : K3Cache W A) (x : Work × Load A)
      → Coherent st content c
      → Filled c x
      → Coherent st content (publish_one layer x c)
  unfolding publish_one
  publish_one-Coherent c (w, l) h f =
      let p = f.pending in
      let but = Coherent-but st content w.slot c h (λ k q. inflight≢holds (sym p.reserved ∙ q)) in
      elim (Bool-cases (is_full l.got w.ref.nbytes)) [
        | inl e ↦
            (let d =
                publish-Coherent st content (key_at c layer w.expert) w.slot w.ref l.pad
                  w.ref.nbytes c but p.in_arena p.new (f.bytes e)
                  (record {
                    layer = layer;
                    expert = w.expert;
                    is_expert = p.is_expert;
                    is_key = refl;
                    found = p.found;
                  }) in
              rw e (record {
                resident = d.resident;
                listed = d.listed;
                served = d.served;
                pins = d.pins;
              }))
        | inr e ↦ rw e (clear-Coherent st content w.slot c empty but (λ k. empty≢holds))
      ]

  publish_all-Coherent :
      (xs : List (Work × Load A)) (c : K3Cache W A)
      → Coherent st content c
      → All (Filled c) xs
      → Distinct (heads xs)
      → Coherent st content (publish_all layer xs c)
  unfolding publish_all heads
  publish_all-Coherent [] c h f d = h
  publish_all-Coherent ((w, l) ∷ xs) c h (f, fs) (a, d) =
      publish_all-Coherent xs _ (publish_one-Coherent c (w, l) h f) (publish_rest c (w, l) xs a fs)
        d

  -- A batch leaves the cache coherent, whatever experts it asks for, whichever reads fail, and however
  -- many slots there are: no slot is given to two experts, and none is registered to an expert whose
  -- read was short. Reads are assumed to bring the bytes of an expert whenever they bring as many as
  -- it has.
  pub cache_getmany-Coherent :
      (reads : (r : ExpertRef) (w : W)
        → is_full (st.load r w).0.got r.nbytes ≡ true
        → (st.load r w).0.bytes ≡ content r)
      → (ids : List ℤ) (c : K3Cache W A) → Coherent st content c
      → Coherent st content (cache_getmany st layer ids c).0
  unfolding cache_getmany fetched published
  cache_getmany-Coherent reads ids c h =
      let r =
        reserve_all-Ready st content layer ids c []
          (record { coherent = h; pending = tt; distinct = tt }) in
      let (d, ws) = reserve_all st layer ids c [] in
      let work = sort_work (back_onto [] ws) in
      let ready : Ready st content layer d work = record {
        coherent = r.coherent;
        pending = All-sort_work _ _ (All-back_onto _ [] ws tt r.pending);
        distinct = Distinct-sort_work _ (Distinct-back ws r.distinct);
      } in
      let (coherent, filled) = read_all-Filled reads work d ready in
      publish_all-Coherent _ _ coherent filled (rw (read_all-heads work d) ready.distinct)
