-- ===== src/Cache/Batch/Phases.antt =====
-- The first phase of `cache_getmany` (src/cache/k3_cache.c): what holds of the slots that it reserves.
use mathlib.Core.Bool.{false≢true}
use isky.Prelude.{
  ℕ, ◌<◌, ◌≡◌, refl, sym, ◌∙◌, ap, ◌≢◌, ◌⊎◌, inl, inr, List, [], ◌∷◌, false, ◌==◌, ==_iff, Option,
  none, some, ℤ, pos, negsuc, ltb, leb, length, All, Bool-cases, Option-cases, arith,
}
use isky.Cache.{inflight, ExpertRef, Store, K3Cache, key_at, touch, evict, pick_victim}
use isky.Cache.Requests.{max_topk}
use isky.Cache.Victim.{IsVictim, pick_victim-IsVictim, inflight≢holds}
use isky.Cache.Coherence.{
  Coherent, evict-but, clear-Coherent, touch-Coherent, write_self, write-other,
}
use isky.Cache.Service.{victim_free, evict-none, evict-nslot, evict-n_experts}
use isky.Cache.Batch.{
  Work, is_dup, Reserve, skip, stop, take, reserve, reserve_key, reserve_ref, reserve_slot, mark,
  reserve_all,
}
use isky.Cache.Batch.Distinct.{Apart, Distinct}

Reserve-cases :
    (x : Reserve) → (x ≡ skip) ⊎ (x ≡ stop) ⊎ ((slot : ℕ) × (r : ExpertRef) × (x ≡ take slot r))
Reserve-cases skip = inl refl
Reserve-cases stop = inr (inl refl)
Reserve-cases (take slot r) = inr (inr (slot, r, refl))

module _ {W A : Type 0} (st : Store W A) (content : ExpertRef → A) (layer : ℕ) where
  -- A slot of the arena is reserved for an expert that has none.
  pub record Pending (c : K3Cache W A) (w : Work) : Type 0 where
    pub in_arena : w.slot < c.nslot
    pub reserved : c.key_of w.slot ≡ inflight
    pub new : c.slot_of (key_at c layer w.expert) ≡ none
    pub is_expert : w.expert < c.n_experts
    pub found : st.expert_ref layer w.expert ≡ some w.ref

  pub record Ready (c : K3Cache W A) (ws : List Work) : Type 0 where
    pub coherent : Coherent st content c
    pub pending : All (Pending c) ws
    pub distinct : Distinct ws

  -- what holds where one more slot is reserved
  pub record Takes (c : K3Cache W A) (e : ℕ) (ws : List Work) (slot : ℕ) (r : ExpertRef)
      : Type 0 where
    pub is_expert : e < c.n_experts
    pub new : c.slot_of (key_at c layer e) ≡ none
    pub single : is_dup e ws ≡ false
    pub found : st.expert_ref layer e ≡ some r
    pub victim : IsVictim c (some slot)

  skip≢take : {slot : ℕ} {r : ExpertRef} → skip ≢ take slot r
  skip≢take h = cc

  take-injective : (s t : ℕ) (r q : ExpertRef) → take s r ≡ take t q → (s ≡ t) × (r ≡ q)
  take-injective s t r q h = (cc, cc)

  reserve_slot-Takes :
      (c : K3Cache W A) (r : ExpertRef) (v : Option ℕ) (slot : ℕ) (q : ExpertRef)
      → reserve_slot r v ≡ take slot q
      → (v ≡ some slot) × (r ≡ q)
  unfolding reserve_slot
  reserve_slot-Takes c r none slot q h = cc
  reserve_slot-Takes c r (some s) slot q h =
      let (i, j) = take-injective s slot r q h in (ap some i, j)

  reserve-Takes :
      (c : K3Cache W A) (e : ℕ) (ws : List Work) (slot : ℕ) (r : ExpertRef)
      → reserve st c layer e ws ≡ take slot r
      → Takes c e ws slot r
  unfolding reserve reserve_key reserve_ref
  reserve-Takes c e ws slot r h = elim (Bool-cases (leb c.n_experts e)) [
    | inl over ↦ absurd (skip≢take (rw over at h))
    | inr lt ↦ elim (Option-cases (c.slot_of (key_at c layer e))) [
      | inr (s, had) ↦ absurd (skip≢take (rw (lt, had, reserve_key) at h))
      | inl new ↦ elim (Bool-cases (is_dup e ws)) [
        | inl dup ↦ absurd (skip≢take (rw (lt, new, dup, reserve_key) at h))
        | inr single ↦ elim (Option-cases (st.expert_ref layer e)) [
          | inl gone ↦
              absurd (skip≢take (rw (lt, new, single, gone, reserve_key, reserve_ref) at h))
          | inr (q, found) ↦ elim (Bool-cases (ltb c.slot_bytes q.nbytes)) [
            | inl big ↦
                absurd (skip≢take (rw (lt, new, single, found, big, reserve_key, reserve_ref) at h))
            | inr fits ↦
                (let (v, i) =
                    reserve_slot-Takes c q (pick_victim c) slot r
                      (rw (lt, new, single, found, fits, reserve_key, reserve_ref) at h) in
                  record {
                    is_expert = ground arith;
                    new = new;
                    single = single;
                    found = found ∙ ap some i;
                    victim = rw v at (pick_victim-IsVictim c);
                  })
          ]
        ]
      ]
    ]
  ]

  is_dup-All : (e : ℕ) (ws : List Work) → is_dup e ws ≡ false → All (λ w. e ≢ w.expert) ws
  unfolding is_dup
  is_dup-All e [] h = tt
  is_dup-All e (w ∷ ws) h = elim (Bool-cases (w.expert == e)) [
    | inl i ↦ absurd (false≢true (sym h ∙ (rw i refl)))
    | inr i ↦
        ((λ q. false≢true (sym i ∙ (==_iff w.expert e).1 (sym q))), is_dup-All e ws (rw i at h))
  ]

evict-key_of : {W A : Type 0} (slot : ℕ) (c : K3Cache W A) → (evict slot c).key_of ≡ c.key_of
unfolding evict
evict-key_of slot c = ground arith

module _ {W A : Type 0} (st : Store W A) (content : ExpertRef → A) (layer : ℕ) where
  victim_not_reserved :
      (c : K3Cache W A) (slot : ℕ) → IsVictim c (some slot) → c.key_of slot ≢ inflight
  victim_not_reserved c slot (inl v) h = (let e = v.free in cc)
  victim_not_reserved c slot (inr v) h = inflight≢holds (sym h ∙ v.evictable.holding)

  mark-Pending :
      (c : K3Cache W A) (slot : ℕ) (w : Work)
      → w.slot ≢ slot
      → Pending st content layer c w
      → Pending st content layer (mark slot c) w
  unfolding mark touch
  mark-Pending c slot w ne p = record {
    in_arena = rw (evict-nslot slot c) p.in_arena;
    reserved =
        write-other (evict slot c).key_of slot inflight w.slot ne
        ∙ ap (λ f. f w.slot) (evict-key_of slot c)
        ∙ p.reserved;
    new = rw (evict-n_experts slot c) (evict-none slot _ c p.new);
    is_expert = rw (evict-n_experts slot c) p.is_expert;
    found = p.found;
  }

  mark-older :
      (c : K3Cache W A) (e slot : ℕ) (r : ExpertRef) (ws : List Work)
      → c.key_of slot ≢ inflight
      → All (Pending st content layer c) ws
      → All (λ w. e ≢ w.expert) ws
      → All (Pending st content layer (mark slot c)) ws
        × All (Apart (record { slot = slot; expert = e; ref = r })) ws
  mark-older c e slot r [] free p q = (tt, tt)
  mark-older c e slot r (w ∷ ws) free (p, ps) (q, qs) =
      let (x, y) = mark-older c e slot r ws free ps qs in
      let ne : slot ≢ w.slot = λ i. free (ap c.key_of i ∙ p.reserved) in
      ((mark-Pending c slot w (λ i. ne (sym i)) p, x), (record { slots = ne; experts = q }, y))

  mark-Ready :
      (c : K3Cache W A) (e slot : ℕ) (r : ExpertRef) (ws : List Work)
      → Ready st content layer c ws
      → Takes st content layer c e ws slot r
      → Ready st content layer (mark slot c) (record { slot = slot; expert = e; ref = r } ∷ ws)
  mark-Ready c e slot r ws h t =
      let (lt, unpinned) = victim_free st content c slot h.coherent t.victim in
      let (older, apart) =
        mark-older c e slot r ws (victim_not_reserved c slot t.victim) h.pending
          (is_dup-All st content layer e ws t.single) in
      record {
        coherent =
            (unfold mark in
              touch-Coherent st content slot _ (
                clear-Coherent st content slot _ inflight
                  (evict-but st content slot c h.coherent unpinned) (λ k. inflight≢holds)));
        pending = (
          record {
            in_arena = (unfold mark touch in rw (evict-nslot slot c) lt);
            reserved = (unfold mark touch in write_self (evict slot c).key_of slot inflight);
            new = (unfold mark touch in rw (evict-n_experts slot c) (evict-none slot _ c t.new));
            is_expert = (unfold mark touch in rw (evict-n_experts slot c) t.is_expert);
            found = t.found;
          },
          older,
        );
        distinct = (apart, h.distinct);
      }

  pub reserve_all-Ready :
      (ids : List ℤ) (c : K3Cache W A) (ws : List Work)
      → Ready st content layer c ws
      → let x = reserve_all st layer ids c ws in Ready st content layer x.0 x.1
  unfolding reserve_all
  reserve_all-Ready [] c ws h = h
  reserve_all-Ready (negsuc n ∷ ids) c ws h = elim (Bool-cases (leb max_topk (length ws))) [
    | inl e ↦ rw (reserve_all, e) h
    | inr e ↦ rw (reserve_all, e) (reserve_all-Ready ids c ws h)
  ]
  reserve_all-Ready (pos e ∷ ids) c ws h = elim (Bool-cases (leb max_topk (length ws))) [
    | inl over ↦ rw (reserve_all, over) h
    | inr room ↦ elim (Reserve-cases (reserve st c layer e ws)) [
      | inl i ↦ rw (reserve_all, room, i) (reserve_all-Ready ids c ws h)
      | inr (inl i) ↦ rw (reserve_all, room, i) h
      | inr (inr (slot, r, i)) ↦
          rw (reserve_all, room, i)
            (reserve_all-Ready ids _ _
              (mark-Ready c e slot r ws h (reserve-Takes st content layer c e ws slot r i)))
    ]
  ]
