-- ===== src/Cache/Pins.antt =====
-- The pins of src/cache/k3_cache.c: what they are set on, and what `admit` does to a pinned slot.
use mathlib.Core.Bool.{false≢true}
use isky.Prelude.{
  ℕ, ◌*◌, leb, ◌↔◌, ◌≡◌, refl, sym, ◌∙◌, ap, ◌≢◌, ◌⊎◌, inl, inr, Bool, true, false, Option, none,
  some, ltb, Bool-cases, Option-cases, arith,
}
use isky.Cache.{
  empty, holds, ExpertRef, Load, Store, K3Cache, is_full, key_at, touch, evict, publish, settle,
  admit_into, admit_miss, admit_key, admit,
}
use isky.Cache.Victim.{IsVictim, pick_victim-IsVictim}
use isky.Cache.Coherence.{Coherent, write-other, same_or_not}
use isky.Cache.Requests.{k3_cache_pin, pin_slot}
use isky.Cache.Service.{victim_free}

module _ {W A : Type 0} (s : ℕ) where
  -- The slot has the key and the bytes that it had.
  pub record Keeps (c d : K3Cache W A) : Type 0 where
    pub same_key : d.key_of s ≡ c.key_of s
    pub same_bytes : d.arena s ≡ c.arena s
    pub same_pin : d.pinned s ≡ c.pinned s

  Keeps-refl : (c : K3Cache W A) → Keeps c c
  Keeps-refl c = record { same_key = refl; same_bytes = refl; same_pin = refl }

  evict-Keeps : (slot : ℕ) (c : K3Cache W A) → Keeps c (evict slot c)
  unfolding evict
  evict-Keeps slot c = record {
    same_key = ground arith;
    same_bytes = ground arith;
    same_pin = ground arith;
  }

  settle-Keeps :
      (key slot : ℕ) (r : ExpertRef) (c : K3Cache W A) (x : Load A × W)
      → s ≢ slot
      → Keeps c (settle key slot r c x).0
  unfolding settle
  settle-Keeps key slot r c (l, w) ne = elim (Bool-cases (is_full l.got r.nbytes)) [
    | inl e ↦ rw e (
        unfold publish touch in
        record {
          same_key = write-other c.key_of slot (holds key) s ne;
          same_bytes = write-other c.arena slot l.bytes s ne;
          same_pin = refl;
        })
    | inr e ↦ rw e (record {
      same_key = write-other c.key_of slot empty s ne;
      same_bytes = write-other c.arena slot l.bytes s ne;
      same_pin = refl;
    })
  ]

module _ {W A : Type 0} (st : Store W A) (content : ExpertRef → A) (s : ℕ) where
  admit_into-Keeps :
      (key : ℕ) (r : ExpertRef) (c : K3Cache W A) (v : Option ℕ)
      → IsVictim c v
      → Coherent st content c
      → c.pinned s ≡ true
      → Keeps s c (admit_into st key r c v).0
  unfolding admit_into
  admit_into-Keeps key r c none v h p = Keeps-refl s c
  admit_into-Keeps key r c (some slot) v h p =
      let (_, unpinned) = victim_free st content c slot h v in
      let c' = evict slot c in
      let e = evict-Keeps s slot c in
      let k =
        settle-Keeps s key slot r c' (st.load r c'.world)
          (λ q. false≢true (sym unpinned ∙ ap c.pinned (sym q) ∙ p)) in
      record {
        same_key = k.same_key ∙ e.same_key;
        same_bytes = k.same_bytes ∙ e.same_bytes;
        same_pin = k.same_pin ∙ e.same_pin;
      }

  admit_miss-Keeps :
      (key n : ℕ) (c : K3Cache W A) (o : Option ExpertRef)
      → Coherent st content c
      → c.pinned s ≡ true
      → Keeps s c (admit_miss st key (record c { misses = n }) o).0
  unfolding admit_miss
  admit_miss-Keeps key n c none h p = record { same_key = refl; same_bytes = refl; same_pin = refl }
  admit_miss-Keeps key n c (some r) h p =
      let d = record c { misses = n } in
      let hd : Coherent st content d = record {
        resident = h.resident;
        listed = h.listed;
        served = h.served;
        pins = h.pins;
      } in
      elim (Bool-cases (ltb c.slot_bytes r.nbytes)) [
        | inl e ↦ rw e (record { same_key = refl; same_bytes = refl; same_pin = refl })
        | inr e ↦
            (let k = admit_into-Keeps key r d _ (pick_victim-IsVictim d) hd p in
              rw e (record {
                same_key = k.same_key;
                same_bytes = k.same_bytes;
                same_pin = k.same_pin;
              }))
      ]

  -- In a coherent cache the slot of a pinned expert keeps its key, its bytes and its pin, whatever
  -- expert is admitted.
  pub admit-Keeps :
      (layer expert : ℕ) (c : K3Cache W A)
      → Coherent st content c
      → c.pinned s ≡ true
      → Keeps s c (admit st layer expert c).0
  unfolding admit
  admit-Keeps layer expert c h p = elim (Option-cases (c.slot_of (key_at c layer expert))) [
    | inr (slot, e) ↦
        rw (e, admit_key)
          (unfold touch in record { same_key = refl; same_bytes = refl; same_pin = refl })
    | inl e ↦
        rw (e, admit_key)
          (admit_miss-Keeps (key_at c layer expert) _ c (st.expert_ref layer expert) h p)
  ]

module _ {W A : Type 0} (st : Store W A) (content : ExpertRef → A) where
  -- A pin, or its removal, keeps the cache coherent: only a slot that holds an expert is pinned. It
  -- is refused exactly where the key is out of range or has no slot.
  pub k3_cache_pin-Coherent :
      (layer expert : ℕ) (pin : Bool) (c : K3Cache W A)
      → Coherent st content c
      → Coherent st content (k3_cache_pin c layer expert pin).0
        × (((k3_cache_pin c layer expert pin).1 ≡ false) ↔ (
            (leb (c.n_layers * c.n_experts) (key_at c layer expert) ≡ true)
            ⊎ (c.slot_of (key_at c layer expert) ≡ none)))
  unfolding k3_cache_pin
  k3_cache_pin-Coherent layer expert pin c h =
      elim (Bool-cases (leb (c.n_layers * c.n_experts) (key_at c layer expert))) [
        | inl e ↦ rw e (h, (λ q. inl refl, λ q. refl))
        | inr e ↦ elim (Option-cases (c.slot_of (key_at c layer expert))) [
          | inl f ↦ rw (e, f, pin_slot) (h, (λ q. inr refl, λ q. refl))
          | inr (slot, f) ↦
              (let (_, _, key) = h.resident _ slot f in
                rw (e, f, pin_slot)
                  (
                    record {
                      resident = h.resident;
                      listed = h.listed;
                      served = h.served;
                      pins = λ s p. elim (same_or_not s slot) [
                        | inl i ↦ (tt, (key_at c layer expert, ap c.key_of i ∙ key))
                        | inr ne ↦ h.pins s (sym (write-other c.pinned slot pin s ne) ∙ p)
                      ];
                    },
                    (λ q. cc, λ q. elim q [ inl a ↦ cc | inr b ↦ cc ]),
                  ))
        ]
      ]
