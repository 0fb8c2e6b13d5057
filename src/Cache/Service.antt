-- ===== src/Cache/Service.antt =====
-- `admit` and `cache_get` of src/cache/k3_cache.c: the invariant of the cache across a request, and what the
-- request is served.
use native.Mathlib.Nat.{suc-mul}
use isky.Prelude.{
  ℕ, zero, suc, ◌+◌, ◌*◌, ◌<◌, ◌≡◌, refl, sym, ◌∙◌, ap, inl, inr, true, false, Option, none, some,
  ltb, pos, Bool-cases, Option-cases, arith,
}
use isky.Cache.{
  empty, ExpertRef, Load, Store, K3Cache, is_full, key_at, touch, evict, publish, settle,
  admit_into, admit_miss, admit_key, admit,
}
use isky.Cache.Requests.{in_range, record_request, get_at, cache_get}
use isky.Cache.Victim.{IsVictim, pick_victim-IsVictim, SlotKey-cases, empty≢holds}
use isky.Cache.Coherence.{
  Names, Coherent, CoherentBut, evict-but, arena-but, clear-Coherent, publish-Coherent,
  touch-Coherent, write_self, write-other, same_or_not, none≢some,
}

module _ {W A : Type 0} (st : Store W A) (content : ExpertRef → A) where
  -- The state is coherent and of the same shape, and a slot in the answer is that of the key.
  pub record Admits (key : ℕ) (c : K3Cache W A) (x : K3Cache W A × Option ℕ) : Type 0 where
    pub coherent : Coherent st content x.0
    pub experts : x.0.n_experts ≡ c.n_experts
    pub answer : (s : ℕ) → x.1 ≡ some s → x.0.slot_of key ≡ some s

  settle-Admits :
      (key slot : ℕ) (r : ExpertRef) (c : K3Cache W A) (x : Load A × W)
      → (is_full x.0.got r.nbytes ≡ true → x.0.bytes ≡ content r)
      → CoherentBut st content slot c
      → slot < c.nslot
      → c.slot_of key ≡ none
      → Names st content c.n_experts key r
      → Admits key c (settle key slot r c x)
  unfolding settle
  settle-Admits key slot r c (l, w) whole h lt new names =
      let read = arena-but st content slot c w l.bytes h in
      elim (Bool-cases (is_full l.got r.nbytes)) [
        | inl e ↦ rw e (record {
          coherent =
              publish-Coherent st content key slot r l.pad r.nbytes _ read lt new
                (write_self c.arena slot l.bytes ∙ whole e) names;
          experts = (unfold publish touch in refl);
          answer = λ s q. (unfold publish touch in write_self c.slot_of key (some slot) ∙ q);
        })
        | inr e ↦ rw e (record {
          coherent = clear-Coherent st content slot _ empty read (λ k. empty≢holds);
          experts = refl;
          answer = λ s q. absurd (none≢some q);
        })
      ]

-- a victim is in the arena and not pinned
pub victim_free :
    {W A : Type 0} (st : Store W A) (content : ExpertRef → A) (c : K3Cache W A) (s : ℕ)
    → Coherent st content c
    → IsVictim c (some s)
    → (s < c.nslot) × (c.pinned s ≡ false)
victim_free st content c s h (inr v) = (v.evictable.in_arena, v.evictable.unpinned)
victim_free st content c s h (inl v) = (
  v.in_arena,
  elim (Bool-cases (c.pinned s)) [
    | inr e ↦ e
    | inl e ↦ (let (_, (k, q)) = h.pins s e in absurd (empty≢holds (sym v.free ∙ q)))
  ],
)

pub evict-none :
    {W A : Type 0} (slot key : ℕ) (c : K3Cache W A)
    → c.slot_of key ≡ none
    → (evict slot c).slot_of key ≡ none
unfolding evict
evict-none slot key c h = elim (SlotKey-cases (c.key_of slot)) [
  | inl e ↦ rw (evict, e) h
  | inr (inl e) ↦ rw (evict, e) h
  | inr (inr (k, e)) ↦
      rw (evict, e)
        (elim (same_or_not key k) [
          | inl i ↦ rw i (write_self c.slot_of k none)
          | inr ne ↦ write-other c.slot_of k none key ne ∙ h
        ])
]

pub evict-nslot : {W A : Type 0} (slot : ℕ) (c : K3Cache W A) → (evict slot c).nslot ≡ c.nslot
unfolding evict
evict-nslot slot c = ground arith

pub evict-n_experts :
    {W A : Type 0} (slot : ℕ) (c : K3Cache W A) → (evict slot c).n_experts ≡ c.n_experts
unfolding evict
evict-n_experts slot c = ground arith

-- A read that brings as many bytes as the expert has brings the bytes of the expert.
module _ {W A : Type 0} (st : Store W A) (content : ExpertRef → A)
    (reads : (r : ExpertRef) (w : W)
      → is_full (st.load r w).0.got r.nbytes ≡ true
      → (st.load r w).0.bytes ≡ content r) where
  refused : (key : ℕ) (c : K3Cache W A) → Coherent st content c → Admits st content key c (c, none)
  refused key c h = record { coherent = h; experts = refl; answer = λ s e. absurd (none≢some e) }

  admit_into-Admits :
      (key : ℕ) (r : ExpertRef) (c : K3Cache W A) (v : Option ℕ)
      → IsVictim c v
      → Coherent st content c
      → c.slot_of key ≡ none
      → Names st content c.n_experts key r
      → Admits st content key c (admit_into st key r c v)
  unfolding admit_into
  admit_into-Admits key r c none v h new names = refused key c h
  admit_into-Admits key r c (some slot) v h new names =
      let (lt, unpinned) = victim_free st content c slot h v in
      let c' = evict slot c in
      let a =
        settle-Admits st content key slot r c' (st.load r c'.world) (reads r c'.world)
          (evict-but st content slot c h unpinned) (rw (evict-nslot slot c) lt)
          (evict-none slot key c new) (rw (evict-n_experts slot c) names) in
      record {
        coherent = a.coherent;
        experts = a.experts ∙ evict-n_experts slot c;
        answer = a.answer;
      }

  counted-Coherent :
      (c : K3Cache W A) (n m : ℕ)
      → Coherent st content c
      → Coherent st content (record c { hits = n; misses = m })
  counted-Coherent c n m h = record {
    resident = h.resident;
    listed = h.listed;
    served = h.served;
    pins = h.pins;
  }

  admit_miss-Admits :
      (key : ℕ) (c : K3Cache W A) (o : Option ExpertRef)
      → Coherent st content c
      → c.slot_of key ≡ none
      → ((r : ExpertRef) → o ≡ some r → Names st content c.n_experts key r)
      → Admits st content key c (admit_miss st key c o)
  unfolding admit_miss
  admit_miss-Admits key c none h new names = refused key c h
  admit_miss-Admits key c (some r) h new names = elim (Bool-cases (ltb c.slot_bytes r.nbytes)) [
    | inl e ↦ rw e (refused key c h)
    | inr e ↦ rw e (admit_into-Admits key r c _ (pick_victim-IsVictim c) h new (names r refl))
  ]

  pub admit-Admits :
      (layer expert : ℕ) (c : K3Cache W A)
      → Coherent st content c
      → expert < c.n_experts
      → Admits st content (key_at c layer expert) c (admit st layer expert c)
  unfolding admit
  admit-Admits layer expert c h lt = elim (Option-cases (c.slot_of (key_at c layer expert))) [
    | inr (slot, e) ↦
        rw (e, admit_key)
          (record {
            coherent = touch-Coherent st content slot _ (counted-Coherent c _ c.misses h);
            experts = (unfold touch in refl);
            answer = λ s q. (unfold touch in e ∙ q);
          })
    | inl e ↦
        (let a =
            admit_miss-Admits (key_at c layer expert) (record c { misses = _ })
              (st.expert_ref layer expert) (counted-Coherent c c.hits _ h) e
              (λ r q. record {
                layer = layer;
                expert = expert;
                is_expert = lt;
                is_key = refl;
                found = q;
              }) in
          rw (e, admit_key)
            (record { coherent = a.coherent; experts = a.experts; answer = a.answer }))
  ]

key_unique : (n l e l' e' : ℕ) → e < n → e' < n → l * n + e ≡ l' * n + e' → (l ≡ l') × (e ≡ e')
key_unique n zero e zero e' p q h = (refl, omega arith)
key_unique n zero e (suc m) e' p q h = (let i = suc-mul m n in absurd (omega arith))
key_unique n (suc m) e zero e' p q h = (let i = suc-mul m n in absurd (omega arith))
key_unique n (suc m) e (suc m') e' p q h =
    let i = suc-mul m n in
    let j = suc-mul m' n in let (a, b) = key_unique n m e m' e' p q (omega arith) in (ap suc a, b)

in_range-pos :
    {W A : Type 0} (layer expert : ℕ) (c : K3Cache W A)
    → layer < c.n_layers
    → expert < c.n_experts
    → in_range c (pos layer) (pos expert) ≡ some (layer, expert)
unfolding in_range
in_range-pos layer expert c p q = ground arith

module _ {W A : Type 0} (st : Store W A) (content : ExpertRef → A) where
  -- The slot that a request is answered with.
  pub record Answered (layer expert : ℕ) (c : K3Cache W A) (slot : ℕ) : Type 0 where
    pub source : ExpertRef
    pub found : st.expert_ref layer expert ≡ some source
    pub geometry : c.ref slot ≡ some source
    pub bytes : c.arena slot ≡ content source

  slot_of-Answered :
      (layer expert slot : ℕ) (c : K3Cache W A)
      → Coherent st content c
      → expert < c.n_experts
      → c.slot_of (key_at c layer expert) ≡ some slot
      → Answered layer expert c slot
  slot_of-Answered layer expert slot c h lt e =
      let (_, _, key) = h.resident _ slot e in
      let v = h.served slot _ tt key in
      let (l, x) =
        key_unique c.n_experts layer expert v.names.layer v.names.expert lt v.names.is_expert
          v.names.is_key in
      record {
        source = v.source;
        found = rw (l, x) v.names.found;
        geometry = v.geometry;
        bytes = v.bytes;
      }

module _ {W A : Type 0} (st : Store W A) (content : ExpertRef → A)
    (reads : (r : ExpertRef) (w : W)
      → is_full (st.load r w).0.got r.nbytes ≡ true
      → (st.load r w).0.bytes ≡ content r) where
  -- A request in range keeps the cache coherent, and where it is answered the slot holds the bytes
  -- of the very expert that was asked for, with its geometry. Reads are assumed to bring the bytes
  -- of an expert whenever they bring as many as it has.
  pub cache_get-Answered :
      (layer expert : ℕ) (c : K3Cache W A)
      → Coherent st content c
      → layer < c.n_layers
      → expert < c.n_experts
      → let x = cache_get st (pos layer) (pos expert) c in
        Coherent st content x.0 × ((s : ℕ) → x.1 ≡ some s → Answered st content layer expert x.0 s)
  unfolding cache_get get_at record_request
  cache_get-Answered layer expert c h p q =
      let d = record_request layer expert c in
      let hd : Coherent st content d = record {
        resident = h.resident;
        listed = h.listed;
        served = h.served;
        pins = h.pins;
      } in
      let a = admit-Admits st content reads layer expert d hd q in
      rw (in_range-pos layer expert c p q) (
        a.coherent,
        λ s e.
            slot_of-Answered st content layer expert s _ a.coherent (rw a.experts q)
              (rw a.experts (a.answer s e)),
      )
