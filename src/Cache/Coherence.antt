-- ===== src/Cache/Coherence.antt =====
-- The invariant of src/cache/k3_cache.c on its two tables, its slots and its pins, and the steps that the
-- operations are made of.
use mathlib.Core.Option.{some-injective}
use mathlib.Core.Bool.{false≢true}
use isky.Prelude.{
  ℕ, ◌+◌, ◌*◌, ◌<◌, ◌≡◌, sym, ◌∙◌, ap, ◌≢◌, ◌⊎◌, inl, inr, true, false, Option, none, some, ◌==◌,
  ==_iff, Bool-cases, arith,
}
use isky.Cache.{SlotKey, holds, ExpertRef, Store, K3Cache, write, touch, evict, publish}
use isky.Cache.Victim.{SlotKey-cases, inflight≢holds, empty≢holds}

pub write_self : {A : Type 0} (f : ℕ → A) (i : ℕ) (v : A) → write f i v i ≡ v
unfolding write
write_self f i v = ground arith

pub write-other : {A : Type 0} (f : ℕ → A) (i : ℕ) (v : A) (j : ℕ) → j ≢ i → write f i v j ≡ f j
unfolding write
write-other f i v j h = ground arith

pub same_or_not : (i j : ℕ) → (i ≡ j) ⊎ (i ≢ j)
same_or_not i j = elim (Bool-cases (i == j)) [
  | inl e ↦ inl ((==_iff i j).0 e)
  | inr e ↦ inr (λ q. false≢true (sym e ∙ (==_iff i j).1 q))
]

pub none≢some : {s : ℕ} → none ≢ some s
none≢some h = cc

holds-injective : (k l : ℕ) → holds k ≡ holds l → k ≡ l
holds-injective k l h = cc

-- `content` is what the checkpoint has for an expert.
module _ {W A : Type 0} (st : Store W A) (content : ExpertRef → A) where
  -- The expert of a key, among `n` experts of a layer, and its place in the checkpoint.
  pub record Names (n key : ℕ) (r : ExpertRef) : Type 0 where
    pub layer : ℕ
    pub expert : ℕ
    pub is_expert : expert < n
    pub is_key : key ≡ layer * n + expert
    pub found : st.expert_ref layer expert ≡ some r

  -- The slot has the geometry and the bytes of the expert that the key names.
  pub record Serves (n : ℕ) (refs : ℕ → Option ExpertRef) (arena : ℕ → A) (key slot : ℕ)
      : Type 0 where
    pub source : ExpertRef
    pub geometry : refs slot ≡ some source
    pub names : Names n key source
    pub bytes : arena slot ≡ content source

  -- The invariant, for the slots where `on` holds: the two tables agree, a slot with a key has the
  -- bytes of its expert, and a pinned slot has a key.
  pub record CoherentOn (on : ℕ → Type 0) (c : K3Cache W A) : Type 0 where
    pub resident : (k s : ℕ) → c.slot_of k ≡ some s → (s < c.nslot) × on s × (c.key_of s ≡ holds k)
    pub listed : (s k : ℕ) → on s → c.key_of s ≡ holds k → c.slot_of k ≡ some s
    pub served : (s k : ℕ) → on s → c.key_of s ≡ holds k → Serves c.n_experts c.ref c.arena k s
    pub pins : (s : ℕ) → c.pinned s ≡ true → on s × ((k : ℕ) × (c.key_of s ≡ holds k))

  abbrev pub Coherent : K3Cache W A → Type 0
  Coherent c = CoherentOn (λ s. Unit) c

  -- all slots but one
  abbrev pub CoherentBut : ℕ → K3Cache W A → Type 0
  CoherentBut slot c = CoherentOn (λ s. s ≢ slot) c

  -- One key, one slot.
  pub slot_unique :
      (c : K3Cache W A)
      → Coherent c
      → (s t k : ℕ) → c.key_of s ≡ holds k
      → c.key_of t ≡ holds k
      → s ≡ t
  slot_unique c h s t k p q = some-injective s t (sym (h.listed s k tt p) ∙ h.listed t k tt q)

  pub touch-Coherent : (slot : ℕ) (c : K3Cache W A) → Coherent c → Coherent (touch slot c)
  unfolding touch
  touch-Coherent slot c h = record {
    resident = h.resident;
    listed = h.listed;
    served = h.served;
    pins = h.pins;
  }

  -- A slot that holds nothing is left out of the account.
  pub Coherent-but :
      (slot : ℕ) (c : K3Cache W A)
      → Coherent c
      → ((k : ℕ) → c.key_of slot ≢ holds k)
      → CoherentBut slot c
  Coherent-but slot c h free = record {
    resident = λ k s e.
        (let (lt, _, key) = h.resident k s e in
          (lt, (λ q. free k (ap c.key_of (sym q) ∙ key)), key));
    listed = λ s k ne e. h.listed s k tt e;
    served = λ s k ne e. h.served s k tt e;
    pins = λ s p.
        (let (_, (k, key)) = h.pins s p in ((λ q. free k (ap c.key_of (sym q) ∙ key)), (k, key)));
  }

  pub evict-but :
      (slot : ℕ) (c : K3Cache W A)
      → Coherent c
      → c.pinned slot ≡ false
      → CoherentBut slot (evict slot c)
  unfolding evict
  evict-but slot c h unpinned = elim (SlotKey-cases (c.key_of slot)) [
    | inl e ↦ rw (evict, e) (Coherent-but slot c h (λ k q. empty≢holds (sym e ∙ q)))
    | inr (inl e) ↦ rw (evict, e) (Coherent-but slot c h (λ k q. inflight≢holds (sym e ∙ q)))
    | inr (inr (k₀, e)) ↦
        rw (evict, e)
          (record {
            resident = λ k s q. elim (same_or_not k k₀) [
              | inl i ↦ absurd (none≢some (sym (rw i (write_self c.slot_of k₀ none)) ∙ q))
              | inr ne ↦
                  (let (lt, _, key) =
                      h.resident k s (sym (write-other c.slot_of k₀ none k ne) ∙ q) in
                    (lt, (λ i. ne (holds-injective k k₀ (sym key ∙ ap c.key_of i ∙ e))), key))
            ];
            listed = λ s k ne q.
                write-other c.slot_of k₀ none k
                  (λ i. ne (slot_unique c h s slot k₀ (q ∙ ap holds i) e))
                ∙ h.listed s k tt q;
            served = λ s k ne q. h.served s k tt q;
            pins = λ s p.
                (let (_, (k, key)) = h.pins s p in
                  ((λ i. false≢true (sym unpinned ∙ ap c.pinned (sym i) ∙ p)), (k, key)));
          })
  ]

  -- The slot is read into.
  pub arena-but :
      (slot : ℕ) (c : K3Cache W A) (w : W) (a : A)
      → CoherentBut slot c
      → CoherentBut slot (record c { world = w; arena = write c.arena slot a })
  arena-but slot c w a h = record {
    resident = h.resident;
    listed = h.listed;
    served = λ s k ne e.
        (let v = h.served s k ne e in
          record {
            source = v.source;
            geometry = v.geometry;
            names = v.names;
            bytes = write-other c.arena slot a s ne ∙ v.bytes;
          });
    pins = h.pins;
  }

  -- The slot is given a mark that is no key.
  pub clear-Coherent :
      (slot : ℕ) (c : K3Cache W A) (mark : SlotKey)
      → CoherentBut slot c
      → ((k : ℕ) → mark ≢ holds k)
      → Coherent (record c { key_of = write c.key_of slot mark })
  clear-Coherent slot c mark h free = record {
    resident = λ k s e.
        (let (lt, ne, key) = h.resident k s e in
          (lt, tt, write-other c.key_of slot mark s ne ∙ key));
    listed = λ s k _ e. (let (ne, q) = kept s k e in h.listed s k ne q);
    served = λ s k _ e. (let (ne, q) = kept s k e in h.served s k ne q);
    pins = λ s p.
        (let (ne, (k, key)) = h.pins s p in (tt, (k, write-other c.key_of slot mark s ne ∙ key)));
  }
    where
      kept : (s k : ℕ) → write c.key_of slot mark s ≡ holds k → (s ≢ slot) × (c.key_of s ≡ holds k)
      kept s k e = elim (same_or_not s slot) [
        | inl i ↦ absurd (
            free k
              (sym (write_self c.key_of slot mark) ∙ ap (write c.key_of slot mark) (sym i) ∙ e))
        | inr ne ↦ (ne, sym (write-other c.key_of slot mark s ne) ∙ e)
      ]

  -- The slot is registered to a key that has no slot, with the bytes of its expert in it.
  pub publish-Coherent :
      (key slot : ℕ) (r : ExpertRef) (pad got : ℕ) (c : K3Cache W A)
      → CoherentBut slot c
      → slot < c.nslot
      → c.slot_of key ≡ none
      → c.arena slot ≡ content r
      → Names c.n_experts key r
      → Coherent (publish key slot r pad got c)
  unfolding publish touch
  publish-Coherent key slot r pad got c h lt new bytes names = record {
    resident = λ k s e. elim (same_or_not k key) [
      | inl i ↦
          (let j = some-injective slot s (sym (rw i (write_self c.slot_of key (some slot))) ∙ e) in
            (rw (← j) lt, tt, rw (← j) (rw i (write_self c.key_of slot (holds key)))))
      | inr nk ↦
          (let (lt', ne, q) =
              h.resident k s (sym (write-other c.slot_of key (some slot) k nk) ∙ e) in
            (lt', tt, write-other c.key_of slot (holds key) s ne ∙ q))
    ];
    listed = λ s k _ e. elim (same_or_not s slot) [
      | inl i ↦
          (let j = holds-injective key k (sym (rw i (write_self c.key_of slot (holds key))) ∙ e) in
            rw (← j) (rw i (write_self c.slot_of key (some slot))))
      | inr ne ↦
          (let q = h.listed s k ne (sym (write-other c.key_of slot (holds key) s ne) ∙ e) in
            write-other c.slot_of key (some slot) k
              (λ i. none≢some (sym new ∙ ap c.slot_of (sym i) ∙ q))
            ∙ q)
    ];
    served = λ s k _ e. elim (same_or_not s slot) [
      | inl i ↦
          (let j = holds-injective key k (sym (rw i (write_self c.key_of slot (holds key))) ∙ e) in
            record {
              source = r;
              geometry = rw i (write_self c.ref slot (some r));
              names = rw (← j) names;
              bytes = rw i bytes;
            })
      | inr ne ↦
          (let v = h.served s k ne (sym (write-other c.key_of slot (holds key) s ne) ∙ e) in
            record {
              source = v.source;
              geometry = write-other c.ref slot (some r) s ne ∙ v.geometry;
              names = v.names;
              bytes = v.bytes;
            })
    ];
    pins = λ s p.
        (let (ne, (k, q)) = h.pins s p in
          (tt, (k, write-other c.key_of slot (holds key) s ne ∙ q)));
  }
