-- ===== src/Cache/Victim.antt =====
-- Which slot `pick_victim` of src/cache/k3_cache.c takes.
use mathlib.Core.Option.{some-injective}
use mathlib.Core.Bool.{false≢true}
use isky.Prelude.{
  ℕ, zero, suc, ◌+◌, ◌≤◌, ◌<◌, ◌≡◌, refl, sym, ◌∙◌, ap, ◌≢◌, ◌⊎◌, inl, inr, false, Option, none,
  some, ltb, ltb→lt, Bool-cases, arith,
}
use isky.Cache.{
  SlotKey, empty, inflight, holds, K3Cache, consider, pick_from, pick_victim, oldest_start,
}

pub SlotKey-cases : (k : SlotKey) → (k ≡ empty) ⊎ (k ≡ inflight) ⊎ ((n : ℕ) × (k ≡ holds n))
SlotKey-cases empty = inl refl
SlotKey-cases inflight = inr (inl refl)
SlotKey-cases (holds n) = inr (inr (n, refl))

pub inflight≢holds : {n : ℕ} → inflight ≢ holds n
inflight≢holds h = cc

pub empty≢holds : {n : ℕ} → empty ≢ holds n
empty≢holds h = cc

module _ {W A : Type 0} (c : K3Cache W A) where
  -- A slot that may be taken from its expert.
  pub record IsEvictable (s : ℕ) : Type 0 where
    pub in_arena : s < c.nslot
    pub key : ℕ
    pub holding : c.key_of s ≡ holds key
    pub unpinned : c.pinned s ≡ false

  -- An empty slot, or an evictable one that was used no later than any other evictable one, where
  -- no slot is empty.
  pub record IsEmptySlot (s : ℕ) : Type 0 where
    pub in_arena : s < c.nslot
    pub free : c.key_of s ≡ empty

  pub record IsOldest (s : ℕ) : Type 0 where
    pub evictable : IsEvictable s
    pub oldest : (s' : ℕ) → IsEvictable s' → c.used_at s ≤ c.used_at s'
    pub none_free : (s' : ℕ) → s' < c.nslot → c.key_of s' ≢ empty

  -- `b` sums up the slots below `i`.
  record Scanned (i : ℕ) (b : Option ℕ × ℕ) : Type 0 where
    within : i ≤ c.nslot
    stamp : (s : ℕ) → b.0 ≡ some s → IsEvictable s × (c.used_at s ≡ b.1)
    least : (s : ℕ) → IsEvictable s → s < i → b.1 ≤ c.used_at s
    taken : (s : ℕ) → s < i → c.key_of s ≢ empty
    start : b.0 ≡ none → b.1 ≡ oldest_start

  below_next : (i s : ℕ) → s < i + 1 → (s < i) ⊎ (s ≡ i)
  below_next i s h = elim (Bool-cases (ltb s i)) [
    | inl e ↦ inl (ltb→lt s i e)
    | inr e ↦ inr (ground arith)
  ]

  pass-Scanned :
      (i : ℕ) (b : Option ℕ × ℕ)
      → Scanned i b
      → i < c.nslot
      → c.key_of i ≢ empty
      → (IsEvictable i → b.1 ≤ c.used_at i)
      → Scanned (i + 1) b
  pass-Scanned i b h lt full later = record {
    within = omega arith;
    stamp = h.stamp;
    least = λ s v q. elim (below_next i s q) [
      | inl r ↦ h.least s v r
      | inr e ↦ rw e (later (rw e at v))
    ];
    taken = λ s q. elim (below_next i s q) [ inl r ↦ h.taken s r | inr e ↦ rw e full ];
    start = h.start;
  }

  take-Scanned :
      (i : ℕ) (b : Option ℕ × ℕ)
      → Scanned i b
      → c.key_of i ≢ empty
      → IsEvictable i
      → c.used_at i < b.1
      → Scanned (i + 1) (some i, c.used_at i)
  take-Scanned i b h full v less = record {
    within = (let p = v.in_arena in omega arith);
    stamp = λ s e. (rw (sym (some-injective i s e)) v, ap c.used_at (sym (some-injective i s e)));
    least = λ s v' q. elim (below_next i s q) [
      | inl r ↦ (let p = h.least s v' r in omega arith)
      | inr e ↦ rw e (omega arith)
    ];
    taken = λ s q. elim (below_next i s q) [ inl r ↦ h.taken s r | inr e ↦ rw e full ];
    start = λ e. cc;
  }

  consider-Scanned :
      (i : ℕ) (b : Option ℕ × ℕ)
      → Scanned i b
      → i < c.nslot
      → c.key_of i ≢ empty
      → Scanned (i + 1) (consider c i b)
  unfolding consider
  consider-Scanned i (o, t) h lt full = elim (SlotKey-cases (c.key_of i)) [
    | inl e ↦ absurd (full e)
    | inr (inl e) ↦
        rw (consider, e)
          (pass-Scanned i (o, t) h lt full (λ v. absurd (inflight≢holds (sym e ∙ v.holding))))
    | inr (inr (k, e)) ↦ elim (Bool-cases (c.pinned i)) [
      | inl p ↦
          rw (consider, e, p)
            (pass-Scanned i (o, t) h lt full (λ v. absurd (false≢true (sym v.unpinned ∙ p))))
      | inr p ↦ elim (Bool-cases (ltb (c.used_at i) t)) [
        | inl q ↦
            rw (consider, e, p, q)
              (take-Scanned i (o, t) h full
                (record { in_arena = lt; key = k; holding = e; unpinned = p })
                (ltb→lt (c.used_at i) t q))
        | inr q ↦ rw (consider, e, p, q) (pass-Scanned i (o, t) h lt full (λ v. ground arith))
      ]
    ]
  ]

  -- what the scan may give
  abbrev pub IsVictim : Option ℕ → Type 0
  IsVictim none =
      (s : ℕ) → s < c.nslot → (c.key_of s ≢ empty) × (IsEvictable s → oldest_start ≤ c.used_at s)
  IsVictim (some s) = IsEmptySlot s ⊎ IsOldest s

  pick_from-IsVictim :
      (left i : ℕ) (b : Option ℕ × ℕ)
      → i + left ≡ c.nslot
      → Scanned i b
      → IsVictim (pick_from c left i b)
  unfolding pick_from
  pick_from-IsVictim zero i (none, t) e h = λ s q.
      (h.taken s (omega arith), λ v. (let p = h.least s v (omega arith) in rw (← h.start refl) p))
  pick_from-IsVictim zero i (some s, t) e h =
      let (v, stamp) = h.stamp s refl in
      inr (record {
        evictable = v;
        oldest =
            λ s' v'. (let p = h.least s' v' (let q = v'.in_arena in omega arith) in omega arith);
        none_free = λ s' q. h.taken s' (omega arith);
      })
  pick_from-IsVictim (suc left) i b e h = elim (SlotKey-cases (c.key_of i)) [
    | inl f ↦ rw (pick_from, f) (inl (record { in_arena = omega arith; free = f }))
    | inr (inl f) ↦
        rw (pick_from, f)
          (pick_from-IsVictim left (i + 1) (consider c i b) (omega arith)
            (consider-Scanned i b h (omega arith) (λ q. cc)))
    | inr (inr (k, f)) ↦
        rw (pick_from, f)
          (pick_from-IsVictim left (i + 1) (consider c i b) (omega arith)
            (consider-Scanned i b h (omega arith) (λ q. absurd (empty≢holds (sym q ∙ f)))))
  ]

  -- The victim is an empty slot where there is one, and else the slot used the longest ago of those
  -- that hold an expert and are not pinned; it is never in flight. There is none only where no slot
  -- is empty and each evictable one has the greatest stamp.
  pub pick_victim-IsVictim : IsVictim (pick_victim c)
  unfolding pick_victim
  pick_victim-IsVictim =
      pick_from-IsVictim c.nslot 0 (none, oldest_start) (omega arith)
        (record {
          within = omega arith;
          stamp = λ s e. cc;
          least = λ s v q. absurd (omega arith);
          taken = λ s q. absurd (omega arith);
          start = λ e. refl;
        })
