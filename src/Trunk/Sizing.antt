-- ===== src/Trunk/Sizing.antt =====
-- src/io/k3_trunk.c: the sizes of the pinned prefix and of the ring.
use isky.Prelude.{
  take, ℕ, zero, suc, ◌+◌, ◌-◌, ◌*◌, ◌%◌, ◌≤◌, ◌<◌, ◌≡◌, refl, ap, ◌∙◌, sym, ◌⊎◌, inl, inr, List,
  [], ◌∷◌, ◌&&◌, Bool-cases, some, ltb, length, get_elem?, get_or, drop, ◌==◌, arith,
}
use isky.Trunk.{
  K3TrunkLayer, trunk_align, align_up, largest, streamed_size, slot_size, ring_slots, pin_layers,
  RingPlan, plan_pass, plan_from, plan_ring,
}
use isky.Trunk.Layers.{
  pinned_fits, pin_layers_mono, pin_layers_spent, pin_layers_sum, pinned_bytes, largest_between,
  no_layer, from_bound, largest-drop_mono, nothing_left, align_up_mono, align_up_le, align_up_self,
  streamed_bound,
}

module _ (lay : List K3TrunkLayer) (widen budget : ℕ) where
  slot_bound :
      (m k : ℕ)
      → m ≤ k
      → K3TrunkLayer.nbytes (get_or lay k no_layer) + widen ≤ slot_size lay widen m
  unfolding slot_size
  slot_bound m k le = omega (
    arith,
    streamed_bound lay m k le,
    align_up_le (streamed_size lay m),
    align_up_le (align_up (streamed_size lay m) + widen),
  )

  -- The slots do not grow when more layers are pinned.
  streamed_size_anti :
      (m n : ℕ) → m ≤ n → (largest (drop m lay) ≡ 0 → ⊥) → streamed_size lay n ≤ streamed_size lay m
  unfolding streamed_size
  streamed_size_anti m n le some_left =
      let within : m ≤ length lay - 1 = elim (Bool-cases (ltb m (length lay))) [
        | inl inside ↦ ground arith
        | inr past ↦ absurd (some_left (nothing_left lay m (ground arith)))
      ] in
      ground
        (arith, largest-drop_mono lay m n le, from_bound lay m (length lay - 1) within, some_left)

  ring_slots_cases :
      (rs : ℕ)
      → ((ring_slots rs budget ≡ 1) × (budget < 2 * rs))
        ⊎ ((ring_slots rs budget ≡ 2) × (2 * rs ≤ budget))
  unfolding ring_slots
  ring_slots_cases rs = ground arith

  abbrev pins : ℕ → ℕ
  pins rs = (pin_layers widen budget (ring_slots rs budget * rs) lay).0

  -- With room for two of the larger slots, smaller slots pin no fewer layers.
  pins_mono : (rs rs' : ℕ) → rs' ≤ rs → 2 * rs ≤ budget → pins rs ≤ pins rs'
  pins_mono rs rs' le room = elim (ring_slots_cases rs) [
    | inl (one, short) ↦ absurd (omega arith)
    | inr (two, fits) ↦ elim (ring_slots_cases rs') [
      | inl (one, short) ↦ absurd (omega arith)
      | inr (two', fits') ↦
          rw (pins, two, two') (pin_layers_mono widen budget (2 * rs') (2 * rs) lay (omega arith))
    ]
  ]

  same_size :
      (m n : ℕ)
      → largest (drop m lay) ≡ largest (drop n lay)
      → slot_size lay widen m ≡ slot_size lay widen n
  unfolding slot_size streamed_size
  same_size m n e = rw e refl

  smaller_size :
      (m n : ℕ)
      → m ≤ n
      → (largest (drop m lay) ≡ 0 → ⊥)
      → slot_size lay widen n ≤ slot_size lay widen m
  unfolding slot_size
  smaller_size m n le big =
      let base = align_up_mono _ _ (streamed_size_anti m n le big) in
      align_up_mono _ _ (omega arith)

  exact_size :
      (m : ℕ) (l : K3TrunkLayer)
      → widen % trunk_align ≡ 0
      → l.nbytes % trunk_align ≡ 0
      → l.nbytes ≡ largest (drop m lay)
      → (largest (drop m lay) ≡ 0 → ⊥)
      → slot_size lay widen m ≡ l.nbytes + widen
  unfolding slot_size streamed_size
  exact_size m l even_widen even size big =
      let named : streamed_size lay m ≡ l.nbytes = ground (arith, size, big) in
      ap (λ x. align_up (align_up x + widen)) named
      ∙ (ap (λ x. align_up (x + widen)) (align_up_self l.nbytes even)
          ∙ align_up_self (l.nbytes + widen) (omega arith))

  module _ (whole_widen : widen % trunk_align ≡ 0)
      (whole : (j : ℕ) (l : K3TrunkLayer)
        → get_elem? lay j ≡ some l
        → l.nbytes % trunk_align ≡ 0) where
    -- A pass pins no fewer layers than the pass before, if that one did so too.
    pass_grows :
        (m n : ℕ)
        → m ≤ n
        → n ≡ (plan_pass lay widen budget m).npin
        → n ≤ (plan_pass lay widen budget n).npin
    unfolding plan_pass
    pass_grows m n le is_n = elim (largest_between lay m n le) [
      | inl same ↦
          let level : slot_size lay widen m ≡ slot_size lay widen n = same_size m n same in
          let again : pins (slot_size lay widen m) ≡ pins (slot_size lay widen n) = ap pins level in
          omega arith
      | inr (j, l, lt, here, size) ↦ elim (Bool-cases (l.nbytes == 0)) [
        | inl empty ↦
            let none_m : largest (drop m lay) ≡ 0 = ground arith in
            let none_n : largest (drop n lay) ≡ 0 = omega (arith, largest-drop_mono lay m n le) in
            let level : slot_size lay widen m ≡ slot_size lay widen n =
              same_size m n (none_m ∙ sym none_n) in
            let again : pins (slot_size lay widen m) ≡ pins (slot_size lay widen n) =
              ap pins level in
            omega arith
        | inr some_left ↦
            let big : largest (drop m lay) ≡ 0 → ⊥ = λ e. absurd (ground arith) in
            let rs = slot_size lay widen m in
            let is_rs : rs ≡ l.nbytes + widen =
              exact_size m l whole_widen (whole j l here) size big in
            let smaller = smaller_size m n le big in
            let fits =
              pinned_fits widen budget (ring_slots rs budget * rs) lay j l (omega arith) here in
            let room : 2 * rs ≤ budget = elim (ring_slots_cases rs) [
              | inl (one, short) ↦
                  let once : ring_slots rs budget * rs ≡ rs = rw one (omega arith) in omega arith
              | inr (two, enough) ↦ enough
            ] in
            let more = pins_mono rs (slot_size lay widen n) smaller room in omega arith
      ]
    ]

    -- What holds of a plan that a pass has made.
    abbrev IsPlan : RingPlan → Type 0
    IsPlan p = (m : ℕ) × (m ≤ p.npin) × (p ≡ plan_pass lay widen budget m)

    one_more :
        (passes : ℕ) (p : RingPlan)
        → p.npin ≤ (plan_pass lay widen budget p.npin).npin
        → IsPlan (plan_from passes lay widen budget (plan_pass lay widen budget p.npin))
        → IsPlan (plan_from (suc passes) lay widen budget p)
    unfolding plan_from
    one_more passes p grows later =
        let q = plan_pass lay widen budget p.npin in
        elim (Bool-cases (q.ring_slot == p.ring_slot && q.npin == p.npin)) [
          | inl settled ↦ rw (plan_from, settled) (p.npin, grows, refl)
          | inr on ↦ rw (plan_from, on) later
        ]

    plan_from-IsPlan :
        (passes : ℕ) (p : RingPlan)
        → IsPlan p
        → p.npin ≤ (plan_pass lay widen budget p.npin).npin
        → IsPlan (plan_from passes lay widen budget p)
    unfolding plan_from
    plan_from-IsPlan zero p made grows = made
    plan_from-IsPlan (suc passes) p made grows =
        let q = plan_pass lay widen budget p.npin in
        one_more passes p grows
          (plan_from-IsPlan passes q (p.npin, grows, refl) (pass_grows p.npin q.npin grows refl))

    plan_ring-IsPlan : IsPlan (plan_ring lay widen budget)
    unfolding plan_ring
    plan_ring-IsPlan =
        let q = plan_pass lay widen budget 0 in
        one_more 3 (record { ring_slot = 0; npin = 0; spent = 0; nslot = 2 }) (omega arith)
          (plan_from-IsPlan 3 q (0, omega arith, refl) (pass_grows 0 q.npin (omega arith) refl))

get_elem?-get_or :
    (lay : List K3TrunkLayer) (i : ℕ) (l : K3TrunkLayer)
    → get_elem? lay i ≡ some l
    → get_or lay i no_layer ≡ l
get_elem?-get_or [] i l h = absurd (ground arith)
get_elem?-get_or (x ∷ lay) zero l h = ground arith
get_elem?-get_or (x ∷ lay) (suc i) l h = get_elem?-get_or lay i l h

-- The ring can hold each layer that is not pinned, with its widen area; it has one slot or two; what
-- is spent is its slots and all pinned layers with theirs; and a budget that can pay for one slot pays
-- for all that.
pub record RingFits (lay : List K3TrunkLayer) (widen budget : ℕ) (p : RingPlan) : Type 0 where
  pub fits :
      (i : ℕ) (l : K3TrunkLayer)
      → p.npin ≤ i
      → get_elem? lay i ≡ some l
      → l.nbytes + widen ≤ p.ring_slot
  pub slots : (p.nslot ≡ 1) ⊎ (p.nslot ≡ 2)
  pub counted : p.spent ≡ p.nslot * p.ring_slot + pinned_bytes widen (take p.npin lay)
  pub paid : p.ring_slot ≤ budget → p.spent ≤ budget

pass-RingFits :
    (lay : List K3TrunkLayer) (widen budget m : ℕ)
    → m ≤ (plan_pass lay widen budget m).npin
    → RingFits lay widen budget (plan_pass lay widen budget m)
unfolding plan_pass
pass-RingFits lay widen budget m le = record {
  fits = λ i l past here.
      let found = ap K3TrunkLayer.nbytes (get_elem?-get_or lay i l here) in
      omega (arith, slot_bound lay widen budget m i (omega arith), found);
  slots = elim (ring_slots_cases lay widen budget (slot_size lay widen m)) [
    | inl (one, short) ↦ inl one
    | inr (two, room) ↦ inr two
  ];
  paid = λ one.
      let rs = slot_size lay widen m in
      let held : ring_slots rs budget * rs ≤ budget = elim (ring_slots_cases lay widen budget rs) [
        | inl (one_slot, short) ↦ rw one_slot (omega arith)
        | inr (two, room) ↦ rw two room
      ] in
      (pin_layers_spent widen budget (ring_slots rs budget * rs) lay held).0;
  counted =
      let rs = slot_size lay widen m in pin_layers_sum widen budget (ring_slots rs budget * rs) lay;
}

-- For a trunk whose layers and widen area are whole blocks of 4096 bytes, whatever the budget, the
-- sizes that `k3_trunk_open` settles on within its four passes leave room in a slot of the ring for
-- each layer that is not pinned, with its widen area; the ring has one slot or two; what is spent is
-- the slots of the ring and each pinned layer with its widen area; and if the budget pays for one
-- slot, that is within the budget.
pub plan_ring-RingFits :
    (lay : List K3TrunkLayer) (widen budget : ℕ)
    → widen % trunk_align ≡ 0
    → ((j : ℕ) (l : K3TrunkLayer) → get_elem? lay j ≡ some l → l.nbytes % trunk_align ≡ 0)
    → RingFits lay widen budget (plan_ring lay widen budget)
plan_ring-RingFits lay widen budget whole_widen whole =
    let (m, le, made) = plan_ring-IsPlan lay widen budget whole_widen whole in
    rw made (pass-RingFits lay widen budget m (rw made at le))
