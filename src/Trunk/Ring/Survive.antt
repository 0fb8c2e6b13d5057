-- ===== src/Trunk/Ring/Survive.antt =====
-- src/io/k3_trunk.c: the buffer that the caller computes on while the thread reads the next layer.
use native.Mathlib.Nat.{mod_self, mod-eq_of_lt}
use isky.Prelude.{
  ℕ, zero, suc, ◌+◌, ◌%◌, ◌≤◌, ◌<◌, ◌≡◌, ◌≢◌, refl, ap, ◌∙◌, sym, inl, inr, Bool, true, Bool-cases,
  some, ◌==◌, arith,
}
use isky.Trunk.Ring.{
  TrunkIo, K3Trunk, Base, pinned_at, slot_at, assign, claim, io_step, ask, bind_demand,
  k3_trunk_prefetch, contents, threads,
}
use isky.Trunk.Ring.Coherent.{
  IsSound, Coherent, IsIdle, prefetch-cases, bind_demand-Coherent, bind_demand-Holds,
}
use isky.Trunk.Ring.Wait.{thread-cases}
use isky.Trunk.Ring.Walk.{bind_demand-IsIdle}

slot_at-inj : (s t : ℕ) → slot_at s ≡ slot_at t → s ≡ t
slot_at-inj s t e = ground arith

module _ {W A : Type 0} (load : ℕ → W → (A × Bool) × W) (run : ℕ → A)
    (sound : IsSound load run) where
  -- The thread is not reading into this buffer.
  abbrev IsApart : Base → K3Trunk W A → Type 0
  IsApart b tr = (io : TrunkIo) → tr.io ≡ some io → io.busy ≡ true → b ≢ slot_at io.slot

  io_step-contents :
      (tr : K3Trunk W A) (io : TrunkIo) (b : Base)
      → b ≢ slot_at io.slot
      → contents load (io_step load io tr) b ≡ contents load tr b
  unfolding io_step assign contents
  io_step-contents tr io (pinned_at L) apart = refl
  io_step-contents tr io (slot_at s) apart = elim (Bool-cases (s == io.slot)) [
    | inl same ↦ absurd (apart (ap slot_at (ground arith)))
    | inr other ↦ rw other refl
  ]

  io_step-IsApart : (tr : K3Trunk W A) (io : TrunkIo) (b : Base) → IsApart b (io_step load io tr)
  unfolding io_step
  io_step-IsApart tr io b io' e busy = absurd (ground arith)

  threads-contents :
      (n : ℕ) (tr : K3Trunk W A) (b : Base)
      → IsApart b tr
      → contents load (threads load n tr) b ≡ contents load tr b
  unfolding threads
  threads-contents zero tr b apart = refl
  threads-contents (suc n) tr b apart = elim (thread-cases load run sound tr) [
    | inl (same, rests) ↦ rw (threads, same) (threads-contents n tr b apart)
    | inr (io, is_io, busy, step) ↦
        rw (threads, step)
          (threads-contents n (io_step load io tr) b (io_step-IsApart tr io b)
            ∙ io_step-contents tr io b (apart io is_io busy))
  ]

  ask-contents :
      (tr : K3Trunk W A) (io : TrunkIo) (L : ℕ) (b : Base)
      → contents load (ask load L io tr) b ≡ contents load tr b
  unfolding ask claim contents
  ask-contents tr io L (pinned_at k) = refl
  ask-contents tr io L (slot_at s) = refl

  ask-IsApart :
      (tr : K3Trunk W A) (io : TrunkIo) (L : ℕ) (b : Base)
      → b ≢ slot_at tr.ring
      → IsApart b (ask load L io tr)
  unfolding ask
  ask-IsApart tr io L b apart io' e busy same =
      let slot : tr.ring ≡ io'.slot = ground arith in apart (same ∙ ap slot_at (sym slot))

  -- A hint keeps every buffer but the one at the ring's hand, however far the thread gets.
  pub k3_trunk_prefetch-contents :
      (tr : K3Trunk W A) (L n : ℕ) (b : Base)
      → Coherent load run tr
      → IsIdle load run tr
      → b ≢ slot_at tr.ring
      → contents load (threads load n (k3_trunk_prefetch load L tr)) b ≡ contents load tr b
  k3_trunk_prefetch-contents tr L n b c idle apart = elim (prefetch-cases load run sound tr c L) [
    | inl same ↦
        rw same
          (threads-contents n tr b λ io e busy. absurd (let rests = idle io e in ground arith))
    | inr (io, past, is_io, asked) ↦ rw asked (
        threads-contents n (ask load L io tr) b (ask-IsApart tr io L b apart)
        ∙ ask-contents tr io L b)
  ]

  next_slot : (ring nslot : ℕ) → ring < nslot → 2 ≤ nslot → ring ≢ (ring + 1) % nslot
  next_slot ring nslot lt two e = elim (Bool-cases (ring + 1 == nslot)) [
    | inl last ↦
        let same : ring + 1 ≡ nslot = ground arith in
        let back : (ring + 1) % nslot ≡ 0 = ap (λ n. n % nslot) same ∙ mod_self nslot in
        absurd (omega arith)
    | inr inner ↦
        let below : ring + 1 < nslot = ground arith in
        let on : (ring + 1) % nslot ≡ ring + 1 = mod-eq_of_lt below in absurd (omega arith)
  ]

  bind_demand-apart :
      (tr : K3Trunk W A) (L : ℕ) (b : Base)
      → tr.ring < tr.nslot
      → 2 ≤ tr.nslot
      → (bind_demand load L tr).1 ≡ some b
      → b ≢ slot_at (bind_demand load L tr).0.ring
  unfolding bind_demand claim
  bind_demand-apart tr L b lt two found same = elim (Bool-cases (load L tr.world).0.1) [
    | inl ok ↦
        let here : slot_at tr.ring ≡ b = ground arith in
        let on : b ≡ slot_at ((tr.ring + 1) % tr.nslot) = rw (bind_demand, ok) at same in
        next_slot tr.ring tr.nslot lt two (slot_at-inj tr.ring _ (here ∙ on))
    | inr bad ↦ absurd (ground arith)
  ]

  -- With two slots or more and an idle thread, the buffer of a layer that was read on demand keeps
  -- that layer's run while the next layer is hinted and read, however far the thread gets.
  pub bind_demand-survives :
      (tr : K3Trunk W A) (L next n : ℕ) (b : Base)
      → Coherent load run tr
      → IsIdle load run tr
      → tr.npin ≤ L
      → tr.ring < tr.nslot
      → 2 ≤ tr.nslot
      → (bind_demand load L tr).1 ≡ some b
      → contents load (threads load n (k3_trunk_prefetch load next (bind_demand load L tr).0)) b
        ≡ run L
  bind_demand-survives tr L next n b c idle past lt two found =
      k3_trunk_prefetch-contents (bind_demand load L tr).0 next n b
        (bind_demand-Coherent load run sound tr c L past idle)
        (bind_demand-IsIdle load run sound tr L idle) (bind_demand-apart tr L b lt two found)
      ∙ bind_demand-Holds load run sound tr c L b found
