-- ===== src/Trunk/Ring/Wait.antt =====
-- src/io/k3_trunk.c: the step of the reader thread, and the wait for a layer that was requested.
use isky.Prelude.{
  ℕ, ◌≡◌, refl, ◌⊎◌, inl, inr, Bool, true, false, Bool-cases, some, Option-cases, ◌==◌, arith,
}
use isky.Trunk.Ring.{
  TrunkIo, K3Trunk, assign, io_step, trunk_io_main, Waited, not_requested, arrived, take_result,
  awaited, trunk_io_wait,
}
use isky.Trunk.Ring.Coherent.{
  IsSound, Coherent, IsIdle, IsAwaiting, io_step-Coherent, take_result-Coherent,
}

module _ {W A : Type 0} (load : ℕ → W → (A × Bool) × W) (run : ℕ → A)
    (sound : IsSound load run) where
  pub thread-cases :
      (tr : K3Trunk W A)
      → ((trunk_io_main load tr ≡ tr) × ((io : TrunkIo) → tr.io ≡ some io → io.busy ≡ false))
        ⊎ ((io : TrunkIo) × (tr.io ≡ some io)
            × (io.busy ≡ true)
            × (trunk_io_main load tr ≡ io_step load io tr))
  unfolding trunk_io_main
  thread-cases tr = elim (Option-cases tr.io) [
    | inl no_thread ↦ inl (simp (trunk_io_main, no_thread) refl, λ io e. ground arith)
    | inr (io, is_io) ↦ elim (Bool-cases io.busy) [
      | inr rests ↦ inl (simp (trunk_io_main, is_io, rests) refl, λ io' e. ground arith)
      | inl busy ↦ inr (io, is_io, busy, simp (trunk_io_main, is_io, busy) refl)
    ]
  ]

  io_step-IsAwaiting :
      (tr : K3Trunk W A) (io : TrunkIo) (L : ℕ)
      → io.layer ≡ L
      → IsAwaiting load run L (io_step load io tr)
  unfolding io_step
  io_step-IsAwaiting tr io L same io' e pending = ground arith

  pub thread-Coherent :
      (tr : K3Trunk W A) (L : ℕ)
      → Coherent load run tr
      → IsAwaiting load run L tr
      → Coherent load run (trunk_io_main load tr) × IsAwaiting load run L (trunk_io_main load tr)
  thread-Coherent tr L c wait = elim (thread-cases tr) [
    | inl (same, rests) ↦ rw same (c, wait)
    | inr (io, is_io, busy, step) ↦ rw step (
      io_step-Coherent load run sound tr c io is_io busy,
      io_step-IsAwaiting tr io L (wait io is_io (ground arith)),
    )
  ]

  -- What the wait for a layer leaves.
  abbrev pub IsWaited : ℕ → K3Trunk W A → K3Trunk W A × Waited → Type 0
  IsWaited L tr r =
      Coherent load run r.0
      × IsIdle load run r.0
      × (r.0.npin ≡ tr.npin)
      × (r.1 ≡ arrived → (s : ℕ) × (r.0.slot_of L ≡ some s) × (r.0.layer_of s ≡ some L))

  take_result-IsWaited :
      (tr : K3Trunk W A) (L : ℕ) (io : TrunkIo)
      → Coherent load run tr
      → tr.io ≡ some io
      → io.done ≡ true
      → io.layer ≡ L
      → IsWaited L tr (take_result load L io tr)
  unfolding take_result assign
  take_result-IsWaited tr L io c is_io done same =
      let (after, idle) =
        take_result-Coherent load run sound tr c L io is_io done (c.settled io is_io done) same in
      (
        after,
        idle,
        ground arith,
        λ came. elim (Bool-cases io.succeeded) [
          | inl ok ↦ (io.slot, ground arith, ground arith)
          | inr bad ↦ absurd (ground arith)
        ],
      )

  pub trunk_io_wait-IsWaited :
      (tr : K3Trunk W A) (L : ℕ)
      → Coherent load run tr
      → IsAwaiting load run L tr
      → IsWaited L tr (trunk_io_wait load L tr)
  unfolding trunk_io_wait
  trunk_io_wait-IsWaited tr L c wait = elim (Option-cases tr.io) [
    | inl no_thread ↦
        let route : trunk_io_wait load L tr ≡ (tr, not_requested) =
          simp (trunk_io_wait, no_thread) refl in
        rw route (c, (λ io e. ground arith), refl, λ came. absurd (ground arith))
    | inr (io, is_io) ↦ elim (Bool-cases (awaited io L)) [
      | inr other ↦
          let route : trunk_io_wait load L tr ≡ (tr, not_requested) =
            simp (trunk_io_wait, is_io, other) refl in
          rw route
            (c, (λ io' e. ground (arith, wait io is_io)), refl, λ came. absurd (ground arith))
      | inl mine ↦ elim (Bool-cases io.done) [
        | inl done ↦
            let rests = c.settled io is_io done in
            let same : (io.layer == L) ≡ true = ground arith in
            let route : trunk_io_wait load L tr ≡ take_result load L io tr =
              simp (trunk_io_wait, is_io, rests, done, same) refl in
            rw route (take_result-IsWaited tr L io c is_io done (ground arith))
        | inr not_yet ↦
            let busy : io.busy ≡ true = ground arith in
            let same : (io.layer == L) ≡ true = ground arith in
            let next : TrunkIo = record io {
              succeeded = (load io.layer tr.world).0.1;
              done = true;
              busy = false;
            } in
            let route : trunk_io_wait load L tr ≡ take_result load L next (io_step load io tr) =
              simp (trunk_io_wait, trunk_io_main, is_io, not_yet, busy, same) refl in
            rw route (
              take_result-IsWaited (io_step load io tr) L next
                (io_step-Coherent load run sound tr c io is_io busy) refl refl (ground arith))
      ]
    ]
  ]
