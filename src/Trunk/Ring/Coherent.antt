-- ===== src/Trunk/Ring/Coherent.antt =====
-- src/io/k3_trunk.c: what the ring and the pinned buffers hold.
use isky.Prelude.{
  ℕ, ◌≤◌, ◌<◌, ◌≡◌, refl, ◌⊎◌, inl, inr, Bool, true, false, ◌||◌, Bool-cases, Option, none, some,
  Option-cases, is_some, ltb, leb, arith,
}
use isky.Trunk.Ring.{
  TrunkIo, K3Trunk, Base, assign, release, idle_io, slot_with, claim, io_step, take_result,
  bind_demand, ask, k3_trunk_prefetch, contents,
}

module _ {W A : Type 0} (load : ℕ → W → (A × Bool) × W) (run : ℕ → A) where
  -- A read that succeeds leaves the run of its layer.
  abbrev pub IsSound : Type 0
  IsSound = (L : ℕ) (w : W) → (load L w).0.1 ≡ true → (load L w).0.0 ≡ run L

  abbrev pub is_pending : TrunkIo → Bool
  is_pending io = io.busy || io.done

  -- What is entered as resident is there, and the slot of a request is entered as empty.
  pub record Coherent (tr : K3Trunk W A) : Type 0 where
    pub pinned : (L s : ℕ) → L < tr.npin → tr.slot_of L ≡ some s → tr.pin L ≡ run L
    pub ringed : (s L : ℕ) → tr.layer_of s ≡ some L → tr.arena s ≡ run L
    pub reserved :
        (io : TrunkIo) → tr.io ≡ some io → is_pending io ≡ true → tr.layer_of io.slot ≡ none
    pub result :
        (io : TrunkIo)
        → tr.io ≡ some io
        → io.done ≡ true
        → io.succeeded ≡ true
        → tr.arena io.slot ≡ run io.layer
    pub settled : (io : TrunkIo) → tr.io ≡ some io → io.done ≡ true → io.busy ≡ false
    pub above : (L s : ℕ) → tr.layer_of s ≡ some L → tr.npin ≤ L
    pub asked_above : (io : TrunkIo) → tr.io ≡ some io → is_pending io ≡ true → tr.npin ≤ io.layer

  -- The thread has nothing to do and nothing to hand over.
  abbrev pub IsIdle : K3Trunk W A → Type 0
  IsIdle tr = (io : TrunkIo) → tr.io ≡ some io → is_pending io ≡ false

  -- If anything is pending, it is this layer.
  abbrev pub IsAwaiting : ℕ → K3Trunk W A → Type 0
  IsAwaiting L tr = (io : TrunkIo) → tr.io ≡ some io → is_pending io ≡ true → io.layer ≡ L

  -- A base that is handed back holds the layer's run.
  abbrev pub Holds : ℕ → K3Trunk W A × Option Base → Type 0
  Holds L r = (b : Base) → r.1 ≡ some b → contents load r.0 b ≡ run L

  module _ (sound : IsSound) (tr : K3Trunk W A) (coherent : Coherent tr) where
    pub io_step-Coherent :
        (io : TrunkIo) → tr.io ≡ some io → io.busy ≡ true → Coherent (io_step load io tr)
    unfolding io_step assign
    io_step-Coherent io is_io busy =
        let read = sound io.layer tr.world in
        let empty = coherent.reserved io is_io (ground arith) in
        let asked = coherent.asked_above io is_io (ground arith) in
        record {
          pinned = coherent.pinned;
          ringed = λ s L held. ground (arith, coherent.ringed s L held, empty);
          reserved = λ io' e pending. ground (arith, empty);
          result = λ io' e done ok. ground (arith, read);
          settled = λ io' e d. ground arith;
          above = coherent.above;
          asked_above = λ io' e pending. ground (arith, asked);
        }

    release-some :
        (o : Option ℕ) (f : ℕ → Option ℕ) (L s : ℕ) → release o f L ≡ some s → f L ≡ some s
    unfolding release assign
    release-some none f L s h = h
    release-some (some k) f L s h = ground arith

    pub bind_demand-Coherent :
        (L : ℕ) → tr.npin ≤ L → IsIdle tr → Coherent (bind_demand load L tr).0
    unfolding bind_demand claim assign
    bind_demand-Coherent L past idle = elim (Bool-cases (load L tr.world).0.1) [
      | inl ok ↦
          rw (bind_demand, ok)
            (record {
              pinned = λ k s lt held.
                  coherent.pinned k s lt (release-some (tr.layer_of tr.ring) tr.slot_of k s held);
              ringed = λ s k held. ground (arith, coherent.ringed s k, sound L tr.world ok);
              reserved = λ io e pending. ground (arith, idle io e);
              result = λ io e done ok'. ground (arith, idle io e);
              settled = coherent.settled;
              above = λ k s held. ground (arith, coherent.above k s);
              asked_above = λ io e pending. ground (arith, idle io e);
            })
      | inr bad ↦
          rw (bind_demand, bad)
            (record {
              pinned = λ k s lt held.
                  coherent.pinned k s lt (release-some (tr.layer_of tr.ring) tr.slot_of k s held);
              ringed = λ s k held. ground (arith, coherent.ringed s k);
              reserved = λ io e pending. ground (arith, idle io e);
              result = λ io e done ok'. ground (arith, idle io e);
              settled = coherent.settled;
              above = λ k s held. ground (arith, coherent.above k s);
              asked_above = λ io e pending. ground (arith, idle io e);
            })
    ]

    pub bind_demand-Holds : (L : ℕ) → Holds L (bind_demand load L tr)
    unfolding bind_demand claim assign contents
    bind_demand-Holds L b found = elim (Bool-cases (load L tr.world).0.1) [
      | inl ok ↦ ground (arith, sound L tr.world ok)
      | inr bad ↦ ground arith
    ]

    pub ask-Coherent :
        (L : ℕ) (io : TrunkIo)
        → tr.npin ≤ L
        → Coherent (ask load L io tr) × IsAwaiting L (ask load L io tr)
    unfolding ask claim assign
    ask-Coherent L io past = (
      record {
        pinned = λ k s lt held.
            coherent.pinned k s lt (release-some (tr.layer_of tr.ring) tr.slot_of k s held);
        ringed = λ s k held. ground (arith, coherent.ringed s k);
        reserved = λ io' e pending. ground arith;
        result = λ io' e d o. ground arith;
        settled = λ io' e d. ground arith;
        above = λ k s held. ground (arith, coherent.above k s);
        asked_above = λ io' e pending. ground arith;
      },
      λ io' e pending. ground arith,
    )

    -- A request leaves the other buffers alone, and those of the thread's slot until it runs.
    pub prefetch-cases :
        (L : ℕ)
        → (k3_trunk_prefetch load L tr ≡ tr)
          ⊎ ((io : TrunkIo) × (tr.npin ≤ L)
              × (tr.io ≡ some io)
              × (k3_trunk_prefetch load L tr ≡ ask load L io tr))
    unfolding k3_trunk_prefetch
    prefetch-cases L = elim (Bool-cases (leb tr.n_layers L || ltb L tr.npin)) [
      | inl outside ↦ inl (rw (k3_trunk_prefetch, outside) refl)
      | inr inside ↦ elim (Bool-cases (is_some (slot_with tr.layer_of tr.nslot 0 L))) [
        | inl there ↦ inl (rw (k3_trunk_prefetch, inside, there) refl)
        | inr absent ↦ elim (Option-cases tr.io) [
          | inl no_thread ↦ inl (simp (k3_trunk_prefetch, inside, absent, no_thread) refl)
          | inr (io, is_io) ↦ elim (Bool-cases (io.busy || is_some (tr.slot_of L))) [
            | inl busy ↦ inl (simp (k3_trunk_prefetch, inside, absent, is_io, busy) refl)
            | inr free ↦ inr (
              io,
              ground arith,
              is_io,
              simp (k3_trunk_prefetch, inside, absent, is_io, free) refl,
            )
          ]
        ]
      ]
    ]

    pub take_result-Coherent :
        (L : ℕ) (io : TrunkIo)
        → tr.io ≡ some io
        → io.done ≡ true
        → io.busy ≡ false
        → io.layer ≡ L
        → Coherent (take_result load L io tr).0 × IsIdle (take_result load L io tr).0
    unfolding take_result assign idle_io
    take_result-Coherent L io is_io done rest same =
        let asked = coherent.asked_above io is_io (ground arith) in
        elim (Bool-cases io.succeeded) [
          | inl ok ↦
              rw (take_result, ok)
                (
                  record {
                    pinned = λ k s lt held. ground (arith, coherent.pinned k s lt);
                    ringed = λ s k held.
                        ground (arith, coherent.ringed s k, coherent.result io is_io done ok);
                    reserved = λ io' e pending. ground arith;
                    result = λ io' e d o. ground arith;
                    settled = λ io' e d. ground arith;
                    above = λ k s held. ground (arith, coherent.above k s);
                    asked_above = λ io' e pending. ground arith;
                  },
                  λ io' e. ground arith,
                )
          | inr bad ↦
              rw (take_result, bad)
                (
                  record {
                    pinned = coherent.pinned;
                    ringed = coherent.ringed;
                    reserved = λ io' e pending. ground arith;
                    result = λ io' e d o. ground arith;
                    settled = λ io' e d. ground arith;
                    above = coherent.above;
                    asked_above = λ io' e pending. ground arith;
                  },
                  λ io' e. ground arith,
                )
        ]
