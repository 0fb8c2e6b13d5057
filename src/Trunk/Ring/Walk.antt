-- ===== src/Trunk/Ring/Walk.antt =====
-- src/io/k3_trunk.c and src/cli/k3_run.c: the walk over the layers, with the thread at any pace.
use isky.Prelude.{
  ℕ, zero, suc, ◌+◌, ◌≤◌, ◌<◌, ◌≡◌, refl, inl, inr, List, [], ◌∷◌, Bool, false, Bool-cases, Option,
  none, some, Option-cases, ltb, leb, arith,
}
use isky.Trunk.Ring.{
  K3Trunk, Base, slot_at, assign, slot_with, claim, trunk_io_main, Waited, not_requested, arrived,
  failed, bind_pinned, bind_demand, bind_ring, bind_waited, k3_trunk_bind, k3_trunk_prefetch,
  contents, threads, stream_layers,
}
use isky.Trunk.Ring.Coherent.{
  IsSound, Coherent, IsIdle, IsAwaiting, Holds, bind_demand-Coherent, bind_demand-Holds,
  ask-Coherent, prefetch-cases,
}
use isky.Trunk.Ring.Wait.{thread-Coherent, IsWaited, trunk_io_wait-IsWaited}

slot_with-layer :
    (layer_of : ℕ → Option ℕ) (left i L s : ℕ)
    → slot_with layer_of left i L ≡ some s
    → layer_of s ≡ some L
unfolding slot_with
slot_with-layer layer_of zero i L s h = absurd (ground arith)
slot_with-layer layer_of (suc left) i L s h =
    ground (arith, slot_with-layer layer_of left (i + 1) L s)

module _ {W A : Type 0} (load : ℕ → W → (A × Bool) × W) (run : ℕ → A)
    (sound : IsSound load run) where
  -- A bind keeps the ring coherent, leaves the thread idle and hands back the layer's run.
  abbrev IsBound : ℕ → K3Trunk W A × Option Base → Type 0
  IsBound L r = Coherent load run r.0 × IsIdle load run r.0 × Holds load run L r

  count_hit :
      (tr : K3Trunk W A)
      → Coherent load run tr
      → Coherent load run (record tr { hits = tr.hits + 1 })
  count_hit tr c = record {
    pinned = c.pinned;
    ringed = c.ringed;
    reserved = c.reserved;
    result = c.result;
    settled = c.settled;
    above = c.above;
    asked_above = c.asked_above;
  }

  bind_pinned-IsBound :
      (tr : K3Trunk W A) (L : ℕ)
      → Coherent load run tr
      → IsIdle load run tr
      → L < tr.npin
      → IsBound L (bind_pinned load L tr)
  unfolding bind_pinned assign contents
  bind_pinned-IsBound tr L c idle lt = elim (Option-cases (tr.slot_of L)) [
    | inr (s, there) ↦
        rw (bind_pinned, there) (count_hit tr c, idle, λ b e. ground (arith, c.pinned L s lt there))
    | inl fresh ↦ elim (Bool-cases (load L tr.world).0.1) [
      | inr bad ↦
          rw (bind_pinned, fresh, bad)
            (
              record {
                pinned = λ k s below held. ground (arith, c.pinned k s below held, fresh);
                ringed = c.ringed;
                reserved = c.reserved;
                result = c.result;
                settled = c.settled;
                above = c.above;
                asked_above = c.asked_above;
              },
              idle,
              λ b e. ground arith,
            )
      | inl ok ↦
          rw (bind_pinned, fresh, ok)
            (
              record {
                pinned = λ k s below held. ground (arith, c.pinned k s below, sound L tr.world ok);
                ringed = c.ringed;
                reserved = c.reserved;
                result = c.result;
                settled = c.settled;
                above = c.above;
                asked_above = c.asked_above;
              },
              idle,
              λ b e. ground (arith, sound L tr.world ok),
            )
    ]
  ]

  pub bind_demand-IsIdle :
      (tr : K3Trunk W A) (L : ℕ) → IsIdle load run tr → IsIdle load run (bind_demand load L tr).0
  unfolding bind_demand claim
  bind_demand-IsIdle tr L idle io e = elim (Bool-cases (load L tr.world).0.1) [
    | inl ok ↦ idle io (rw (bind_demand, ok) at e)
    | inr bad ↦ idle io (rw (bind_demand, bad) at e)
  ]

  bind_ring-IsBound :
      (tr : K3Trunk W A) (L : ℕ)
      → Coherent load run tr
      → IsIdle load run tr
      → tr.npin ≤ L
      → IsBound L (bind_ring load L tr)
  unfolding bind_ring contents
  bind_ring-IsBound tr L c idle past = elim (Option-cases (slot_with tr.layer_of tr.nslot 0 L)) [
    | inl absent ↦
        let route : bind_ring load L tr ≡ bind_demand load L tr = simp (bind_ring, absent) refl in
        rw route (
          bind_demand-Coherent load run sound tr c L past idle,
          bind_demand-IsIdle tr L idle,
          bind_demand-Holds load run sound tr c L,
        )
    | inr (s, there) ↦
        let held = c.ringed s L (slot_with-layer tr.layer_of tr.nslot 0 L s there) in
        let route : bind_ring load L tr ≡ (record tr { hits = tr.hits + 1 }, some (slot_at s)) =
          simp (bind_ring, there) refl in
        rw route (count_hit tr c, idle, λ b e. ground (arith, held))
  ]

  bind_waited-IsBound :
      (tr tr' : K3Trunk W A) (L : ℕ) (r : Waited)
      → IsWaited load run sound L tr (tr', r)
      → tr.npin ≤ L
      → IsBound L (bind_waited load L tr' r)
  unfolding bind_waited contents
  bind_waited-IsBound tr tr' L failed (c, idle, same, came) past = (c, idle, λ b e. ground arith)
  bind_waited-IsBound tr tr' L not_requested (c, idle, same, came) past =
      bind_ring-IsBound tr' L c idle (omega arith)
  bind_waited-IsBound tr tr' L arrived (c, idle, same, came) past =
      let (s, slot, there) = came refl in
      let held = c.ringed s L there in
      let route : bind_waited load L tr' arrived ≡ (tr', some (slot_at s)) =
        simp (bind_waited, slot) refl in
      rw route (c, idle, λ b e. ground (arith, held))

  -- On a file whose reads that succeed give the layer's run, from a coherent ring in which nothing
  -- but this layer is requested, `k3_trunk_bind` of a layer of the trunk keeps the ring coherent,
  -- leaves the reader thread idle, and hands back a buffer that holds the layer's run, if any.
  pub k3_trunk_bind-IsBound :
      (tr : K3Trunk W A) (L : ℕ)
      → Coherent load run tr
      → IsAwaiting load run L tr
      → L < tr.n_layers
      → IsBound L (k3_trunk_bind load L tr)
  unfolding k3_trunk_bind
  k3_trunk_bind-IsBound tr L c wait lt =
      let there : leb tr.n_layers L ≡ false = ground arith in
      elim (Bool-cases (ltb L tr.npin)) [
        | inl pinned ↦
            let idle : IsIdle load run tr = λ io e. ground (arith, wait io e, c.asked_above io e) in
            rw (k3_trunk_bind, there, pinned) (bind_pinned-IsBound tr L c idle (ground arith))
        | inr streamed ↦
            rw (k3_trunk_bind, there, streamed)
              (bind_waited-IsBound tr _ L _ (trunk_io_wait-IsWaited load run sound tr L c wait)
                (ground arith))
      ]

  bound_below :
      (tr : K3Trunk W A) (L : ℕ) (b : Base) → (k3_trunk_bind load L tr).1 ≡ some b → L < tr.n_layers
  unfolding k3_trunk_bind
  bound_below tr L b found = elim (Bool-cases (leb tr.n_layers L)) [
    | inl outside ↦
        let gone : none ≡ some b = rw (k3_trunk_bind, outside) at found in absurd (ground arith)
    | inr inside ↦ ground arith
  ]

  threads-Coherent :
      (n : ℕ) (tr : K3Trunk W A) (L : ℕ)
      → Coherent load run tr
      → IsAwaiting load run L tr
      → Coherent load run (threads load n tr) × IsAwaiting load run L (threads load n tr)
  unfolding threads
  threads-Coherent zero tr L c wait = (c, wait)
  threads-Coherent (suc n) tr L c wait =
      let (next, waits) = thread-Coherent load run sound tr L c wait in
      threads-Coherent n (trunk_io_main load tr) L next waits

  prefetch-Coherent :
      (tr : K3Trunk W A) (L : ℕ)
      → Coherent load run tr
      → IsIdle load run tr
      → Coherent load run (k3_trunk_prefetch load L tr)
        × IsAwaiting load run L (k3_trunk_prefetch load L tr)
  prefetch-Coherent tr L c idle = elim (prefetch-cases load run sound tr c L) [
    | inl same ↦ rw same (c, λ io e pending. ground (arith, idle io e))
    | inr (io, past, is_io, asked) ↦ rw asked (ask-Coherent load run sound tr c L io past)
  ]

  -- The list has the runs of the layers from `L` on.
  abbrev pub AreRuns : ℕ → List A → Type 0
  AreRuns L [] = Unit
  AreRuns L (a ∷ more) = (a ≡ run L) × AreRuns (L + 1) more

  -- On a file whose reads that succeed give the layer's run, from a coherent ring in which nothing
  -- but the first layer is requested, each bind of a walk over the layers hands back its own
  -- layer's run, whatever the pace of the reader thread.
  pub stream_layers-AreRuns :
      (paces : List ℕ) (L : ℕ) (tr : K3Trunk W A)
      → Coherent load run tr
      → IsAwaiting load run L tr
      → AreRuns L (stream_layers load paces L tr).0
  unfolding stream_layers
  stream_layers-AreRuns [] L tr c wait = tt
  stream_layers-AreRuns (n ∷ paces) L tr c wait = elim (Option-cases (k3_trunk_bind load L tr).1) [
    | inl stops ↦ rw (stream_layers, stops) tt
    | inr (b, found) ↦
        let known : L < tr.n_layers = bound_below tr L b found in
        let (next, idle, held) = k3_trunk_bind-IsBound tr L c wait known in
        let (hinted, waits) = prefetch-Coherent (k3_trunk_bind load L tr).0 (L + 1) next idle in
        let (after, still) =
          threads-Coherent n (k3_trunk_prefetch load (L + 1) (k3_trunk_bind load L tr).0) (L + 1)
            hinted waits in
        rw (stream_layers, found) (held b found, stream_layers-AreRuns paces (L + 1) _ after still)
  ]
