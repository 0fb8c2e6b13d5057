-- ===== src/Trunk/Ring.antt =====
-- src/io/k3_trunk.c: binding a layer, and the reader thread that fetches the next one. The thread
-- holds the lock but for its read, so that it takes one step from a request to its result; `stop`
-- is set only when all is closed, and seconds and byte counts are left out.
pub mod Coherent
pub mod Wait
pub mod Walk
pub mod Survive
use isky.Prelude.{
  ℕ, zero, suc, ◌+◌, ◌-◌, ◌%◌, List, [], ◌∷◌, Bool, true, false, not, ◌&&◌, ◌||◌, Option, none,
  some, is_some, ltb, leb, ◌==◌, if◌then◌else◌,
}

-- K3TrunkIO: a request is pending while `busy`, and its result is there while `done`.
pub record TrunkIo : Type 0 where
  pub busy : Bool
  pub done : Bool
  pub layer : ℕ
  pub slot : ℕ
  pub succeeded : Bool

-- Contents of a buffer are of type `A`. `io` is none for NULL; `slot_of` and `layer_of` give none
-- for -1.
pub record K3Trunk (W A : Type 0) : Type 0 where
  pub n_layers : ℕ
  pub npin : ℕ
  pub nslot : ℕ
  pub pin : ℕ → A
  pub arena : ℕ → A
  pub layer_of : ℕ → Option ℕ
  pub slot_of : ℕ → Option ℕ
  pub ring : ℕ
  pub io : Option TrunkIo
  pub hits : ℕ
  pub misses : ℕ
  pub world : W

-- where the run of a layer stands
pub data Base : Type 0 where
  pinned_at slot_at : ℕ → Base

-- `trunk_io_wait`'s return of 0, of 1 and of -1
pub data Waited : Type 0 where
  not_requested arrived failed : Waited

abbrev pub awaited : TrunkIo → ℕ → Bool
awaited io L = (io.busy || io.done) && io.layer == L

abbrev pub io_or : Option TrunkIo → TrunkIo → TrunkIo
io_or none io = io
io_or (some io) other = io

abbrev pub is_layer : Option ℕ → ℕ → Bool
is_layer none L = false
is_layer (some k) L = k == L

unfoldable pub assign : {A : Type 0} → (ℕ → A) → ℕ → A → ℕ → A
assign f i v j = if j == i then v else f j

-- `if (layer_of[slot] >= 0) slot_of[layer_of[slot]] = -1`
unfoldable pub release : Option ℕ → (ℕ → Option ℕ) → ℕ → Option ℕ
unfolding assign
release none slot_of = slot_of
release (some k) slot_of = assign slot_of k none

unfoldable pub idle_io : TrunkIo → TrunkIo
idle_io io = record io { done = false }

-- `for (i = 0; i < nslot; i++) if (layer_of[i] == L)`, from `i` on
unfoldable pub slot_with : (ℕ → Option ℕ) → ℕ → ℕ → ℕ → Option ℕ
slot_with layer_of zero i L = none
slot_with layer_of (suc left) i L =
    let rest = slot_with layer_of left (i + 1) L in if is_layer (layer_of i) L then some i else rest

-- `load_run`: what it leaves in the buffer, and whether it returned 0
module _ {W A : Type 0} (load : ℕ → W → (A × Bool) × W) where
  -- The slot at the ring's hand is emptied and taken; the hand moves on.
  unfoldable pub claim : K3Trunk W A → K3Trunk W A
  unfolding assign release
  claim tr = record tr {
    ring = (tr.ring + 1) % tr.nslot;
    slot_of = release (tr.layer_of tr.ring) tr.slot_of;
    layer_of = assign tr.layer_of tr.ring none;
  }

  -- one round of `trunk_io_main`, when there is a request
  unfoldable pub io_step : TrunkIo → K3Trunk W A → K3Trunk W A
  unfolding assign
  io_step io tr =
      let ((bytes, ok), w) = load io.layer tr.world in
      record tr {
        arena = assign tr.arena io.slot bytes;
        io = some (record io { succeeded = ok; done = true; busy = false });
        world = w;
      }

  -- the thread, which may run at any time
  unfoldable pub trunk_io_main : K3Trunk W A → K3Trunk W A
  unfolding io_step
  trunk_io_main tr = elim tr.io [ none ↦ tr | some io ↦ if io.busy then io_step io tr else tr ]

  -- behind the wait: a layer that was read is entered
  unfoldable pub take_result : ℕ → TrunkIo → K3Trunk W A → K3Trunk W A × Waited
  unfolding assign idle_io
  take_result L io tr =
      if io.succeeded
      then (
        record tr {
          layer_of = assign tr.layer_of io.slot (some L);
          slot_of = assign tr.slot_of L (some io.slot);
          misses = tr.misses + 1;
          io = some (idle_io io);
        },
        arrived,
      )
      else (record tr { io = some (idle_io io) }, failed)

  -- `while (!done) wait`: the thread takes its step
  unfoldable pub trunk_io_wait : ℕ → K3Trunk W A → K3Trunk W A × Waited
  unfolding trunk_io_main take_result
  trunk_io_wait L tr = elim tr.io [
    | none ↦ (tr, not_requested)
    | some io ↦
        if awaited io L
        then (if io.done
            then take_result L io tr
            else (let tr' = trunk_io_main tr in take_result L (io_or tr'.io io) tr'))
        else (tr, not_requested)
  ]

  -- a pinned layer, read at its first touch
  unfoldable pub bind_pinned : ℕ → K3Trunk W A → K3Trunk W A × Option Base
  unfolding assign
  bind_pinned L tr =
      if is_some (tr.slot_of L)
      then (record tr { hits = tr.hits + 1 }, some (pinned_at L))
      else (let ((bytes, ok), w) = load L tr.world in
          let tr' = record tr { pin = assign tr.pin L bytes; world = w } in
          if ok
          then (
            record tr' { slot_of = assign tr.slot_of L (some L); misses = tr.misses + 1 },
            some (pinned_at L),
          )
          else (tr', none))

  -- a layer that was neither asked for nor found in the ring
  unfoldable pub bind_demand : ℕ → K3Trunk W A → K3Trunk W A × Option Base
  unfolding assign claim
  bind_demand L tr =
      let ((bytes, ok), w) = load L tr.world in
      let tr' = record (claim tr) { arena = assign tr.arena tr.ring bytes; world = w } in
      if ok
      then (
        record tr' { layer_of = assign tr'.layer_of tr.ring (some L); misses = tr.misses + 1 },
        some (slot_at tr.ring),
      )
      else (tr', none)

  unfoldable pub bind_ring : ℕ → K3Trunk W A → K3Trunk W A × Option Base
  unfolding slot_with bind_demand
  bind_ring L tr = elim (slot_with tr.layer_of tr.nslot 0 L) [
    | some s ↦ (record tr { hits = tr.hits + 1 }, some (slot_at s))
    | none ↦ bind_demand L tr
  ]

  unfoldable pub bind_waited : ℕ → K3Trunk W A → Waited → K3Trunk W A × Option Base
  unfolding bind_ring
  bind_waited L tr failed = (tr, none)
  bind_waited L tr not_requested = bind_ring L tr
  bind_waited L tr arrived = elim (tr.slot_of L) [
    | none ↦ (tr, none)
    | some s ↦ (tr, some (slot_at s))
  ]

  -- the part of `k3_trunk_bind` that finds `base`; none for a return of -1
  unfoldable pub k3_trunk_bind : ℕ → K3Trunk W A → K3Trunk W A × Option Base
  unfolding bind_pinned trunk_io_wait bind_waited
  k3_trunk_bind L tr =
      if leb tr.n_layers L
      then (tr, none)
      else if ltb L tr.npin
      then bind_pinned L tr
      else (let (tr', r) = trunk_io_wait L tr in bind_waited L tr' r)

  -- the slot is claimed and the thread is woken
  unfoldable pub ask : ℕ → TrunkIo → K3Trunk W A → K3Trunk W A
  unfolding claim
  ask L io tr = record (claim tr) {
    io = some (record io { layer = L; slot = tr.ring; done = false; busy = true });
  }

  unfoldable pub k3_trunk_prefetch : ℕ → K3Trunk W A → K3Trunk W A
  unfolding ask slot_with
  k3_trunk_prefetch L tr =
      if leb tr.n_layers L || ltb L tr.npin
      then tr
      else if is_some (slot_with tr.layer_of tr.nslot 0 L)
      then tr
      else elim tr.io [
        | none ↦ tr
        | some io ↦ if io.busy || is_some (tr.slot_of L) then tr else ask L io tr
      ]

  unfoldable pub contents : K3Trunk W A → Base → A
  contents tr (pinned_at L) = tr.pin L
  contents tr (slot_at s) = tr.arena s

  -- `n` steps of the thread
  unfoldable pub threads : ℕ → K3Trunk W A → K3Trunk W A
  unfolding trunk_io_main
  threads zero tr = tr
  threads (suc n) tr = threads n (trunk_io_main tr)

  -- The loop over the layers in `forward`, as far as it streams them: a bind, the hint of the next
  -- layer, and the thread at the pace that the list says. What each bind handed back is kept.
  unfoldable pub stream_layers : List ℕ → ℕ → K3Trunk W A → List A × K3Trunk W A
  unfolding k3_trunk_bind k3_trunk_prefetch threads contents
  stream_layers [] L tr = ([], tr)
  stream_layers (n ∷ paces) L tr =
      let (tr', found) = k3_trunk_bind L tr in
      elim found [
        | none ↦ ([], tr')
        | some b ↦
            let (rest, last) =
              stream_layers paces (L + 1) (threads n (k3_trunk_prefetch (L + 1) tr')) in
            (contents tr' b ∷ rest, last)
      ]
