-- ===== src/Trunk.antt =====
-- src/io/k3_trunk.c and k3_trunk.h: the layers of the trunk, streamed from one file through a prefix of
-- pinned buffers and a small ring of slots. `trunk.json` is read by a parser outside the model.
pub mod Layers
pub mod Sizing
pub mod Ring
use isky.Prelude.{
  ℕ, zero, suc, ◌+◌, ◌-◌, ◌*◌, ◌%◌, List, [], ◌∷◌, Bool, true, false, ◌&&◌, Option, none, some, max,
  ltb, leb, length, get_or, drop, ◌==◌, Text, text, str_eq, if◌then◌else◌,
}
use isky.Safetensors.{K3Dtype, dt_unknown, dt_u8, dt_bf16, dt_f16, dt_f32, dt_i8r}

pub record K3TrunkTensor : Type 0 where
  pub name : Text
  pub off : ℕ
  pub nbytes : ℕ
  pub dtype : K3Dtype

pub record K3TrunkLayer : Type 0 where
  pub file_off : ℕ
  pub nbytes : ℕ
  pub tensors : List K3TrunkTensor

unfoldable pub dt_of : Text → K3Dtype
unfolding text str_eq
dt_of s =
    if str_eq s (text "BF16")
    then dt_bf16
    else if str_eq s (text "F32")
    then dt_f32
    else if str_eq s (text "U8")
    then dt_u8
    else if str_eq s (text "F16")
    then dt_f16
    else if str_eq s (text "I8R")
    then dt_i8r
    else dt_unknown

-- the loop of `find_in_layer`; the tensor has the offset, the size and the type that are handed back
unfoldable pub find_in_layer : List K3TrunkTensor → Text → Option K3TrunkTensor
unfolding str_eq
find_in_layer [] name = none
find_in_layer (t ∷ ts) name =
    let rest = find_in_layer ts name in if str_eq t.name name then some t else rest

abbrev pub trunk_align : ℕ
trunk_align = 4096

-- `(x + K3_TRUNK_ALIGN - 1) & ~(int64_t)(K3_TRUNK_ALIGN - 1)`
unfoldable pub align_up : ℕ → ℕ
align_up x = let y = x + (trunk_align - 1) in y - y % trunk_align

unfoldable pub largest : List K3TrunkLayer → ℕ
largest [] = 0
largest (l ∷ ls) = let rest = largest ls in if ltb rest l.nbytes then l.nbytes else rest

-- the largest layer from `npin` on, or the last layer where that is 0
unfoldable pub streamed_size : List K3TrunkLayer → ℕ → ℕ
unfolding largest
streamed_size lay npin =
    let big = largest (drop npin lay) in
    if big == 0
    then K3TrunkLayer.nbytes
        (get_or lay (length lay - 1) (record { file_off = 0; nbytes = 0; tensors = [] }))
    else big

-- `rs`
unfoldable pub slot_size : List K3TrunkLayer → ℕ → ℕ → ℕ
unfolding streamed_size align_up
slot_size lay widen npin = align_up (align_up (streamed_size lay npin) + widen)

-- `while (RING > 1 && RING * rs > budget) RING--`, from 2
unfoldable pub ring_slots : ℕ → ℕ → ℕ
ring_slots rs budget = if ltb budget (2 * rs) then 1 else 2

-- the `while` loop that pins layers, from `sp` bytes on; the number pinned and the bytes spent
unfoldable pub pin_layers : ℕ → ℕ → ℕ → List K3TrunkLayer → ℕ × ℕ
pin_layers widen budget sp [] = (0, sp)
pin_layers widen budget sp (l ∷ ls) =
    let rest = pin_layers widen budget (sp + (l.nbytes + widen)) ls in
    if ltb budget (sp + (l.nbytes + widen)) then (0, sp) else (suc rest.0, rest.1)

pub record RingPlan : Type 0 where
  pub ring_slot : ℕ
  pub npin : ℕ
  pub spent : ℕ
  pub nslot : ℕ

-- one pass of the `for` loop, from the number of layers that the last one pinned
unfoldable pub plan_pass : List K3TrunkLayer → ℕ → ℕ → ℕ → RingPlan
unfolding slot_size ring_slots pin_layers
plan_pass lay widen budget npin =
    let rs = slot_size lay widen npin in
    let ring = ring_slots rs budget in
    let pins = pin_layers widen budget (ring * rs) lay in
    record { ring_slot = rs; npin = pins.0; spent = pins.1; nslot = ring }

-- `passes` more of them
unfoldable pub plan_from : ℕ → List K3TrunkLayer → ℕ → ℕ → RingPlan → RingPlan
unfolding plan_pass
plan_from zero lay widen budget p = p
plan_from (suc passes) lay widen budget p =
    let q = plan_pass lay widen budget p.npin in
    elim (q.ring_slot == p.ring_slot && q.npin == p.npin) [
      | true ↦ q
      | false ↦ plan_from passes lay widen budget q
    ]

-- the sizes that `k3_trunk_open` settles on for a trunk of at least one layer
unfoldable pub plan_ring : List K3TrunkLayer → ℕ → ℕ → RingPlan
unfolding plan_from
plan_ring lay widen budget =
    plan_from 4 lay widen budget (record { ring_slot = 0; npin = 0; spent = 0; nslot = 2 })
