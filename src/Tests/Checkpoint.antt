-- ===== src/Tests/Checkpoint.antt =====
-- The checkpoint reader at concrete inputs: a directory with one shard of one tensor of two bytes.
use isky.Prelude.{
  ℕ, ◌+◌, ◌%◌, ◌*◌, ◌/◌, ◌^◌, ◌≤◌, ◌<◌, ◌≡◌, ◌⊎◌, refl, List, [], ◌∷◌, ◌++◌, true, if◌then◌else◌,
  ◌==◌, none, some, ℤ, pos, negsuc, Text, text, length, length-take, length-drop, take, drop, arith,
}
use isky.Safetensors.{K3Tensor, dt_u8, numel}
use isky.Safetensors.Scanner.{scanned, malformed}
use isky.Safetensors.Header.{scan_header, shard_scanned, shard_bad, scan_shard}
use isky.Safetensors.Header.Total.{scan_header-cases}
use isky.Safetensors.Index.{Bucket, build_index, indexed, duplicate}
use isky.Safetensors.Index.Built.{IsDistinct}
use isky.Safetensors.Index.Refines.{IsRepeated, build_index-cases}
use isky.Safetensors.Open.{DirEntry, K3St, Opened, opened, k3_st_open}
use isky.Safetensors.Open.Stored.{IsChecked, k3_st_open-IsChecked}
use isky.Safetensors.Open.Order.{swap, k3_st_open_order}
use isky.Safetensors.Read.{Disk, Shards, k3_st_read_aligned}
use isky.Safetensors.Read.Loop.{IsFaithful}
use isky.Safetensors.Read.Window.{Delivers, k3_st_read_aligned-Delivers}
use isky.Safetensors.Widen.{widen, f16_to_f32, k3_st_read_f32}
use isky.Safetensors.Widen.Exact.{half_value, float_value, f16_to_f32-exact}
use isky.Safetensors.Widen.Chunks.{k3_st_read_f32-widen}

abbrev json : Text
json = text "{'a':{'dtype':'U8','shape':[2],'data_offsets':[0,2]}}"

-- The same with the quotes that JSON has.
quoted : Text → Text
quoted [] = []
quoted (c ∷ r) = (if c == b'\'' then b'"' else c) ∷ quoted r

abbrev shard : Text
shard = 53 ∷ 0 ∷ 0 ∷ 0 ∷ 0 ∷ 0 ∷ 0 ∷ 0 ∷ quoted json ++ 7 ∷ 9 ∷ []

abbrev listing : List DirEntry
listing = (text "notes.txt", none) ∷ (text "m.safetensors", some shard) ∷ []

abbrev st_of : Opened → K3St
st_of (opened s) = s
st_of _ = record { shards = []; index = record { tensors = []; bucket = λ j. none; nbucket = 0 } }

test_length : length (quoted json) ≡ 53
unfolding text quoted
test_length = refl

k3_st_open-IsChecked_example : IsChecked (st_of (k3_st_open (text "ckpt") listing))
unfolding k3_st_open quoted
k3_st_open-IsChecked_example =
    k3_st_open-IsChecked (text "ckpt") listing (st_of (k3_st_open (text "ckpt") listing)) refl

k3_st_open_order_example :
    k3_st_open (text "ckpt") listing
    ≡ k3_st_open (text "ckpt") ((text "m.safetensors", some shard) ∷ (text "notes.txt", none) ∷ [])
unfolding text
k3_st_open_order_example =
    k3_st_open_order (text "ckpt") listing
      ((text "m.safetensors", some shard) ∷ (text "notes.txt", none) ∷ [])
      (swap (text "notes.txt", none) (text "m.safetensors", some shard) []
        (λ e. absurd (ground arith)))

tensor : Text → K3Tensor
tensor name = record {
  name = name;
  shard = 0;
  dtype = dt_u8;
  shape = pos 2 ∷ [];
  off = pos 1;
  nbytes = pos 2;
}

abbrev two_tensors : List K3Tensor
two_tensors = tensor (text "a") ∷ tensor (text "b") ∷ []

build_index-cases_example :
    ((b : Bucket) × (build_index two_tensors ≡ indexed b) × IsDistinct two_tensors)
    ⊎ ((name : Text) × (build_index two_tensors ≡ duplicate name) × IsRepeated two_tensors name)
build_index-cases_example = build_index-cases two_tensors

scan_header-cases_example :
    (scan_header 61 63 0 [] (quoted json) ≡ malformed)
    ⊎ ((us : List K3Tensor) × (rest : Text) × (scan_header 61 63 0 [] (quoted json)
          ≡ scanned us rest)
        × (length rest ≤ length (quoted json)))
scan_header-cases_example = scan_header-cases 61 63 0 [] (quoted json)

-- The length field holds 2 ^ 64 - 1, so that the check of it wraps; the read fails.
test_hostile : scan_shard 0 [] (255 ∷ 255 ∷ 255 ∷ 255 ∷ 255 ∷ 255 ∷ 255 ∷ 255 ∷ 1 ∷ []) ≡ shard_bad
unfolding scan_shard
test_hostile = refl

-- A disk whose shards all hold the same few bytes, and which gives all that is asked for.
abbrev pub on_disk : ℕ → Text
on_disk n = 1 ∷ 2 ∷ 3 ∷ 4 ∷ 5 ∷ []

abbrev at_offset : ℤ → ℕ → Text
at_offset (pos off) count = take count (drop off (on_disk 0))
at_offset (negsuc n) count = []

abbrev pub disk : Disk ℕ
disk = record { pread = λ n direct off count w. (at_offset off count, w + 1) }

disk-progress :
    (off count : ℕ) → 0 < count → off < 5 → 0 < length (take count (drop off (on_disk 0)))
disk-progress off count some_bytes inside =
    omega (arith, length-take count (drop off (on_disk 0)), length-drop off (on_disk 0))

disk-blocks :
    (off count : ℕ)
    → count % 4096 ≡ 0
    → (length (take count (drop off (on_disk 0))) % 4096 ≡ 0)
      ⊎ (5 ≤ off + length (take count (drop off (on_disk 0))))
disk-blocks off count even =
    ground (arith, length-take count (drop off (on_disk 0)), length-drop off (on_disk 0))

pub disk-IsFaithful : IsFaithful disk on_disk
disk-IsFaithful = record {
  bytes = λ n direct off count w. (count, omega arith, refl);
  progress =
      λ n direct off count w even some_bytes inside. disk-progress off count some_bytes inside;
  blocks = λ n off count w even. disk-blocks off count (even refl).1;
}

abbrev pub shards : Shards
shards = record { nshard = 1; direct = λ n. true }

k3_st_read_aligned-Delivers_example :
    Delivers
      (on_disk 0)
      1
      3
      9000
      (k3_st_read_aligned disk shards (pos 0) (pos 1) (pos 3) (pos 9000) 0).0
k3_st_read_aligned-Delivers_example =
    k3_st_read_aligned-Delivers disk on_disk disk-IsFaithful shards 0 1 3 9000 0 (omega arith)
      (omega arith)

f16_to_f32-exact_example :
    (f16_to_f32 0x8001 / 2 ^ 31 ≡ 0x8001 / 2 ^ 15)
    × (float_value (f16_to_f32 0x8001) ≡ half_value 0x8001 * 2 ^ 125)
f16_to_f32-exact_example = f16_to_f32-exact 0x8001 (omega arith) (omega arith)

k3_st_read_f32-widen_example :
    (k3_st_read_f32 disk (tensor (text "a")) 0).0
    ≡ (widen dt_u8 (take (2 * 1) (drop 1 (on_disk 0))), pos 2)
unfolding tensor numel
k3_st_read_f32-widen_example =
    k3_st_read_f32-widen disk on_disk disk-IsFaithful (tensor (text "a")) 1 2 0 refl refl tt
      (omega arith)

-- A tensor whose span starts before the data is let through, into the header.
before_data : Text
before_data =
    54
    ∷ 0
    ∷ 0
    ∷ 0
    ∷ 0
    ∷ 0
    ∷ 0
    ∷ 0
    ∷ quoted (text "{'a':{'dtype':'U8','shape':[2],'data_offsets':[-2,0]}}")

test_before_data :
    scan_shard 0 [] before_data
    ≡ shard_scanned (
        record {
          name = text "a";
          shard = 0;
          dtype = dt_u8;
          shape = pos 2 ∷ [];
          off = pos 60;
          nbytes = pos 2;
        }
        ∷ [])
unfolding scan_shard before_data quoted text
test_before_data = refl

-- The end of this span is past 2 ^ 63, where the sum that is compared with the size wraps.
past_end : Text
past_end =
    89
    ∷ 0
    ∷ 0
    ∷ 0
    ∷ 0
    ∷ 0
    ∷ 0
    ∷ 0
    ∷ quoted (
        text
          "{'a':{'dtype':'U8','shape':[7],'data_offsets':[9223372036854775800,9223372036854775807]}}")

test_past_end :
    scan_shard 0 [] past_end
    ≡ shard_scanned (
        record {
          name = text "a";
          shard = 0;
          dtype = dt_u8;
          shape = pos 7 ∷ [];
          off = negsuc 9223372036854775718;
          nbytes = pos 7;
        }
        ∷ [])
unfolding scan_shard past_end quoted text
test_past_end = refl
