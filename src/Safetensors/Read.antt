-- ===== src/Safetensors/Read.antt =====
-- src/io/k3_st.c: the reads of a tensor and of an aligned window, and k3_portable_io.h's `pread`.
pub mod Loop
pub mod Window
use isky.Prelude.{
  ℕ, zero, suc, ◌+◌, ◌-◌, ◌*◌, ◌/◌, ◌%◌, List, [], ◌∷◌, ◌++◌, Bool, true, false, not, Option, none,
  some, ℤ, pos, negsuc, ◌+ℤ◌, ◌-ℤ◌, ltb_ℤ, ltb, leb, length, drop, Text, if◌then◌else◌,
}
use isky.Safetensors.{K3Tensor}

-- The system's `pread`: a shard, whether by its O_DIRECT descriptor, an offset and a count. Its
-- bytes, or [] for a result of 0 or less.
pub record Disk (W : Type 0) : Type 0 where
  pub pread : ℕ → Bool → ℤ → ℕ → W → Text × W

-- `nshard`, and for each shard whether `dfd[shard]` is open
pub record Shards : Type 0 where
  pub nshard : ℕ
  pub direct : ℕ → Bool

-- a count of a loop's bound that may be negative
abbrev pub natural : ℤ → ℕ
natural (pos n) = n
natural (negsuc n) = 0

abbrev pub st_align : ℕ
st_align = 4096

-- `x & ~(int64_t)(K3_ST_ALIGN - 1)`
unfoldable pub align_down : ℤ → ℤ
align_down (pos a) = pos (a - a % st_align)
align_down (negsuc a) = negsuc (a / st_align * st_align + (st_align - 1))

-- What an aligned read leaves and returns: the bytes at the front of the buffer, the count, and
-- `*payload_off` if it is written.
pub record AlignedRead : Type 0 where
  pub buf : Text
  pub count : ℤ
  pub payload_off : Option ℤ

-- `got >= pad + nbytes ? nbytes : (got > pad ? got - pad : 0)`
abbrev pub payload_count : ℤ → ℤ → ℤ → ℤ
payload_count got pad nbytes =
    if not (ltb_ℤ got (pad +ℤ nbytes)) then nbytes else if ltb_ℤ pad got then got -ℤ pad else pos 0

module _ {W : Type 0} (disk : Disk W) where
  -- `while (got < need) { r = pread(...); if (r <= 0) break; got += r; }`, where `buf` has the bytes
  -- got so far
  unfoldable pub read_loop : ℕ → ℕ → Bool → ℤ → ℕ → Text → W → Text × W
  read_loop zero shard direct off need buf w = (buf, w)
  read_loop (suc fuel) shard direct off need buf w = elim (ltb (length buf) need) [
    | false ↦ (buf, w)
    | true ↦
        let (chunk, w') = disk.pread shard direct (off +ℤ pos (length buf)) (need - length buf) w in
        elim chunk [
          | [] ↦ (buf, w')
          | c ∷ r ↦ read_loop fuel shard direct off need (buf ++ c ∷ r) w'
        ]
  ]

  -- Every round but the last reads a byte, so `need` rounds are enough.
  unfoldable pub read_bytes : ℕ → Bool → ℤ → ℕ → W → Text × W
  unfolding read_loop
  read_bytes shard direct off need w = read_loop need shard direct off need [] w

  -- `k3_st_read`: the bytes it leaves in the buffer, as many as it returns
  unfoldable pub k3_st_read : K3Tensor → W → Text × W
  unfolding read_bytes
  k3_st_read t w = read_bytes t.shard false t.off (natural t.nbytes) w

  -- no O_DIRECT
  unfoldable pub read_buffered : ℕ → ℤ → ℤ → ℤ → W → AlignedRead × W
  unfolding read_bytes
  read_buffered shard off nbytes bufcap w =
      if ltb_ℤ bufcap nbytes
      then (record { buf = []; count = pos 0; payload_off = some (pos 0) }, w)
      else (let (buf, w') = read_bytes shard false off (natural nbytes) w in
          (record { buf = buf; count = pos (length buf); payload_off = some (pos 0) }, w'))

  unfoldable pub read_window : ℕ → ℤ → ℤ → ℤ → W → AlignedRead × W
  unfolding align_down read_bytes
  read_window shard off nbytes bufcap w =
      let lo = align_down off in
      let len = align_down (off +ℤ nbytes +ℤ pos st_align -ℤ pos 1) -ℤ lo in
      let pad = off -ℤ lo in
      if ltb_ℤ bufcap len
      then (record { buf = []; count = pos 0; payload_off = none }, w)
      else (let (buf, w') = read_bytes shard true lo (natural len) w in
          (
            record {
              buf = buf;
              count = payload_count (pos (length buf)) pad nbytes;
              payload_off = some pad;
            },
            w',
          ))

  unfoldable pub k3_st_read_aligned : Shards → ℤ → ℤ → ℤ → ℤ → W → AlignedRead × W
  unfolding read_buffered read_window
  k3_st_read_aligned s (negsuc n) off nbytes bufcap w =
      (record { buf = []; count = pos 0; payload_off = none }, w)
  k3_st_read_aligned s (pos shard) off nbytes bufcap w =
      if leb s.nshard shard
      then (record { buf = []; count = pos 0; payload_off = none }, w)
      else if not (s.direct shard)
      then read_buffered shard off nbytes bufcap w
      else read_window shard off nbytes bufcap w
