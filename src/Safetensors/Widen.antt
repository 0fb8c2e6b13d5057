-- ===== src/Safetensors/Widen.antt =====
-- src/io/k3_st.c and k3_st.h: `k3_st_read_f32`, which widens what it reads. A float is its 32 bits.
pub mod Exact
pub mod Chunks
use Prim.Native.Nat.{bit_and, bit_or}
use isky.Prelude.{
  ℕ, zero, suc, ◌+◌, ◌-◌, ◌*◌, ◌/◌, ◌%◌, ◌^◌, List, [], ◌∷◌, ◌++◌, Bool, true, false, ℤ, pos,
  negsuc, ◌+ℤ◌, ltb, length, take, min, ◌==◌, Text, if◌then◌else◌,
}
use isky.Safetensors.{
  K3Dtype, dt_unknown, dt_u8, dt_bf16, dt_f16, dt_f32, dt_i8r, K3Tensor, elemsize, numel,
}
use isky.Safetensors.Read.{Disk, natural, read_bytes, k3_st_read}

unfoldable pub bf16_to_f32 : ℕ → ℕ
bf16_to_f32 h = h * 2 ^ 16 % 2 ^ 32

-- `while (!(man & 0x400)) { man <<= 1; sh++; }`, which a mantissa that is not 0 leaves within 10 rounds
unfoldable pub renormalise : ℕ → ℕ → ℕ → ℕ × ℕ
renormalise zero man sh = (man, sh)
renormalise (suc fuel) man sh = elim (bit_and man 0x400 == 0) [
  | true ↦ renormalise fuel (man * 2) (sh + 1)
  | false ↦ (man, sh)
]

-- a half whose exponent and mantissa are these; the shifts are of 32 bits
unfoldable pub f16_parts : ℕ → ℕ → ℕ → ℕ
unfolding renormalise
f16_parts sign exp man =
    if exp == 0
    then if man == 0
      then sign
      else (let (m, sh) = renormalise 10 man 0 in
          bit_or (bit_or sign ((127 - 15 - sh + 1) * 2 ^ 23)) (bit_and m 0x3FF * 2 ^ 13))
    else if exp == 31
    then bit_or (bit_or sign 0x7F800000) (man * 2 ^ 13)
    else bit_or (bit_or sign ((exp + 127 - 15) * 2 ^ 23)) (man * 2 ^ 13)

unfoldable pub f16_to_f32 : ℕ → ℕ
unfolding f16_parts
f16_to_f32 h = f16_parts (bit_and h 0x8000 * 2 ^ 16) (bit_and (h / 2 ^ 10) 0x1F) (bit_and h 0x3FF)

-- the conversion of a byte: its highest binary digit gives the exponent
unfoldable pub byte_exponent : ℕ → ℕ → ℕ
byte_exponent zero n = 0
byte_exponent (suc k) n = let rest = byte_exponent k n in if ltb n (2 ^ suc k) then rest else suc k

unfoldable pub u8_to_f32 : ℕ → ℕ
unfolding byte_exponent
u8_to_f32 n =
    if n == 0
    then 0
    else (let e = byte_exponent 7 n in (127 + e) * 2 ^ 23 + (n - 2 ^ e) * 2 ^ (23 - e))

-- the numbers of a chunk, which the host reads little-endian
unfoldable pub pairs : (ℕ → ℕ) → Text → List ℕ
pairs f [] = []
pairs f (a ∷ []) = []
pairs f (a ∷ b ∷ r) = f (a + 256 * b) ∷ pairs f r

unfoldable pub bytes_to_f32 : Text → List ℕ
unfolding u8_to_f32
bytes_to_f32 [] = []
bytes_to_f32 (a ∷ r) = u8_to_f32 a ∷ bytes_to_f32 r

unfoldable pub quads : Text → List ℕ
quads (a ∷ b ∷ c ∷ d ∷ r) = (a + 256 * (b + 256 * (c + 256 * d))) ∷ quads r
quads _ = []

-- one chunk; a type that is none of these leaves `out` as it is
unfoldable pub widen : K3Dtype → Text → List ℕ
unfolding pairs bf16_to_f32 f16_to_f32 bytes_to_f32
widen dt_bf16 raw = pairs bf16_to_f32 raw
widen dt_f16 raw = pairs f16_to_f32 raw
widen dt_u8 raw = bytes_to_f32 raw
widen _ raw = []

abbrev pub widen_chunk : ℕ
widen_chunk = 4 * 2 ^ 20

module _ {W : Type 0} (disk : Disk W) where
  -- the loop from the element `done` on, with `out` written so far; the result is `out` and the
  -- number returned
  unfoldable pub widen_loop : ℕ → K3Tensor → ℕ → ℕ → ℕ → ℕ → List ℕ → W → (List ℕ × ℤ) × W
  unfolding read_bytes widen
  widen_loop zero t esz chunk_elems n done out w = ((out, pos n), w)
  widen_loop (suc fuel) t esz chunk_elems n done out w = elim (ltb done n) [
    | false ↦ ((out, pos n), w)
    | true ↦
        let count = min (n - done) chunk_elems in
        let (raw, w') = read_bytes disk t.shard false (t.off +ℤ pos (done * esz)) (count * esz) w in
        elim (ltb (length raw) (count * esz)) [
          | true ↦ ((out, pos done), w')
          | false ↦ widen_loop fuel t esz chunk_elems n (done + count) (out ++ widen t.dtype raw) w'
        ]
  ]

  -- `n` elements take at most `n` rounds; a number of elements below 0 is returned as it is.
  unfoldable pub widen_tensor : K3Tensor → ℕ → W → (List ℕ × ℤ) × W
  unfolding widen_loop
  widen_tensor t esz w = if esz == 0 then (([], pos 0), w) else elim (numel t.shape) [
    | pos n ↦ widen_loop n t esz (widen_chunk / esz) n 0 [] w
    | negsuc k ↦ (([], negsuc k), w)
  ]

  unfoldable pub k3_st_read_f32 : K3Tensor → W → (List ℕ × ℤ) × W
  unfolding k3_st_read widen_tensor quads numel
  k3_st_read_f32 t w = elim t.dtype [
    | dt_f32 ↦ let (buf, w') = k3_st_read disk t w in ((quads buf, pos (length buf / 4)), w')
    | dt_unknown ↦ widen_tensor t 0 w
    | dt_i8r ↦ widen_tensor t 0 w
    | dt_u8 ↦ widen_tensor t 1 w
    | dt_bf16 ↦ widen_tensor t 2 w
    | dt_f16 ↦ widen_tensor t 2 w
  ]
