-- ===== src/Safetensors.antt =====
-- src/io/k3_st.c and k3_st.h: the reader of a checkpoint of .safetensors files. This file has the
-- tensors and their names, the children the rest.
pub mod Index
pub mod Scanner
pub mod Header
pub mod Open
pub mod Read
pub mod Widen
use Prim.Native.Nat.{bit_xor}
use isky.Prelude.{
  ℕ, ◌*◌, ◌%◌, ◌^◌, List, [], ◌∷◌, Bool, true, ◌&&◌, ℤ, pos, ◌*ℤ◌, int64, Text, text, str_eq, ◌==◌,
  if◌then◌else◌,
}

pub data K3Dtype : Type 0 where
  dt_unknown dt_u8 dt_bf16 dt_f16 dt_f32 dt_i8r : K3Dtype

-- `shape` has the first `ndim` entries of the array. Offsets are what the header says, so they may
-- be negative; arithmetic on them wraps at 64 bits.
pub record K3Tensor : Type 0 where
  pub name : Text
  pub shard : ℕ
  pub dtype : K3Dtype
  pub shape : List ℤ
  pub off : ℤ
  pub nbytes : ℤ

abbrev pub elemsize : K3Dtype → ℕ
elemsize dt_u8 = 1
elemsize dt_bf16 = 2
elemsize dt_f16 = 2
elemsize dt_f32 = 4
elemsize _ = 0

unfoldable pub product : ℤ → List ℤ → ℤ
unfolding int64
product n [] = n
product n (d ∷ ds) = product (int64 (n *ℤ d)) ds

unfoldable pub numel : List ℤ → ℤ
unfolding product
numel shape = product (pos 1) shape

unfoldable pub dtype_of : Text → K3Dtype
unfolding text str_eq
dtype_of s =
    if str_eq s (text "U8")
    then dt_u8
    else if str_eq s (text "BF16")
    then dt_bf16
    else if str_eq s (text "F16")
    then dt_f16
    else if str_eq s (text "F32")
    then dt_f32
    else dt_unknown

-- A buffer read as a C string stops at the first 0.
unfoldable pub c_string : Text → Text
c_string [] = []
c_string (c ∷ r) = let rest = c_string r in if c == 0 then [] else c ∷ rest

abbrev pub fnv_offset : ℕ
fnv_offset = 1469598103934665603

abbrev pub fnv_prime : ℕ
fnv_prime = 1099511628211

unfoldable pub fnv_from : ℕ → Text → ℕ
fnv_from h [] = h
fnv_from h (c ∷ r) = fnv_from (bit_xor h c * fnv_prime % 2 ^ 64) r

unfoldable pub fnv1a : Text → ℕ
unfolding fnv_from
fnv1a s = fnv_from fnv_offset s
