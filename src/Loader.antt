-- ===== src/Loader.antt =====
-- src/io/k3_load.c and k3_load.h: where the six tensors of an expert are, and how they are read.
-- The kernels that turn them into floats are outside.
pub mod Layout
pub mod Fetch
use mathlib.Core.Option
use isky.Prelude.{
  ℕ, zero, suc, ◌+◌, ◌*◌, ◌-◌, ◌/◌, ◌%◌, ◌^◌, List, [], ◌∷◌, ◌++◌, Bool, true, false, not, ◌&&◌,
  Option, none, some, ℤ, pos, negsuc, ◌+ℤ◌, ◌-ℤ◌, ◌*ℤ◌, ltb_ℤ, eq_ℤ, ltb, leb, length, get_or, ◌==◌,
  Text, text, fit, if◌then◌else◌,
}
use isky.Safetensors.{K3Dtype, dt_u8, K3Tensor}
use isky.Safetensors.Index.{find}
use isky.Safetensors.Open.{K3St}
use isky.Safetensors.Read.{Disk, Shards, AlignedRead, natural, k3_st_read, k3_st_read_aligned}

pub record K3QMat : Type 0 where
  pub p_off : ℤ
  pub p_bytes : ℤ
  pub s_off : ℤ
  pub s_bytes : ℤ
  pub rows : ℤ
  pub pcols : ℤ
  pub scols : ℤ

pub record K3ExpertRef : Type 0 where
  pub layer : ℕ
  pub expert : ℕ
  pub shard : ℕ
  pub off : ℤ
  pub nbytes : ℤ
  pub contiguous : Bool
  pub w1 : K3QMat
  pub w2 : K3QMat
  pub w3 : K3QMat

-- the conversion of an `int64_t` to `int`, for a value that is not negative
abbrev pub as_int : ℤ → ℤ
as_int (negsuc n) = negsuc n
as_int (pos n) = let m = n % 2 ^ 32 in if ltb m (2 ^ 31) then pos m else negsuc (2 ^ 32 - m - 1)

-- "%d" of a number that is not negative; a number has at most as many digits as its value, or one
unfoldable pub decimal_from : ℕ → ℕ → Text → Text
decimal_from zero n acc = acc
decimal_from (suc fuel) n acc = elim (ltb n 10) [
  | true ↦ (b'0' + n) ∷ acc
  | false ↦ decimal_from fuel (n / 10) ((b'0' + n % 10) ∷ acc)
]

unfoldable pub decimal : ℕ → Text
unfolding decimal_from
decimal n = decimal_from (suc n) n []

-- EXPERT_FMT, into 256 bytes
unfoldable pub expert_name : ℕ → ℕ → Text → Text → Text
unfolding decimal text fit
expert_name layer expert w part = fit 256 (
    text "language_model.model.layers."
    ++ decimal layer
    ++ text ".block_sparse_moe.experts."
    ++ decimal expert
    ++ text "."
    ++ w
    ++ text "."
    ++ part)

-- `k3_st_find`, whose walk ends on an index that was built
unfoldable pub st_find : K3St → Text → Option K3Tensor
unfolding find
st_find s name = elim (find s.index name) [ none ↦ none | some t ↦ t ]

abbrev pub Pair : Type 0
Pair = K3Tensor × K3Tensor

unfoldable pub matrix_pair : K3St → ℕ → ℕ → Text → Option Pair
unfolding st_find expert_name text
matrix_pair s layer expert w =
    elim (st_find s (expert_name layer expert w (text "weight_packed"))) [
      | none ↦ none
      | some pk ↦ elim (st_find s (expert_name layer expert w (text "weight_scale"))) [
        | none ↦ none
        | some sc ↦ some (pk, sc)
      ]
    ]

abbrev pub is_u8 : K3Dtype → Bool
is_u8 dt_u8 = true
is_u8 _ = false

-- the shapes of the two tensors: both of two dimensions, as many rows, a scale for each 32 values
abbrev pub shapes_fit : List ℤ → List ℤ → Bool
shapes_fit (rows ∷ cols ∷ []) (srows ∷ scols ∷ []) =
    eq_ℤ rows srows && eq_ℤ (scols *ℤ pos 32) (cols *ℤ pos 2)
shapes_fit _ _ = false

-- the tests on one matrix, whose refusals differ in their messages; `first` is the shard of w1
abbrev pub matrix_fits : ℕ → Pair → Bool
matrix_fits first (pk, sc) =
    is_u8 pk.dtype
    && is_u8 sc.dtype
    && shapes_fit pk.shape sc.shape
    && pk.shard == sc.shard
    && pk.shard == first

-- `shape[i]`, which is 0 behind the last dimension
abbrev pub dim0 : List ℤ → ℤ
dim0 [] = pos 0
dim0 (d ∷ ds) = d

abbrev pub dim1 : List ℤ → ℤ
dim1 [] = pos 0
dim1 (d ∷ ds) = dim0 ds

-- The lowest offset, the highest end and the sum of the sizes.
pub record Extent : Type 0 where
  pub lo : ℤ
  pub hi : ℤ
  pub own : ℤ

abbrev pub stretch : Extent → K3Tensor → Extent
stretch e t = record {
  lo = if ltb_ℤ t.off e.lo then t.off else e.lo;
  hi = if ltb_ℤ e.hi (t.off +ℤ t.nbytes) then t.off +ℤ t.nbytes else e.hi;
  own = e.own +ℤ t.nbytes;
}

unfoldable pub extent : Extent → List K3Tensor → Extent
extent e [] = e
extent e (t ∷ ts) = extent (stretch e t) ts

-- one matrix with its offsets in the run
abbrev pub qmat : Pair → ℤ → ℤ → K3QMat
qmat (pk, sc) p_off s_off = record {
  p_off = p_off;
  p_bytes = pk.nbytes;
  s_off = s_off;
  s_bytes = sc.nbytes;
  rows = as_int (dim0 pk.shape);
  pcols = as_int (dim1 pk.shape);
  scols = as_int (dim1 sc.shape);
}

abbrev pub six : Pair → Pair → Pair → List K3Tensor
six a b c = a.0 ∷ a.1 ∷ b.0 ∷ b.1 ∷ c.0 ∷ c.1 ∷ []

-- the layout of a run that is one piece of the file
unfoldable pub one_run : ℕ → ℕ → ℤ → ℤ → Pair → Pair → Pair → K3ExpertRef
one_run layer expert lo own a b c = record {
  layer = layer;
  expert = expert;
  shard = a.0.shard;
  off = lo;
  nbytes = own;
  contiguous = true;
  w1 = qmat a (a.0.off -ℤ lo) (a.1.off -ℤ lo);
  w2 = qmat b (b.0.off -ℤ lo) (b.1.off -ℤ lo);
  w3 = qmat c (c.0.off -ℤ lo) (c.1.off -ℤ lo);
}

-- the layout of spans that are packed one behind the other
unfoldable pub packed : ℕ → ℕ → ℤ → Pair → Pair → Pair → K3ExpertRef
packed layer expert lo a b c =
    let o1 = a.0.nbytes in
    let o2 = o1 +ℤ a.1.nbytes in
    let o3 = o2 +ℤ b.0.nbytes in
    let o4 = o3 +ℤ b.1.nbytes in
    let o5 = o4 +ℤ c.0.nbytes in
    record {
      layer = layer;
      expert = expert;
      shard = a.0.shard;
      off = lo;
      nbytes = o5 +ℤ c.1.nbytes;
      contiguous = false;
      w1 = qmat a (pos 0) o1;
      w2 = qmat b o2 o3;
      w3 = qmat c o4 o5;
    }

unfoldable pub start_extent : Pair → Extent
start_extent a = record { lo = a.0.off; hi = pos 0; own = pos 0 }

-- the layout of three matrices that have passed
unfoldable pub place : ℕ → ℕ → Pair → Pair → Pair → K3ExpertRef
unfolding extent start_extent one_run packed
place layer expert a b c =
    let e = extent (start_extent a) (six a b c) in
    if eq_ℤ (e.hi -ℤ e.lo) e.own
    then one_run layer expert e.lo e.own a b c
    else packed layer expert e.lo a b c

unfoldable pub k3_expert_ref : K3St → ℕ → ℕ → Option K3ExpertRef
unfolding matrix_pair place
k3_expert_ref s layer expert = Option.bind (matrix_pair s layer expert (text "w1")) λ a.
    Option.bind (matrix_pair s layer expert (text "w2")) λ b.
      Option.bind (matrix_pair s layer expert (text "w3")) λ c.
        if matrix_fits a.0.shard a && matrix_fits a.0.shard b && matrix_fits a.0.shard c
        then some (place layer expert a b c)
        else none

-- A buffer by its bytes, and bytes written into it from an offset on.
abbrev pub Buffer : Type 0
Buffer = ℕ → ℕ

unfoldable pub write_at : ℕ → Text → Buffer → Buffer
write_at o bytes b j = if leb o j && ltb j (o + length bytes) then get_or bytes (j - o) 0 else b j

-- What a load leaves and returns.
pub record Loaded : Type 0 where
  pub buffer : Buffer
  pub count : ℤ
  pub payload_off : Option ℤ

module _ {W : Type 0} (disk : Disk W) where
  -- the reads of one matrix, at its offsets; the result is the buffer and `got`
  unfoldable pub load_pair : Pair → K3QMat → Buffer × ℕ → W → (Buffer × ℕ) × W
  unfolding k3_st_read write_at
  load_pair (pk, sc) m (b, got) w =
      let (p, w') = k3_st_read disk pk w in
      let (c, w'') = k3_st_read disk sc w' in
      (
        (write_at (natural m.s_off) c (write_at (natural m.p_off) p b), got + length p + length c),
        w'',
      )

  -- the loop over the matrices that are left, which stops at a tensor that is missing
  unfoldable pub load_pairs :
      K3St → ℕ → ℕ → List (Text × K3QMat) → Buffer × ℕ → W → (Buffer × ℕ) × W
  unfolding matrix_pair load_pair
  load_pairs s layer expert [] acc w = (acc, w)
  load_pairs s layer expert ((name, m) ∷ more) acc w = elim (matrix_pair s layer expert name) [
    | none ↦ (acc, w)
    | some pair ↦ let (acc', w') = load_pair pair m acc w in load_pairs s layer expert more acc' w'
  ]

  unfoldable pub k3_expert_load : K3St → K3ExpertRef → Buffer → W → (Buffer × ℕ) × W
  unfolding k3_st_read write_at load_pairs text
  k3_expert_load s r b w =
      if r.contiguous
      then (let (bytes, w') =
            k3_st_read disk
              (record {
                name = text "expert";
                shard = r.shard;
                dtype = dt_u8;
                shape = r.nbytes ∷ [];
                off = r.off;
                nbytes = r.nbytes;
              })
              w in
          ((write_at 0 bytes b, length bytes), w'))
      else load_pairs s r.layer r.expert
          ((text "w1", r.w1) ∷ (text "w2", r.w2) ∷ (text "w3", r.w3) ∷ []) (b, 0) w

  unfoldable pub k3_expert_load_direct : K3St → Shards → K3ExpertRef → Buffer → ℤ → W → Loaded × W
  unfolding k3_expert_load k3_st_read_aligned write_at
  k3_expert_load_direct s shards r b bufcap w =
      if not r.contiguous
      then (let (res, w') = k3_expert_load s r b w in
          (record { buffer = res.0; count = pos res.1; payload_off = some (pos 0) }, w'))
      else (let (a, w') = k3_st_read_aligned disk shards (pos r.shard) r.off r.nbytes bufcap w in
          (
            record { buffer = write_at 0 a.buf b; count = a.count; payload_off = a.payload_off },
            w',
          ))
