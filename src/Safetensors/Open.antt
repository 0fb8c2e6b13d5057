-- ===== src/Safetensors/Open.antt =====
-- src/io/k3_st.c: `k3_st_open`, a directory of shards. The descriptors, the paths and the memory that
-- `k3_st_close` gives back are left out, and so are failures to allocate.
pub mod Stored
pub mod Order
use isky.Prelude.{
  ℕ, zero, suc, ◌+◌, ◌-◌, List, [], ◌∷◌, ◌++◌, Bool, true, false, not, ◌&&◌, ◌||◌, Option, none,
  some, ltb, length, drop, map, ◌==◌, Text, text, str_eq, if◌then◌else◌,
}
use isky.Safetensors.{K3Tensor}
use isky.Safetensors.Index.{Index, Indexed, indexed, duplicate, stuck, build_index, bucket_count}
use isky.Safetensors.Header.{ShardScan, shard_scanned, shard_bad, scan_shard}

-- An entry of the directory: its name, and its bytes, or none for a file that does not open.
abbrev pub DirEntry : Type 0
DirEntry = Text × Option Text

-- `n < 12 || strcmp(e->d_name + n - 12, ".safetensors")`, negated
unfoldable pub is_shard_name : Text → Bool
unfolding text str_eq
is_shard_name name =
    not (ltb (length name) 12) && str_eq (drop (length name - 12) name) (text ".safetensors")

-- the `readdir` loop; a file gets the path "dir/name"
unfoldable pub shard_files : Text → List DirEntry → List DirEntry
unfolding is_shard_name text
shard_files dir [] = []
shard_files dir ((name, file) ∷ more) =
    let rest = shard_files dir more in
    if is_shard_name name then (dir ++ b'/' ∷ name, file) ∷ rest else rest

-- `strcmp(a, b) <= 0` on bytes without a 0
unfoldable pub text_leb : Text → Text → Bool
text_leb [] b = true
text_leb (x ∷ a) [] = false
text_leb (x ∷ a) (y ∷ b) = let rest = text_leb a b in if ltb x y then true else x == y && rest

-- `qsort` by the paths: of files with different paths there is one sorted list
unfoldable pub insert_path : DirEntry → List DirEntry → List DirEntry
unfolding text_leb
insert_path e [] = e ∷ []
insert_path e (f ∷ fs) =
    let rest = insert_path e fs in if text_leb e.0 f.0 then e ∷ f ∷ fs else f ∷ rest

unfoldable pub sort_paths : List DirEntry → List DirEntry
unfolding insert_path
sort_paths [] = []
sort_paths (e ∷ es) = insert_path e (sort_paths es)

-- `scan_shard` of a file that may not open
unfoldable pub scan_file : ℕ → List K3Tensor → Option Text → ShardScan
unfolding scan_shard
scan_file shard ts none = shard_bad
scan_file shard ts (some file) = scan_shard shard ts file

-- the loop over the shards from the `i`-th on
unfoldable pub scan_all : ℕ → List K3Tensor → List DirEntry → ShardScan
unfolding scan_file
scan_all i ts [] = shard_scanned ts
scan_all i ts (e ∷ es) = elim (scan_file i ts e.1) [
  | shard_scanned us ↦ scan_all (i + 1) us es
  | shard_bad ↦ shard_bad
]

-- `index` has the tensors and the buckets of the struct, `shards` the files by shard number.
pub record K3St : Type 0 where
  pub shards : List DirEntry
  pub index : Index

pub data Opened : Type 0 where
  opened : K3St → Opened
  no_shards bad_shard hash_stuck : Opened
  duplicate_name : Text → Opened

unfoldable pub index_shards : List DirEntry → ShardScan → Opened
unfolding build_index bucket_count
index_shards files shard_bad = bad_shard
index_shards files (shard_scanned ts) = elim (build_index ts) [
  | stuck ↦ hash_stuck
  | duplicate name ↦ duplicate_name name
  | indexed b ↦ opened (record {
    shards = files;
    index = record { tensors = ts; bucket = b; nbucket = bucket_count (length ts) };
  })
]

unfoldable pub open_files : List DirEntry → Opened
unfolding scan_all index_shards
open_files [] = no_shards
open_files (e ∷ es) = index_shards (e ∷ es) (scan_all 0 [] (e ∷ es))

-- `k3_st_open` of a directory that opens, which `readdir` lists in this order
unfoldable pub k3_st_open : Text → List DirEntry → Opened
unfolding shard_files sort_paths open_files
k3_st_open dir listing = open_files (sort_paths (shard_files dir listing))
