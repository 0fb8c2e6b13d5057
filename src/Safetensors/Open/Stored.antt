-- ===== src/Safetensors/Open/Stored.antt =====
-- src/io/k3_st.c: the tensors that `k3_st_open` indexes, against the files that they are in.
use isky.Prelude.{
  ℕ, suc, ◌+◌, ◌≡◌, refl, ap, ◌∙◌, sym, ◌⊎◌, inl, inr, List, [], ◌∷◌, Option, none, some, length,
  get_elem?, All, Text, arith, drop, drop_head,
}
use isky.Safetensors.{K3Tensor}
use isky.Safetensors.Index.{bucket_count, find, lookup}
use isky.Safetensors.Index.Built.{IsDistinct}
use isky.Safetensors.Index.Refines.{build_index-cases, find-lookup}
use isky.Safetensors.Header.{ShardScan, shard_scanned, shard_bad}
use isky.Safetensors.Header.Spans.{IsStored, scan_shard-IsListed}
use isky.Safetensors.Open.{
  DirEntry, scan_file, scan_all, K3St, opened, index_shards, open_files, sort_paths, shard_files,
  k3_st_open,
}

-- The tensor's shard is one of the files, and holds the tensor.
abbrev pub IsInShards : List DirEntry → K3Tensor → Type 0
IsInShards files t =
    (path : Text) × (file : Text) × (get_elem? files t.shard ≡ some (path, some file))
    × IsStored (length file) t.shard t

stored-IsInShards :
    (files : List DirEntry) (i : ℕ) (path file : Text)
    → get_elem? files i ≡ some (path, some file)
    → (t : K3Tensor) → IsStored (length file) i t
    → IsInShards files t
stored-IsInShards files i path file here t h =
    let same = sym h.from_shard in (path, file, rw same at here, rw same at h)

module _ (files : List DirEntry) where
  abbrev AllStored : ShardScan → Type 0
  AllStored (shard_scanned ts) = All (IsInShards files) ts
  AllStored shard_bad = Unit

  scan_file-AllStored :
      (i : ℕ) (ts : List K3Tensor) (path : Text) (file : Option Text)
      → get_elem? files i ≡ some (path, file)
      → All (IsInShards files) ts
      → (r : ShardScan) → scan_file i ts file ≡ r
      → AllStored r
  unfolding scan_file
  scan_file-AllStored i ts path file here all shard_bad e = tt
  scan_file-AllStored i ts path none here all (shard_scanned us) e = absurd (ground arith)
  scan_file-AllStored i ts path (some file) here all (shard_scanned us) e =
      scan_shard-IsListed i (IsInShards files) ts all file
        (stored-IsInShards files i path file here) us e

  ShardScan-cases :
      (r : ShardScan) → (r ≡ shard_bad) ⊎ ((us : List K3Tensor) × (r ≡ shard_scanned us))
  ShardScan-cases (shard_scanned us) = inr (us, refl)
  ShardScan-cases shard_bad = inl refl

  scan_all-AllStored :
      (left : List DirEntry) (i : ℕ) (ts : List K3Tensor)
      → drop i files ≡ left
      → All (IsInShards files) ts
      → AllStored (scan_all i ts left)
  unfolding scan_all
  scan_all-AllStored [] i ts rest all = all
  scan_all-AllStored (e ∷ left) i ts rest all =
      let (here, later) = drop_head files i e left rest in
      elim (ShardScan-cases (scan_file i ts e.1)) [
        | inl bad ↦ rw (scan_all, bad) tt
        | inr (us, done) ↦
            rw (scan_all, done)
              (scan_all-AllStored left (i + 1) us
                (ap (λ n. drop n files) {x = i + 1} {y = suc i} (omega arith) ∙ later)
                (scan_file-AllStored i ts e.0 e.1 here all (shard_scanned us) done))
      ]

-- What holds of a checkpoint that is open.
pub record IsChecked (s : K3St) : Type 0 where
  pub stored : All (IsInShards s.shards) s.index.tensors
  pub distinct : IsDistinct s.index.tensors
  pub found : (name : Text) → find s.index name ≡ some (lookup s.index.tensors name)

index_shards-IsChecked :
    (files : List DirEntry) (r : ShardScan) (s : K3St)
    → AllStored files r
    → index_shards files r ≡ opened s
    → IsChecked s
unfolding index_shards
index_shards-IsChecked files shard_bad s all e = absurd (ground arith)
index_shards-IsChecked files (shard_scanned ts) s all e = elim (build_index-cases ts) [
  | inr (name, twice, rep) ↦ absurd (ground arith)
  | inl (b, built, different) ↦
      let whole : K3St = record {
        shards = files;
        index = record { tensors = ts; bucket = b; nbucket = bucket_count (length ts) };
      } in
      let same : whole ≡ s = ground arith in
      rw (← same)
        (record { stored = all; distinct = different; found = λ name. find-lookup ts b name built })
]

open_files-IsChecked :
    (files : List DirEntry) (s : K3St) → open_files files ≡ opened s → IsChecked s
unfolding open_files
open_files-IsChecked [] s e = absurd (ground arith)
open_files-IsChecked (f ∷ files) s e =
    index_shards-IsChecked (f ∷ files) (scan_all 0 [] (f ∷ files)) s
      (scan_all-AllStored (f ∷ files) (f ∷ files) 0 [] refl tt) e

-- When `k3_st_open` succeeds, each tensor of the index is in one of the files, with a type that can
-- be read, at most four dimensions, and, in arithmetic that wraps at 64 bits, a size that is its
-- elements times their size and an end within the file, so that an offset and a size that are not
-- below 0 and have a sum below 2 ^ 63 are a span of the file; no two have one name; and a lookup of any name ends with the tensor that a search of
-- the whole list finds, or with none where that finds none.
pub k3_st_open-IsChecked :
    (dir : Text) (listing : List DirEntry) (s : K3St)
    → k3_st_open dir listing ≡ opened s
    → IsChecked s
unfolding k3_st_open
k3_st_open-IsChecked dir listing s e =
    open_files-IsChecked (sort_paths (shard_files dir listing)) s e
