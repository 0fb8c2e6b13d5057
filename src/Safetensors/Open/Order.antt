-- ===== src/Safetensors/Open/Order.antt =====
-- src/io/k3_st.c: the order in which `readdir` lists the files.
use isky.Prelude.{
  ◌≡◌, ◌≢◌, refl, ap, ◌∙◌, inl, inr, List, [], ◌∷◌, ◌++◌, true, false, Bool-cases, Text, arith,
}
use isky.Safetensors.Open.{
  DirEntry, is_shard_name, shard_files, text_leb, insert_path, sort_paths, open_files, k3_st_open,
}

text_leb_total : (a b : Text) → text_leb a b ≡ false → text_leb b a ≡ true
unfolding text_leb
text_leb_total [] b h = absurd (ground arith)
text_leb_total (x ∷ a) [] h = refl
text_leb_total (x ∷ a) (y ∷ b) h = ground (arith, text_leb_total a b)

text_leb_antisym : (a b : Text) → text_leb a b ≡ true → text_leb b a ≡ true → a ≡ b
unfolding text_leb
text_leb_antisym [] [] h k = refl
text_leb_antisym [] (y ∷ b) h k = absurd (ground arith)
text_leb_antisym (x ∷ a) [] h k = absurd (ground arith)
text_leb_antisym (x ∷ a) (y ∷ b) h k = ground (arith, text_leb_antisym a b)

text_leb_trans : (a b c : Text) → text_leb a b ≡ true → text_leb b c ≡ true → text_leb a c ≡ true
unfolding text_leb
text_leb_trans [] b c h k = refl
text_leb_trans (x ∷ a) [] c h k = absurd (ground arith)
text_leb_trans (x ∷ a) (y ∷ b) [] h k = absurd (ground arith)
text_leb_trans (x ∷ a) (y ∷ b) (z ∷ c) h k = ground (arith, text_leb_trans a b c)

-- Files with different paths go in in either order.
insert_path_comm :
    (e f : DirEntry) (l : List DirEntry)
    → e.0 ≢ f.0
    → insert_path e (insert_path f l) ≡ insert_path f (insert_path e l)
unfolding insert_path
insert_path_comm e f [] differ = ground (arith, text_leb_total e.0 f.0, text_leb_antisym e.0 f.0)
insert_path_comm e f (g ∷ l) differ = ground (
  arith,
  insert_path_comm e f l differ,
  text_leb_total e.0 f.0,
  text_leb_antisym e.0 f.0,
  text_leb_trans e.0 f.0 g.0,
  text_leb_trans f.0 e.0 g.0,
)

-- One listing in another order, where the files have different names.
pub data Reordered : List DirEntry → List DirEntry → Type 0 where
  same : (l : List DirEntry) → Reordered l l
  keep : (e : DirEntry) (l m : List DirEntry) → Reordered l m → Reordered (e ∷ l) (e ∷ m)
  swap : (e f : DirEntry) (l : List DirEntry) → e.0 ≢ f.0 → Reordered (e ∷ f ∷ l) (f ∷ e ∷ l)
  twice : (l m n : List DirEntry) → Reordered l m → Reordered m n → Reordered l n

path_inj : (dir a b : Text) → dir ++ b'/' ∷ a ≡ dir ++ b'/' ∷ b → a ≡ b
path_inj [] a b e = ground arith
path_inj (c ∷ dir) a b e = path_inj dir a b (ground arith)

sort_paths-shard_files :
    (dir : Text) (l m : List DirEntry)
    → Reordered l m
    → sort_paths (shard_files dir l) ≡ sort_paths (shard_files dir m)
unfolding shard_files sort_paths
sort_paths-shard_files dir l m (same k) = refl
sort_paths-shard_files dir l m (keep e k n r) = elim (Bool-cases (is_shard_name e.0)) [
  | inl shard ↦
      rw (shard_files, shard)
        (ap (insert_path (dir ++ b'/' ∷ e.0, e.1)) (sort_paths-shard_files dir k n r))
  | inr other ↦ rw (shard_files, other) (sort_paths-shard_files dir k n r)
]
sort_paths-shard_files dir l m (swap e f k differ) =
    let swapped =
      insert_path_comm (dir ++ b'/' ∷ e.0, e.1) (dir ++ b'/' ∷ f.0, f.1)
        (sort_paths (shard_files dir k)) (λ eq. differ (path_inj dir e.0 f.0 eq)) in
    elim (Bool-cases (is_shard_name e.0)) [
      | inl shard ↦ elim (Bool-cases (is_shard_name f.0)) [
        | inl both ↦ rw (shard_files, shard, both) swapped
        | inr one ↦ rw (shard_files, shard, one) refl
      ]
      | inr other ↦ elim (Bool-cases (is_shard_name f.0)) [
        | inl one ↦ rw (shard_files, other, one) refl
        | inr none_of ↦ rw (shard_files, other, none_of) refl
      ]
    ]
sort_paths-shard_files dir l m (twice k n o r s) =
    sort_paths-shard_files dir k n r ∙ sort_paths-shard_files dir n o s

-- `k3_st_open` gives the same result, and so the same shard numbers, in whatever order the
-- directory lists files of different names.
pub k3_st_open_order :
    (dir : Text) (l m : List DirEntry) → Reordered l m → k3_st_open dir l ≡ k3_st_open dir m
unfolding k3_st_open
k3_st_open_order dir l m r = ap open_files (sort_paths-shard_files dir l m r)
