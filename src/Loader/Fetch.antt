-- ===== src/Loader/Fetch.antt =====
-- src/io/k3_load.c: the bytes that `k3_expert_load_direct` leaves in a buffer.
use isky.Prelude.{
  ℕ, zero, suc, ◌+◌, ◌-◌, ◌*◌, ◌≤◌, ◌<◌, ◌≡◌, refl, ap, ◌∙◌, sym, List, [], ◌∷◌, true, some, ℤ, pos,
  length, length-take, length-drop, get_or, take, drop, min, Text, arith,
}
use isky.Safetensors.{K3Tensor}
use isky.Safetensors.Open.{K3St}
use isky.Safetensors.Read.{Disk, Shards, AlignedRead, st_align}
use isky.Safetensors.Read.Loop.{IsFaithful}
use isky.Safetensors.Read.Window.{Delivers, k3_st_read_aligned-Delivers}
use isky.Loader.{K3ExpertRef, Buffer, Loaded, write_at, k3_expert_load_direct}
use isky.Loader.Layout.{InRun}

module _ {ℓ} {A : Type ℓ} where
  get_or-drop : (k : ℕ) (xs : List A) (i : ℕ) (d : A) → get_or (drop k xs) i d ≡ get_or xs (k + i) d
  get_or-drop zero xs i d = ap (λ n. get_or xs n d) {x = i} {y = zero + i} (omega arith)
  get_or-drop (suc k) [] i d = refl
  get_or-drop (suc k) (x ∷ xs) i d =
      get_or-drop k xs i d
      ∙ ap (λ n. get_or (x ∷ xs) n d) {x = suc (k + i)} {y = suc k + i} (omega arith)

  get_or-take :
      (n : ℕ) (xs : List A) (i : ℕ) (d : A) → i < n → get_or (take n xs) i d ≡ get_or xs i d
  get_or-take zero xs i d lt = absurd (omega arith)
  get_or-take (suc n) [] i d lt = refl
  get_or-take (suc n) (x ∷ xs) zero d lt = refl
  get_or-take (suc n) (x ∷ xs) (suc i) d lt = get_or-take n xs i d (omega arith)

-- The payload of `run` bytes starts at `pad`; the bytes of a tensor in it, of this size and at this
-- place in the run, are the file's from `at_file` on.
pub record Fetched (l : Loaded) (file : Text) (run start size at_file : ℕ) : Type 0 where
  pub pad : ℕ
  pub is_pad : l.payload_off ≡ some (pos pad)
  pub pad_bound : pad < st_align
  pub count : l.count ≡ pos run
  pub bytes : (j : ℕ) → j < size → l.buffer (pad + start + j) ≡ get_or file (at_file + j) 0

write_at-get_or :
    (buf : Text) (b : Buffer) (k : ℕ) → k < length buf → write_at 0 buf b k ≡ get_or buf k 0
unfolding write_at
write_at-get_or buf b k lt = ground arith

payload_byte :
    (file buf : Text) (b : Buffer) (base pad run k : ℕ)
    → take run (drop pad buf) ≡ take run (drop base file)
    → base + run ≤ length file
    → k < run
    → write_at 0 buf b (pad + k) ≡ get_or file (base + k) 0
payload_byte file buf b base pad run k same held lt =
    let size : min run (length buf - pad) ≡ min run (length file - base) =
      sym (length-take run (drop pad buf) ∙ ap (min run) (length-drop pad buf))
      ∙ (ap length same
          ∙ (length-take run (drop base file) ∙ ap (min run) (length-drop base file))) in
    write_at-get_or buf b (pad + k) (omega arith)
    ∙ (sym (get_or-take run (drop pad buf) k 0 lt ∙ get_or-drop pad buf k 0)
        ∙ (ap (λ xs. get_or xs k 0) same
            ∙ (get_or-take run (drop base file) k 0 lt ∙ get_or-drop base file k 0)))

module _ {W : Type 0} (disk : Disk W) (file : ℕ → Text) (faithful : IsFaithful disk file) where
  delivered :
      (shard base run start size bufcap : ℕ) (a : AlignedRead) (b : Buffer)
      → base + run ≤ length (file shard)
      → start + size ≤ run
      → Delivers (file shard) base run bufcap a
      → Fetched
          (record { buffer = write_at 0 a.buf b; count = a.count; payload_off = a.payload_off })
          (file shard)
          run
          start
          size
          (base + start)
  delivered shard base run start size bufcap a b held inside d =
      let all : min run (length (file shard) - base) ≡ run = omega arith in
      let same = ap (λ n. take n (drop d.pad a.buf)) (sym all) ∙ d.payload in
      record {
        pad = d.pad;
        is_pad = d.offset;
        pad_bound = d.pad_bound;
        count = d.available ∙ ap pos all;
        bytes = λ j lt.
            ap (write_at 0 a.buf b) {x = d.pad + start + j} {y = d.pad + (start + j)} (omega arith)
            ∙ (payload_byte (file shard) a.buf b base d.pad run (start + j) same held (omega arith)
                ∙ ap (λ n. get_or (file shard) n 0) {x = base + (start + j)} {y = base + start + j}
                    (omega arith));
      }

  -- On a disk that reads what the files hold, and on an O_DIRECT descriptor only whole blocks from the
  -- start of a block, loading an expert that is one run of a shard, with
  -- room for the run and two blocks more, returns the size of the run, and each of its tensors can
  -- be read from the buffer at the payload's offset plus its own: its bytes there are those of the
  -- shard at the tensor's offset in the checkpoint.
  pub k3_expert_load_direct-Fetched :
      (s : K3St) (shards : Shards) (r : K3ExpertRef) (t : K3Tensor) (o : ℤ) (i : InRun r t o)
      (base bufcap : ℕ) (b : Buffer) (w : W)
      → r.contiguous ≡ true
      → r.off ≡ pos base
      → r.shard < shards.nshard
      → base + i.run ≤ length (file r.shard)
      → i.run + 2 * st_align ≤ bufcap
      → Fetched
          (k3_expert_load_direct disk s shards r b (pos bufcap) w).0
          (file r.shard)
          i.run
          i.start
          i.size
          (base + i.start)
  unfolding k3_expert_load_direct
  k3_expert_load_direct-Fetched s shards r t o i base bufcap b w one at_base known held room =
      let d =
        k3_st_read_aligned-Delivers disk file faithful shards r.shard base i.run bufcap w known
          room in
      simp (k3_expert_load_direct, one, at_base, i.is_run)
        (delivered r.shard base i.run i.start i.size bufcap _ b held i.inside d)
