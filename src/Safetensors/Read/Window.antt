-- ===== src/Safetensors/Read/Window.antt =====
-- src/io/k3_st.c: the payload of `k3_st_read_aligned` inside the window it reads.
use isky.Prelude.{
  ℕ, zero, suc, ◌+◌, ◌-◌, ◌*◌, ◌%◌, ◌≤◌, ◌<◌, ◌≡◌, refl, ap, ◌∙◌, inl, inr, List, [], ◌∷◌, true,
  false, some, Bool-cases, pos, ◌+ℤ◌, ◌-ℤ◌, ltb_ℤ, sub_ℕ, leb, length, length-take, length-drop,
  take, drop, min, Text, arith,
}
use isky.Safetensors.Read.{
  Disk, Shards, AlignedRead, st_align, align_down, read_buffered, payload_count, read_window,
  k3_st_read_aligned,
}
use isky.Safetensors.Read.Loop.{IsFaithful, drop_add, read_bytes_lem}

module _ {ℓ} {A : Type ℓ} where
  drop-take : (k n : ℕ) (xs : List A) → drop k (take n xs) ≡ take (n - k) (drop k xs)
  drop-take zero n xs = ap (λ m. take m xs) {x = n} {y = n - zero} (omega arith)
  drop-take (suc k) zero xs =
      ap (λ m. take m (drop (suc k) xs)) {x = 0} {y = zero - suc k} (omega arith)
  drop-take (suc k) (suc n) [] = nothing (suc n - suc k)
    where
      nothing : (m : ℕ) → [] ≡ take {A = A} m []
      nothing zero = refl
      nothing (suc m) = refl
  drop-take (suc k) (suc n) (x ∷ xs) =
      drop-take k n xs ∙ ap (λ m. take m (drop k xs)) {x = n - k} {y = suc n - suc k} (omega arith)

  take-take : (c m : ℕ) (xs : List A) → take c (take m xs) ≡ take (min c m) xs
  take-take zero m xs = ap (λ k. take k xs) {x = 0} {y = min zero m} (omega arith)
  take-take (suc c) zero xs = ap (λ k. take k xs) {x = 0} {y = min (suc c) zero} (omega arith)
  take-take (suc c) (suc m) [] = nothing (min (suc c) (suc m))
    where
      nothing : (m : ℕ) → [] ≡ take {A = A} m []
      nothing zero = refl
      nothing (suc m) = refl
  take-take (suc c) (suc m) (x ∷ xs) =
      ap (◌∷◌ x) (take-take c m xs)
      ∙ ap (λ k. take k (x ∷ xs)) {x = suc (min c m)} {y = min (suc c) (suc m)} (omega arith)

  -- Two prefixes that agree as far as the list goes.
  take_level :
      (c m : ℕ) (xs : List A) → min c (length xs) ≡ min m (length xs) → take c xs ≡ take m xs
  take_level zero zero xs e = refl
  take_level zero (suc m) [] e = refl
  take_level zero (suc m) (x ∷ xs) e = absurd (omega arith)
  take_level (suc c) zero [] e = refl
  take_level (suc c) zero (x ∷ xs) e = absurd (omega arith)
  take_level (suc c) (suc m) [] e = refl
  take_level (suc c) (suc m) (x ∷ xs) e = ap (◌∷◌ x) (take_level c m xs (omega arith))

sub_ℕ_lem : (a b : ℕ) → b ≤ a → sub_ℕ a b ≡ pos (a - b)
sub_ℕ_lem a b le = ground arith

-- The payload of `nbytes` at `off`, as much of it as the file has, stands in the buffer from the
-- offset that is handed back.
pub record Delivers (file : Text) (off nbytes bufcap : ℕ) (r : AlignedRead) : Type 0 where
  pub pad : ℕ
  pub offset : r.payload_off ≡ some (pos pad)
  pub pad_bound : pad < st_align
  pub available : r.count ≡ pos (min nbytes (length file - off))
  pub payload : take (min nbytes (length file - off)) (drop pad r.buf) ≡ take nbytes (drop off file)
  pub in_buffer : length r.buf ≤ bufcap

whole_payload :
    (file : Text) (off nbytes : ℕ)
    → take (min nbytes (length file - off)) (drop off file) ≡ take nbytes (drop off file)
whole_payload file off nbytes =
    take_level _ nbytes (drop off file) (omega (arith, length-drop off file))

window_payload :
    (file : Text) (off nbytes len : ℕ)
    → off % st_align + nbytes ≤ len
    → take
        (min nbytes (length file - off))
        (drop (off % st_align) (take len (drop (off - off % st_align) file)))
      ≡ take nbytes (drop off file)
window_payload file off nbytes len fits =
    let pad = off % st_align in
    let have = min nbytes (length file - off) in
    ap (take have) (drop-take pad len (drop (off - pad) file))
    ∙ (ap (λ x. take have (take (len - pad) x))
          (drop_add (off - pad) pad file
            ∙ ap (λ k. drop k file) {x = off - pad + pad} {y = off} (omega arith))
        ∙ (take-take have (len - pad) (drop off file)
            ∙ take_level _ nbytes (drop off file) (omega (arith, length-drop off file))))

abbrev window_len : ℕ → ℕ → ℕ
window_len off nbytes =
    let x = off + nbytes + (st_align - 1) in x - x % st_align - (off - off % st_align)

window_len_lem :
    (off nbytes : ℕ)
    → align_down (pos off +ℤ pos nbytes +ℤ pos st_align -ℤ pos 1) -ℤ align_down (pos off)
      ≡ pos (window_len off nbytes)
unfolding align_down
window_len_lem off nbytes = ground arith

pad_lem : (off : ℕ) → pos off -ℤ align_down (pos off) ≡ pos (off % st_align)
unfolding align_down
pad_lem off = ground arith

payload_count_lem :
    (flen off pad nbytes len : ℕ)
    → pad ≤ off
    → pad + nbytes ≤ len
    → payload_count (pos (min len (flen - (off - pad)))) (pos pad) (pos nbytes)
      ≡ pos (min nbytes (flen - off))
payload_count_lem flen off pad nbytes len le fits = ground arith

module _ {W : Type 0} (disk : Disk W) (file : ℕ → Text) (faithful : IsFaithful disk file) where
  window_read :
      (shard off nbytes bufcap : ℕ) (w : W)
      → nbytes + 2 * st_align ≤ bufcap
      → Delivers
          (file shard)
          off
          nbytes
          bufcap
          (read_window disk shard (pos off) (pos nbytes) (pos bufcap) w).0
  unfolding read_window align_down
  window_read shard off nbytes bufcap w room =
      let len = window_len off nbytes in
      let pad = off % st_align in
      let lo = off - pad in
      let fits : ltb_ℤ (pos bufcap) (pos len) ≡ false = ground arith in
      let covers : pad + nbytes ≤ len = omega arith in
      let got =
        read_bytes_lem disk file faithful shard true lo len w (λ d. (omega arith, omega arith)) in
      let size =
        length-take len (drop lo (file shard)) ∙ ap (min len) (length-drop lo (file shard)) in
      rw (read_window, window_len_lem off nbytes, pad_lem off, fits, got)
        (record {
          pad = pad;
          offset = refl;
          pad_bound = omega arith;
          available =
              ap (λ g. payload_count (pos g) (pos pad) (pos nbytes)) size
              ∙ payload_count_lem (length (file shard)) off pad nbytes len (omega arith) covers;
          payload = window_payload (file shard) off nbytes len covers;
          in_buffer = omega (arith, length-take len (drop lo (file shard)));
        })

  buffered_read :
      (shard off nbytes bufcap : ℕ) (w : W)
      → nbytes ≤ bufcap
      → Delivers
          (file shard)
          off
          nbytes
          bufcap
          (read_buffered disk shard (pos off) (pos nbytes) (pos bufcap) w).0
  unfolding read_buffered
  buffered_read shard off nbytes bufcap w room =
      let fits : ltb_ℤ (pos bufcap) (pos nbytes) ≡ false = ground arith in
      let got = read_bytes_lem disk file faithful shard false off nbytes w (λ h. cc) in
      let size =
        length-take nbytes (drop off (file shard))
        ∙ ap (min nbytes) (length-drop off (file shard)) in
      rw (read_buffered, fits, got)
        (record {
          pad = 0;
          offset = refl;
          pad_bound = omega arith;
          available = ap pos size;
          payload =
              take-take _ nbytes (drop off (file shard))
              ∙ take_level _ nbytes (drop off (file shard))
                  (omega (arith, length-drop off (file shard)));
          in_buffer = omega (arith, length-take nbytes (drop off (file shard)));
        })

  -- On a disk that reads what the files hold, and on an O_DIRECT descriptor only whole blocks from the
  -- start of a block, with a page-aligned buffer that has room for the payload and two blocks more, `k3_st_read_aligned` of a shard that exists, with or without O_DIRECT, returns the
  -- number of bytes that the file has of the span, leaves them in the buffer at the offset that it
  -- hands back, which is less than a block, and writes no more than the buffer holds.
  pub k3_st_read_aligned-Delivers :
      (s : Shards) (shard off nbytes bufcap : ℕ) (w : W)
      → shard < s.nshard
      → nbytes + 2 * st_align ≤ bufcap
      → Delivers
          (file shard)
          off
          nbytes
          bufcap
          (k3_st_read_aligned disk s (pos shard) (pos off) (pos nbytes) (pos bufcap) w).0
  unfolding k3_st_read_aligned
  k3_st_read_aligned-Delivers s shard off nbytes bufcap w known room =
      let there : leb s.nshard shard ≡ false = ground arith in
      elim (Bool-cases (s.direct shard)) [
        | inl direct ↦
            rw (k3_st_read_aligned, there, direct) (window_read shard off nbytes bufcap w room)
        | inr plain ↦
            rw (k3_st_read_aligned, there, plain)
              (buffered_read shard off nbytes bufcap w (omega arith))
      ]
