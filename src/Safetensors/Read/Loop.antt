-- ===== src/Safetensors/Read/Loop.antt =====
-- src/io/k3_st.c: the loop around `pread`, on a disk that reads what the files hold.
use isky.Prelude.{
  ℕ, zero, suc, ◌+◌, ◌-◌, ◌%◌, true, false, ◌≤◌, ◌<◌, ◌≡◌, refl, ap, ◌∙◌, sym, ◌⊎◌, inl, inr, List,
  [], ◌∷◌, ◌++◌, Bool, Bool-cases, pos, ltb, length, length-append, take_whole, length-take,
  length-drop, take, drop, Text, arith,
}
use isky.Safetensors.Read.{Disk, st_align, read_loop, read_bytes}

-- What O_DIRECT demands of a file offset and of a count; the buffer is page aligned.
abbrev pub IsAligned : Bool → ℕ → ℕ → Type 0
IsAligned direct off count = direct ≡ true → (off % st_align ≡ 0) × (count % st_align ≡ 0)

-- What pread(2) and open(2) document of a read of a count above 0 at an offset that is not negative:
-- what comes are the file's bytes; a read that is aligned as its descriptor demands gives some where
-- the file goes on; and on an O_DIRECT descriptor it gives whole blocks, or all to the end.
pub record IsFaithful {W : Type 0} (disk : Disk W) (file : ℕ → Text) : Type 0 where
  pub bytes :
      (shard : ℕ) (direct : Bool) (off count : ℕ) (w : W)
      → (n : ℕ) × (n ≤ count)
        × ((disk.pread shard direct (pos off) count w).0 ≡ take n (drop off (file shard)))
  pub progress :
      (shard : ℕ) (direct : Bool) (off count : ℕ) (w : W)
      → IsAligned direct off count
      → 0 < count
      → off < length (file shard)
      → 0 < length (disk.pread shard direct (pos off) count w).0
  pub blocks :
      (shard off count : ℕ) (w : W)
      → IsAligned true off count
      → (length (disk.pread shard true (pos off) count w).0 % st_align ≡ 0)
        ⊎ (length (file shard) ≤ off + length (disk.pread shard true (pos off) count w).0)

-- A read that has `got` bytes can go on: the rest is aligned, or the end of the file is reached.
abbrev GoesOn : Bool → ℕ → ℕ → ℕ → ℕ → Type 0
GoesOn direct off need got flen =
    direct ≡ true
    → ((off + got) % st_align ≡ 0) × ((need - got) % st_align ≡ 0) ⊎ (flen ≤ off + got)

module _ {ℓ} {A : Type ℓ} where
  pub drop_add : (m n : ℕ) (xs : List A) → drop n (drop m xs) ≡ drop (m + n) xs
  drop_add zero n xs = ap (λ k. drop k xs) {x = n} {y = zero + n} (omega arith)
  drop_add (suc m) n [] = drop_empty n ∙ sym (drop_empty (suc m + n))
    where
      drop_empty : (n : ℕ) → drop {A = A} n [] ≡ []
      drop_empty zero = refl
      drop_empty (suc n) = refl
  drop_add (suc m) n (x ∷ xs) =
      drop_add m n xs ∙ ap (λ k. drop k (x ∷ xs)) {x = suc (m + n)} {y = suc m + n} (omega arith)

  pub take_add : (m n : ℕ) (xs : List A) → take (m + n) xs ≡ take m xs ++ take n (drop m xs)
  take_add zero n xs = ap (λ k. take k xs) {x = zero + n} {y = n} (omega arith)
  take_add (suc m) n [] =
      ap (λ k. take k []) {x = suc m + n} {y = suc (m + n)} (omega arith) ∙ nothing n
    where
      nothing : (n : ℕ) → [] ≡ take {A = A} n []
      nothing zero = refl
      nothing (suc n) = refl
  take_add (suc m) n (x ∷ xs) =
      ap (λ k. take k (x ∷ xs)) {x = suc m + n} {y = suc (m + n)} (omega arith)
      ∙ ap (◌∷◌ x) (take_add m n xs)

  take_own : (b xs : List A) (m : ℕ) → b ≡ take m xs → b ≡ take (length b) xs
  take_own b xs m e = elim (Bool-cases (ltb m (length xs))) [
    | inl inside ↦
        let size : length b ≡ m = ap length e ∙ (length-take m xs ∙ ground arith) in
        e ∙ ap (λ k. take k xs) (sym size)
    | inr past ↦
        let whole : take m xs ≡ xs = take_whole xs m (ground arith) in
        let all : b ≡ xs = e ∙ whole in
        all ∙ sym (take_whole xs (length b) (omega (arith, ap length all)))
  ]

  List-cases : (xs : List A) → (xs ≡ []) ⊎ ((x : A) × (rest : List A) × (xs ≡ x ∷ rest))
  List-cases [] = inl refl
  List-cases (x ∷ rest) = inr (x, rest, refl)

  ne_nil : (xs : List A) → xs ≡ [] → 0 < length xs → ⊥
  ne_nil xs e lt = absurd (omega (arith, ap length e))

  length-take_le : (n : ℕ) (b xs : List A) → b ≡ take n xs → length b ≤ n
  length-take_le n b xs e = omega (arith, ap length e, length-take n xs)

  -- Nothing is left behind a prefix that is as long as the list.
  at_end :
      (xs b : List A) (need : ℕ)
      → b ≡ take (length b) xs
      → length b ≤ need
      → length xs ≤ length b
      → b ≡ take need xs
  at_end xs b need prefix le short =
      prefix ∙ (take_whole xs (length b) short ∙ sym (take_whole xs need (omega arith)))

  ended : (off got : ℕ) (xs : List A) → (off + got < length xs → ⊥) → length (drop off xs) ≤ got
  ended off got xs past = elim (Bool-cases (ltb (off + got) (length xs))) [
    | inl inside ↦ absurd (past (ground arith))
    | inr outside ↦ ground (arith, length-drop off xs)
  ]

  -- A prefix and a piece read behind it are a prefix.
  joins :
      (off : ℕ) (xs b piece : List A) (n : ℕ)
      → b ≡ take (length b) (drop off xs)
      → piece ≡ take n (drop (off + length b) xs)
      → b ++ piece ≡ take (length (b ++ piece)) (drop off xs)
  joins off xs b piece n prefix next =
      let behind : piece ≡ take n (drop (length b) (drop off xs)) =
        next ∙ ap (take n) (sym (drop_add off (length b) xs)) in
      take_own (b ++ piece) (drop off xs) (length b + n) (
        ap (λ y. b ++ y) behind
        ∙ (ap (λ y. y ++ take n (drop (length b) (drop off xs))) prefix
            ∙ sym (take_add (length b) n (drop off xs))))

module _ {W : Type 0} (disk : Disk W) (file : ℕ → Text) (faithful : IsFaithful disk file) where
  some_more :
      (shard : ℕ) (direct : Bool) (off got need : ℕ) (w : W)
      → got < need
      → GoesOn direct off need got (length (file shard))
      → off + got < length (file shard)
      → 0 < length (disk.pread shard direct (pos (off + got)) (need - got) w).0
  some_more shard false off got need w short on inside =
      faithful.progress shard false (off + got) (need - got) w (λ h. cc) (omega arith) inside
  some_more shard true off got need w short on inside = elim (on refl) [
    | inl even ↦
        faithful.progress shard true (off + got) (need - got) w (λ h. even) (omega arith) inside
    | inr past ↦ absurd (omega arith)
  ]

  keeps_on :
      (shard : ℕ) (direct : Bool) (off need : ℕ) (buf piece : Text) (w : W)
      → length buf < need
      → length piece ≤ need - length buf
      → GoesOn direct off need (length buf) (length (file shard))
      → (disk.pread shard direct (pos (off + length buf)) (need - length buf) w).0 ≡ piece
      → GoesOn direct off need (length (buf ++ piece)) (length (file shard))
  keeps_on shard false off need buf piece w short sized on e h = cc
  keeps_on shard true off need buf piece w short sized on e h =
      let size = length-append buf piece in
      let same = ap length e in
      elim (on refl) [
        | inr past ↦ inr (omega (arith, size))
        | inl even ↦
            elim (faithful.blocks shard (off + length buf) (need - length buf) w (λ d. even)) [
              | inl whole ↦ inl (
                omega (arith, size, same, whole, even.0),
                omega (arith, size, same, whole, even.1),
              )
              | inr ended ↦ inr (omega (arith, size, same, ended))
            ]
      ]

  read_loop_lem :
      (fuel shard : ℕ) (direct : Bool) (off need : ℕ) (buf : Text) (w : W)
      → buf ≡ take (length buf) (drop off (file shard))
      → length buf ≤ need
      → need ≤ length buf + fuel
      → GoesOn direct off need (length buf) (length (file shard))
      → (read_loop disk fuel shard direct (pos off) need buf w).0
        ≡ take need (drop off (file shard))
  unfolding read_loop
  read_loop_lem zero shard direct off need buf w prefix le enough on =
      prefix ∙ ap (λ k. take k (drop off (file shard))) {x = length buf} {y = need} (omega arith)
  read_loop_lem (suc fuel) shard direct off need buf w prefix le enough on =
      elim (Bool-cases (ltb (length buf) need)) [
        | inr full ↦
            rw (read_loop, full)
              (prefix
                ∙ ap (λ k. take k (drop off (file shard))) {x = length buf} {y = need}
                    (ground arith))
        | inl short ↦
            let got = length buf in
            let r = disk.pread shard direct (pos (off + got)) (need - got) w in
            let more = some_more shard direct off got need w (ground arith) on in
            let (n, at_most, bytes) = faithful.bytes shard direct (off + got) (need - got) w in
            elim (List-cases r.0) [
              | inl none_left ↦
                  rw (read_loop, short, none_left)
                    (at_end (drop off (file shard)) buf need prefix (omega arith)
                      (ended off got (file shard) (λ inside. ne_nil r.0 none_left (more inside))))
              | inr (c, rest, e) ↦
                  let joined = joins off (file shard) buf (c ∷ rest) n prefix (sym e ∙ bytes) in
                  let sized =
                    length-take_le n (c ∷ rest) (drop (off + got) (file shard)) (sym e ∙ bytes) in
                  rw (read_loop, short, e)
                    (read_loop_lem fuel shard direct off need (buf ++ c ∷ rest) r.1 joined
                      (omega (arith, length-append buf (c ∷ rest)))
                      (omega (arith, length-append buf (c ∷ rest)))
                      (keeps_on shard direct off need buf (c ∷ rest) w (ground arith) (omega arith)
                        on e))
            ]
      ]

  -- A read gives what the file has of the span.
  pub read_bytes_lem :
      (shard : ℕ) (direct : Bool) (off need : ℕ) (w : W)
      → IsAligned direct off need
      → (read_bytes disk shard direct (pos off) need w).0 ≡ take need (drop off (file shard))
  unfolding read_bytes
  read_bytes_lem shard direct off need w even =
      read_loop_lem need shard direct off need [] w refl (omega arith) (omega arith)
        (λ d. inl (omega (arith, (even d).0), omega (arith, (even d).1)))
