-- ===== src/Safetensors/Widen/Chunks.antt =====
-- src/io/k3_st.c: the chunks of `k3_st_read_f32`, against one read of the whole tensor.
use native.Mathlib.Nat.{add-mul, mul-le-mul_right}
use isky.Prelude.{
  ℕ, zero, suc, ◌+◌, ◌-◌, ◌*◌, ◌/◌, ◌≤◌, ◌<◌, ◌≡◌, refl, ap, ◌∙◌, sym, ◌⊎◌, inl, inr, List, [], ◌∷◌,
  ◌++◌, false, Bool-cases, pos, ◌+ℤ◌, ltb, length, length-take, length-drop, take, drop, min, Text,
  arith, ◌==◌,
}
use isky.Safetensors.{
  K3Dtype, dt_unknown, dt_u8, dt_bf16, dt_f16, dt_f32, dt_i8r, K3Tensor, elemsize, numel,
}
use isky.Safetensors.Read.{Disk, read_bytes}
use isky.Safetensors.Read.Loop.{IsFaithful, drop_add, take_add, read_bytes_lem}
use isky.Safetensors.Widen.{
  pairs, u8_to_f32, bf16_to_f32, f16_to_f32, bytes_to_f32, widen, widen_chunk, widen_loop,
  widen_tensor, k3_st_read_f32,
}

pairs-append :
    (f : ℕ → ℕ) (k : ℕ) (a b : Text) → length a ≡ k * 2 → pairs f (a ++ b) ≡ pairs f a ++ pairs f b
unfolding pairs
pairs-append f k [] b e = refl
pairs-append f k (x ∷ []) b e = absurd (omega arith)
pairs-append f zero (x ∷ y ∷ a) b e = absurd (omega arith)
pairs-append f (suc k) (x ∷ y ∷ a) b e =
    ap (◌∷◌ (f (x + 256 * y))) (pairs-append f k a b (omega arith))

bytes_to_f32-append : (a b : Text) → bytes_to_f32 (a ++ b) ≡ bytes_to_f32 a ++ bytes_to_f32 b
unfolding bytes_to_f32
bytes_to_f32-append [] b = refl
bytes_to_f32-append (x ∷ a) b = ap (◌∷◌ (u8_to_f32 x)) (bytes_to_f32-append a b)

-- a type that is widened
abbrev pub IsWidened : K3Dtype → Type 0
IsWidened dt_u8 = Unit
IsWidened dt_bf16 = Unit
IsWidened dt_f16 = Unit
IsWidened _ = ⊥

widen-append :
    (d : K3Dtype) (k : ℕ) (a b : Text)
    → IsWidened d
    → length a ≡ k * elemsize d
    → widen d (a ++ b) ≡ widen d a ++ widen d b
unfolding widen
widen-append dt_u8 k a b w e = bytes_to_f32-append a b
widen-append dt_bf16 k a b w e = pairs-append bf16_to_f32 k a b e
widen-append dt_f16 k a b w e = pairs-append f16_to_f32 k a b e
widen-append dt_unknown k a b w e = absurd w
widen-append dt_f32 k a b w e = absurd w
widen-append dt_i8r k a b w e = absurd w

widen_nil : (d : K3Dtype) → [] ≡ widen d []
unfolding widen pairs bytes_to_f32
widen_nil dt_u8 = refl
widen_nil dt_bf16 = refl
widen_nil dt_f16 = refl
widen_nil dt_unknown = refl
widen_nil dt_f32 = refl
widen_nil dt_i8r = refl

module _ {W : Type 0} (disk : Disk W) (file : ℕ → Text) (faithful : IsFaithful disk file) where
  widen_loop_lem :
      (fuel : ℕ) (t : K3Tensor) (off esz chunk n done : ℕ) (out : List ℕ) (w : W)
      → t.off ≡ pos off
      → IsWidened t.dtype
      → elemsize t.dtype ≡ esz
      → 0 < chunk
      → n * esz ≤ length (drop off (file t.shard))
      → done ≤ n
      → n ≤ done + fuel
      → out ≡ widen t.dtype (take (done * esz) (drop off (file t.shard)))
      → (widen_loop disk fuel t esz chunk n done out w).0
        ≡ (widen t.dtype (take (n * esz) (drop off (file t.shard))), pos n)
  unfolding widen_loop
  widen_loop_lem zero t off esz chunk n done out w at_off wide size some_chunk held le enough
        so_far =
      let whole : done ≡ n = omega arith in
      ap (λ o. (o, pos n))
        (so_far ∙ ap (λ k. widen t.dtype (take (k * esz) (drop off (file t.shard)))) whole)
  widen_loop_lem (suc fuel) t off esz chunk n done out w at_off wide size some_chunk held le enough
        so_far =
      elim (Bool-cases (ltb done n)) [
        | inr whole ↦
            let all : done ≡ n = ground arith in
            rw (widen_loop, whole)
              (ap (λ o. (o, pos n))
                (so_far ∙ ap (λ k. widen t.dtype (take (k * esz) (drop off (file t.shard)))) all))
        | inl more ↦
            let count = min (n - done) chunk in
            let held_bytes = drop off (file t.shard) in
            let inside : (done + count) * esz ≤ n * esz = mul-le-mul_right esz (omega arith) in
            let split : (done + count) * esz ≡ done * esz + count * esz = add-mul done count esz in
            let r = read_bytes disk t.shard false (t.off +ℤ pos (done * esz)) (count * esz) w in
            let piece : r.0 ≡ take (count * esz) (drop (done * esz) held_bytes) =
              ap (λ o. (read_bytes disk t.shard false (o +ℤ pos (done * esz)) (count * esz) w).0)
                at_off
              ∙ (read_bytes_lem disk file faithful t.shard false (off + done * esz) (count * esz) w
                    (λ h. cc)
                  ∙ ap (take (count * esz)) (sym (drop_add off (done * esz) (file t.shard)))) in
            let full : length (take (count * esz) (drop (done * esz) held_bytes)) ≡ count * esz =
              length-take (count * esz) (drop (done * esz) held_bytes)
              ∙ omega (arith, length-drop (done * esz) held_bytes) in
            let complete : ltb (length r.0) (count * esz) ≡ false =
              ground (arith, ap length piece, full) in
            let first : length (take (done * esz) held_bytes) ≡ done * elemsize t.dtype =
              length-take (done * esz) held_bytes ∙ (omega arith ∙ ap (λ k. done * k) (sym size)) in
            let joined : out ++ widen t.dtype r.0
                ≡ widen t.dtype (take ((done + count) * esz) held_bytes) =
              ap (λ x. out ++ widen t.dtype x) piece
              ∙ (ap (λ o. o ++ widen t.dtype (take (count * esz) (drop (done * esz) held_bytes)))
                    so_far
                  ∙ (sym (widen-append t.dtype done (take (done * esz) held_bytes) _ wide first)
                      ∙ ap (widen t.dtype) (
                          sym (take_add (done * esz) (count * esz) held_bytes)
                          ∙ ap (λ k. take k held_bytes) (sym split)))) in
            rw (widen_loop, more, complete)
              (widen_loop_lem fuel t off esz chunk n (done + count) (out ++ widen t.dtype r.0) r.1
                at_off wide size some_chunk held (omega arith) (omega arith) joined)
      ]

  widen_tensor_lem :
      (t : K3Tensor) (off n esz : ℕ) (w : W)
      → t.off ≡ pos off
      → numel t.shape ≡ pos n
      → IsWidened t.dtype
      → elemsize t.dtype ≡ esz
      → (esz ≡ 1) ⊎ (esz ≡ 2)
      → off + n * esz ≤ length (file t.shard)
      → (widen_tensor disk t esz w).0
        ≡ (widen t.dtype (take (n * esz) (drop off (file t.shard))), pos n)
  unfolding widen_tensor
  widen_tensor_lem t off n esz w at_off count wide size small held =
      let some_size : (esz == 0) ≡ false = ground arith in
      let room : n * esz ≤ length (drop off (file t.shard)) =
        omega (arith, length-drop off (file t.shard)) in
      rw (widen_tensor, some_size, count)
        (widen_loop_lem n t off esz (widen_chunk / esz) n 0 [] w at_off wide size
          (some_chunk esz small) room (omega arith) (omega arith)
          (widen_nil t.dtype
            ∙ ap (λ k. widen t.dtype (take k (drop off (file t.shard)))) {x = 0} {y = 0 * esz}
                (omega arith)))
    where
      some_chunk : (esz : ℕ) → (esz ≡ 1) ⊎ (esz ≡ 2) → 0 < widen_chunk / esz
      some_chunk esz (inl one) = rw one (omega arith)
      some_chunk esz (inr two) = rw two (omega arith)

  -- On a disk that reads what the files hold, `k3_st_read_f32` of a U8, BF16 or F16 tensor that lies
  -- in its file returns its number of elements and writes what widening all of its bytes at once
  -- gives: no chunk boundary shows.
  pub k3_st_read_f32-widen :
      (t : K3Tensor) (off n : ℕ) (w : W)
      → t.off ≡ pos off
      → numel t.shape ≡ pos n
      → IsWidened t.dtype
      → off + n * elemsize t.dtype ≤ length (file t.shard)
      → (k3_st_read_f32 disk t w).0
        ≡ (widen t.dtype (take (n * elemsize t.dtype) (drop off (file t.shard))), pos n)
  unfolding k3_st_read_f32
  k3_st_read_f32-widen t off n w at_off count wide held = by_type t.dtype refl wide
    where
      whole :
          (esz : ℕ)
          → elemsize t.dtype ≡ esz
          → (esz ≡ 1) ⊎ (esz ≡ 2)
          → (widen_tensor disk t esz w).0
            ≡ (widen t.dtype (take (n * elemsize t.dtype) (drop off (file t.shard))), pos n)
      whole esz size small =
          widen_tensor_lem t off n esz w at_off count wide size small
            (rw (ap (λ k. n * k) size) at held)
          ∙ ap (λ k. (widen t.dtype (take (n * k) (drop off (file t.shard))), pos n)) (sym size)

      by_type :
          (d : K3Dtype)
          → t.dtype ≡ d
          → IsWidened d
          → (k3_st_read_f32 disk t w).0
            ≡ (widen t.dtype (take (n * elemsize t.dtype) (drop off (file t.shard))), pos n)
      by_type dt_unknown e x = absurd x
      by_type dt_f32 e x = absurd x
      by_type dt_i8r e x = absurd x
      by_type dt_u8 e x =
          let route : k3_st_read_f32 disk t w ≡ widen_tensor disk t 1 w =
            simp (k3_st_read_f32, e) refl in
          ap (λ r. r.0) route ∙ whole 1 (ap elemsize e) (inl refl)
      by_type dt_bf16 e x =
          let route : k3_st_read_f32 disk t w ≡ widen_tensor disk t 2 w =
            simp (k3_st_read_f32, e) refl in
          ap (λ r. r.0) route ∙ whole 2 (ap elemsize e) (inr refl)
      by_type dt_f16 e x =
          let route : k3_st_read_f32 disk t w ≡ widen_tensor disk t 2 w =
            simp (k3_st_read_f32, e) refl in
          ap (λ r. r.0) route ∙ whole 2 (ap elemsize e) (inr refl)
