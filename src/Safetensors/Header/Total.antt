-- ===== src/Safetensors/Header/Total.antt =====
-- src/io/k3_st.c: the loops over a header, and how far each part of them goes.
use isky.Prelude.{
  ℕ, zero, suc, ◌≤◌, ◌<◌, ◌≡◌, refl, ◌⊎◌, inl, inr, List, [], ◌∷◌, ◌++◌, Bool, true, false, Option,
  none, some, Option-cases, Bool-cases, ℤ, ltb, length, Text, text, str_eq, arith,
}
use isky.Safetensors.{
  K3Dtype, dt_unknown, dt_u8, dt_bf16, dt_f16, dt_f32, dt_i8r, K3Tensor, dtype_of, c_string,
}
use isky.Safetensors.Scanner.{
  Scanned, scanned, malformed, out_of_fuel, lit, expect, str_, i64_, skip_value,
}
use isky.Safetensors.Scanner.Decided.{
  Leaves, Leaves-then_scan, lit-length, expect-Leaves, str_-Leaves, i64_-Leaves, skip_value-Leaves,
}
use isky.Safetensors.Header.{
  Fields, no_fields, shape_loop, shape_items, dtype_field, shape_field, offsets_field, field_value,
  separator, one_field, fields_loop, entry_check, admitted, entry, named_entry, entries_loop,
  scan_header,
}

-- A scan that ends has one of two outcomes.
Leaves-cases {ℓ} :
    {A : Type ℓ} (n : ℕ) (r : Scanned A)
    → Leaves n r
    → (r ≡ malformed) ⊎ ((a : A) × (rest : Text) × (r ≡ scanned a rest) × (length rest ≤ n))
Leaves-cases n (scanned a rest) h = inr (a, rest, refl, h)
Leaves-cases n malformed h = inl refl
Leaves-cases n out_of_fuel h = absurd h

shape_loop-Leaves :
    (fuel n : ℕ) (shape : List ℤ) (s : Text)
    → length s < fuel
    → length s ≤ n
    → Leaves n (shape_loop fuel shape s)
unfolding shape_loop
shape_loop-Leaves zero n shape s lt le = absurd (omega arith)
shape_loop-Leaves (suc fuel) n shape s lt le =
    elim (Leaves-cases (length s) (i64_ s) (i64_-Leaves (length s) s (omega arith))) [
      | inl bad ↦ rw (shape_loop, bad) tt
      | inr (d, r, e, h) ↦ elim (Bool-cases (ltb (length shape) 4)) [
        | inr rank ↦ rw (shape_loop, e, rank) tt
        | inl rank ↦ elim (Option-cases (lit b',' r)) [
          | inr (next, c) ↦
              rw (shape_loop, e, rank, c)
                (shape_loop-Leaves fuel n (shape ++ d ∷ []) next
                  (omega (arith, lit-length b',' r next c))
                  (omega (arith, lit-length b',' r next c)))
          | inl no_comma ↦ elim (Option-cases (lit b']' r)) [
            | inr (rest, c) ↦
                rw (shape_loop, e, rank, no_comma, c) (omega (arith, lit-length b']' r rest c))
            | inl no_end ↦ rw (shape_loop, e, rank, no_comma, no_end) tt
          ]
        ]
      ]
    ]

shape_items-Leaves :
    (fuel n : ℕ) (shape : List ℤ) (s : Text)
    → length s < fuel
    → length s ≤ n
    → Leaves n (shape_items fuel shape s)
unfolding shape_items
shape_items-Leaves fuel n shape s lt le = elim (Option-cases (lit b']' s)) [
  | inr (rest, c) ↦ rw (shape_items, c) (omega (arith, lit-length b']' s rest c))
  | inl other ↦ rw (shape_items, other) (shape_loop-Leaves fuel n shape s lt le)
]

dtype_field-Leaves : (n : ℕ) (f : Fields) (s : Text) → length s ≤ n → Leaves n (dtype_field f s)
unfolding dtype_field
dtype_field-Leaves n f s le =
    Leaves-then_scan n n (str_ 32 s) _ (str_-Leaves 32 n s (omega arith))
      λ dv r h. known (dtype_of dv) r h
  where
    known :
        (d : K3Dtype) (r : Text)
        → length r ≤ n
        → Leaves n (elim d [ dt_unknown ↦ malformed | d ↦ scanned (record f { dtype = some d }) r ])
    known dt_unknown r h = tt
    known dt_u8 r h = h
    known dt_bf16 r h = h
    known dt_f16 r h = h
    known dt_f32 r h = h
    known dt_i8r r h = h

shape_field-Leaves :
    (fuel n : ℕ) (f : Fields) (s : Text)
    → length s < fuel
    → length s ≤ n
    → Leaves n (shape_field fuel f s)
unfolding shape_field
shape_field-Leaves fuel n f s lt le =
    Leaves-then_scan (length s) n (expect b'[' s) _ (expect-Leaves (length s) b'[' s (omega arith))
      λ u r h.
        Leaves-then_scan n n (shape_items fuel f.shape r) _
          (shape_items-Leaves fuel n f.shape r (omega arith) (omega arith))
          λ shape rest short. short

offsets_field-Leaves : (n : ℕ) (f : Fields) (s : Text) → length s ≤ n → Leaves n (offsets_field f s)
unfolding offsets_field
offsets_field-Leaves n f s le =
    Leaves-then_scan n n (expect b'[' s) _ (expect-Leaves n b'[' s (omega arith)) λ u r h.
      Leaves-then_scan n n (i64_ r) _ (i64_-Leaves n r (omega arith)) λ o0 r h.
        Leaves-then_scan n n (expect b',' r) _ (expect-Leaves n b',' r (omega arith)) λ u r h.
          Leaves-then_scan n n (i64_ r) _ (i64_-Leaves n r (omega arith)) λ o1 r h.
            Leaves-then_scan n n (expect b']' r) _ (expect-Leaves n b']' r (omega arith)) λ u r h. h

field_value-Leaves :
    (fuel n : ℕ) (key : Text) (f : Fields) (s : Text)
    → length s < fuel
    → length s ≤ n
    → Leaves n (field_value fuel key f s)
unfolding field_value
field_value-Leaves fuel n key f s lt le = elim (Bool-cases (str_eq (c_string key) (text "dtype"))) [
  | inl d ↦ rw (field_value, d) (dtype_field-Leaves n f s le)
  | inr d ↦ elim (Bool-cases (str_eq (c_string key) (text "shape"))) [
    | inl e ↦ rw (field_value, d, e) (shape_field-Leaves fuel n f s lt le)
    | inr e ↦ elim (Bool-cases (str_eq (c_string key) (text "data_offsets"))) [
      | inl o ↦ rw (field_value, d, e, o) (offsets_field-Leaves n f s le)
      | inr o ↦
          rw (field_value, d, e, o)
            (Leaves-then_scan n n (skip_value s) _ (skip_value-Leaves n s le) λ u r h. h)
    ]
  ]
]

separator-Leaves : (first : Bool) (s : Text) → Leaves (length s) (separator first s)
unfolding separator
separator-Leaves true s = omega arith
separator-Leaves false s = expect-Leaves (length s) b',' s (omega arith)

one_field-Leaves :
    (fuel n : ℕ) (first : Bool) (f : Fields) (s : Text)
    → length s ≤ fuel
    → length s ≤ suc n
    → Leaves n (one_field fuel first f s)
unfolding one_field
one_field-Leaves fuel n true f [] lt le = tt
one_field-Leaves fuel n false f [] lt le = tt
one_field-Leaves fuel n first f (c ∷ s) lt le =
    Leaves-then_scan (suc (length s)) n (separator first (c ∷ s)) _ (separator-Leaves first (c ∷ s))
      λ u r h.
        Leaves-then_scan (length s) n (str_ 64 r) _ (str_-Leaves 64 (length s) r h) λ key r h.
          Leaves-then_scan (length s) n (expect b':' r) _
            (expect-Leaves (length s) b':' r (omega arith))
            λ u r h. field_value-Leaves fuel n key f r (omega arith) (omega arith)

fields_loop-Leaves :
    (fuel n : ℕ) (first : Bool) (f : Fields) (s : Text)
    → length s < fuel
    → length s ≤ n
    → Leaves n (fields_loop fuel first f s)
unfolding fields_loop
fields_loop-Leaves zero n first f s lt le = absurd (omega arith)
fields_loop-Leaves (suc fuel) n true f [] lt le = tt
fields_loop-Leaves (suc fuel) n false f [] lt le = tt
fields_loop-Leaves (suc fuel) n first f (c ∷ s) lt le = elim (Option-cases (lit b'}' (c ∷ s))) [
  | inr (rest, e) ↦ rw (fields_loop, e) (omega (arith, lit-length b'}' (c ∷ s) rest e))
  | inl no_end ↦
      elim (Leaves-cases _ (one_field fuel first f (c ∷ s))
        (one_field-Leaves fuel (length s) first f (c ∷ s) (omega arith) (omega arith))) [
          | inl bad ↦ rw (fields_loop, no_end, bad) tt
          | inr (g, rest, e, h) ↦
              rw (fields_loop, no_end, e)
                (fields_loop-Leaves fuel n false g rest (omega arith) (omega arith))
        ]
]

entry-Leaves :
    (fuel n base fsize shard : ℕ) (name : Text) (ts : List K3Tensor) (s : Text)
    → length s < fuel
    → length s ≤ n
    → Leaves n (entry fuel base fsize shard name ts s)
unfolding entry
entry-Leaves fuel n base fsize shard name ts s lt le =
    elim (Bool-cases (str_eq (c_string name) (text "__metadata__"))) [
      | inl m ↦
          rw (entry, m)
            (Leaves-then_scan n n (skip_value s) _ (skip_value-Leaves n s le) λ u r h. h)
      | inr m ↦
          rw (entry, m)
            (Leaves-then_scan (length s) n (expect b'{' s) _
              (expect-Leaves (length s) b'{' s (omega arith))
              λ u r h.
                Leaves-then_scan n n (fields_loop fuel true no_fields r) _
                  (fields_loop-Leaves fuel n true no_fields r (omega arith) (omega arith))
                  λ f r h. kept (entry_check base fsize shard name f) r h)
    ]
  where
    kept : (t : Option K3Tensor) (r : Text) → length r ≤ n → Leaves n (admitted ts t r)
    kept none r h = tt
    kept (some t) r h = h

named_entry-Leaves :
    (fuel n base fsize shard : ℕ) (ts : List K3Tensor) (s : Text)
    → length s ≤ fuel
    → length s ≤ suc n
    → Leaves n (named_entry fuel base fsize shard ts s)
unfolding named_entry
named_entry-Leaves fuel n base fsize shard ts [] lt le = tt
named_entry-Leaves fuel n base fsize shard ts (c ∷ s) lt le =
    Leaves-then_scan (length s) n (str_ 512 (c ∷ s)) _
      (str_-Leaves 512 (length s) (c ∷ s) (omega arith))
      λ name r h.
        Leaves-then_scan (length s) n (expect b':' r) _
          (expect-Leaves (length s) b':' r (omega arith))
          λ u r h. entry-Leaves fuel n base fsize shard name ts r (omega arith) (omega arith)

entries_loop-Leaves :
    (fuel n base fsize shard : ℕ) (first : Bool) (ts : List K3Tensor) (s : Text)
    → length s < fuel
    → length s ≤ n
    → Leaves n (entries_loop fuel base fsize shard first ts s)
unfolding entries_loop
entries_loop-Leaves zero n base fsize shard first ts s lt le = absurd (omega arith)
entries_loop-Leaves (suc fuel) n base fsize shard true ts [] lt le = tt
entries_loop-Leaves (suc fuel) n base fsize shard false ts [] lt le = tt
entries_loop-Leaves (suc fuel) n base fsize shard first ts (c ∷ s) lt le =
    elim (Option-cases (lit b'}' (c ∷ s))) [
      | inr (rest, e) ↦ rw (entries_loop, e) (omega (arith, lit-length b'}' (c ∷ s) rest e))
      | inl no_end ↦
          elim (Leaves-cases _ (separator first (c ∷ s)) (separator-Leaves first (c ∷ s))) [
            | inl bad ↦ rw (entries_loop, no_end, bad) tt
            | inr (u, r, sep, h) ↦ elim (Option-cases (lit b'}' r)) [
              | inr (rest, e) ↦
                  rw (entries_loop, no_end, sep, e) (omega (arith, lit-length b'}' r rest e))
              | inl more ↦
                  elim (Leaves-cases _ (named_entry fuel base fsize shard ts r) (
                    named_entry-Leaves fuel (length s) base fsize shard ts r (omega arith)
                      (omega arith))) [
                        | inl bad ↦ rw (entries_loop, no_end, sep, more, bad) tt
                        | inr (us, rest, e, k) ↦
                            rw (entries_loop, no_end, sep, more, e)
                              (entries_loop-Leaves fuel n base fsize shard false us rest
                                (omega arith) (omega arith))
                      ]
            ]
          ]
    ]

-- The scan of any header ends, with the tensors and an unread rest or with a refusal, within one
-- round of the outer loop for each byte of the header and one more.
pub scan_header-cases :
    (base fsize shard : ℕ) (ts : List K3Tensor) (json : Text)
    → (scan_header base fsize shard ts json ≡ malformed)
      ⊎ ((us : List K3Tensor) × (rest : Text) × (scan_header base fsize shard ts json
            ≡ scanned us rest)
          × (length rest ≤ length json))
unfolding scan_header
scan_header-cases base fsize shard ts json =
    Leaves-cases (length json) (scan_header base fsize shard ts json) (
      Leaves-then_scan (length json) (length json) (expect b'{' json) _
        (expect-Leaves (length json) b'{' json (omega arith))
        λ u r h.
          entries_loop-Leaves (suc (length json)) (length json) base fsize shard true ts r
            (omega arith) (omega arith))
