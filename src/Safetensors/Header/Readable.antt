-- ===== src/Safetensors/Header/Readable.antt =====
-- src/io/k3_st.c: the types and the ranks that the fields of an entry may have.
use isky.Prelude.{
  ℕ, zero, suc, ◌≤◌, ◌≡◌, refl, ◌⊎◌, inl, inr, List, [], ◌∷◌, ◌++◌, Bool, false, Option, none, some,
  Option-cases, Bool-cases, ℤ, ltb, length, length-append, Text, text, str_eq, arith,
}
use isky.Safetensors.{
  K3Dtype, dt_unknown, dt_u8, dt_bf16, dt_f16, dt_f32, dt_i8r, dtype_of, c_string,
}
use isky.Safetensors.Scanner.{
  Scanned, scanned, malformed, out_of_fuel, then_scan, lit, expect, str_, i64_, skip_value,
}
use isky.Safetensors.Header.{
  Fields, shape_loop, shape_items, dtype_field, shape_field, offsets_field, field_value, separator,
  one_field, fields_loop,
}

-- If the scan succeeds, its value is in `P`.
abbrev pub Gives {ℓ} : {A : Type ℓ} → (A → Type 0) → Scanned A → Type 0
Gives P (scanned a rest) = P a
Gives P malformed = Unit
Gives P out_of_fuel = Unit

pub Gives-then_scan {ℓ κ} :
    {A : Type ℓ} {B : Type κ} (P : A → Type 0) (Q : B → Type 0) (r : Scanned A)
    (f : A → Text → Scanned B)
    → Gives P r
    → ((a : A) (rest : Text) → P a → Gives Q (f a rest))
    → Gives Q (then_scan r f)
Gives-then_scan P Q (scanned a rest) f h next = next a rest h
Gives-then_scan P Q malformed f h next = tt
Gives-then_scan P Q out_of_fuel f h next = tt

pub Any {ℓ} : {A : Type ℓ} → A → Type 0
Any a = Unit

pub Gives-Any {ℓ} : {A : Type ℓ} (r : Scanned A) → Gives Any r
unfolding Any
Gives-Any (scanned a rest) = tt
Gives-Any malformed = tt
Gives-Any out_of_fuel = tt

pub after {ℓ κ} :
    {A : Type ℓ} {B : Type κ} (Q : B → Type 0) (r : Scanned A) (f : A → Text → Scanned B)
    → ((a : A) (rest : Text) → Gives Q (f a rest))
    → Gives Q (then_scan r f)
after Q r f next = Gives-then_scan Any Q r f (Gives-Any r) λ a rest h. next a rest

pub Scanned-cases {ℓ} :
    {A : Type ℓ} (P : A → Type 0) (r : Scanned A)
    → Gives P r
    → (r ≡ malformed) ⊎ (r ≡ out_of_fuel) ⊎ ((a : A) × (rest : Text) × (r ≡ scanned a rest) × P a)
Scanned-cases P (scanned a rest) h = inr (inr (a, rest, refl, h))
Scanned-cases P malformed h = inl refl
Scanned-cases P out_of_fuel h = inr (inl refl)

-- A supported type and at most four dimensions.
abbrev pub IsSupported : K3Dtype → Type 0
IsSupported dt_unknown = ⊥
IsSupported dt_i8r = ⊥
IsSupported d = Unit

abbrev IsTyped : Option K3Dtype → Type 0
IsTyped none = Unit
IsTyped (some d) = IsSupported d

abbrev pub IsRank : List ℤ → Type 0
IsRank shape = length shape ≤ 4

abbrev pub IsReadable : Fields → Type 0
IsReadable f = IsTyped f.dtype × IsRank f.shape

shape_loop-IsRank :
    (fuel : ℕ) (shape : List ℤ) (s : Text) → IsRank shape → Gives IsRank (shape_loop fuel shape s)
unfolding shape_loop
shape_loop-IsRank zero shape s h = tt
shape_loop-IsRank (suc fuel) shape s h = elim (Scanned-cases Any (i64_ s) (Gives-Any (i64_ s))) [
  | inl bad ↦ rw (shape_loop, bad) tt
  | inr (inl stuck) ↦ rw (shape_loop, stuck) tt
  | inr (inr (d, r, e, u)) ↦ elim (Bool-cases (ltb (length shape) 4)) [
    | inr rank ↦ rw (shape_loop, e, rank) tt
    | inl rank ↦
        let longer : IsRank (shape ++ d ∷ []) = ground (arith, length-append shape (d ∷ [])) in
        elim (Option-cases (lit b',' r)) [
          | inr (next, c) ↦
              rw (shape_loop, e, rank, c) (shape_loop-IsRank fuel (shape ++ d ∷ []) next longer)
          | inl no_comma ↦ elim (Option-cases (lit b']' r)) [
            | inr (rest, c) ↦ rw (shape_loop, e, rank, no_comma, c) longer
            | inl no_end ↦ rw (shape_loop, e, rank, no_comma, no_end) tt
          ]
        ]
  ]
]

shape_items-IsRank :
    (fuel : ℕ) (shape : List ℤ) (s : Text) → IsRank shape → Gives IsRank (shape_items fuel shape s)
unfolding shape_items
shape_items-IsRank fuel shape s h = elim (Option-cases (lit b']' s)) [
  | inr (rest, c) ↦ rw (shape_items, c) h
  | inl other ↦ rw (shape_items, other) (shape_loop-IsRank fuel shape s h)
]

dtype_of-IsSupported : (s : Text) → (dtype_of s ≡ dt_unknown) ⊎ IsSupported (dtype_of s)
unfolding dtype_of
dtype_of-IsSupported s = ground arith

dtype_field-IsReadable : (f : Fields) (s : Text) → IsReadable f → Gives IsReadable (dtype_field f s)
unfolding dtype_field
dtype_field-IsReadable f s h =
    after IsReadable (str_ 32 s) _ λ dv r. known (dtype_of dv) r (dtype_of-IsSupported dv)
  where
    known :
        (d : K3Dtype) (r : Text)
        → (d ≡ dt_unknown) ⊎ IsSupported d
        → Gives IsReadable
            (elim d [ dt_unknown ↦ malformed | d ↦ scanned (record f { dtype = some d }) r ])
    known dt_unknown r e = tt
    known dt_u8 r e = (tt, h.1)
    known dt_bf16 r e = (tt, h.1)
    known dt_f16 r e = (tt, h.1)
    known dt_f32 r e = (tt, h.1)
    known dt_i8r r (inl e) = absurd (ground arith)
    known dt_i8r r (inr e) = absurd e

shape_field-IsReadable :
    (fuel : ℕ) (f : Fields) (s : Text) → IsReadable f → Gives IsReadable (shape_field fuel f s)
unfolding shape_field
shape_field-IsReadable fuel f s h = after IsReadable (expect b'[' s) _ λ u r.
    Gives-then_scan IsRank IsReadable (shape_items fuel f.shape r) _
      (shape_items-IsRank fuel f.shape r h.1) λ shape rest rank. (h.0, rank)

offsets_field-IsReadable :
    (f : Fields) (s : Text) → IsReadable f → Gives IsReadable (offsets_field f s)
unfolding offsets_field
offsets_field-IsReadable f s h = after IsReadable (expect b'[' s) _ λ u r.
    after IsReadable (i64_ r) _ λ o0 r.
      after IsReadable (expect b',' r) _
        λ u r. after IsReadable (i64_ r) _ λ o1 r. after IsReadable (expect b']' r) _ λ u r. h

field_value-IsReadable :
    (fuel : ℕ) (key : Text) (f : Fields) (s : Text)
    → IsReadable f
    → Gives IsReadable (field_value fuel key f s)
unfolding field_value
field_value-IsReadable fuel key f s h = elim (Bool-cases (str_eq (c_string key) (text "dtype"))) [
  | inl d ↦ rw (field_value, d) (dtype_field-IsReadable f s h)
  | inr d ↦ elim (Bool-cases (str_eq (c_string key) (text "shape"))) [
    | inl e ↦ rw (field_value, d, e) (shape_field-IsReadable fuel f s h)
    | inr e ↦ elim (Bool-cases (str_eq (c_string key) (text "data_offsets"))) [
      | inl o ↦ rw (field_value, d, e, o) (offsets_field-IsReadable f s h)
      | inr o ↦ rw (field_value, d, e, o) (after IsReadable (skip_value s) _ λ u r. h)
    ]
  ]
]

one_field-IsReadable :
    (fuel : ℕ) (first : Bool) (f : Fields) (s : Text)
    → IsReadable f
    → Gives IsReadable (one_field fuel first f s)
unfolding one_field
one_field-IsReadable fuel first f s h = after IsReadable (separator first s) _ λ u r.
    after IsReadable (str_ 64 r) _
      λ key r. after IsReadable (expect b':' r) _ λ u r. field_value-IsReadable fuel key f r h

pub fields_loop-IsReadable :
    (fuel : ℕ) (first : Bool) (f : Fields) (s : Text)
    → IsReadable f
    → Gives IsReadable (fields_loop fuel first f s)
unfolding fields_loop
fields_loop-IsReadable zero first f s h = tt
fields_loop-IsReadable (suc fuel) first f s h = elim (Option-cases (lit b'}' s)) [
  | inr (rest, c) ↦ rw (fields_loop, c) h
  | inl no_end ↦
      elim (Scanned-cases IsReadable (one_field fuel first f s)
        (one_field-IsReadable fuel first f s h)) [
          | inl bad ↦ rw (fields_loop, no_end, bad) tt
          | inr (inl stuck) ↦ rw (fields_loop, no_end, stuck) tt
          | inr (inr (g, rest, e, k)) ↦
              rw (fields_loop, no_end, e) (fields_loop-IsReadable fuel false g rest k)
        ]
]
