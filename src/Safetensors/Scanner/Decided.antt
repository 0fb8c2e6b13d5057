-- ===== src/Safetensors/Scanner/Decided.antt =====
-- src/io/k3_st.c: how far the scanner's functions go.
use isky.Prelude.{
  ◌%◌, ◌^◌, ℕ, suc, ◌+◌, ◌-◌, ◌*◌, ◌≤◌, ◌<◌, ◌≡◌, inl, inr, [], ◌∷◌, ◌++◌, Bool, true, false, ◌||◌,
  some, Option-cases, Bool-cases, leb, length, ◌==◌, Text, arith,
}
use isky.Safetensors.Scanner.{
  Scanned, scanned, malformed, out_of_fuel, then_scan, ws, lit_at, lit, expect, Escape, plain,
  escaped, hex, str_body, within, str_, is_digit, digits, number, signed_number, i64_, skip_string,
  Inside, between, in_string, in_escape, skip_nested, skip_atom, skip_at, skip_value,
}

-- The scan ends, and if it succeeds it leaves at most `n` bytes.
abbrev pub Leaves {ℓ} : {A : Type ℓ} → ℕ → Scanned A → Type 0
Leaves n (scanned a rest) = length rest ≤ n
Leaves n malformed = Unit
Leaves n out_of_fuel = ⊥

pub Leaves-then_scan {ℓ κ} :
    {A : Type ℓ} {B : Type κ} (m n : ℕ) (r : Scanned A) (f : A → Text → Scanned B)
    → Leaves m r
    → ((a : A) (rest : Text) → length rest ≤ m → Leaves n (f a rest))
    → Leaves n (then_scan r f)
Leaves-then_scan m n (scanned a rest) f h next = next a rest h
Leaves-then_scan m n malformed f h next = tt
Leaves-then_scan m n out_of_fuel f h next = h

pub Leaves-mono {ℓ} : {A : Type ℓ} (m n : ℕ) (r : Scanned A) → Leaves m r → m ≤ n → Leaves n r
Leaves-mono m n (scanned a rest) h le = omega arith
Leaves-mono m n malformed h le = tt
Leaves-mono m n out_of_fuel h le = h

pub length-ws : (s : Text) → length (ws s) ≤ length s
unfolding ws
length-ws [] = omega arith
length-ws (c ∷ r) = ground (arith, length-ws r)

lit_at-length : (c : ℕ) (s r : Text) → lit_at c s ≡ some r → length r < length s
unfolding lit_at
lit_at-length c [] r h = absurd (ground arith)
lit_at-length c (d ∷ s) r h = ground arith

pub lit-length : (c : ℕ) (s r : Text) → lit c s ≡ some r → length r < length s
unfolding lit
lit-length c s r h = omega (arith, lit_at-length c (ws s) r h, length-ws s)

pub expect-Leaves : (n c : ℕ) (s : Text) → length s ≤ suc n → Leaves n (expect c s)
unfolding expect
expect-Leaves n c s h = elim (Option-cases (lit c s)) [
  | inl e ↦ rw e tt
  | inr (r, e) ↦ rw e (omega (arith, lit-length c s r e))
]

str_body-Leaves : (e : Escape) (out s : Text) (n : ℕ) → length s ≤ n → Leaves n (str_body e out s)
unfolding str_body
str_body-Leaves e out [] n h = tt
str_body-Leaves plain out (c ∷ r) n h = elim (Bool-cases (c == b'"')) [
  | inl q ↦ rw (str_body, q) (omega arith)
  | inr q ↦ elim (Bool-cases (c == b'\\')) [
    | inl b ↦ rw (str_body, q, b) (str_body-Leaves escaped out r n (omega arith))
    | inr b ↦ rw (str_body, q, b) (str_body-Leaves plain (out ++ c ∷ []) r n (omega arith))
  ]
]
str_body-Leaves escaped out (c ∷ r) n h = elim (Bool-cases (c == b'u')) [
  | inl u ↦ rw (str_body, u) (str_body-Leaves (hex 4 0) out r n (omega arith))
  | inr u ↦ rw (str_body, u) (str_body-Leaves plain _ r n (omega arith))
]
str_body-Leaves (hex left v) out (c ∷ r) n h = elim (Bool-cases (leb left 1)) [
  | inl last ↦ rw (str_body, last) (str_body-Leaves plain _ r n (omega arith))
  | inr more ↦ rw (str_body, more) (str_body-Leaves (hex (left - 1) _) out r n (omega arith))
]

within-Leaves : (cap n : ℕ) (out rest : Text) → length rest ≤ n → Leaves n (within cap out rest)
within-Leaves cap n out rest h = ground arith

pub str_-Leaves : (cap n : ℕ) (s : Text) → length s ≤ suc n → Leaves n (str_ cap s)
unfolding str_
str_-Leaves cap n s h = elim (Option-cases (lit b'"' s)) [
  | inl e ↦ rw (str_, e) tt
  | inr (r, e) ↦
      rw (str_, e)
        (Leaves-then_scan n n (str_body plain [] r) (within cap)
          (str_body-Leaves plain [] r n (omega (arith, lit-length b'"' s r e)))
          (λ out rest. within-Leaves cap n out rest))
]

digits-length : (a : ℕ) (s : Text) → length (digits a s).1 ≤ length s
unfolding digits
digits-length a [] = omega arith
digits-length a (c ∷ r) = elim (Bool-cases (is_digit c)) [
  | inl d ↦ rw (digits, d) (omega (arith, digits-length ((a * 10 + (c - b'0')) % 2 ^ 64) r))
  | inr d ↦ rw (digits, d) (omega arith)
]

number-Leaves :
    (negative : Bool) (n : ℕ) (s : Text) → length s ≤ suc n → Leaves n (number negative s)
unfolding number
number-Leaves negative n [] h = tt
number-Leaves negative n (c ∷ r) h = elim (Bool-cases (is_digit c)) [
  | inr d ↦ rw (number, d) tt
  | inl d ↦
      rw (number, d)
        (rw (digits, d) (omega (arith, digits-length ((0 * 10 + (c - b'0')) % 2 ^ 64) r)))
]

signed_number-Leaves : (n : ℕ) (s : Text) → length s ≤ suc n → Leaves n (signed_number s)
unfolding signed_number
signed_number-Leaves n [] h = tt
signed_number-Leaves n (c ∷ r) h = elim (Bool-cases (c == b'-' || c == b'+')) [
  | inl sign ↦ rw (signed_number, sign) (number-Leaves (c == b'-') n r (omega arith))
  | inr sign ↦ rw (signed_number, sign) (number-Leaves false n (c ∷ r) h)
]

pub i64_-Leaves : (n : ℕ) (s : Text) → length s ≤ suc n → Leaves n (i64_ s)
unfolding i64_
i64_-Leaves n s h = signed_number-Leaves n (ws s) (omega (arith, length-ws s))

skip_string-Leaves : (esc : Bool) (n : ℕ) (s : Text) → length s ≤ n → Leaves n (skip_string esc s)
unfolding skip_string
skip_string-Leaves esc n [] h = tt
skip_string-Leaves true n (c ∷ r) h = skip_string-Leaves false n r (omega arith)
skip_string-Leaves false n (c ∷ r) h = elim (Bool-cases (c == b'"')) [
  | inl q ↦ rw (skip_string, q) (omega arith)
  | inr q ↦ rw (skip_string, q) (skip_string-Leaves (c == b'\\') n r (omega arith))
]

skip_nested-Leaves :
    (i : Inside) (depth n : ℕ) (s : Text) → length s ≤ n → Leaves n (skip_nested i depth s)
unfolding skip_nested
skip_nested-Leaves i depth n [] h = tt
skip_nested-Leaves in_escape depth n (c ∷ r) h =
    skip_nested-Leaves in_string depth n r (omega arith)
skip_nested-Leaves in_string depth n (c ∷ r) h =
    let after = skip_nested-Leaves between depth n r (omega arith) in
    let esc = skip_nested-Leaves in_escape depth n r (omega arith) in
    let on = skip_nested-Leaves in_string depth n r (omega arith) in
    elim (Bool-cases (c == b'"')) [
      | inl q ↦ rw (skip_nested, q) after
      | inr q ↦ elim (Bool-cases (c == b'\\')) [
        | inl b ↦ rw (skip_nested, q, b) esc
        | inr b ↦ rw (skip_nested, q, b) on
      ]
    ]
skip_nested-Leaves between depth n (c ∷ r) h =
    let open_string = skip_nested-Leaves in_string depth n r (omega arith) in
    let deeper = skip_nested-Leaves between (depth + 1) n r (omega arith) in
    let on = skip_nested-Leaves between depth n r (omega arith) in
    let up = skip_nested-Leaves between (depth - 1) n r (omega arith) in
    elim (Bool-cases (c == b'"')) [
      | inl q ↦ rw (skip_nested, q) open_string
      | inr q ↦ elim (Bool-cases (c == b'{' || c == b'[')) [
        | inl b ↦ rw (skip_nested, q, b) deeper
        | inr b ↦ elim (Bool-cases (c == b'}' || c == b']')) [
          | inr e ↦ rw (skip_nested, q, b, e) on
          | inl e ↦ elim (Bool-cases (leb depth 1)) [
            | inl last ↦ rw (skip_nested, q, b, e, last) (omega arith)
            | inr more ↦ rw (skip_nested, q, b, e, more) up
          ]
        ]
      ]
    ]

length-skip_atom : (s : Text) → length (skip_atom s) ≤ length s
unfolding skip_atom
length-skip_atom [] = omega arith
length-skip_atom (c ∷ r) = ground (arith, length-skip_atom r)

skip_at-Leaves : (n : ℕ) (s : Text) → length s ≤ n → Leaves n (skip_at s)
unfolding skip_at
skip_at-Leaves n [] h = tt
skip_at-Leaves n (c ∷ r) h = elim (Bool-cases (c == b'"')) [
  | inl q ↦ rw (skip_at, q) (skip_string-Leaves false n r (omega arith))
  | inr q ↦ elim (Bool-cases (c == b'{' || c == b'[')) [
    | inl b ↦ rw (skip_at, q, b) (skip_nested-Leaves between 0 n (c ∷ r) h)
    | inr b ↦ rw (skip_at, q, b) (omega (arith, length-skip_atom (c ∷ r)))
  ]
]

pub skip_value-Leaves : (n : ℕ) (s : Text) → length s ≤ n → Leaves n (skip_value s)
unfolding skip_value
skip_value-Leaves n s h = skip_at-Leaves n (ws s) (omega (arith, length-ws s))
