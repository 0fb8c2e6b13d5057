-- ===== src/Safetensors/Widen/Exact.antt =====
-- src/io/k3_st.c and k3_st.h: the value of a number that is widened.
use isky.Prelude.{
  ℕ, zero, suc, ◌+◌, ◌-◌, ◌*◌, ◌/◌, ◌%◌, ◌^◌, ◌<◌, ◌≡◌, ◌≢◌, refl, ap, ◌∙◌, Bool, true, ◌&&◌,
  ==_iff, ◌==◌, if◌then◌else◌, arith,
}
use isky.Safetensors.Widen.{f16_to_f32, u8_to_f32}

-- the test on each of the first numbers
each : (ℕ → Bool) → ℕ → Bool
each test zero = true
each test (suc count) = each test count && test count

-- The magnitude of a finite half in units of 2 ^ -24.
unfoldable pub half_value : ℕ → ℕ
half_value h =
    let exp = h / 2 ^ 10 % 32 in
    let man = h % 2 ^ 10 in if exp == 0 then man else (2 ^ 10 + man) * 2 ^ (exp - 1)

-- The magnitude of a finite float in units of 2 ^ -149.
unfoldable pub float_value : ℕ → ℕ
float_value u =
    let exp = u / 2 ^ 23 % 256 in
    let man = u % 2 ^ 23 in if exp == 0 then man else (2 ^ 23 + man) * 2 ^ (exp - 1)

-- the sign is kept; a finite value too, and the others keep their kind and their payload
half_kept : ℕ → Bool
half_kept h =
    f16_to_f32 h / 2 ^ 31 == h / 2 ^ 15
    && (if h / 2 ^ 10 % 32 == 31
        then f16_to_f32 h / 2 ^ 23 % 256 == 255 && f16_to_f32 h % 2 ^ 23 == h % 2 ^ 10 * 2 ^ 13
        else float_value (f16_to_f32 h) == half_value h * 2 ^ 125)

halves_table : each (λ a. each (λ b. half_kept (a * 256 + b)) 256) 256 ≡ true
unfolding each half_kept f16_to_f32 half_value float_value
halves_table = refl

each-at : (test : ℕ → Bool) (count v : ℕ) → v < count → each test count ≡ true → test v ≡ true
unfolding each
each-at test zero v below table = ground arith
each-at test (suc count) v below table = ground (arith, each-at test count v)

half_kept_all : (h : ℕ) → h < 2 ^ 16 → half_kept h ≡ true
half_kept_all h lt =
    let row =
      each-at (λ a. each (λ b. half_kept (a * 256 + b)) 256) 256 (h / 256) (omega arith)
        halves_table in
    let here = each-at (λ b. half_kept (h / 256 * 256 + b)) 256 (h % 256) (omega arith) row in
    ap half_kept {x = h} {y = h / 256 * 256 + h % 256} (omega arith) ∙ here

-- Widening a finite half, zeros and subnormals included, keeps its sign and its value.
pub f16_to_f32-exact :
    (h : ℕ)
    → h < 2 ^ 16
    → h / 2 ^ 10 % 32 ≢ 31
    → (f16_to_f32 h / 2 ^ 31 ≡ h / 2 ^ 15) × (float_value (f16_to_f32 h) ≡ half_value h * 2 ^ 125)
unfolding half_kept
f16_to_f32-exact h lt finite = let kept = half_kept_all h lt in ground (arith, kept)

-- An infinity or a NaN stays one, with its sign, and its payload in the top bits of the mantissa.
pub f16_to_f32-special :
    (h : ℕ)
    → h < 2 ^ 16
    → h / 2 ^ 10 % 32 ≡ 31
    → (f16_to_f32 h / 2 ^ 31 ≡ h / 2 ^ 15)
      × (f16_to_f32 h / 2 ^ 23 % 256 ≡ 255)
      × (f16_to_f32 h % 2 ^ 23 ≡ h % 2 ^ 10 * 2 ^ 13)
unfolding half_kept
f16_to_f32-special h lt special = let kept = half_kept_all h lt in ground (arith, kept)

bytes_table : each (λ n. float_value (u8_to_f32 n) == n * 2 ^ 149) 256 ≡ true
unfolding each float_value u8_to_f32
bytes_table = refl

-- Widening any byte gives its value.
pub u8_to_f32-exact : (n : ℕ) → n < 256 → float_value (u8_to_f32 n) ≡ n * 2 ^ 149
u8_to_f32-exact n lt =
    (==_iff _ _).0 (each-at (λ n. float_value (u8_to_f32 n) == n * 2 ^ 149) 256 n lt bytes_table)
