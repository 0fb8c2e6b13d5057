-- ===== src/Prelude/Bits.antt =====
-- Facts about `bit_and` at variables: it stays below its right argument, and a mask of k ones
-- takes the remainder modulo 2 ^ k.
use native.Mathlib.Nat.{pow-suc}
use native.Mathlib.Omega.{arith}
use mathlib.Core.Path.{◌≡◌, ◌∙◌, sym, ap, refl}
use Prim.Native.Nat.{digits, bit_and, bit_and-bitwise, min}
use Prim.Native.Nat.{ℕ, suc, zero, ◌<◌, ◌≤◌, ◌^◌, ◌%◌, ◌/◌, ◌*◌, ◌-◌, ◌+◌}

abbrev masked : ℕ → ℕ → ℕ → ℕ
masked rounds x m = digits (λ b. zero) min rounds x m

masked_one_more : (rounds x m : ℕ) → x ≤ rounds → masked (suc rounds) x m ≡ masked rounds x m
masked_one_more zero zero m enough = refl
masked_one_more zero (suc x) m enough = absurd (omega arith)
masked_one_more (suc rounds) zero m enough = refl
masked_one_more (suc rounds) (suc x) m enough =
    omega (arith, masked_one_more rounds (suc x / 2) (m / 2) (omega arith))

masked_more : (extra x least m : ℕ) → x ≤ least → masked (extra + least) x m ≡ masked least x m
masked_more zero x least m enough = ap (λ n. masked n x m) (omega arith)
masked_more (suc extra) x least m enough =
    ap (λ n. masked n x m) {y = suc (extra + least)} (omega arith)
    ∙ masked_one_more (extra + least) x m (omega arith)
    ∙ masked_more extra x least m enough

sub_back : (n x : ℕ) → x ≤ n → n - x + x ≡ n
sub_back n x h = omega arith

masked_all : (rounds x m : ℕ) → x ≤ rounds → masked rounds x m ≡ bit_and x m
masked_all rounds x m enough =
    sym (ap (λ n. masked n x m) (sub_back rounds x enough))
    ∙ masked_more (rounds - x) x x m (omega arith)
    ∙ sym (bit_and-bitwise x m)

bit_and_none : (m : ℕ) → bit_and 0 m ≡ 0
bit_and_none m = sym (masked_all 0 0 m (omega arith))

-- A conjunction is that of the halves, twice, and that of the last digits.
pub bit_and_step : (x m : ℕ) → bit_and x m ≡ bit_and (x / 2) (m / 2) * 2 + min (x % 2) (m % 2)
bit_and_step zero m = omega (arith, bit_and_none (m / 2), bit_and_none m)
bit_and_step (suc x) m =
    sym (masked_all (suc x) (suc x) m (omega arith))
    ∙ ap (λ d. d * 2 + min (suc x % 2) (m % 2)) (masked_all x (suc x / 2) (m / 2) (omega arith))

below_mask : (rounds m x : ℕ) → x ≤ rounds → bit_and x m ≤ m
below_mask rounds m zero enough = omega (arith, bit_and_none m)
below_mask zero m (suc x) enough = omega arith
below_mask (suc rounds) m (suc x) enough =
    let halves = below_mask rounds (m / 2) (suc x / 2) (omega arith) in
    omega (arith, halves, bit_and_step (suc x) m)

pub bit_and_le : (x m : ℕ) → bit_and x m ≤ m
bit_and_le x m = below_mask x m x (omega arith)

pub pow_pos : (k : ℕ) → 0 < 2 ^ k
pow_pos zero = omega arith
pow_pos (suc k) = omega (arith, pow-suc 2 k, pow_pos k)

half_mask : (k a : ℕ) → bit_and a ((2 ^ suc k - 1) / 2) ≡ bit_and a (2 ^ k - 1)
half_mask k a = ap (bit_and a) (omega (arith, pow-suc 2 k, pow_pos k))

-- A mask of k ones keeps a value of k digits, and 2 ^ k becomes 0.
pub bit_and-mask : (k x : ℕ) → x < 2 ^ k → bit_and x (2 ^ k - 1) ≡ x
bit_and-mask zero x h = omega (arith, bit_and_le x 0)
bit_and-mask (suc k) x h = omega (
  arith,
  pow-suc 2 k,
  pow_pos k,
  bit_and_step x (2 ^ suc k - 1),
  bit_and-mask k (x / 2) (omega (arith, pow-suc 2 k)),
  half_mask k (x / 2),
)

pub bit_and-mask_wrap : (k x : ℕ) → x ≡ 2 ^ k → bit_and x (2 ^ k - 1) ≡ 0
bit_and-mask_wrap zero x h = omega (arith, bit_and_le x 0)
bit_and-mask_wrap (suc k) x h = omega (
  arith,
  pow-suc 2 k,
  pow_pos k,
  bit_and_step x (2 ^ suc k - 1),
  bit_and-mask_wrap k (x / 2) (omega (arith, pow-suc 2 k)),
  half_mask k (x / 2),
)
