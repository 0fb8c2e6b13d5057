-- ===== src/Prelude/Int.antt =====
-- A C `int` that may be negative. `negsuc n` is -(n + 1).
use Prim.Native.Nat.{ℕ, zero, suc, ◌+◌, ◌-◌, ◌*◌, ◌%◌, ◌^◌, ◌<◌}
use mathlib.Core.Bool.{Bool, true, false, not}
use mathlib.Core.Path.{◌≡◌, ap}
use native.Mathlib.Omega.{arith}
use isky.Prelude.Tests.{ltb, ◌==◌, if◌then◌else◌}

pub data ℤ : Type 0 where
  pos : ℕ → ℤ
  negsuc : ℕ → ℤ

abbrev pub ltb_ℤ : ℤ → ℤ → Bool
ltb_ℤ (pos a) (pos b) = ltb a b
ltb_ℤ (pos a) (negsuc b) = false
ltb_ℤ (negsuc a) (pos b) = true
ltb_ℤ (negsuc a) (negsuc b) = ltb b a

abbrev pub is_zero : ℤ → Bool
is_zero (pos a) = a == 0
is_zero (negsuc a) = false

-- `x > 0`
abbrev pub is_pos : ℤ → Bool
is_pos (pos a) = ltb 0 a
is_pos (negsuc a) = false

-- `x > 0 ? x : d`
abbrev pub positive_or : ℤ → ℕ → ℕ
positive_or (pos zero) d = d
positive_or (pos (suc n)) d = suc n
positive_or (negsuc n) d = d

abbrev pub leb_ℤ : ℤ → ℤ → Bool
leb_ℤ a b = not (ltb_ℤ b a)

abbrev pub eq_ℤ : ℤ → ℤ → Bool
eq_ℤ (pos a) (pos b) = a == b
eq_ℤ (negsuc a) (negsuc b) = a == b
eq_ℤ _ _ = false

-- `a - b` of two numbers that are not negative
abbrev pub sub_ℕ : ℕ → ℕ → ℤ
sub_ℕ a b = if ltb a b then negsuc (b - a - 1) else pos (a - b)

abbrev pub neg : ℤ → ℤ
neg (pos a) = sub_ℕ 0 a
neg (negsuc a) = pos (suc a)

infixl 60 ◌+ℤ◌
abbrev pub ◌+ℤ◌ : ℤ → ℤ → ℤ
pos a +ℤ pos b = pos (a + b)
pos a +ℤ negsuc b = sub_ℕ a (suc b)
negsuc a +ℤ pos b = sub_ℕ b (suc a)
negsuc a +ℤ negsuc b = negsuc (suc (a + b))

infixl 60 ◌-ℤ◌
abbrev pub ◌-ℤ◌ : ℤ → ℤ → ℤ
pos a -ℤ pos b = sub_ℕ a b
pos a -ℤ negsuc b = pos (a + suc b)
negsuc a -ℤ pos b = negsuc (a + b)
negsuc a -ℤ negsuc b = sub_ℕ b a

infixl 70 ◌*ℤ◌
abbrev pub ◌*ℤ◌ : ℤ → ℤ → ℤ
pos a *ℤ pos b = pos (a * b)
pos a *ℤ negsuc b = neg (pos (a * suc b))
negsuc a *ℤ pos b = neg (pos (suc a * b))
negsuc a *ℤ negsuc b = pos (suc a * suc b)

pub eq_ℤ-eq : (a b : ℤ) → eq_ℤ a b ≡ true → a ≡ b
eq_ℤ-eq (pos a) (pos b) h = ground arith
eq_ℤ-eq (negsuc a) (negsuc b) h = ground arith
eq_ℤ-eq (pos a) (negsuc b) h = ground arith
eq_ℤ-eq (negsuc a) (pos b) h = ground arith

-- A span from `base + a` of `b - a` bytes ends at `base + b`.
pub span_end : (base : ℕ) (a b : ℤ) → pos base +ℤ a +ℤ (b -ℤ a) ≡ pos base +ℤ b
span_end base (pos a) (pos b) = ground arith
span_end base (pos a) (negsuc b) = ground arith
span_end base (negsuc a) (pos b) = ground arith
span_end base (negsuc a) (negsuc b) = ground arith

-- The 64 bits of a number in two's complement, and the `int64_t` that they stand for.
unfoldable pub bits64 : ℤ → ℕ
bits64 (pos a) = a % 2 ^ 64
bits64 (negsuc a) = 2 ^ 64 - 1 - a % 2 ^ 64

unfoldable pub of_bits64 : ℕ → ℤ
of_bits64 m = if ltb m (2 ^ 63) then pos m else negsuc (2 ^ 64 - 1 - m)

-- A result that is kept in an `int64_t` wraps.
unfoldable pub int64 : ℤ → ℤ
unfolding bits64 of_bits64
int64 x = of_bits64 (bits64 x)

bits64-bound : (x : ℤ) → bits64 x < 2 ^ 64
unfolding bits64
bits64-bound (pos a) = omega arith
bits64-bound (negsuc a) = omega arith

bits64-of_bits64 : (m : ℕ) → m < 2 ^ 64 → bits64 (of_bits64 m) ≡ m
unfolding bits64 of_bits64
bits64-of_bits64 m lt = ground arith

bits64-add : (x y : ℤ) → bits64 (x +ℤ y) ≡ (bits64 x + bits64 y) % 2 ^ 64
unfolding bits64
bits64-add (pos a) (pos b) = ground arith
bits64-add (pos a) (negsuc b) = ground arith
bits64-add (negsuc a) (pos b) = ground arith
bits64-add (negsuc a) (negsuc b) = ground arith

-- Operands that have wrapped do not change the wrapped sum.
pub int64-add : (x y : ℤ) → int64 (int64 x +ℤ int64 y) ≡ int64 (x +ℤ y)
unfolding int64
int64-add x y =
    let left = bits64-of_bits64 (bits64 x) (bits64-bound x) in
    let right = bits64-of_bits64 (bits64 y) (bits64-bound y) in
    ap of_bits64 (omega (arith, left, right, bits64-add x y, bits64-add (int64 x) (int64 y)))

-- A number below 2 ^ 63 is kept as it is.
pub int64-small : (n : ℕ) → n < 2 ^ 63 → int64 (pos n) ≡ pos n
unfolding int64 bits64 of_bits64
int64-small n lt = ground arith
