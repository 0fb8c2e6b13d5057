-- ===== src/Prelude/CString.antt =====
-- C strings as lists of byte values, without the final NUL, and `strcmp(a, b) == 0`.
use Prim.Native.Char.{code}
use Prim.Native.String.{String}
use Prim.Native.Nat.{ℕ, ◌-◌, ◌<◌}
use mathlib.Core.Bool.{Bool, true, false, ◌&&◌}
use mathlib.Core.List.{List, [], ◌∷◌}
use mathlib.Core.Path.{◌≡◌, refl}
use native.Mathlib.Omega.{arith}
use mathlib.Core.Option.{Option, none, some}
use isky.Prelude.Tests.{◌==◌}
use isky.Prelude.Lists.{length, take, take_whole}

abbrev pub Text : Type 0
Text = List ℕ

-- Shut, so that a literal stays short in a goal.
unfoldable pub text : String → Text
text String.[] = []
text (String.◌∷◌ c s) = code c ∷ text s

unfoldable pub str_eq : Text → Text → Bool
str_eq [] [] = true
str_eq (x ∷ xs) (y ∷ ys) = x == y && str_eq xs ys
str_eq _ _ = false

pub str_eq_refl : (a : Text) → str_eq a a ≡ true
unfolding str_eq
str_eq_refl [] = refl
str_eq_refl (x ∷ xs) = ground (arith, str_eq_refl xs)

pub str_eq-eq : (a b : Text) → str_eq a b ≡ true → a ≡ b
unfolding str_eq
str_eq-eq [] [] h = refl
str_eq-eq (x ∷ xs) (y ∷ ys) h = ground (arith, str_eq-eq xs ys)
str_eq-eq (x ∷ xs) [] h = ground arith
str_eq-eq [] (y ∷ ys) h = ground arith

-- `snprintf` into `size` bytes keeps at most `size - 1` of them.
unfoldable pub fit : ℕ → Text → Text
fit size t = take (size - 1) t

-- `!s || !s[0]` of a pointer that may be NULL
abbrev pub is_blank : Option Text → Bool
is_blank none = true
is_blank (some []) = true
is_blank (some (c ∷ r)) = false

abbrev pub or_else {ℓ} : {A : Type ℓ} → Option A → Option A → Option A
or_else none b = b
or_else (some a) b = some a

pub fit_short : (size : ℕ) (t : Text) → length t < size → fit size t ≡ t
unfolding fit
fit_short size t h = take_whole t (size - 1) (omega arith)
