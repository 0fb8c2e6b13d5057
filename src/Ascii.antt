-- ===== src/Ascii.antt =====
-- `strncasecmp` in the C locale, and the search with it that agent/reasoning/verification.c and
-- agent/tools/shell.c both define.
pub mod Search
use isky.Prelude.{
  ℕ, suc, ◌+◌, List, [], ◌∷◌, Bool, true, false, ◌&&◌, leb, ◌==◌, Text, if◌then◌else◌,
}

unfoldable pub tolower : ℕ → ℕ
tolower c = if leb 65 c && leb c 90 then c + 32 else c

-- `strncasecmp(t, needle, strlen(needle)) == 0`
unfoldable pub starts_with_ci : Text → Text → Bool
unfolding tolower
starts_with_ci [] t = true
starts_with_ci (x ∷ xs) [] = false
starts_with_ci (x ∷ xs) (y ∷ ys) = tolower x == tolower y && starts_with_ci xs ys

-- `for (p = hay; *p; p++)`
unfoldable pub contains_ci : Text → Text → Bool
unfolding starts_with_ci
contains_ci [] needle = false
contains_ci (c ∷ r) needle = if starts_with_ci needle (c ∷ r) then true else contains_ci r needle
