-- ===== src/Sandbox/Inside.antt =====
-- agent/security/sandbox.c: where the paths that `sandbox_resolve` gives lie.
use isky.Prelude.{ℕ, ◌⊎◌, ℕ, ◌+◌, ◌≤◌, ◌≡◌, [], ◌∷◌, ◌++◌, false, Option, some, Text, length, ◌⊎◌}
use isky.Sandbox.{resolved, no_entry, Os, Sandbox, has_dots, joined_path}
use isky.Sandbox.Lexical.{IsInside, climbs}

module _ {W : Type 0} (os : Os W) (w : W) where
  -- The parent and the leaf of a path that does not exist: before and after its last slash, with the
  -- root as the parent of what stands in it, and the current directory as that of a path with no
  -- slash.
  pub IsSplit : Text → Text → Text → Type 0
  IsSplit joined parent leaf =
      (joined ≡ parent ++ (47 ∷ leaf))
      ⊎ ((parent ≡ 47 ∷ []) × (joined ≡ 47 ∷ leaf))
      ⊎ ((os.getcwd w ≡ some parent) × (leaf ≡ joined))

  -- `path` is what the system makes of the joined path; or that does not exist, and `path` is what
  -- the system makes of its parent, with its leaf, which has no `..`.
  pub IsReal : Text → Text → Type 0
  IsReal joined path =
      (os.realpath joined w ≡ resolved path)
      ⊎ ((os.realpath joined w ≡ no_entry)
          × (parent : Text) × (leaf : Text) × (real : Text) × IsSplit joined parent leaf
          × (os.realpath parent w ≡ resolved real)
          × (has_dots leaf ≡ false)
          × (path ≡ real ++ (47 ∷ leaf)))

  -- realpath(3): an answer has no component `..`.
  unfoldable pub IsCanonical : Type 0
  IsCanonical = (path real : Text) → os.realpath path w ≡ resolved real → climbs real ≡ false

  -- What `sandbox_resolve` lets through when it is asked for `asked`.
  pub record IsAllowed (s : Sandbox) (asked : Text) (outsz : ℕ) (path : Text) : Type 0 where
    pub joined : Text
    pub from_asked : joined_path s asked ≡ some joined
    pub real : IsReal joined path
    pub inside : IsInside s.root path
    pub no_climb : climbs path ≡ false
    pub room : length path + 1 ≤ outsz
