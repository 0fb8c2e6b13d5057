-- ===== src/Sandbox.antt =====
-- agent/security/sandbox.c and `fs_realpath` of agent/util/platform.c: the paths that a tool may use.
-- `realpath` and `getcwd` are the system's.
pub mod Lexical
pub mod Inside
use isky.Prelude.{
  ℕ, suc, zero, ◌+◌, ◌≡◌, List, [], ◌∷◌, ◌++◌, Bool, true, false, ◌&&◌, not, Option, none, some,
  Text, text, fit, length, leb, ltb, ◌==◌, if◌then◌else◌,
}

-- what `realpath` answers: a path, ENOENT, or another error
pub data RealPath : Type 0 where
  resolved : Text → RealPath
  no_entry failed : RealPath

pub record Os (W : Type 0) : Type 0 where
  pub realpath : Text → W → RealPath
  pub getcwd : W → Option Text

abbrev pub path_max : ℕ
path_max = 4096

-- `strrchr(path, '/')`: what stands before the last slash, and what after it
unfoldable pub last_slash : Text → Option (Text × Text)
last_slash [] = none
last_slash (c ∷ r) = elim (last_slash r) [
  | some (before, after) ↦ some (c ∷ before, after)
  | none ↦ if c == 47 then some ([], r) else none
]

-- `strstr(leaf, "..")`
unfoldable pub has_dots : Text → Bool
has_dots [] = false
has_dots (c ∷ []) = false
has_dots (c ∷ (d ∷ r)) = if c == 46 && d == 46 then true else has_dots (d ∷ r)

pub record Sandbox : Type 0 where
  pub root : Text
  pub enabled : Bool
  pub backup_seq : ℕ

-- `strncmp` of the root, and then the end of the path or a separator
unfoldable pub within : Text → Text → Bool
within [] [] = true
within [] (c ∷ r) = c == 47
within (x ∷ xs) [] = false
within (x ∷ xs) (y ∷ ys) = x == y && within xs ys

-- the path that is asked of the system: an absolute one as it is, another one below the root
unfoldable pub joined_path : Sandbox → Text → Option Text
joined_path s [] = none
joined_path s (c ∷ r) =
    if c == 47
    then some (fit path_max (c ∷ r))
    else if leb path_max (length (s.root ++ (47 ∷ (c ∷ r))))
    then none
    else some (s.root ++ (47 ∷ (c ∷ r)))

-- what is done with the resolved path
unfoldable pub let_through : Sandbox → ℕ → Option Text → Option Text
let_through s outsz none = none
let_through s outsz (some path) =
    if s.enabled && not (within s.root path)
    then none
    else if ltb outsz (length path + 1)
    then none
    else some path

module _ {W : Type 0} (os : Os W) where
  -- the parent and the leaf of a path that does not exist
  parent_and_leaf : Text → W → Option (Text × Text) → Option (Text × Text)
  parent_and_leaf path w none = elim (os.getcwd w) [
    | none ↦ none
    | some cwd ↦ some (cwd, fit path_max path)
  ]
  parent_and_leaf path w (some ([], leaf)) = some (47 ∷ [], fit path_max leaf)
  parent_and_leaf path w (some (c ∷ parent, leaf)) =
      if leb path_max (length (c ∷ parent)) then none else some (c ∷ parent, fit path_max leaf)

  -- `snprintf(out, outsz, "%s/%s", rparent, leaf)`
  append_leaf : ℕ → Text → RealPath → Option Text
  append_leaf outsz leaf (resolved parent) =
      if leb outsz (length (parent ++ (47 ∷ leaf))) then none else some (parent ++ (47 ∷ leaf))
  append_leaf outsz leaf no_entry = none
  append_leaf outsz leaf failed = none

  from_parent : ℕ → W → Option (Text × Text) → Option Text
  from_parent outsz w none = none
  from_parent outsz w (some (parent, leaf)) =
      if has_dots leaf then none else append_leaf outsz leaf (os.realpath parent w)

  unfoldable pub fs_realpath : Text → ℕ → W → Option Text
  unfolding parent_and_leaf from_parent append_leaf
  fs_realpath path outsz w = elim (os.realpath path w) [
    | resolved r ↦ if ltb outsz (length r + 1) then none else some r
    | no_entry ↦ from_parent outsz w (parent_and_leaf path w (last_slash path))
    | failed ↦ none
  ]

  unfoldable pub resolve_joined : Sandbox → ℕ → W → Option Text → Option Text
  unfolding let_through fs_realpath
  resolve_joined s outsz w none = none
  resolve_joined s outsz w (some joined) = let_through s outsz (fs_realpath joined path_max w)

  unfoldable pub sandbox_resolve : Sandbox → Option Text → ℕ → W → Option Text
  unfolding resolve_joined joined_path
  sandbox_resolve s none outsz w = none
  sandbox_resolve s (some path) outsz w = resolve_joined s outsz w (joined_path s path)
