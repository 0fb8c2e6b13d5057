-- ===== src/Permissions.antt =====
-- agent/security/permissions.c: the per-tool policy, and which invocations a human confirms.
pub mod Confirm
pub mod Load
use isky.Prelude.{
  ℕ, zero, suc, List, [], ◌∷◌, ◌++◌, Bool, true, false, not, ◌&&◌, ◌||◌, Option, none, some, ℤ, pos,
  negsuc, ltb_ℤ, ltb, leb, Text, str_eq, fit, length, if◌then◌else◌,
}

-- agent/tools/tool.h
pub data SecurityLevel : Type 0 where
  safe low_risk medium_risk high_risk critical : SecurityLevel

-- agent/core/config.h
pub data ApprovalMode : Type 0 where
  always risky never : ApprovalMode

-- the value of an enumerator, for the `<=` and `>=` of the code
abbrev pub rank : SecurityLevel → ℕ
rank safe = 0
rank low_risk = 1
rank medium_risk = 2
rank high_risk = 3
rank critical = 4

pub record ToolPerm : Type 0 where
  pub name : Text
  pub enabled : Bool
  pub require_confirmation : Bool
  pub has_override : Bool

pub record Permissions : Type 0 where
  pub tools : List ToolPerm
  pub approval : ApprovalMode
  pub autonomy : ℤ

abbrev pub max_tools : ℕ
max_tools = 64

abbrev name_size : ℕ
name_size = 64

unfoldable pub permissions_create : ApprovalMode → ℤ → Permissions
permissions_create approval autonomy_level = record {
  tools = [];
  approval = approval;
  autonomy = autonomy_level;
}

-- the first entry of that name
unfoldable pub find : List ToolPerm → Text → Option ToolPerm
find [] tool = none
find (p ∷ rest) tool = if str_eq p.name tool then some p else find rest tool

-- the array with the found entry written over
overwrite : List ToolPerm → Text → Bool → Bool → List ToolPerm
overwrite [] tool enabled conf = []
overwrite (p ∷ rest) tool enabled conf =
    if str_eq p.name tool
    then record p { enabled = enabled; require_confirmation = conf; has_override = true } ∷ rest
    else p ∷ overwrite rest tool enabled conf

set_found : Permissions → Option ToolPerm → Text → Bool → Bool → Permissions
unfolding overwrite
set_found p (some tp) tool enabled conf = record p { tools = overwrite p.tools tool enabled conf }
set_found p none tool enabled conf =
    if ltb (length p.tools) max_tools
    then record p {
      tools =
          p.tools
          ++ record {
            name = fit name_size tool;
            enabled = enabled;
            require_confirmation = conf;
            has_override = true;
          }
            ∷ [];
    }
    else p

-- A new entry goes to the end, and is dropped when the table is full.
unfoldable pub permissions_set : Permissions → Text → Bool → Bool → Permissions
unfolding find set_found
permissions_set p tool enabled conf = set_found p (find p.tools tool) tool enabled conf

enabled_of : Option ToolPerm → Bool
enabled_of none = true
enabled_of (some tp) = tp.enabled

unfoldable pub permissions_is_enabled : Permissions → Text → Bool
unfolding find enabled_of
permissions_is_enabled p tool = enabled_of (find p.tools tool)

-- the `switch` on the autonomy level
unfoldable pub permissions_autonomy_allows : Permissions → SecurityLevel → Bool
permissions_autonomy_allows p lvl = elim p.autonomy [
  | negsuc n ↦ leb (rank lvl) (rank safe)
  | pos zero ↦ false
  | pos (suc zero) ↦ false
  | pos (suc (suc zero)) ↦ leb (rank lvl) (rank safe)
  | pos (suc (suc (suc zero))) ↦ leb (rank lvl) (rank medium_risk)
  | pos (suc (suc (suc (suc zero)))) ↦ leb (rank lvl) (rank high_risk)
  | pos (suc (suc (suc (suc (suc n))))) ↦ leb (rank lvl) (rank safe)
]

pub asks : Option ToolPerm → Bool
asks none = false
asks (some tp) = tp.has_override && tp.require_confirmation

needs_by_mode : ApprovalMode → Permissions → Text → SecurityLevel → Bool
unfolding permissions_autonomy_allows find asks
needs_by_mode never p tool lvl = leb (rank critical) (rank lvl)
needs_by_mode always p tool lvl = true
needs_by_mode risky p tool lvl =
    if asks (find p.tools tool)
    then true
    else if not (permissions_autonomy_allows p lvl)
    then true
    else if leb (rank medium_risk) (rank lvl) && ltb_ℤ p.autonomy (pos 4)
    then true
    else leb (rank high_risk) (rank lvl)

unfoldable pub permissions_needs_confirmation : Permissions → Text → SecurityLevel → Bool
unfolding needs_by_mode
permissions_needs_confirmation p tool lvl = needs_by_mode p.approval p tool lvl
