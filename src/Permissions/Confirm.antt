-- ===== src/Permissions/Confirm.antt =====
-- Which invocations agent/security/permissions.c lets run with no human, and what a setting does
-- to the later queries.
use isky.Prelude.{
  ℕ, zero, suc, ◌≤◌, ◌<◌, ◌≡◌, refl, ◌≢◌, ◌↔◌, List, [], ◌∷◌, ◌++◌, Bool, true, false, Option, none,
  ℤ, pos, negsuc, Text, str_eq, str_eq_refl, str_eq-eq, fit, fit_short, lt→ltb, length,
  length-append, Option-cases, inl, inr, if◌then◌else◌, arith,
}
use isky.Permissions.{
  SecurityLevel, critical, ApprovalMode, always, risky, never, rank, ToolPerm, Permissions,
  max_tools, find, asks, overwrite, set_found, enabled_of, permissions_set, permissions_is_enabled,
  permissions_needs_confirmation,
}

-- The level from which on an invocation is confirmed, as a number of levels that run unattended:
-- none under `always`, all but `critical` under `never`, and by autonomy under `risky`.
unattended_risky : ℤ → ℕ
unattended_risky (negsuc n) = 1
unattended_risky (pos zero) = 0
unattended_risky (pos (suc zero)) = 0
unattended_risky (pos (suc (suc zero))) = 1
unattended_risky (pos (suc (suc (suc zero)))) = 2
unattended_risky (pos (suc (suc (suc (suc zero))))) = 3
unattended_risky (pos (suc (suc (suc (suc (suc n)))))) = 1

pub unattended : ApprovalMode → ℤ → ℕ
unfolding unattended_risky
unattended always autonomy = 0
unattended never autonomy = 4
unattended risky autonomy = unattended_risky autonomy

abbrev pub override : ApprovalMode → Option ToolPerm → Bool
override risky found = asks found
override _ found = false

-- An invocation runs with no human exactly when its level is below the bound that the approval mode
-- and the autonomy level set, and no override of the tool asks for a confirmation (an override
-- counts under `risky` only).
pub needs_confirmation_iff :
    (p : Permissions) (tool : Text) (lvl : SecurityLevel)
    → (permissions_needs_confirmation p tool lvl ≡ false) ↔ (
        (rank lvl < unattended p.approval p.autonomy)
        × (override p.approval (find p.tools tool) ≡ false))
unfolding permissions_needs_confirmation unattended
needs_confirmation_iff p tool lvl = (λ h. ground arith, λ h. ground arith)

-- A critical action is confirmed in every mode, at every autonomy level, for every tool.
pub critical_confirmed :
    (p : Permissions) (tool : Text) → permissions_needs_confirmation p tool critical ≡ true
unfolding permissions_needs_confirmation
critical_confirmed p tool = ground arith

-- A more dangerous level is confirmed wherever a less dangerous one is.
pub needs_confirmation_mono :
    (p : Permissions) (tool : Text) (lvl lvl' : SecurityLevel)
    → rank lvl ≤ rank lvl'
    → permissions_needs_confirmation p tool lvl ≡ true
    → permissions_needs_confirmation p tool lvl' ≡ true
unfolding permissions_needs_confirmation
needs_confirmation_mono p tool lvl lvl' h n = ground arith

module _ (tool other : Text) (enabled conf : Bool) where
  enabled-overwrite :
      (ts : List ToolPerm)
      → find ts tool ≢ none
      → enabled_of (find (overwrite ts tool enabled conf) other)
        ≡ (if str_eq tool other then enabled else enabled_of (find ts other))
  unfolding find overwrite enabled_of
  enabled-overwrite [] h = absurd (h refl)
  enabled-overwrite (p ∷ ts) h = ground (
    arith,
    str_eq-eq p.name tool,
    str_eq-eq p.name other,
    str_eq-eq tool other,
    str_eq_refl tool,
    enabled-overwrite ts,
  )

  enabled-append :
      (ts : List ToolPerm) (new : ToolPerm)
      → find ts tool ≡ none
      → new.name ≡ tool
      → new.enabled ≡ enabled
      → enabled_of (find (ts ++ new ∷ []) other)
        ≡ (if str_eq tool other then enabled else enabled_of (find ts other))
  unfolding find enabled_of
  enabled-append [] new h e f = ground arith
  enabled-append (p ∷ ts) new h e f =
      ground (
        arith,
        str_eq-eq p.name other,
        str_eq-eq tool other,
        str_eq_refl tool,
        enabled-append ts new,
      )

  -- After a setting the tool is enabled as it says and every other tool is as it was. The name
  -- must fit its field, and the table must hold the tool already or have room.
  pub is_enabled-set :
      (p : Permissions)
      → length tool < 64
      → (find p.tools tool ≡ none → length p.tools < max_tools)
      → permissions_is_enabled (permissions_set p tool enabled conf) other
        ≡ (if str_eq tool other then enabled else permissions_is_enabled p other)
  unfolding permissions_set permissions_is_enabled
  is_enabled-set p short room = elim (Option-cases (find p.tools tool)) [
    | inl new ↦
        rw (new, set_found, lt→ltb (length p.tools) max_tools (room new))
          (enabled-append p.tools _ new (fit_short 64 tool short) refl)
    | inr (tp, old) ↦ rw (old, set_found) (enabled-overwrite p.tools (λ q. ground arith))
  ]

length-overwrite :
    (tool : Text) (enabled conf : Bool) (ts : List ToolPerm)
    → length (overwrite ts tool enabled conf) ≡ length ts
unfolding overwrite
length-overwrite tool enabled conf [] = refl
length-overwrite tool enabled conf (p ∷ ts) = ground (arith, length-overwrite tool enabled conf ts)

-- A table holds at most 64 tools, whatever is set.
pub tools-bounded :
    (p : Permissions) (tool : Text) (enabled conf : Bool)
    → length p.tools ≤ max_tools
    → length (permissions_set p tool enabled conf).tools ≤ max_tools
unfolding permissions_set
tools-bounded p tool enabled conf h = ground (
  arith,
  length-overwrite tool enabled conf p.tools,
  length-append {0} p.tools (
      record {
        name = fit 64 tool;
        enabled = enabled;
        require_confirmation = conf;
        has_override = true;
      }
      ∷ []),
)
