-- ===== src/Permissions/Load.antt =====
-- `permissions_load` of agent/security/permissions.c, and `agent_config_parse_approval` of
-- agent/core/config.c that it calls. The contents of the file are a parameter.
use isky.Prelude.{
  ◌≤◌, ◌≡◌, refl, List, [], ◌∷◌, Bool, true, false, ◌||◌, Option, none, some, Text, text, str_eq,
  length, if◌then◌else◌, Bool-cases, inl, inr,
}
use isky.Jsonx.{Json, jx_str, jx_int, jx_bool, jx_obj}
use isky.Permissions.{ApprovalMode, always, risky, never, Permissions, permissions_set, max_tools}
use isky.Permissions.Confirm.{tools-bounded}

unfoldable pub agent_config_parse_approval : Option Text → ApprovalMode
agent_config_parse_approval none = risky
agent_config_parse_approval (some s) =
    if str_eq s (text "always") then always else if str_eq s (text "never") then never else risky

-- the keys of the root that name no tool
is_setting : Text → Bool
is_setting name =
    str_eq name (text "approval")
    || str_eq name (text "autonomy_level")
    || str_eq name (text "tools")

-- `child_list` gives the children of a value with their names, in order.
module _ {J : Type 0} (json : Json J) (child_list : J → List (Option Text × J)) where
  load_named : Permissions → Text → J → Permissions
  unfolding is_setting
  load_named p name it =
      if is_setting name
      then p
      else permissions_set p name (jx_bool json it (text "enabled") true)
          (jx_bool json it (text "require_confirmation") false)

  -- one round of the loop over the children
  load_entry : Permissions → Option Text × J → Permissions
  unfolding load_named
  load_entry p (none, it) = p
  load_entry p (some name, it) = if json.is_object it then load_named p name it else p

  load_entries : Permissions → List (Option Text × J) → Permissions
  unfolding load_entry
  load_entries p [] = p
  load_entries p (x ∷ rest) = load_entries (load_entry p x) rest

  set_approval : Permissions → Option Text → Permissions
  unfolding agent_config_parse_approval
  set_approval p none = p
  set_approval p (some s) = record p { approval = agent_config_parse_approval (some s) }

  scanned : J → Option J → List (Option Text × J)
  scanned root none = child_list root
  scanned root (some tools) = child_list tools

  load_root : Permissions → J → Permissions
  unfolding load_entries set_approval scanned
  load_root p root =
      let q = set_approval p (jx_str json root (text "approval")) in
      load_entries (record q { autonomy = jx_int json root (text "autonomy_level") q.autonomy })
        (scanned root (jx_obj json root (text "tools")))

  parsed : Permissions → Option J → Permissions × Bool
  unfolding load_root
  parsed p none = (p, false)
  parsed p (some root) = (load_root p root, true)

  -- The text is what the file holds, none where there is no path or no file. The result is whether 0 is
  -- returned.
  unfoldable pub permissions_load : Permissions → Option Text → Permissions × Bool
  unfolding parsed
  permissions_load p none = (p, true)
  permissions_load p (some contents) = parsed p (json.parse contents)

module _ {J : Type 0} (json : Json J) (child_list : J → List (Option Text × J)) where
  entry-bounded :
      (p : Permissions) (x : Option Text × J)
      → length p.tools ≤ max_tools
      → length (load_entry json child_list p x).tools ≤ max_tools
  unfolding load_entry load_named
  entry-bounded p (none, it) h = h
  entry-bounded p (some name, it) h = elim (Bool-cases (json.is_object it)) [
    | inr e ↦ rw e h
    | inl e ↦ elim (Bool-cases (is_setting name)) [
      | inl s ↦ rw (e, s) h
      | inr s ↦ rw (e, s) (tools-bounded p name _ _ h)
    ]
  ]

  entries-bounded :
      (xs : List (Option Text × J)) (p : Permissions)
      → length p.tools ≤ max_tools
      → length (load_entries json child_list p xs).tools ≤ max_tools
  unfolding load_entries
  entries-bounded [] p h = h
  entries-bounded (x ∷ rest) p h = entries-bounded rest _ (entry-bounded p x h)

  approval-tools :
      (p : Permissions) (o : Option Text) → (set_approval json child_list p o).tools ≡ p.tools
  unfolding set_approval
  approval-tools p none = refl
  approval-tools p (some s) = refl

  parsed-bounded :
      (p : Permissions) (o : Option J)
      → length p.tools ≤ max_tools
      → length (parsed json child_list p o).0.tools ≤ max_tools
  unfolding parsed load_root
  parsed-bounded p none h = h
  parsed-bounded p (some root) h =
      let q = set_approval json child_list p (jx_str json root (text "approval")) in
      entries-bounded (scanned json child_list root (jx_obj json root (text "tools")))
        (record q { autonomy = jx_int json root (text "autonomy_level") q.autonomy })
        (rw (approval-tools p (jx_str json root (text "approval"))) h)

  -- Whatever a file holds, a table of at most 64 tools stays one; and a file that does not parse is
  -- reported and leaves the policy as it was.
  pub permissions_load-bounded :
      (p : Permissions) (contents : Text)
      → length p.tools ≤ max_tools
      → (length (permissions_load json child_list p (some contents)).0.tools ≤ max_tools)
        × (json.parse contents ≡ none
            → permissions_load json child_list p (some contents) ≡ (p, false))
  unfolding permissions_load
  permissions_load-bounded p contents h =
      (parsed-bounded p (json.parse contents) h, λ e. rw e (unfold parsed in refl))
