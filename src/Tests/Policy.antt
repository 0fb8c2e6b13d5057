-- ===== src/Tests/Policy.antt =====
-- The state diagram, the recovery, the permissions, the sandbox and the gate of the tools at concrete inputs.
use isky.Prelude.{
  ℕ, ◌≡◌, refl, ◌⊎◌, ◌↔◌, ◌<◌, fit, [], ◌∷◌, true, false, none, some, text, str_eq, replicate,
  if◌then◌else◌, arith,
}
use isky.State.{idle, executing, agent_state_transition}
use isky.State.Graph.{◌⟶◌, transition-⟶}
use isky.Permissions.{
  safe, rank, Permissions, find, permissions_set, permissions_is_enabled,
  permissions_needs_confirmation,
}
use isky.Permissions.Confirm.{unattended, override, needs_confirmation_iff, is_enabled-set}
use isky.Sandbox.{
  fs_realpath, last_slash, has_dots, within, let_through, Os, Sandbox, resolved, no_entry,
  sandbox_resolve,
}
use isky.Registry.{tool_registry_execute, tool_registry_find, AgentTool}
use isky.Registry.Gate.{Ran, Refused, tool_registry_execute_gate}
use isky.Tests.Fixture.{Fields, json_of, shell, policy, context, io}

transition-⟶_example :
    (((agent_state_transition idle executing).1 ≡ true) ↔ ((idle ≡ executing) ⊎ (idle ⟶ executing)))
    × ((agent_state_transition idle executing ≡ (executing, true))
        ⊎ (agent_state_transition idle executing ≡ (idle, false)))
transition-⟶_example = transition-⟶ idle executing

needs_confirmation_iff_example : (permissions_needs_confirmation policy [] safe ≡ false) ↔ (
    (rank safe < unattended policy.approval policy.autonomy)
    × (override policy.approval (find policy.tools []) ≡ false))
needs_confirmation_iff_example = needs_confirmation_iff policy [] safe

is_enabled-set_example :
    permissions_is_enabled (permissions_set policy (text "git") false false) (text "web") ≡ (
      if str_eq (text "git") (text "web")
      then false
      else permissions_is_enabled policy (text "web"))
unfolding text
is_enabled-set_example =
    is_enabled-set (text "git") (text "web") false false policy (omega arith) (λ h. omega arith)

-- A table of 64 entries of one name has no room: disabling another tool changes nothing.
abbrev full_policy : Permissions
full_policy = record policy {
  tools = replicate 64 (record {
    name = 97 ∷ [];
    enabled = true;
    require_confirmation = false;
    has_override = true;
  });
}

test_full : permissions_set full_policy (98 ∷ []) false false ≡ full_policy
unfolding permissions_set find str_eq
test_full = refl

tool_registry_execute_gate_example :
    ((t : AgentTool ℕ Fields) × (tool_registry_find (shell safe ∷ []) (text "shell") ≡ some t)
      × Ran
          (json_of [])
          context
          (text "shell")
          none
          io
          t
          (tool_registry_execute (json_of []) (shell safe ∷ []) context (text "shell") none io))
    ⊎ Refused
        (json_of [])
        context
        (text "shell")
        none
        io
        (tool_registry_execute (json_of []) (shell safe ∷ []) context (text "shell") none io)
tool_registry_execute_gate_example =
    tool_registry_execute_gate (json_of []) context (text "shell") none io (shell safe ∷ [])

-- a file system of one directory, /w; `realpath` answers ENOENT for what is not there and for a
-- symbolic link in it whose target is not there
abbrev one_directory : Os ℕ
one_directory = record {
  realpath = λ path w. if str_eq path (47 ∷ 119 ∷ []) then resolved (47 ∷ 119 ∷ []) else no_entry;
  getcwd = λ w. none;
}

abbrev workspace : Sandbox
workspace = record { root = 47 ∷ 119 ∷ []; enabled = true; backup_seq = 0 }

test_escape : sandbox_resolve one_directory workspace (some (46 ∷ 46 ∷ [])) 4096 0 ≡ none
unfolding sandbox_resolve fs_realpath last_slash has_dots within let_through fit str_eq
test_escape = refl
