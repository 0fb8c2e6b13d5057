-- ===== src/Registry.antt =====
-- agent/tools/tool.c and tool_registry.c: the table of tools, and the gate that every invocation
-- passes before a tool runs.
pub mod Gate
use mathlib.Core.Option
use isky.Prelude.{
  ℕ, zero, suc, List, [], ◌∷◌, ◌++◌, Bool, true, false, not, ◌&&◌, ◌||◌, Option, none, some, Text,
  text, str_eq, or_else, ltb, length, get_elem?, if◌then◌else◌,
}
use isky.Effects.{EventType, tool_started, tool_completed, tool_failed, Effect, event, Io, send}
use isky.Jsonx.{Json}
use isky.Permissions.{
  SecurityLevel, safe, low_risk, medium_risk, high_risk, critical, Permissions,
  permissions_is_enabled, permissions_needs_confirmation,
}
use isky.Reasoning.{RecoveryClass, none_class, tool_error, invalid_argument, permission_error}

unfoldable pub security_level_name : SecurityLevel → Text
security_level_name safe = text "SAFE"
security_level_name low_risk = text "LOW_RISK"
security_level_name medium_risk = text "MEDIUM_RISK"
security_level_name high_risk = text "HIGH_RISK"
security_level_name critical = text "CRITICAL"

pub record ToolResult (J : Type 0) : Type 0 where
  pub is_ok : Bool
  pub output : Option Text
  pub truncated : Bool
  pub error : Option Text
  pub error_class : RecoveryClass
  pub data_value : Option J

unfoldable pub tool_result_init : {J : Type 0} → ToolResult J
tool_result_init = record {
  is_ok = false;
  output = none;
  truncated = false;
  error = none;
  error_class = none_class;
  data_value = none;
}

unfoldable pub tool_result_ok : {J : Type 0} → Option Text → ToolResult J → ToolResult J
tool_result_ok output r = record r {
  is_ok = true;
  output = or_else output (some []);
  error = none;
  error_class = none_class;
}

unfoldable pub tool_result_fail : {J : Type 0} → RecoveryClass → Text → ToolResult J → ToolResult J
tool_result_fail c message r = record r {
  is_ok = false;
  error = some message;
  error_class = c;
  output = or_else r.output (some []);
}

-- `execute` gets the result as it was initialised, and also returns whether its return code is not
-- 0. The tools themselves are parameters here.
pub record AgentTool (W J : Type 0) : Type 0 where
  pub name : Text
  pub description : Text
  pub args_schema : Option Text
  pub security_level : SecurityLevel
  pub requires_confirmation : Bool
  pub execute : Option J → ToolResult J → Io W → Bool × ToolResult J × Io W

pub record ToolContext (W : Type 0) : Type 0 where
  pub permissions : Option Permissions
  pub confirm : Option (Text → SecurityLevel → Text → W → Bool × W)
  pub events : Bool

abbrev pub max_tools : ℕ
max_tools = 64

-- a bus is optional
pub notify : {W : Type 0} → ToolContext W → EventType → Text → Io W → Io W
unfolding send
notify ctx e name io = if ctx.events then send (event e 0 (some name)) io else io

pub disabled : {W : Type 0} → ToolContext W → Text → Bool
disabled ctx name = elim ctx.permissions [
  | none ↦ false
  | some perm ↦ not (permissions_is_enabled perm name)
]

pub summary : {J : Type 0} → Json J → Option J → Text
summary json none = text "{}"
summary json (some a) = json.print a

schema_line : Option Text → Text
schema_line none = []
schema_line (some []) = []
schema_line (some (c ∷ r)) = text "    args: " ++ ((c ∷ r) ++ text "\n")

module _ {W J : Type 0} where
  unfoldable pub tool_registry_find : List (AgentTool W J) → Text → Option (AgentTool W J)
  tool_registry_find [] name = none
  tool_registry_find (t ∷ rest) name =
      if str_eq t.name name then some t else tool_registry_find rest name

  add_tool :
      List (AgentTool W J) → AgentTool W J → Option (AgentTool W J) → List (AgentTool W J) × Bool
  add_tool tools t (some old) = (tools, false)
  add_tool tools t none = (tools ++ t ∷ [], true)

  -- The result is whether 0 is returned. A name is taken once.
  unfoldable pub tool_registry_register :
      List (AgentTool W J) → AgentTool W J → List (AgentTool W J) × Bool
  unfolding tool_registry_find add_tool
  tool_registry_register tools t =
      if ltb (length tools) max_tools
      then add_tool tools t (tool_registry_find tools t.name)
      else (tools, false)

  unfoldable pub tool_registry_count : List (AgentTool W J) → ℕ
  tool_registry_count tools = length tools

  unfoldable pub tool_registry_at : List (AgentTool W J) → ℕ → Option (AgentTool W J)
  tool_registry_at tools i = get_elem? tools i

  -- `need_conf`: the policy or the tool itself asks
  pub needs_approval : ToolContext W → Text → AgentTool W J → Bool
  needs_approval ctx name t = elim ctx.permissions [
    | none ↦ t.requires_confirmation
    | some perm ↦
        permissions_needs_confirmation perm name t.security_level || t.requires_confirmation
  ]

  -- what the code makes of a return code and a result: a dispatch error never counts as success
  pub normalize : Bool × ToolResult J × Io W → ToolResult J × Io W
  normalize (rc, r, io) =
      (if rc && r.is_ok then tool_result_fail tool_error (text "tool dispatch error") r else r, io)

  pub completion : ToolContext W → Text → ToolResult J × Io W → ToolResult J × Io W
  unfolding notify
  completion ctx name (r, io) =
      (r, notify ctx (if r.is_ok then tool_completed else tool_failed) name io)

  run_tool_body : ToolContext W → Text → AgentTool W J → Option J → Io W → ToolResult J × Io W
  unfolding notify normalize completion
  run_tool_body ctx name t args io =
      completion ctx name
        (normalize (t.execute args tool_result_init (notify ctx tool_started name io)))

  refusal : RecoveryClass → Text → Io W → ToolResult J × Io W
  refusal c message io = (tool_result_fail c message tool_result_init, io)

  -- the answer of the approver
  answered : ToolContext W → Text → AgentTool W J → Option J → Io W → Bool × W → ToolResult J × Io W
  unfolding run_tool_body refusal
  answered ctx name t args io (true, w) = run_tool_body ctx name t args (record io { world = w })
  answered ctx name t args io (false, w) =
      refusal permission_error (text "user denied confirmation for '" ++ (name ++ text "'"))
        (record io { world = w })

  -- the confirmation gate, for an invocation that needs one
  approve :
      Json J
      → ToolContext W
      → Option (Text → SecurityLevel → Text → W → Bool × W)
      → Text
      → AgentTool W J
      → Option J
      → Io W
      → ToolResult J × Io W
  unfolding answered refusal summary
  approve json ctx none name t args io =
      refusal permission_error
        (text "'"
          ++ (name
              ++ (text "' ("
                  ++ (security_level_name t.security_level
                      ++ text ") requires confirmation but no approver is attached; refusing"))))
        io
  approve json ctx (some ask) name t args io =
      answered ctx name t args io (ask name t.security_level (summary json args) io.world)

  execute_found :
      Json J → ToolContext W → Text → Option J → Io W → Option (AgentTool W J) → ToolResult J × Io W
  unfolding refusal disabled needs_approval approve run_tool_body
  execute_found json ctx name args io none =
      refusal invalid_argument (text "unknown tool '" ++ (name ++ text "'")) io
  execute_found json ctx name args io (some t) =
      if disabled ctx name
      then refusal permission_error
          (text "tool '" ++ (name ++ text "' is disabled by the permission policy")) io
      else if needs_approval ctx name t
      then approve json ctx ctx.confirm name t args io
      else run_tool_body ctx name t args io

  unfoldable pub tool_registry_execute :
      Json J → List (AgentTool W J) → ToolContext W → Text → Option J → Io W → ToolResult J × Io W
  unfolding tool_registry_find execute_found
  tool_registry_execute json tools ctx name args io =
      execute_found json ctx name args io (tool_registry_find tools name)

  tool_line : AgentTool W J → Text
  unfolding schema_line
  tool_line t =
      text "- "
      ++ (t.name
          ++ (text " ["
              ++ (security_level_name t.security_level
                  ++ (text "]: " ++ (t.description ++ (text "\n" ++ schema_line t.args_schema))))))

  -- The tools that the policy leaves enabled, one or two lines each.
  unfoldable pub tool_registry_describe : List (AgentTool W J) → ToolContext W → Text
  unfolding tool_line disabled
  tool_registry_describe [] ctx = []
  tool_registry_describe (t ∷ rest) ctx =
      let others = tool_registry_describe rest ctx in
      if disabled ctx t.name then others else tool_line t ++ others
