-- ===== src/Registry/Gate.antt =====
-- What must hold before a tool of agent/tools/tool_registry.c runs, and what a refusal leaves.
use isky.Prelude.{
  ◌≡◌, refl, ◌⊎◌, inl, inr, List, [], Bool, true, false, Option, none, some, Text, Bool-cases,
  Option-cases,
}
use isky.Effects.{Io, tool_started}
use isky.Jsonx.{Json}
use isky.Permissions.{SecurityLevel}
use isky.Reasoning.{RecoveryClass, invalid_argument, permission_error}
use isky.Registry.{
  ToolResult, tool_result_init, tool_result_fail, AgentTool, ToolContext, tool_registry_find,
  disabled, needs_approval, summary, refusal, answered, approve, execute_found, run_tool_body,
  completion, normalize, notify, tool_registry_execute,
}

module _ {W J : Type 0} (json : Json J) (ctx : ToolContext W) (name : Text) (args : Option J)
    (io : Io W) where
  -- An approver is attached, and this is its answer to this very invocation, with the state of the
  -- world behind it.
  abbrev Asked : SecurityLevel → Bool → W → Type 0
  Asked level said w =
      (ask : Text → SecurityLevel → Text → W → Bool × W) × (ctx.confirm ≡ some ask)
      × (ask name level (summary json args) io.world ≡ (said, w))

  -- A refusal: an error of one of two classes, an empty output, no effect sent, and a world in which
  -- nothing ran but, where there is one, the approver, who said no.
  pub record Refused (r : ToolResult J × Io W) : Type 0 where
    pub failed : r.0.is_ok ≡ false
    pub class : (r.0.error_class ≡ invalid_argument) ⊎ (r.0.error_class ≡ permission_error)
    pub output : r.0.output ≡ some []
    pub unsent : r.1.sent ≡ io.sent
    pub world : (r.1.world ≡ io.world) ⊎ ((level : SecurityLevel) × Asked level false r.1.world)

  -- The policy leaves the tool enabled, where a confirmation is wanted the approver said yes, and the
  -- result is that of the tool: `execute` runs once on the arguments, after the event of its start
  -- and in the world that the approver leaves, if one was asked; a dispatch error is a failure, and
  -- the event of its end follows.
  pub record Ran (t : AgentTool W J) (r : ToolResult J × Io W) : Type 0 where
    pub enabled : disabled ctx name ≡ false
    pub start : W
    pub confirmed :
        ((needs_approval ctx name t ≡ false) × (start ≡ io.world))
        ⊎ ((needs_approval ctx name t ≡ true) × Asked t.security_level true start)
    pub ran :
        r
        ≡ completion ctx name (
            normalize (
              t.execute args tool_result_init
                (notify ctx tool_started name (record io { world = start }))))

  refusal-Refused :
      (c : RecoveryClass) (message : Text) (w : W)
      → (c ≡ invalid_argument) ⊎ (c ≡ permission_error)
      → (w ≡ io.world) ⊎ ((level : SecurityLevel) × Asked level false w)
      → Refused (refusal c message (record io { world = w }))
  unfolding refusal tool_result_fail tool_result_init
  refusal-Refused c message w h there = record {
    failed = refl;
    class = h;
    output = refl;
    unsent = refl;
    world = there;
  }

  module _ (t : AgentTool W J) (on : disabled ctx name ≡ false) where
    answered_cases :
        needs_approval ctx name t ≡ true
        → (a : Bool × W) → Asked t.security_level a.0 a.1
        → Ran t (answered ctx name t args io a) ⊎ Refused (answered ctx name t args io a)
    unfolding answered run_tool_body
    answered_cases wanted (true, w) asked =
        inl (record { enabled = on; start = w; confirmed = inr (wanted, asked); ran = refl })
    answered_cases wanted (false, w) asked =
        inr (refusal-Refused _ _ w (inr refl) (inr (t.security_level, asked)))

    approve_cases :
        needs_approval ctx name t ≡ true
        → (confirm : Option (Text → SecurityLevel → Text → W → Bool × W)) → ctx.confirm ≡ confirm
        → Ran t (approve json ctx confirm name t args io)
          ⊎ Refused (approve json ctx confirm name t args io)
    unfolding approve
    approve_cases wanted none e = inr (refusal-Refused _ _ io.world (inr refl) (inl refl))
    approve_cases wanted (some ask) e =
        answered_cases wanted (ask name t.security_level (summary json args) io.world)
          (ask, e, refl)

  execute_found_cases :
      (t : AgentTool W J)
      → Ran t (execute_found json ctx name args io (some t))
        ⊎ Refused (execute_found json ctx name args io (some t))
  unfolding execute_found
  execute_found_cases t = elim (Bool-cases (disabled ctx name)) [
    | inl off ↦ inr (rw off (refusal-Refused _ _ io.world (inr refl) (inl refl)))
    | inr on ↦ elim (Bool-cases (needs_approval ctx name t)) [
      | inl wanted ↦ rw (on, wanted) (approve_cases t on wanted ctx.confirm refl)
      | inr free ↦ inl (
          rw (on, free)
            (record {
              enabled = on;
              start = io.world;
              confirmed = inl (free, refl);
              ran = unfold run_tool_body in refl;
            }))
    ]
  ]

  -- Every invocation either runs a registered tool, once, on its arguments, and gives its result,
  -- and then the policy enables the tool and, where a confirmation is wanted, the approver confirmed
  -- this invocation; or it is refused: nothing was sent, and nothing ran but the approver, if one was
  -- asked, who then said no.
  pub tool_registry_execute_gate :
      (tools : List (AgentTool W J))
      → ((t : AgentTool W J) × (tool_registry_find tools name ≡ some t)
          × Ran t (tool_registry_execute json tools ctx name args io))
        ⊎ Refused (tool_registry_execute json tools ctx name args io)
  unfolding tool_registry_execute
  tool_registry_execute_gate tools = elim (Option-cases (tool_registry_find tools name)) [
    | inl unknown ↦
        inr
          (rw unknown (unfold execute_found in refusal-Refused _ _ io.world (inl refl) (inl refl)))
    | inr (t, found) ↦ elim (execute_found_cases t) [
      | inl ok ↦ inl (t, found, rw found ok)
      | inr r ↦ inr (rw found r)
    ]
  ]
