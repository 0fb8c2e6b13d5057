-- ===== src/Loop.antt =====
-- agent/core/agent_loop.c: the state of the loop and the parts of one iteration: the decision, the
-- tool call, the check of a step, the recovery.
pub mod Facts
pub mod Round
pub mod Run
use mathlib.Core.Option
use isky.Prelude.{
  ℕ, zero, suc, ◌+◌, List, [], ◌∷◌, ◌++◌, map, Bool, true, false, not, ◌&&◌, ◌||◌, Option, none,
  some, ℤ, pos, ltb, Text, text, fit, is_blank, is_some, or_else, length, get_elem?, if◌then◌else◌,
}
use isky.Effects.{
  EventType, tool_selected, observation_created, verification_started, verification_passed,
  verification_failed, recovery_started, Effect, event, log_trace, log_message, log_tool_call, Io,
  send,
}
use isky.Jsonx.{Json}
use isky.State.{agent_state_name}
use isky.Task.{AgentTask}
use isky.Reasoning.{
  ReflectionBudget, RecoveryClass, RecoveryStrategy, retry, replan, ask_user, abort,
  recovery_class_name, recovery_strategy_for2, verify_check,
}
use isky.Model.{Request, Generation, generated, model_error, Backend}
use isky.Memory.{Memory, memory_add_observation, memory_recall, memory_recent_observations}
use isky.Context.{context_build}
use isky.Plan.{PlanStep, Plan, n_steps, plan_parse_verification}
use isky.Protocol.{
  ActionType, AgentAction, agent_action_init, agent_action_parse, agent_action_validate,
}
use isky.Registry.{ToolResult, AgentTool, ToolContext, tool_registry_execute}

-- The fields of `AgentConfig` that the loop reads.
pub record Config : Type 0 where
  pub max_tokens : ℤ
  pub max_retries : ℤ
  pub max_reflections : ℤ
  pub max_repair_attempts : ℤ

-- The agent, with what lies outside the program as functions of the world: the model, the tools,
-- the file system, the clock, the database search, and the `"%d"` of printf.
pub record Agent (W J : Type 0) : Type 0 where
  pub cfg : Config
  pub json : Json J
  pub backend : Backend W
  pub tools : List (AgentTool W J)
  pub context : ToolContext W
  pub workspace : Text
  pub has_db : Bool
  pub system_prompt : Text
  pub fs_exists : W → Text → Bool
  pub now : W → ℕ
  pub search : W → Text → Text → ℕ → List (Option Text)
  pub shown : ℤ → Text

pub record LoopCtx (W : Type 0) : Type 0 where
  pub task : AgentTask
  pub mem : Memory
  pub plan : Plan
  pub refl : ReflectionBudget
  pub tools_desc : Text
  pub last_exit_code : ℤ
  pub last_observation : Option Text
  pub step_attempts : ℕ
  pub io : Io W

module _ {W J : Type 0} (a : Agent W J) where
  -- One event to the bus, and one row of the trace where there is a database.
  unfoldable pub emit : EventType → Option Text → LoopCtx W → LoopCtx W
  unfolding send
  emit t payload l =
      let step = l.task.current_step in
      let io = send (event t step payload) l.io in
      record l { io = if a.has_db then send (log_trace t step payload) io else io }

  unfoldable pub set_obs : Option Text → LoopCtx W → LoopCtx W
  unfolding emit memory_add_observation
  set_obs obs l =
      let (mem, io) = memory_add_observation obs l.mem l.io in
      emit observation_created obs (record l { last_observation = obs; mem = mem; io = io })

  suggestion : Option Text → Text
  suggestion none = []
  suggestion (some []) = []
  suggestion (some (c ∷ r)) = text " | suggested tool: " ++ (c ∷ r)

  -- `stepbuf`, where there is a current step
  step_line : LoopCtx W → Option PlanStep → Option Text
  unfolding suggestion
  step_line l none = none
  step_line l (some s) = some (
      fit 512 (
        text "Step "
        ++ (a.shown (pos (l.task.current_step + 1))
            ++ (text "/"
                ++ (a.shown (pos (n_steps l.plan))
                    ++ (text ": " ++ (Option.get_or s.description [] ++ suggestion s.tool)))))))

  decision_prompt : LoopCtx W → Option Text → Text
  unfolding step_line memory_recall memory_recent_observations context_build agent_state_name
  decision_prompt l extra_note =
      context_build a.backend.count_tokens
        (record {
          system_prompt = some a.system_prompt;
          role = none;
          goal = some l.task.goal;
          state = some (agent_state_name l.task.state);
          plan_json = l.task.plan;
          tools_desc = some l.tools_desc;
          memory = some (memory_recall (a.search l.io.world) l.mem l.task.goal (pos 6));
          observations = some (memory_recent_observations l.mem 4000);
          step_desc = step_line l (get_elem? l.plan.steps l.task.current_step);
          extra = extra_note;
        })
        a.backend.context_window

  tool_name_list : List (AgentTool W J) → List Text
  tool_name_list = map (λ t. t.name)

  -- The action, and whether it is valid. A message of the model goes to the database.
  decided : LoopCtx W → Generation × W → LoopCtx W × AgentAction J × Bool
  unfolding agent_action_init agent_action_parse agent_action_validate tool_name_list
  decided l (model_error e, w) = (
    record l { io = record l.io { world = w } },
    record agent_action_init { error = fit 256 (text "model error: " ++ fit 231 e) },
    false,
  )
  decided l (generated t, w) =
      let io = record l.io { world = w } in
      let (act, valid) =
        agent_action_validate a.json (agent_action_parse a.json t)
          (some (tool_name_list a.tools)) in
      (
        record l {
          io = if a.has_db then send (log_message (text "assistant") (some t)) io else io;
        },
        act,
        valid,
      )

  unfoldable pub decide_action : Option Text → LoopCtx W → LoopCtx W × AgentAction J × Bool
  unfolding decision_prompt decided
  decide_action extra_note l = decided l (
      a.backend.generate
        (record { prompt = decision_prompt l extra_note; max_tokens = a.cfg.max_tokens })
        l.io.world)

  -- the exit code of the structured result, where it has one
  exit_code_of : Option J → ℤ → ℤ
  exit_code_of none old = old
  exit_code_of (some v) old =
      Option.get_or (Option.bind (a.json.get v (text "exit_code")) a.json.as_int) old

  args_text : Option J → Text
  args_text none = []
  args_text (some v) = a.json.print v

  called : AgentAction J → LoopCtx W → ToolResult J × Io W → LoopCtx W × ToolResult J
  unfolding exit_code_of args_text
  called act l (r, io) = (
    record l {
      io =
          if a.has_db
          then send
              (log_tool_call l.task.current_step (args_text act.arguments) r.is_ok
                (recovery_class_name r.error_class))
              io
          else io;
      last_exit_code = exit_code_of r.data_value l.last_exit_code;
    },
    r,
  )

  unfoldable pub run_tool : AgentAction J → LoopCtx W → LoopCtx W × ToolResult J
  unfolding emit called tool_registry_execute
  run_tool act l =
      let l' = emit tool_selected act.tool_name l in
      called act l' (
        tool_registry_execute a.json a.tools a.context (Option.get_or act.tool_name [])
          act.arguments l'.io)

  failed_reason : Option Text → Option Text
  failed_reason none = some (text "failed")
  failed_reason (some r) = some r

  check_step : LoopCtx W → Option Text → LoopCtx W × Bool × Option Text
  unfolding emit failed_reason verify_check plan_parse_verification
  check_step l spec =
      let l' = emit verification_started spec l in
      let (kind, arg) = plan_parse_verification spec 512 in
      let (ok, reason) =
        verify_check (a.fs_exists l'.io.world) a.shown (record { kind = kind; arg = arg })
          a.workspace l'.last_observation l'.last_exit_code in
      (
        emit (if ok then verification_passed else verification_failed)
            (if ok then spec else failed_reason reason) l',
        ok,
        reason,
      )

  verify_current : LoopCtx W → Option PlanStep → LoopCtx W × Bool × Option Text
  unfolding check_step
  verify_current l none = (l, true, none)
  verify_current l (some s) =
      if is_blank s.verification then (l, true, none) else check_step l s.verification

  -- A step with no check passes, and so does a task behind its last step.
  unfoldable pub verify_step : LoopCtx W → LoopCtx W × Bool × Option Text
  unfolding verify_current
  verify_step l = verify_current l (get_elem? l.plan.steps l.task.current_step)

  strategy_note : RecoveryStrategy → Text
  strategy_note retry = text "Retry with a corrected approach."
  strategy_note replan = text "Choose a DIFFERENT action; do not repeat the failed one."
  strategy_note ask_user = text "If you cannot proceed safely, ask the user."
  strategy_note abort = text "Recovery exhausted."

  observation_note : Option Text → Text
  observation_note none = []
  observation_note (some o) = text "Observation: " ++ (fit 401 o ++ text ". ")

  -- The strategy, by the failures of the step with this one, and the note for the model.
  unfoldable pub do_recovery : RecoveryClass → LoopCtx W → LoopCtx W × RecoveryStrategy × Text
  unfolding emit strategy_note observation_note recovery_strategy_for2
  do_recovery c l =
      let l' = emit recovery_started (some (recovery_class_name c)) l in
      let n = l'.step_attempts + 1 in
      let s = recovery_strategy_for2 c n a.cfg.max_retries a.cfg.max_repair_attempts in
      (
        record l' { step_attempts = n },
        s,
        text "The previous action failed ("
            ++ (recovery_class_name c
                ++ (text "). " ++ (observation_note l'.last_observation ++ strategy_note s))),
      )
