-- ===== src/Loop/Round.antt =====
-- `loop_body` of agent/core/agent_loop.c: one iteration as a function, with a branch for each type of
-- action, and the loop over the iteration budget.
pub mod States
pub mod Total
pub mod Verdicts
use mathlib.Core.Option
use isky.Prelude.{
  ℕ, zero, suc, ◌+◌, ◌-◌, List, [], ◌∷◌, ◌++◌, Bool, true, false, not, ◌&&◌, ◌||◌, Option, none,
  some, ℤ, pos, ltb, leb, ltb_ℤ, String, Text, text, set, get_elem?, length, or_else, if◌then◌else◌,
}
use isky.Effects.{
  EventType, step_started, task_completed, task_failed, user_input_required, plan_created, Effect,
  save_task, Io, send,
}
use isky.Jsonx.{Json}
use isky.State.{
  AgentState, executing, observing, verifying, recovering, completed, failed, waiting_user,
  agent_state_transition,
}
use isky.Task.{AgentTask, task_set_plan, task_set_answer, task_set_question}
use isky.Reasoning.{
  reflection_reset, reflection_allowed, RecoveryClass, none_class, tool_error, parser_error,
  RecoveryStrategy, retry, replan, ask_user, abort,
}
use isky.Memory.{Memory, memory_set_plan, memory_record_episode}
use isky.Plan.{PlanStep, Plan, n_steps, plan_from_steps_array, plan_to_json}
use isky.Protocol.{ActionType, AgentAction}
use isky.Registry.{ToolResult}
use isky.Loop.{Agent, LoopCtx, emit, set_obs, decide_action, run_tool, verify_step, do_recovery}

pub data RunOutcome : Type 0 where
  run_completed run_failed run_needs_user run_max_iters : RunOutcome

pub record RunOptions : Type 0 where
  pub plan_only : Bool
  pub dry_run : Bool

-- `continue` with the note for the next iteration, or `return`.
pub data Next (W : Type 0) : Type 0 where
  continue : LoopCtx W → Option Text → Next W
  return : LoopCtx W → RunOutcome → Next W

module _ {W : Type 0} where
  -- `agent_state_transition(&task->state, next)`, its result dropped
  unfoldable pub to_state : AgentState → LoopCtx W → LoopCtx W
  unfolding agent_state_transition
  to_state next l = record l {
    task = record l.task { state = (agent_state_transition l.task.state next).0 };
  }

  -- `if (current_step < n_steps) current_step++`
  unfoldable pub advance : LoopCtx W → LoopCtx W
  advance l =
      if ltb l.task.current_step (n_steps l.plan)
      then record l { task = record l.task { current_step = l.task.current_step + 1 } }
      else l

  -- the same, with the step marked as done
  mark_done : LoopCtx W → Option PlanStep → LoopCtx W
  unfolding advance
  mark_done l none = l
  mark_done l (some s) = advance (record l {
    plan = record l.plan {
      steps = set l.plan.steps l.task.current_step (record s { done = true });
    };
  })

  abbrev attempts : ℕ → LoopCtx W → LoopCtx W
  attempts n l = record l { step_attempts = n }

module _ {W J : Type 0} (a : Agent W J) where
  unfoldable pub answer : Option Text → LoopCtx W → LoopCtx W
  unfolding task_set_answer
  answer t l = record l { task = task_set_answer (a.now l.io.world) t l.task }

  question : Option Text → LoopCtx W → LoopCtx W
  unfolding task_set_question
  question t l = record l { task = task_set_question (a.now l.io.world) t l.task }

  unfoldable pub save : LoopCtx W → LoopCtx W
  unfolding send
  save l = if a.has_db then record l { io = send save_task l.io } else l

  -- No valid action: recovery with the class of a parser error.
  on_invalid : LoopCtx W × RecoveryStrategy × Text → Next W
  unfolding to_state answer question
  on_invalid (l, abort, hint) =
      return
        (answer (some (text "The model did not produce a valid action after retries."))
          (to_state failed l))
        run_failed
  on_invalid (l, ask_user, hint) =
      return
        (question (some (text "I could not determine a valid next step. How should I proceed?"))
          (to_state waiting_user l))
        run_needs_user
  on_invalid (l, retry, hint) = continue l (some hint)
  on_invalid (l, replan, hint) = continue l (some hint)

  verification_note : Option Text → Text
  verification_note reason =
      text "Verification failed before finalizing: "
      ++ (Option.get_or reason (text "unknown")
          ++ text ". Continue working; do not claim completion yet.")

  -- A final action, with the outcome of the final verification.
  finish : AgentAction J → LoopCtx W × Bool × Option Text → Next W
  unfolding to_state answer verification_note
  finish act (l, ok, reason) =
      if not ok && ltb_ℤ (pos l.step_attempts) a.cfg.max_retries
      then continue (to_state executing (attempts (l.step_attempts + 1) l))
          (some (verification_note reason))
      else return
          (emit a task_completed act.answer (
            answer act.answer
              (to_state completed (record l { task = record l.task { success = true } }))))
          run_completed

  on_final : AgentAction J → LoopCtx W → Next W
  unfolding finish
  on_final act l = finish act (verify_step a (to_state verifying l))

  on_ask : AgentAction J → LoopCtx W → Next W
  unfolding to_state question
  on_ask act l =
      return
        (emit a user_input_required act.question (question act.question (to_state waiting_user l)))
        run_needs_user

  on_reflect : AgentAction J → LoopCtx W → Next W
  unfolding reflection_allowed
  on_reflect act l =
      let (budget, granted) = reflection_allowed l.refl in
      continue (record l { refl = budget })
        (some (
          if granted
          then text "Noted: "
            ++ (Option.get_or act.message [] ++ text ". Now take a concrete action.")
          else text "Enough reflection. Take a concrete action now."))

  adopt : LoopCtx W → Plan × Bool → LoopCtx W
  unfolding plan_to_json task_set_plan memory_set_plan
  adopt l (p, false) = l
  adopt l (p, true) =
      let json = plan_to_json a.json p in
      attempts 0 (
        emit a plan_created (some json) (record l {
          plan = p;
          task = task_set_plan (a.now l.io.world) (some json) (n_steps p) l.task;
          mem = memory_set_plan (some json) l.mem;
        }))

  on_plan : AgentAction J → LoopCtx W → Next W
  unfolding adopt to_state plan_from_steps_array
  on_plan act l =
      continue
        (to_state executing (adopt l (plan_from_steps_array a.json act.steps (some l.task.goal))))
        none

  dry_text : AgentAction J → Text
  dry_text act =
      text "[dry-run] would execute tool '"
      ++ (Option.get_or act.tool_name []
          ++ (text "' with " ++ Option.get_or (Option.map a.json.print act.arguments) (text "{}")))

  dry_end : LoopCtx W → Next W
  unfolding to_state answer
  dry_end l =
      if leb (n_steps l.plan) l.task.current_step
      then return
          (to_state completed
            (answer (some (text "Dry run complete: listed the actions that would run.")) l))
          run_completed
      else continue l none

  on_dry_tool : AgentAction J → LoopCtx W → Next W
  unfolding dry_text dry_end advance
  on_dry_tool act l = dry_end (advance (set_obs a (some (dry_text act)) l))

  class_of : RecoveryClass → RecoveryClass
  class_of none_class = tool_error
  class_of c = c

  -- a failed tool, with the strategy of its recovery
  on_failure : LoopCtx W × RecoveryStrategy × Text → Next W
  unfolding to_state answer question
  on_failure (l, abort, hint) =
      return (emit a task_failed (some hint) (answer (some hint) (to_state failed l))) run_failed
  on_failure (l, ask_user, hint) =
      return
        (question (some (text "I hit an error I can't safely resolve. How should I proceed?"))
          (to_state waiting_user l))
        run_needs_user
  on_failure (l, retry, hint) = continue l (some hint)
  on_failure (l, replan, hint) = continue l (some hint)

  episode_field : String → Option Text → List (Text × J)
  episode_field key none = []
  episode_field key (some v) = (text key, a.json.make_string v) ∷ []

  -- `memory_record_episode`: the row of a failed call
  record_failure :
      AgentAction J
      → Option Text
      → LoopCtx W × RecoveryStrategy × Text
      → LoopCtx W × RecoveryStrategy × Text
  unfolding memory_record_episode episode_field
  record_failure act error (l, s, hint) =
      let object = a.json.make_object (
        (text "task", a.json.make_string l.task.goal)
        ∷ (episode_field "action" act.tool_name
            ++ ((text "result", a.json.make_string (text "failed"))
                ∷ episode_field "solution" error))) in
      (record l { io = memory_record_episode l.mem (a.json.print object) l.io }, s, hint)

  step_note : Option Text → Text
  step_note reason =
      text "Step verification failed: "
      ++ (Option.get_or reason (text "unknown") ++ text ". Adjust and try again.")

  -- A successful tool whose step does not verify: after too many failures the step is left.
  on_unverified : LoopCtx W → Option Text → Next W
  unfolding to_state advance step_note
  on_unverified l reason =
      let n = l.step_attempts + 1 in
      let l' = if ltb_ℤ a.cfg.max_retries (pos n) then attempts 0 (advance l) else attempts n l in
      continue (to_state executing l') (some (step_note reason))

  on_verified : LoopCtx W × Bool × Option Text → Next W
  unfolding on_unverified mark_done save
  on_verified (l, false, reason) = on_unverified l reason
  on_verified (l, true, reason) =
      continue (save (attempts 0 (mark_done l (get_elem? l.plan.steps l.task.current_step)))) none

  observed : LoopCtx W → ToolResult J → LoopCtx W
  unfolding to_state
  observed l r =
      set_obs a (if r.is_ok then r.output else or_else r.error (some (text "tool failed")))
        (to_state observing l)

  -- what the loop does with the result of a tool
  after_result : Bool → AgentAction J → ToolResult J → LoopCtx W → Next W
  after_result true act r l = on_verified (verify_step a (to_state verifying l))
  after_result false act r l =
      on_failure (
        record_failure act r.error (do_recovery a (class_of r.error_class) (to_state recovering l)))

  after_tool : AgentAction J → LoopCtx W × ToolResult J → Next W
  after_tool act (l, r) = after_result r.is_ok act r (observed l r)

  on_tool : Bool → AgentAction J → LoopCtx W → Next W
  on_tool true act l = on_dry_tool act l
  on_tool false act l = after_tool act (run_tool a act (to_state executing l))

  -- A valid action never has the type `invalid`; the code would go on to the tool branch.
  dispatch : Bool → ActionType → AgentAction J → LoopCtx W → Next W
  dispatch dry ActionType.final act l = on_final act l
  dispatch dry ActionType.ask_user act l = on_ask act l
  dispatch dry ActionType.reflect act l = on_reflect act l
  dispatch dry ActionType.plan act l = on_plan act l
  dispatch dry ActionType.tool act l = on_tool dry act l
  dispatch dry ActionType.invalid act l = on_tool dry act l

  act_on : Bool → LoopCtx W × AgentAction J × Bool → Next W
  act_on dry (l, act, true) = dispatch dry act.type act l
  act_on dry (l, act, false) = on_invalid (do_recovery a parser_error l)

  unfoldable pub begin_round : LoopCtx W → LoopCtx W
  unfolding reflection_reset
  begin_round l =
      let l' =
        emit a step_started none
          (record l { task = record l.task { iteration = l.task.iteration + 1 } }) in
      record l' { refl = reflection_reset l'.refl }

  -- one iteration
  unfoldable pub round : RunOptions → LoopCtx W → Option Text → Next W
  unfolding begin_round act_on on_invalid dispatch on_final on_ask on_reflect on_plan on_tool
      on_dry_tool after_tool after_result observed on_verified on_failure record_failure class_of
      to_state decide_action do_recovery run_tool verify_step
  round opt l hint = act_on opt.dry_run (decide_action a hint (begin_round l))

  unfoldable pub exhausted : LoopCtx W → LoopCtx W × RunOutcome
  unfolding to_state answer
  exhausted l = (
    emit a task_failed (some (text "max iterations")) (
        answer (some (text "Reached the maximum iteration budget without completing."))
          (to_state failed l)),
    run_max_iters,
  )

  -- `while (iteration < max_iterations)`, on fuel; none where the fuel runs out.
  unfoldable pub loop_from :
      ℕ → RunOptions → LoopCtx W → Option Text → Option (LoopCtx W × RunOutcome)
  unfolding exhausted
  loop_from zero opt l hint = none
  loop_from (suc fuel) opt l hint = elim (ltb l.task.iteration l.task.max_iterations) [
    | false ↦ some (exhausted l)
    | true ↦ elim (round opt l hint) [
      | continue l' hint' ↦ loop_from fuel opt l' hint'
      | return l' outcome ↦ some (l', outcome)
    ]
  ]

  unfoldable pub loop_body : RunOptions → LoopCtx W → Option Text → Option (LoopCtx W × RunOutcome)
  unfolding loop_from
  loop_body opt l hint = loop_from (l.task.max_iterations - l.task.iteration + 1) opt l hint
