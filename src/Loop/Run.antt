-- ===== src/Loop/Run.antt =====
-- `loop_setup_and_run`, `agent_loop_run` and `agent_loop_resume` of agent/core/agent_loop.c.
pub mod Outcome
use mathlib.Core.Option
use isky.Prelude.{
  ℕ, zero, suc, List, [], ◌∷◌, ◌++◌, Bool, true, false, ◌&&◌, Option, none, some, ℤ, pos, ltb, Text,
  text, fit, if◌then◌else◌,
}
use isky.Effects.{task_started, plan_created, log_message, Io, send}
use isky.State.{AgentState, analyzing, planning, executing, completed, agent_state_is_terminal}
use isky.Task.{AgentTask, task_set_plan}
use isky.Reasoning.{reflection_init}
use isky.Memory.{
  Memory, memory_init, memory_set_goal, memory_set_plan, memory_recall, memory_record_procedure,
}
use isky.Plan.{Plan, n_steps, plan_init, plan_parse_text, plan_to_json}
use isky.Planner.{Planner, planner_make_plan}
use isky.Registry.{tool_registry_describe}
use isky.Loop.{Agent, LoopCtx, emit}
use isky.Loop.Round.{RunOutcome, run_completed, RunOptions, to_state, answer, save, loop_body}

module _ {W J : Type 0} (a : Agent W J) where
  -- `L` at the start of a run
  fresh : AgentTask → Io W → LoopCtx W
  unfolding memory_init memory_set_goal reflection_init plan_init tool_registry_describe
  fresh task io = record {
    task = task;
    mem = memory_set_goal (some task.goal) (memory_init a.has_db task.id (pos 16));
    plan = plan_init;
    refl = reflection_init a.cfg.max_reflections;
    tools_desc = tool_registry_describe a.tools a.context;
    last_exit_code = pos 0;
    last_observation = none;
    step_attempts = 0;
    io = io;
  }

  planned : LoopCtx W → Plan × W → LoopCtx W
  unfolding plan_to_json task_set_plan memory_set_plan emit save
  planned l (p, w) =
      let json = plan_to_json a.json p in
      save a (
        emit a plan_created (some json) (record l {
          plan = p;
          task = task_set_plan (a.now w) (some json) (n_steps p) l.task;
          mem = memory_set_plan (some json) l.mem;
          io = record l.io { world = w };
        }))

  ask_planner : LoopCtx W → Plan × W
  unfolding memory_recall planner_make_plan
  ask_planner l =
      planner_make_plan a.json a.backend
        (record {
          max_attempts = a.cfg.max_retries;
          max_tokens = a.cfg.max_tokens;
          tools_desc = some l.tools_desc;
        })
        l.task.goal (some (memory_recall (a.search l.io.world) l.mem l.task.goal (pos 6)))
        l.io.world

  make_plan : LoopCtx W → LoopCtx W
  unfolding to_state planned ask_planner
  make_plan l = let l' = to_state planning (to_state analyzing l) in planned l' (ask_planner l')

  -- A task with no plan is planned first; a plan that it has is read again.
  with_plan : LoopCtx W → Option Text → LoopCtx W
  unfolding make_plan plan_parse_text
  with_plan l none = make_plan l
  with_plan l (some t) = record l { plan = (plan_parse_text a.json t).0 }

  unfoldable pub setup : AgentTask → Io W → LoopCtx W
  unfolding fresh emit save with_plan
  setup task io =
      with_plan (save a (emit a task_started (some task.goal) (fresh task io))) task.plan

  plan_only_end : LoopCtx W → LoopCtx W × RunOutcome
  unfolding to_state answer
  plan_only_end l = (
    to_state completed (answer a (some (Option.get_or l.task.plan (text "(no plan)"))) l),
    run_completed,
  )

  is_completed : RunOutcome → Bool
  is_completed run_completed = true
  is_completed _ = false

  -- A procedure is kept on success, and the task is saved.
  wrap_up : LoopCtx W × RunOutcome → LoopCtx W × RunOutcome
  unfolding is_completed memory_record_procedure save
  wrap_up (l, outcome) =
      let keep = is_completed outcome && a.has_db && ltb 0 (n_steps l.plan) in
      let name = fit 128 (text "goal:" ++ fit 101 l.task.goal) in
      (
        save a (
            if keep
            then record l {
              io = memory_record_procedure l.mem name (plan_to_json a.json l.plan) l.io;
            }
            else l),
        outcome,
      )

  unfoldable pub loop_setup_and_run :
      AgentTask → Io W → RunOptions → Option Text → Option (LoopCtx W × RunOutcome)
  unfolding setup plan_only_end wrap_up loop_body to_state
  loop_setup_and_run task io opt initial_note =
      let l = setup task io in
      Option.map wrap_up (
        if opt.plan_only
        then some (plan_only_end l)
        else loop_body a opt (to_state executing l) initial_note)

  unfoldable pub agent_loop_run : AgentTask → Io W → RunOptions → Option (LoopCtx W × RunOutcome)
  unfolding loop_setup_and_run
  agent_loop_run task io opt = loop_setup_and_run task io opt none

  -- The task as a resumed run finds it.
  resumed : AgentTask → AgentTask
  unfolding agent_state_is_terminal
  resumed task = record task {
    requires_user_input = false;
    user_question = none;
    state = if agent_state_is_terminal task.state then executing else task.state;
  }

  answer_note : Option Text → Text
  answer_note user_answer =
      text "The user answered: "
      ++ (Option.get_or user_answer (text "(no answer)") ++ text ". Continue the task using this.")

  unfoldable pub agent_loop_resume :
      AgentTask → Io W → Option Text → RunOptions → Option (LoopCtx W × RunOutcome)
  unfolding resumed answer_note loop_setup_and_run send
  agent_loop_resume task io user_answer opt =
      loop_setup_and_run (resumed task)
        (if a.has_db then send (log_message (text "user") user_answer) io else io) opt
        (some (answer_note user_answer))
