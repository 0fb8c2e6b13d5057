-- ===== src/Loop/Run/Outcome.antt =====
-- How a whole run and a resumed run of agent/core/agent_loop.c end.
use mathlib.Core.Option
use isky.Prelude.{◌≡◌, refl, sym, ap, ◌∙◌, ◌≢◌, ◌⊎◌, false, Option, none, some, Text, arith}
use isky.Effects.{Io, task_started}
use isky.State.{idle, analyzing, executing, planning, agent_state_is_terminal}
use isky.Task.{AgentTask}
use isky.Plan.{Plan, plan_parse_text}
use isky.Loop.{Agent, LoopCtx, emit}
use isky.Loop.Round.{RunOutcome, RunOptions, to_state, save}
use isky.Loop.Round.Total.{Returns, loop_body-Returns}
use isky.Loop.Run.{
  fresh, planned, ask_planner, make_plan, with_plan, setup, wrap_up, resumed, loop_setup_and_run,
  agent_loop_run, agent_loop_resume,
}

module _ {W J : Type 0} (a : Agent W J) where
  save-task : (l : LoopCtx W) → (save a l).task ≡ l.task
  unfolding save
  save-task l = ground arith

  wrap_up-task : (x : LoopCtx W × RunOutcome) → (wrap_up a x).0.task ≡ x.0.task
  unfolding wrap_up
  wrap_up-task (l, o) = save-task _ ∙ ground arith

  wrap_up-outcome : (x : LoopCtx W × RunOutcome) → (wrap_up a x).1 ≡ x.1
  unfolding wrap_up
  wrap_up-outcome (l, o) = refl

  wrap_up-Returns :
      (r : Option (LoopCtx W × RunOutcome)) → Returns a r → Returns a (Option.map (wrap_up a) r)
  wrap_up-Returns r h =
      let x : LoopCtx W × RunOutcome = (h.final, h.outcome) in
      record {
        final = (wrap_up a x).0;
        outcome = (wrap_up a x).1;
        returned = ap (Option.map (wrap_up a)) h.returned;
        agreed = rw (wrap_up-task x, wrap_up-outcome x) h.agreed;
      }

  planned-state : (l : LoopCtx W) (r : Plan × W) → (planned a l r).task.state ≡ l.task.state
  unfolding planned emit
  planned-state l (p, w) = ap (λ t. t.state) (save-task _)

  make_plan-state :
      (l : LoopCtx W)
      → (make_plan a l).task.state ≡ (to_state planning (to_state analyzing l)).task.state
  unfolding make_plan
  make_plan-state l =
      let l' = to_state planning (to_state analyzing l) in planned-state l' (ask_planner a l')

  started-state :
      (task : AgentTask) (io : Io W)
      → (save a (emit a task_started (some task.goal) (fresh a task io))).task ≡ task
  unfolding emit fresh
  started-state task io = save-task _

  to_planning :
      (l : LoopCtx W)
      → agent_state_is_terminal l.task.state ≡ false
      → let s = (to_state planning (to_state analyzing l)).task.state in
        (s ≡ planning) ⊎ (s ≡ executing)
  unfolding to_state agent_state_is_terminal
  to_planning l h = ground arith

  executing_from :
      (l : LoopCtx W)
      → agent_state_is_terminal l.task.state ≡ false
      → (l.task.state ≡ idle → ⊥)
      → (to_state executing l).task.state ≡ executing
  unfolding to_state agent_state_is_terminal
  executing_from l h i = ground arith

  -- A run begins to execute from every state that is not terminal, unless an idle task has a plan.
  begins :
      (l : LoopCtx W) (p : Option Text)
      → agent_state_is_terminal l.task.state ≡ false
      → (l.task.state ≡ idle → p ≡ none)
      → (to_state executing (with_plan a l p)).task.state ≡ executing
  unfolding with_plan
  begins l none h i =
      let l' = to_state planning (to_state analyzing l) in
      executing_from (make_plan a l) (ground (arith, make_plan-state l, to_planning l h))
        (λ e. ground (arith, make_plan-state l, to_planning l h))
  begins l (some t) h i =
      executing_from (record l { plan = (plan_parse_text a.json t).0 }) h (λ e. cc (i e))

  loop_setup_and_run-Returns :
      (task : AgentTask) (io : Io W) (opt : RunOptions) (hint : Option Text)
      → agent_state_is_terminal task.state ≡ false
      → (task.state ≡ idle → task.plan ≡ none)
      → opt.plan_only ≡ false
      → Returns a (loop_setup_and_run a task io opt hint)
  loop_setup_and_run-Returns task io opt hint h i p =
      let l = save a (emit a task_started (some task.goal) (fresh a task io)) in
      let e : l.task ≡ task = started-state task io in
      let here : (to_state executing (with_plan a l task.plan)).task.state ≡ executing =
        begins l task.plan (rw e h) (λ q. i (ap (λ t. t.state) (sym e) ∙ q)) in
      unfold loop_setup_and_run setup in
      simp p (
        wrap_up-Returns _ (
          loop_body-Returns a opt (to_state executing (with_plan a l task.plan)) hint
            (rw here refl)))

  -- A new task runs to the end: from an idle task with no plan a run that is not for the plan alone
  -- returns, and its outcome agrees with the state that the task is left in.
  pub agent_loop_run-Returns :
      (task : AgentTask) (io : Io W) (opt : RunOptions)
      → task.state ≡ idle
      → task.plan ≡ none
      → opt.plan_only ≡ false
      → Returns a (agent_loop_run a task io opt)
  agent_loop_run-Returns task io opt s p o =
      unfold agent_loop_run in
      loop_setup_and_run-Returns task io opt none (rw s (unfold agent_state_is_terminal in refl))
        (λ _. p) o

  resumed-live : (task : AgentTask) → agent_state_is_terminal (resumed a task).state ≡ false
  unfolding resumed agent_state_is_terminal
  resumed-live task = ground arith

  resumed-not_idle : (task : AgentTask) → task.state ≢ idle → (resumed a task).state ≢ idle
  unfolding resumed agent_state_is_terminal
  resumed-not_idle task s = ground arith

  -- A resumed task runs to the end, from every state but an idle one, the terminal states included,
  -- whatever the user answered, if the run is not for the plan alone.
  pub agent_loop_resume-Returns :
      (task : AgentTask) (io : Io W) (user_answer : Option Text) (opt : RunOptions)
      → task.state ≢ idle
      → opt.plan_only ≡ false
      → Returns a (agent_loop_resume a task io user_answer opt)
  agent_loop_resume-Returns task io user_answer opt s o =
      unfold agent_loop_resume in
      loop_setup_and_run-Returns (resumed a task) _ opt _ (resumed-live task)
        (λ e. absurd (resumed-not_idle task s e)) o
