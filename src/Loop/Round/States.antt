-- ===== src/Loop/Round/States.antt =====
-- The state of the task through an iteration of agent/core/agent_loop.c, and at its end.
use isky.Prelude.{
  ℕ, ◌+◌, ◌≡◌, refl, ap, ◌∙◌, Bool, true, false, not, ◌&&◌, ◌||◌, Option, none, some, pos, leb,
  ltb_ℤ, Text, get_elem?, Bool-cases, inl, inr, arith,
}
use isky.State.{
  AgentState, executing, observing, verifying, recovering, completed, failed, waiting_user, same,
}
use isky.Task.{AgentTask}
use isky.Reasoning.{RecoveryStrategy, retry, replan, ask_user, abort, parser_error}
use isky.Plan.{PlanStep, Plan, n_steps, plan_from_steps_array}
use isky.Protocol.{ActionType, AgentAction}
use isky.Registry.{ToolResult}
use isky.Loop.{Agent, LoopCtx, emit, set_obs, decide_action, run_tool, verify_step, do_recovery}
use isky.Loop.Facts.{
  decide_action-task, verify_step-task, run_tool-task, set_obs-task, do_recovery-task,
}
use isky.Loop.Round.{
  RunOutcome, run_completed, run_failed, run_needs_user, run_max_iters, RunOptions, Next, continue,
  return, to_state, advance, mark_done, save, on_invalid, finish, on_final, on_ask, on_reflect,
  adopt, on_plan, dry_end, dry_text, attempts, on_dry_tool, on_failure, record_failure,
  on_unverified, on_verified, observed, after_tool, class_of, after_result, on_tool, dispatch,
  act_on, begin_round, round,
}

-- the states in which an iteration begins
abbrev pub live : AgentState → Bool
live s = same s executing || same s verifying || same s recovering

-- An outcome and the state that the task is left in. A completion may leave it recovering, and a
-- question may leave it verifying, since the diagram has no edge from there.
abbrev pub agrees : RunOutcome → AgentState → Bool
agrees run_completed s = same s completed || same s recovering
agrees run_failed s = same s failed
agrees run_needs_user s = same s waiting_user || same s verifying
agrees run_max_iters s = same s failed

-- `n` iterations of `m` are counted, and the state is live.
pub record Good (n m : ℕ) (t : AgentTask) : Type 0 where
  pub iterations : t.iteration ≡ n
  pub limit : t.max_iterations ≡ m
  pub is_live : live t.state ≡ true

abbrev pub Ensures : {W : Type 0} → ℕ → ℕ → Next W → Type 0
Ensures n m (continue l hint) = Good n m l.task
Ensures n m (return l outcome) =
    (agrees outcome l.task.state ≡ true) × (l.task.iteration ≡ n) × (l.task.max_iterations ≡ m)

module _ {W : Type 0} (n m : ℕ) where
  Good-executing : (l : LoopCtx W) → Good n m l.task → Good n m (to_state executing l).task
  unfolding to_state
  Good-executing l g = ground arith

  Good-verifying : (l : LoopCtx W) → Good n m l.task → Good n m (to_state verifying l).task
  unfolding to_state
  Good-verifying l g = ground arith

  Good-advance : (l : LoopCtx W) → Good n m l.task → Good n m (advance l).task
  unfolding advance
  Good-advance l g = ground arith

module _ {W J : Type 0} (a : Agent W J) (n m : ℕ) where
  on_invalid-Ensures :
      (x : LoopCtx W × RecoveryStrategy × Text) → Good n m x.0.task → Ensures n m (on_invalid a x)
  unfolding on_invalid
  on_invalid-Ensures (l, abort, hint) g = ground arith
  on_invalid-Ensures (l, ask_user, hint) g = ground arith
  on_invalid-Ensures (l, retry, hint) g = g
  on_invalid-Ensures (l, replan, hint) g = g

  finish-Ensures :
      (act : AgentAction J) (x : LoopCtx W × Bool × Option Text)
      → Good n m x.0.task
      → Ensures n m (finish a act x)
  unfolding finish emit
  finish-Ensures act (l, ok, reason) g =
      elim (Bool-cases (not ok && ltb_ℤ (pos l.step_attempts) a.cfg.max_retries)) [
        | inl e ↦ rw e (ground arith)
        | inr e ↦ rw e (ground arith)
      ]

  on_final-Ensures :
      (act : AgentAction J) (l : LoopCtx W) → Good n m l.task → Ensures n m (on_final a act l)
  unfolding on_final
  on_final-Ensures act l g =
      finish-Ensures act (verify_step a (to_state verifying l))
        (rw (verify_step-task a (to_state verifying l)) (Good-verifying n m l g))

  on_ask-Ensures :
      (act : AgentAction J) (l : LoopCtx W) → Good n m l.task → Ensures n m (on_ask a act l)
  unfolding on_ask emit
  on_ask-Ensures act l g = ground arith

  on_reflect-Ensures :
      (act : AgentAction J) (l : LoopCtx W) → Good n m l.task → Ensures n m (on_reflect a act l)
  unfolding on_reflect
  on_reflect-Ensures act l g = g

  Good-adopt : (l : LoopCtx W) (p : Plan × Bool) → Good n m l.task → Good n m (adopt a l p).task
  unfolding adopt emit
  Good-adopt l (p, false) g = g
  Good-adopt l (p, true) g = ground arith

  on_plan-Ensures :
      (act : AgentAction J) (l : LoopCtx W) → Good n m l.task → Ensures n m (on_plan a act l)
  unfolding on_plan
  on_plan-Ensures act l g =
      let r = plan_from_steps_array a.json act.steps (some l.task.goal) in
      Good-executing n m (adopt a l r) (Good-adopt l r g)

  dry_end-Ensures : (l : LoopCtx W) → Good n m l.task → Ensures n m (dry_end a l)
  unfolding dry_end
  dry_end-Ensures l g = elim (Bool-cases (leb (n_steps l.plan) l.task.current_step)) [
    | inl e ↦ rw e (ground arith)
    | inr e ↦ rw e g
  ]

  on_dry_tool-Ensures :
      (act : AgentAction J) (l : LoopCtx W) → Good n m l.task → Ensures n m (on_dry_tool a act l)
  unfolding on_dry_tool
  on_dry_tool-Ensures act l g =
      let l' = set_obs a (some (dry_text a act)) l in
      dry_end-Ensures (advance l') (Good-advance n m l' (rw (set_obs-task a) g))

  on_unverified-Ensures :
      (l : LoopCtx W) (reason : Option Text)
      → Good n m l.task
      → Ensures n m (on_unverified a l reason)
  unfolding on_unverified
  on_unverified-Ensures l reason g =
      let k = l.step_attempts + 1 in
      elim (Bool-cases (ltb_ℤ a.cfg.max_retries (pos k))) [
        | inl e ↦ rw e (Good-executing n m (attempts 0 (advance l)) (Good-advance n m l g))
        | inr e ↦ rw e (Good-executing n m (attempts k l) g)
      ]

  mark_done-Good :
      (l : LoopCtx W) (s : Option PlanStep) → Good n m l.task → Good n m (mark_done l s).task
  unfolding mark_done
  mark_done-Good l none g = g
  mark_done-Good l (some s) g = ground arith

  save-task : (l : LoopCtx W) → (save a l).task ≡ l.task
  unfolding save
  save-task l = ground arith

  on_verified-Ensures :
      (x : LoopCtx W × Bool × Option Text) → Good n m x.0.task → Ensures n m (on_verified a x)
  unfolding on_verified
  on_verified-Ensures (l, false, reason) g = on_unverified-Ensures l reason g
  on_verified-Ensures (l, true, reason) g =
      rw save-task (mark_done-Good l (get_elem? l.plan.steps l.task.current_step) g)

  on_failure-Ensures :
      (x : LoopCtx W × RecoveryStrategy × Text)
      → Good n m x.0.task
      → x.0.task.state ≡ recovering
      → Ensures n m (on_failure a x)
  unfolding on_failure emit
  on_failure-Ensures (l, abort, hint) g e = ground arith
  on_failure-Ensures (l, ask_user, hint) g e = ground arith
  on_failure-Ensures (l, retry, hint) g e = g
  on_failure-Ensures (l, replan, hint) g e = g

  record_failure-task :
      (act : AgentAction J) (error : Option Text) (x : LoopCtx W × RecoveryStrategy × Text)
      → (record_failure a act error x).0.task ≡ x.0.task
  unfolding record_failure
  record_failure-task act error x = refl

  -- After a call the task is observing, from any live state.
  record Called (t : AgentTask) : Type 0 where
    iterations : t.iteration ≡ n
    limit : t.max_iterations ≡ m
    state : t.state ≡ observing

  observed-Called :
      (l : LoopCtx W) (r : ToolResult J)
      → Good n m l.task
      → l.task.state ≡ executing
      → Called (observed a l r).task
  unfolding observed
  observed-Called l r g e = rw (set_obs-task a) (unfold to_state in ground arith)

  after_result-Ensures :
      (ok : Bool) (act : AgentAction J) (r : ToolResult J) (l : LoopCtx W)
      → Called l.task
      → Ensures n m (after_result a ok act r l)
  unfolding after_result
  after_result-Ensures true act r l c =
      on_verified-Ensures (verify_step a (to_state verifying l))
        (rw (verify_step-task a (to_state verifying l)) (unfold to_state in ground arith))
  after_result-Ensures false act r l c =
      let l' = to_state recovering l in
      let x = do_recovery a (class_of a r.error_class) l' in
      let good : Good n m l'.task = unfold to_state in ground arith in
      let here : l'.task.state ≡ recovering = unfold to_state in ground arith in
      let same' : (record_failure a act r.error x).0.task ≡ l'.task =
        record_failure-task act r.error x ∙ do_recovery-task a (class_of a r.error_class) l' in
      on_failure-Ensures (record_failure a act r.error x) (rw same' good)
        (ap (λ t. t.state) same' ∙ here)

  after_tool-Ensures :
      (act : AgentAction J) (x : LoopCtx W × ToolResult J)
      → Good n m x.0.task
      → x.0.task.state ≡ executing
      → Ensures n m (after_tool a act x)
  unfolding after_tool
  after_tool-Ensures act (l, r) g e =
      after_result-Ensures r.is_ok act r (observed a l r) (observed-Called l r g e)

  executing-state :
      (l : LoopCtx W) → Good n m l.task → (to_state executing l).task.state ≡ executing
  unfolding to_state
  executing-state l g = ground arith

  on_tool-Ensures :
      (dry : Bool) (act : AgentAction J) (l : LoopCtx W)
      → Good n m l.task
      → Ensures n m (on_tool a dry act l)
  unfolding on_tool
  on_tool-Ensures true act l g = on_dry_tool-Ensures act l g
  on_tool-Ensures false act l g =
      let l' = to_state executing l in
      after_tool-Ensures act (run_tool a act l')
        (rw (run_tool-task a act l') (Good-executing n m l g))
        (ap (λ t. t.state) (run_tool-task a act l') ∙ executing-state l g)

  dispatch-Ensures :
      (dry : Bool) (t : ActionType) (act : AgentAction J) (l : LoopCtx W)
      → Good n m l.task
      → Ensures n m (dispatch a dry t act l)
  unfolding dispatch
  dispatch-Ensures dry ActionType.final act l g = on_final-Ensures act l g
  dispatch-Ensures dry ActionType.ask_user act l g = on_ask-Ensures act l g
  dispatch-Ensures dry ActionType.reflect act l g = on_reflect-Ensures act l g
  dispatch-Ensures dry ActionType.plan act l g = on_plan-Ensures act l g
  dispatch-Ensures dry ActionType.tool act l g = on_tool-Ensures dry act l g
  dispatch-Ensures dry ActionType.invalid act l g = on_tool-Ensures dry act l g

  act_on-Ensures :
      (dry : Bool) (x : LoopCtx W × AgentAction J × Bool)
      → Good n m x.0.task
      → Ensures n m (act_on a dry x)
  unfolding act_on
  act_on-Ensures dry (l, act, true) g = dispatch-Ensures dry act.type act l g
  act_on-Ensures dry (l, act, false) g =
      on_invalid-Ensures (do_recovery a parser_error l) (rw (do_recovery-task a parser_error l) g)

module _ {W J : Type 0} (a : Agent W J) where
  begin_round-Good :
      (n m : ℕ) (l : LoopCtx W) → Good n m l.task → Good (n + 1) m (begin_round a l).task
  unfolding begin_round emit
  begin_round-Good n m l g = ground arith

  -- An iteration that begins in a live state counts one iteration and leaves the budget alone, whether
  -- it goes on or returns, and it either goes on in a live state or returns an outcome that agrees with the state of the task.
  pub round-Ensures :
      (n m : ℕ) (opt : RunOptions) (l : LoopCtx W) (hint : Option Text)
      → Good n m l.task
      → Ensures (n + 1) m (round a opt l hint)
  round-Ensures n m opt l hint g =
      unfold round in
      act_on-Ensures a (n + 1) m opt.dry_run (decide_action a hint (begin_round a l))
        (rw (decide_action-task a hint (begin_round a l)) (begin_round-Good n m l g))
