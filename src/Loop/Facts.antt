-- ===== src/Loop/Facts.antt =====
-- The task and the plan across the parts of an iteration of agent/core/agent_loop.c.
use isky.Prelude.{◌≡◌, refl, Option, none, some, Text, is_blank, Bool-cases, inl, inr}
use isky.Effects.{EventType}
use isky.Model.{Generation, generated, model_error}
use isky.Plan.{PlanStep}
use isky.Protocol.{AgentAction}
use isky.Reasoning.{RecoveryClass}
use isky.Loop.{
  Agent, LoopCtx, emit, set_obs, decided, decide_action, run_tool, verify_current, verify_step,
  do_recovery,
}

module _ {W J : Type 0} (a : Agent W J) where
  pub emit-task :
      (t : EventType) (payload : Option Text) (l : LoopCtx W) → (emit a t payload l).task ≡ l.task
  unfolding emit
  emit-task t payload l = refl

  pub set_obs-task : (obs : Option Text) (l : LoopCtx W) → (set_obs a obs l).task ≡ l.task
  unfolding set_obs
  set_obs-task obs l = refl

  decided-task : (l : LoopCtx W) (g : Generation × W) → (decided a l g).0.task ≡ l.task
  unfolding decided
  decided-task l (model_error e, w) = refl
  decided-task l (generated t, w) = refl

  pub decide_action-task :
      (hint : Option Text) (l : LoopCtx W) → (decide_action a hint l).0.task ≡ l.task
  unfolding decide_action
  decide_action-task hint l = decided-task l _

  decided-refl : (l : LoopCtx W) (g : Generation × W) → (decided a l g).0.refl ≡ l.refl
  unfolding decided
  decided-refl l (model_error e, w) = refl
  decided-refl l (generated t, w) = refl

  pub decide_action-refl :
      (hint : Option Text) (l : LoopCtx W) → (decide_action a hint l).0.refl ≡ l.refl
  unfolding decide_action
  decide_action-refl hint l = decided-refl l _

  pub run_tool-task : (act : AgentAction J) (l : LoopCtx W) → (run_tool a act l).0.task ≡ l.task
  unfolding run_tool
  run_tool-task act l = refl

  verify_current-task :
      (l : LoopCtx W) (s : Option PlanStep) → (verify_current a l s).0.task ≡ l.task
  unfolding verify_current emit
  verify_current-task l none = refl
  verify_current-task l (some s) = elim (Bool-cases (is_blank s.verification)) [
    | inl e ↦ rw (e, verify_current) refl
    | inr e ↦ rw (e, verify_current) refl
  ]

  pub verify_step-task : (l : LoopCtx W) → (verify_step a l).0.task ≡ l.task
  unfolding verify_step
  verify_step-task l = verify_current-task l _

  pub do_recovery-task : (c : RecoveryClass) (l : LoopCtx W) → (do_recovery a c l).0.task ≡ l.task
  unfolding do_recovery
  do_recovery-task c l = refl
