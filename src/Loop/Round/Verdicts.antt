-- ===== src/Loop/Round/Verdicts.antt =====
-- What agent/core/agent_loop.c makes of the model's last words: final actions, questions and
-- reflections.
use mathlib.Core.Option
use isky.Prelude.{
  ◌+◌, ◌<◌, ◌≡◌, refl, ap, ◌∙◌, ◌++◌, Bool, true, false, not, ◌&&◌, Option, some, pos, leb, ltb_ℤ,
  [], Text, text, arith,
}
use isky.Effects.{task_completed, user_input_required}
use isky.State.{executing, verifying, recovering, completed, waiting_user, agent_state_transition}
use isky.Reasoning.{reflection_allowed, reflection_reset}
use isky.Protocol.{ActionType, AgentAction}
use isky.Loop.{Agent, LoopCtx, emit, decide_action, verify_step}
use isky.Loop.Facts.{decide_action-task, decide_action-refl, verify_step-task}
use isky.Loop.Round.{
  run_completed, run_needs_user, RunOptions, continue, return, to_state, finish, verification_note,
  attempts, question, on_final, on_ask, on_reflect, dispatch, act_on, answer, begin_round, round,
}

module _ {W J : Type 0} (a : Agent W J) where
  act_on-valid :
      (dry : Bool) (t : ActionType) (x : LoopCtx W × AgentAction J × Bool)
      → x.2 ≡ true
      → x.1.type ≡ t
      → act_on a dry x ≡ dispatch a dry t x.1 x.0
  unfolding act_on
  act_on-valid dry t (l, act, true) v e = ap (λ s. dispatch a dry s act l) e
  act_on-valid dry t (l, act, false) v e = cc

  -- What the loop does with a final action once it is verified, or once the retries are used up.
  finish-accepts :
      (act : AgentAction J) (x : LoopCtx W × Bool × Option Text)
      → (not x.1 && ltb_ℤ (pos x.0.step_attempts) a.cfg.max_retries) ≡ false
      → (l : LoopCtx W) × (finish a act x ≡ return l run_completed)
        × (l.task.success ≡ true)
        × (l.task.final_answer ≡ act.answer)
        × (l.task.state ≡ (agent_state_transition x.0.task.state completed).0)
  unfolding finish emit to_state
  finish-accepts act (l, ok, reason) h = (
    emit a task_completed act.answer (
        answer a act.answer
          (to_state completed (record l { task = record l.task { success = true } }))),
    rw h refl,
    refl,
    refl,
    refl,
  )

  finish-refuses :
      (act : AgentAction J) (x : LoopCtx W × Bool × Option Text)
      → x.1 ≡ false
      → ltb_ℤ (pos x.0.step_attempts) a.cfg.max_retries ≡ true
      → (l : LoopCtx W) × (hint : Option Text) × (finish a act x ≡ continue l hint)
        × (l.step_attempts ≡ x.0.step_attempts + 1)
  unfolding finish to_state
  finish-refuses act (l, ok, reason) v r = (
    to_state executing (attempts (l.step_attempts + 1) l),
    some (verification_note a reason),
    rw (v, r) refl,
    refl,
  )

  on_ask-returns :
      (act : AgentAction J) (l : LoopCtx W)
      → (l' : LoopCtx W) × (on_ask a act l ≡ return l' run_needs_user)
        × (l'.task.state ≡ (agent_state_transition l.task.state waiting_user).0)
        × (l'.task.user_question ≡ act.question)
  unfolding on_ask to_state emit
  on_ask-returns act l = (
    emit a user_input_required act.question (question a act.question (to_state waiting_user l)),
    refl,
    refl,
    refl,
  )

  on_reflect-granted :
      (act : AgentAction J) (l : LoopCtx W)
      → l.refl.used < l.refl.max
      → (l' : LoopCtx W) × (on_reflect a act l
          ≡ continue l' (
              some (
                text "Noted: "
                ++ (Option.get_or act.message [] ++ text ". Now take a concrete action."))))
  unfolding on_reflect reflection_allowed
  on_reflect-granted act l h =
      let e : leb l.refl.max l.refl.used ≡ false = ground arith in
      (record l { refl = (reflection_allowed l.refl).0 }, rw e refl)

module _ {W J : Type 0} (a : Agent W J) (opt : RunOptions) (l : LoopCtx W)
    (hint : Option Text) where
  -- The context after the decision of this iteration, the action, and whether it is valid.
  abbrev pub decision : LoopCtx W × AgentAction J × Bool
  decision = decide_action a hint (begin_round a l)

  -- The decision is a valid action of this type.
  pub record Decides (t : ActionType) : Type 0 where
    pub is_valid : decision.2 ≡ true
    pub has_type : decision.1.type ≡ t

  round-dispatch :
      (t : ActionType)
      → Decides t
      → round a opt l hint ≡ dispatch a opt.dry_run t decision.1 decision.0
  round-dispatch t d = unfold round in act_on-valid a opt.dry_run t decision d.is_valid d.has_type

  decision-task-state : decision.0.task.state ≡ l.task.state
  decision-task-state =
      ap (λ t. t.state) (decide_action-task a hint (begin_round a l))
      ∙ unfold begin_round emit in refl

  decision-budget : decision.0.refl ≡ reflection_reset l.refl
  decision-budget = decide_action-refl a hint (begin_round a l) ∙ unfold begin_round emit in refl

  -- the final verification of a decided final action
  abbrev pub final_check : LoopCtx W × Bool × Option Text
  final_check = verify_step a (to_state verifying decision.0)

  final_check-state : final_check.0.task.state ≡ (agent_state_transition l.task.state verifying).0
  final_check-state =
      ap (λ t. t.state) (verify_step-task a (to_state verifying decision.0))
      ∙ (unfold to_state in ap (λ s. (agent_state_transition s verifying).0) decision-task-state)

  -- A final action is accepted where its verification passes, and also where it fails once the
  -- failures of the step are no fewer than the configured retries: the task then counts as a success
  -- with the model's answer, and its state is what the diagram allows.
  final_accepted :
      Decides ActionType.final
      → (not final_check.1 && ltb_ℤ (pos final_check.0.step_attempts) a.cfg.max_retries) ≡ false
      → (l' : LoopCtx W) × (round a opt l hint ≡ return l' run_completed)
        × (l'.task.success ≡ true)
        × (l'.task.final_answer ≡ decision.1.answer)
        × (l'.task.state
            ≡ (agent_state_transition
                (agent_state_transition l.task.state verifying).0
                completed).0)
  final_accepted d h =
      let (l', r, s, f, e) = finish-accepts a decision.1 final_check h in
      (
        l',
        round-dispatch ActionType.final d ∙ (unfold dispatch on_final in r),
        s,
        f,
        e ∙ ap (λ s. (agent_state_transition s completed).0) final_check-state,
      )

  -- A final action right after a failed tool, accepted: the run reports a completed task that is a
  -- success, and the state of the task stays `recovering`, since the diagram has no edge from there
  -- to `verifying` or `completed`.
  pub final_recovering :
      Decides ActionType.final
      → l.task.state ≡ recovering
      → final_check.1 ≡ true
      → (l' : LoopCtx W) × (round a opt l hint ≡ return l' run_completed)
        × (l'.task.success ≡ true)
        × (l'.task.state ≡ recovering)
  final_recovering d s v =
      let (l', r, good, f, e) = final_accepted d (rw v refl) in
      (l', r, good, e ∙ (rw s (unfold agent_state_transition in refl)))

  -- A final action whose verification fails while retries are left is not accepted: the loop goes on,
  -- with one failure more counted.
  pub final_refused :
      Decides ActionType.final
      → final_check.1 ≡ false
      → ltb_ℤ (pos final_check.0.step_attempts) a.cfg.max_retries ≡ true
      → (l' : LoopCtx W) × (hint' : Option Text) × (round a opt l hint ≡ continue l' hint')
        × (l'.step_attempts ≡ final_check.0.step_attempts + 1)
  final_refused d v r =
      let (l', h', e, n) = finish-refuses a decision.1 final_check v r in
      (l', h', round-dispatch ActionType.final d ∙ (unfold dispatch on_final in e), n)

  -- A question to the user asked from `verifying`, that is right after a step that succeeded: the run
  -- reports that it waits for the user, and the state of the task stays `verifying`.
  pub ask_verifying :
      Decides ActionType.ask_user
      → l.task.state ≡ verifying
      → (l' : LoopCtx W) × (round a opt l hint ≡ return l' run_needs_user)
        × (l'.task.state ≡ verifying)
        × (l'.task.user_question ≡ decision.1.question)
  ask_verifying d s =
      let (l', e, st, q) = on_ask-returns a decision.1 decision.0 in
      (
        l',
        round-dispatch ActionType.ask_user d ∙ (unfold dispatch in e),
        st
            ∙ ap (λ s. (agent_state_transition s waiting_user).0) (decision-task-state ∙ s)
            ∙ (unfold agent_state_transition in refl),
        q,
      )

  -- A reflection is granted whatever was reflected before, since each iteration starts with a fresh
  -- budget: the answer for a used up budget is never given.
  pub reflect_granted :
      Decides ActionType.reflect
      → 0 < l.refl.max
      → (l' : LoopCtx W) × (round a opt l hint
          ≡ continue l' (
              some (
                text "Noted: "
                ++ (Option.get_or decision.1.message [] ++ text ". Now take a concrete action."))))
  reflect_granted d p =
      let (l', e) =
        on_reflect-granted a decision.1 decision.0
          (rw decision-budget (unfold reflection_reset in p)) in
      (l', round-dispatch ActionType.reflect d ∙ (unfold dispatch in e))
