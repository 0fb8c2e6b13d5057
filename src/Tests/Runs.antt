-- ===== src/Tests/Runs.antt =====
-- Iterations and runs of the loop at concrete inputs.
use isky.Prelude.{
  ℕ, ◌≡◌, refl, str_eq, fit, [], ◌∷◌, ◌++◌, true, false, none, some, pos, text, arith,
}
use mathlib.Core.Option
use isky.State.{AgentState, idle, executing, verifying, recovering, waiting_user}
use isky.Loop.{LoopCtx, decide_action, verify_step}
use isky.Loop.Round.{
  continue, return, run_completed, run_needs_user, round, loop_body, begin_round, to_state,
}
use isky.Loop.Round.States.{Ensures, round-Ensures}
use isky.Loop.Round.Total.{Returns, loop_body-Returns}
use isky.Loop.Round.Verdicts.{Decides, decision, final_recovering, ask_verifying, reflect_granted}
use isky.Loop.Run.{agent_loop_run, agent_loop_resume}
use isky.Loop.Run.Outcome.{agent_loop_run-Returns, agent_loop_resume-Returns}
use isky.Protocol.{ActionType}
use isky.Jsonx.{jx_extract_object, jx_str}
use isky.Tests.Fixture.{
  agent, final_object, ask_object, reflect_object, io, task_in, loop_in, options,
}

agent_loop_run-Returns_example :
    Returns (agent final_object) (agent_loop_run (agent final_object) (task_in idle) io options)
unfolding task_in
agent_loop_run-Returns_example =
    agent_loop_run-Returns (agent final_object) (task_in idle) io options refl refl refl

agent_loop_resume-Returns_example :
    Returns
      (agent final_object)
      (agent_loop_resume (agent final_object) (task_in waiting_user) io none options)
unfolding task_in
agent_loop_resume-Returns_example =
    agent_loop_resume-Returns (agent final_object) (task_in waiting_user) io none options (λ h. cc)
      refl

loop_body-Returns_example :
    Returns (agent final_object) (loop_body (agent final_object) options (loop_in executing) none)
unfolding loop_in
loop_body-Returns_example =
    loop_body-Returns (agent final_object) options (loop_in executing) none refl

round-Ensures_example : Ensures 1 3 (round (agent final_object) options (loop_in executing) none)
unfolding loop_in
round-Ensures_example =
    round-Ensures (agent final_object) 0 3 options (loop_in executing) none
      (record { iterations = refl; limit = refl; is_live = refl })

program : Unit {0}
unfolding decide_action begin_round loop_in agent final_object ask_object reflect_object text
    jx_extract_object jx_str Option.bind str_eq fit verify_step to_state
program = tt

final_decided :
    (s : AgentState) → Decides (agent final_object) options (loop_in s) none ActionType.final
unfolding program
final_decided s = record { is_valid = refl; has_type = refl }

ask_decided :
    (s : AgentState) → Decides (agent ask_object) options (loop_in s) none ActionType.ask_user
unfolding program
ask_decided s = record { is_valid = refl; has_type = refl }

reflect_decided :
    (s : AgentState) → Decides (agent reflect_object) options (loop_in s) none ActionType.reflect
unfolding program
reflect_decided s = record { is_valid = refl; has_type = refl }

-- the loop at a step whose check fails
abbrev checked_loop : ℕ → LoopCtx ℕ
checked_loop n = record (loop_in executing) {
  plan = record {
    goal = none;
    steps =
        record {
          id = pos 1;
          description = some [];
          tool = none;
          expected_result = none;
          verification = some (110 ∷ 111 ∷ 110 ∷ 101 ∷ 109 ∷ 112 ∷ 116 ∷ 121 ∷ []);
          done = false;
        }
        ∷ [];
    error = [];
  };
  step_attempts = n;
}

checked_decided :
    (n : ℕ) → Decides (agent final_object) options (checked_loop n) none ActionType.final
unfolding program
checked_decided n = record { is_valid = refl; has_type = refl }

final_recovering_example :
    (l' : LoopCtx ℕ) × (round (agent final_object) options (loop_in recovering) none
      ≡ return l' run_completed)
    × (l'.task.success ≡ true)
    × (l'.task.state ≡ recovering)
unfolding program
final_recovering_example =
    final_recovering (agent final_object) options (loop_in recovering) none
      (final_decided recovering) refl refl

ask_verifying_example :
    (l' : LoopCtx ℕ) × (round (agent ask_object) options (loop_in verifying) none
      ≡ return l' run_needs_user)
    × (l'.task.state ≡ verifying)
    × (l'.task.user_question
        ≡ (decision (agent ask_object) options (loop_in verifying) none).1.question)
unfolding loop_in
ask_verifying_example =
    ask_verifying (agent ask_object) options (loop_in verifying) none (ask_decided verifying) refl

reflect_granted_example :
    (l' : LoopCtx ℕ) × (round (agent reflect_object) options (loop_in executing) none
      ≡ continue l' (
          some (
            text "Noted: "
            ++ (Option.get_or
                  (decision (agent reflect_object) options (loop_in executing) none).1.message
                  []
                ++ text ". Now take a concrete action."))))
unfolding loop_in
reflect_granted_example =
    reflect_granted (agent reflect_object) options (loop_in executing) none
      (reflect_decided executing) (omega arith)
