-- ===== src/State/Graph.antt =====
-- The transition diagram of agent/core/state.c as a relation, and what follows from it.
use mathlib.Core.Bool.{false≢true}
use isky.Prelude.{
  List, [], ◌∷◌, true, false, ◌≡◌, refl, ◌↔◌, ◌⊎◌, inl, inr, arith, Bool-cases, sym, ◌∙◌,
}
use isky.State.{
  AgentState, idle, analyzing, planning, executing, observing, verifying, recovering, completed,
  failed, waiting_user, agent_state_name, agent_state_is_terminal, allowed, agent_state_transition,
  transitions,
}

-- A task fails from every live state, completes from five, and waits for the user from four.
infix 40 ◌⟶◌
pub data ◌⟶◌ : AgentState → AgentState → Type 0 where
  analyze : idle ⟶ analyzing
  plan : analyzing ⟶ planning
  skip_plan : analyzing ⟶ executing
  start : planning ⟶ executing
  observe : executing ⟶ observing
  check_final : executing ⟶ verifying
  next_action : observing ⟶ executing
  check : observing ⟶ verifying
  recover : observing ⟶ recovering
  replan_observed : observing ⟶ planning
  replan_verified : verifying ⟶ planning
  next_step : verifying ⟶ executing
  recover_verified : verifying ⟶ recovering
  retry : recovering ⟶ executing
  replan : recovering ⟶ planning
  answer_analyze : waiting_user ⟶ analyzing
  answer_plan : waiting_user ⟶ planning
  answer_execute : waiting_user ⟶ executing
  ask_analyzing : analyzing ⟶ waiting_user
  ask_planning : planning ⟶ waiting_user
  ask_executing : executing ⟶ waiting_user
  ask_recovering : recovering ⟶ waiting_user
  done_analyzing : analyzing ⟶ completed
  done_planning : planning ⟶ completed
  done_executing : executing ⟶ completed
  done_observing : observing ⟶ completed
  done_verifying : verifying ⟶ completed
  give_up : {s : AgentState} → agent_state_is_terminal s ≡ false → s ⟶ failed

pub ruleset edges = (
  analyze, plan, skip_plan, start, observe, check_final, next_action, check, recover,
  replan_observed, replan_verified, next_step, recover_verified, retry, replan, answer_analyze,
  answer_plan, answer_execute, ask_analyzing, ask_planning, ask_executing, ask_recovering,
  done_analyzing, done_planning, done_executing, done_observing, done_verifying, give_up,
)

⟶-allowed : {a b : AgentState} → a ⟶ b → allowed a b ≡ true
unfolding allowed agent_state_is_terminal
⟶-allowed analyze = refl
⟶-allowed (give_up {s} h) = ground arith
⟶-allowed _ = refl

allowed-⟶ : (a b : AgentState) → allowed a b ≡ true → (a ≡ b) ⊎ (a ⟶ b)
unfolding allowed agent_state_is_terminal
allowed-⟶ idle idle h = inl refl
allowed-⟶ _ _ h = grind (arith, edges)

-- A transition succeeds exactly along an edge of the diagram or in place, and then moves to the
-- requested state; otherwise it reports failure and leaves the state as it was.
pub transition-⟶ :
    (a b : AgentState)
    → (((agent_state_transition a b).1 ≡ true) ↔ ((a ≡ b) ⊎ (a ⟶ b)))
      × ((agent_state_transition a b ≡ (b, true)) ⊎ (agent_state_transition a b ≡ (a, false)))
unfolding agent_state_transition
transition-⟶ a b = elim (Bool-cases (allowed a b)) [
  | inl ok ↦ rw ok ((λ _. allowed-⟶ a b ok, λ _. refl), inl refl)
  | inr bad ↦ rw bad ((λ h. cc, λ e. absurd (false≢true (sym bad ∙ back e))), inr refl)
]
  where
    back : (a ≡ b) ⊎ (a ⟶ b) → allowed a b ≡ true
    back (inl e) = ground arith
    back (inr e) = ⟶-allowed e

-- No sequence of requests leaves a terminal state.
pub transitions_terminal :
    (s : AgentState) (requests : List AgentState)
    → agent_state_is_terminal s ≡ true
    → transitions s requests ≡ s
unfolding transitions agent_state_is_terminal
transitions_terminal s [] h = refl
transitions_terminal completed (r ∷ rest) h =
    ground (arith, transitions_terminal completed rest refl)
transitions_terminal failed (r ∷ rest) h = ground (arith, transitions_terminal failed rest refl)
transitions_terminal _ (r ∷ rest) h = cc

-- Two states with one name are the same state.
pub agent_state_name-injective :
    (a b : AgentState) → agent_state_name a ≡ agent_state_name b → a ≡ b
unfolding agent_state_name
agent_state_name-injective idle idle h = refl
agent_state_name-injective _ _ h = ground arith
