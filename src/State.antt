-- ===== src/State.antt =====
-- agent/core/state.c: the states of a task, and the guarded transition between them. The log line of a
-- rejected transition is left out.
pub mod Graph
use isky.Prelude.{List, [], ◌∷◌, Bool, true, false, ◌||◌, if◌then◌else◌, Text, text}

pub data AgentState : Type 0 where
  idle analyzing planning executing observing : AgentState
  verifying recovering completed failed waiting_user : AgentState

-- `a == b` on the enum
abbrev pub same : AgentState → AgentState → Bool
same idle idle = true
same analyzing analyzing = true
same planning planning = true
same executing executing = true
same observing observing = true
same verifying verifying = true
same recovering recovering = true
same completed completed = true
same failed failed = true
same waiting_user waiting_user = true
same _ _ = false

unfoldable pub agent_state_name : AgentState → Text
unfolding text
agent_state_name idle = text "IDLE"
agent_state_name analyzing = text "ANALYZING"
agent_state_name planning = text "PLANNING"
agent_state_name executing = text "EXECUTING"
agent_state_name observing = text "OBSERVING"
agent_state_name verifying = text "VERIFYING"
agent_state_name recovering = text "RECOVERING"
agent_state_name completed = text "COMPLETED"
agent_state_name failed = text "FAILED"
agent_state_name waiting_user = text "WAITING_USER"

unfoldable pub agent_state_is_terminal : AgentState → Bool
agent_state_is_terminal s = same s completed || same s failed

-- the `switch` of `allowed`, by its first argument
switch_allowed : AgentState → AgentState → Bool
switch_allowed idle b = same b analyzing || same b failed
switch_allowed analyzing b =
    same b planning || same b executing || same b waiting_user || same b completed || same b failed
switch_allowed planning b =
    same b executing || same b waiting_user || same b failed || same b completed
switch_allowed executing b =
    same b observing || same b waiting_user || same b verifying || same b completed || same b failed
switch_allowed observing b =
    same b executing
    || same b verifying
    || same b recovering
    || same b planning
    || same b completed
    || same b failed
switch_allowed verifying b =
    same b completed || same b planning || same b executing || same b recovering || same b failed
switch_allowed recovering b =
    same b executing || same b planning || same b waiting_user || same b failed
switch_allowed waiting_user b =
    same b analyzing || same b planning || same b executing || same b failed
switch_allowed completed b = false
switch_allowed failed b = false

unfoldable pub allowed : AgentState → AgentState → Bool
unfolding agent_state_is_terminal switch_allowed
allowed a b =
    if same a b then true else if agent_state_is_terminal a then false else switch_allowed a b

-- `agent_state_transition(&cur, next)`: the new value of `cur`, and the result
unfoldable pub agent_state_transition : AgentState → AgentState → AgentState × Bool
unfolding allowed
agent_state_transition cur next = if allowed cur next then (next, true) else (cur, false)

-- a sequence of requests, its results dropped, as the loop makes them
unfoldable pub transitions : AgentState → List AgentState → AgentState
unfolding agent_state_transition
transitions s [] = s
transitions s (next ∷ rest) = transitions (agent_state_transition s next).0 rest
