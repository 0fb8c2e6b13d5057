-- ===== src/Effects.antt =====
-- What the program tells the outside: the events of agent/core/events.h, and the rows that it writes
-- to its database. What a handler does and SQLite are outside; a run keeps the log of what was sent to them.
pub mod Bus
use isky.Prelude.{ℕ, List, ◌∷◌, Option, Text, Bool}

pub data EventType : Type 0 where
  task_created task_started plan_created step_started : EventType
  tool_selected tool_started tool_completed tool_failed observation_created : EventType
  reflection_started verification_started verification_passed verification_failed : EventType
  recovery_started task_completed task_failed user_input_required model_output log : EventType

pub data Effect : Type 0 where
  event : EventType → ℕ → Option Text → Effect
  log_trace : EventType → ℕ → Option Text → Effect
  log_message : Text → Option Text → Effect
  log_tool_call : ℕ → Text → Bool → Text → Effect
  log_observation : Text → Effect
  save_task : Effect
  add_memory : Text → Text → Effect
  add_procedure : Text → Text → Effect

-- `W` is the state of what lies outside; `sent` holds the effects, the newest first.
pub record Io (W : Type 0) : Type 0 where
  pub world : W
  pub sent : List Effect

unfoldable pub send : {W : Type 0} → Effect → Io W → Io W
send e io = record io { sent = e ∷ io.sent }
