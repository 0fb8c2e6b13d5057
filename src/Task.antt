-- ===== src/Task.antt =====
-- agent/core/task.c: a task and its setters. `now` is the clock reading of `time(NULL)`.
use isky.Prelude.{ℕ, [], Bool, false, Option, none, some, ℤ, positive_or, Text, is_some}
use isky.State.{AgentState, idle}

pub record AgentTask : Type 0 where
  pub id : Text
  pub goal : Text
  pub state : AgentState
  pub plan : Option Text
  pub current_step : ℕ
  pub total_steps : ℕ
  pub max_iterations : ℕ
  pub iteration : ℕ
  pub success : Bool
  pub requires_user_input : Bool
  pub user_question : Option Text
  pub final_answer : Option Text
  pub created_at : ℕ
  pub updated_at : ℕ

goal_of : Option Text → Text
goal_of none = []
goal_of (some g) = g

-- `id` is what `gen_id` made.
unfoldable pub task_create : ℕ → Text → Option Text → ℤ → AgentTask
unfolding goal_of
task_create now id goal max_iterations = record {
  id = id;
  goal = goal_of goal;
  state = idle;
  plan = none;
  current_step = 0;
  total_steps = 0;
  max_iterations = positive_or max_iterations 30;
  iteration = 0;
  success = false;
  requires_user_input = false;
  user_question = none;
  final_answer = none;
  created_at = now;
  updated_at = now;
}

unfoldable pub task_touch : ℕ → AgentTask → AgentTask
task_touch now t = record t { updated_at = now }

unfoldable pub task_set_plan : ℕ → Option Text → ℕ → AgentTask → AgentTask
unfolding task_touch
task_set_plan now plan_json total t =
    task_touch now (record t { plan = plan_json; total_steps = total; current_step = 0 })

unfoldable pub task_set_answer : ℕ → Option Text → AgentTask → AgentTask
unfolding task_touch
task_set_answer now answer t = task_touch now (record t { final_answer = answer })

unfoldable pub task_set_question : ℕ → Option Text → AgentTask → AgentTask
unfolding task_touch
task_set_question now question t =
    task_touch now (record t { user_question = question; requires_user_input = is_some question })
