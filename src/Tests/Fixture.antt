-- ===== src/Tests/Fixture.antt =====
-- A small agent for the tests: flat objects of texts as JSON values, a model that always proposes
-- the same action, and one tool.
use isky.Prelude.{
  ℕ, List, [], ◌∷◌, true, false, Option, none, some, pos, Text, text, str_eq, if◌then◌else◌,
}
use isky.Effects.{Io}
use isky.Jsonx.{Json}
use isky.State.{AgentState}
use isky.Task.{AgentTask}
use isky.Model.{generated, Backend}
use isky.Memory.{memory_init}
use isky.Plan.{plan_init}
use isky.Permissions.{SecurityLevel, safe, risky, Permissions}
use isky.Registry.{AgentTool, ToolContext, tool_result_ok}
use isky.Loop.{Agent, LoopCtx}
use isky.Loop.Round.{RunOptions}

abbrev pub Fields : Type 0
Fields = List (Text × Text)

field : Fields → Text → Option Fields
field [] key = none
field ((k, v) ∷ rest) key = if str_eq k key then some (([], v) ∷ []) else field rest key

content : Fields → Option Text
content [] = none
content ((k, v) ∷ rest) = some v

-- Every candidate parses to `object`.
unfoldable pub json_of : Fields → Json Fields
unfolding field content
json_of object = record {
  parse = λ t. some object;
  print = λ v. [];
  get = field;
  as_string = content;
  as_int = λ v. none;
  as_bool = λ v. none;
  is_object = λ v. true;
  is_array = λ v. false;
  items = λ v. v ∷ [];
  empty_object = [];
  make_string = λ t. ([], t) ∷ [];
  make_number = λ n. [];
  make_bool = λ b. [];
  make_array = λ vs. [];
  make_object = λ fields. [];
}

unfoldable pub backend : Backend ℕ
unfolding text
backend = record {
  generate = λ r w. (generated (text "so {}"), w);
  count_tokens = some (λ t. 0);
  context_window = pos 4096;
}

unfoldable pub shell : SecurityLevel → AgentTool ℕ Fields
unfolding text
shell level = record {
  name = text "shell";
  description = text "runs";
  args_schema = none;
  security_level = level;
  requires_confirmation = false;
  execute = λ args r io. (false, tool_result_ok (some (text "done")) r, io);
}

abbrev pub policy : Permissions
policy = record { tools = []; approval = risky; autonomy = pos 3 }

unfoldable pub context : ToolContext ℕ
context = record { permissions = some policy; confirm = none; events = true }

unfoldable pub agent : Fields → Agent ℕ Fields
unfolding json_of backend shell context text
agent object = record {
  cfg = record {
    max_tokens = pos 100;
    max_retries = pos 2;
    max_reflections = pos 2;
    max_repair_attempts = pos 0;
  };
  json = json_of object;
  backend = backend;
  tools = shell safe ∷ [];
  context = context;
  workspace = [];
  has_db = false;
  system_prompt = text "act";
  fs_exists = λ w p. false;
  now = λ w. w;
  search = λ w kind query n. [];
  shown = λ n. [];
}

unfoldable pub final_object : Fields
unfolding text
final_object = (text "action", text "final") ∷ (text "answer", text "42") ∷ []

unfoldable pub ask_object : Fields
unfolding text
ask_object = (text "action", text "ask_user") ∷ (text "question", text "why") ∷ []

unfoldable pub reflect_object : Fields
unfolding text
reflect_object = (text "action", text "reflect") ∷ (text "message", text "hm") ∷ []

abbrev pub io : Io ℕ
io = record { world = 7; sent = [] }

unfoldable pub task_in : AgentState → AgentTask
task_in s = record {
  id = [];
  goal = [];
  state = s;
  plan = none;
  current_step = 0;
  total_steps = 0;
  max_iterations = 3;
  iteration = 0;
  success = false;
  requires_user_input = false;
  user_question = none;
  final_answer = none;
  created_at = 0;
  updated_at = 0;
}

-- a loop in the state `s`, with the reflection budget used up
unfoldable pub loop_in : AgentState → LoopCtx ℕ
unfolding task_in memory_init plan_init
loop_in s = record {
  task = task_in s;
  mem = memory_init false [] (pos 3);
  plan = plan_init;
  refl = record { used = 2; max = 2 };
  tools_desc = [];
  last_exit_code = pos 0;
  last_observation = none;
  step_attempts = 0;
  io = io;
}

abbrev pub options : RunOptions
options = record { plan_only = false; dry_run = false }
