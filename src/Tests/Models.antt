-- ===== src/Tests/Models.antt =====
-- The reading of a model's text, the memory and the search at concrete inputs.
use isky.Prelude.{
  ℕ, ◌↔◌, take, ◌≡◌, refl, arith, List, Option, Text, ◌↔◌, [], ◌∷◌, true, false, none, some, pos,
  text, positive_or,
}
use mathlib.Core.Option
use isky.Jsonx.{Json, jx_extract_object, jx_arr, jx_str}
use isky.Jsonx.Extract.{
  first_object, jx_extract_object-first_object, Occurs, jx_extract_object-Occurs,
}
use isky.Plan.{plan_parse_text}
use isky.Plan.Bounds.{IsUsable, plan_parse_text-IsUsable}
use isky.Planner.{Planner, planner_make_plan}
use isky.Planner.Plans.{planner_make_plan-IsUsable}
use isky.Protocol.{ActionType, AgentAction, agent_action_validate}
use isky.Protocol.Accepted.{IsAccepted, agent_action_validate_iff}
use isky.Context.{ContextParts, assemble, count, excess, context_build}
use isky.Context.Budget.{context_build_whole}
use isky.Permissions.{Permissions, risky}
use isky.Memory.{items, memory_init}
use isky.Memory.Window.{window, push_all, push_all-window}
use isky.Effects.{log}
use isky.Ascii.Search.{Contains, contains_ci_iff}
use isky.Ascii.{contains_ci}
use isky.Effects.Bus.{
  AgentEvent, event_bus_create, event_bus_subscribe, event_bus_emit, subscribe_all, deliver,
  event_bus_emit-deliver,
}
use isky.Tests.Fixture.{json_of, backend, final_object}

jx_extract_object-first_object_example :
    jx_extract_object (json_of final_object) (text "so {}")
    ≡ first_object (json_of final_object) (text "so {}")
jx_extract_object-first_object_example =
    jx_extract_object-first_object (json_of final_object) (text "so {}")

jx_extract_object-Occurs_example :
    Occurs (json_of final_object) (text "so {}") (record { value = final_object; span = text "{}" })
unfolding text jx_extract_object json_of
jx_extract_object-Occurs_example =
    jx_extract_object-Occurs (json_of final_object) (text "so {}")
      (record { value = final_object; span = text "{}" }) refl

-- Every candidate parses, every field is an array of one step, and every text is "go".
steps_json : Json ℕ
unfolding text
steps_json = record {
  parse = λ t. some 0;
  print = λ v. [];
  get = λ v key. some 1;
  as_string = λ v. some (text "go");
  as_int = λ v. none;
  as_bool = λ v. none;
  is_object = λ v. true;
  is_array = λ v. true;
  items = λ v. v ∷ [];
  empty_object = 0;
  make_string = λ t. 0;
  make_number = λ n. 0;
  make_bool = λ b. 0;
  make_array = λ vs. 0;
  make_object = λ fields. 0;
}

plan_parse_text-IsUsable_example : IsUsable (plan_parse_text steps_json (text "so {}")).0
unfolding text plan_parse_text steps_json jx_extract_object jx_arr Option.bind jx_str
plan_parse_text-IsUsable_example = plan_parse_text-IsUsable steps_json (text "so {}") refl

abbrev planner : Planner
planner = record { max_attempts = pos 2; max_tokens = pos 100; tools_desc = none }

planner_make_plan-IsUsable_example :
    IsUsable (planner_make_plan (json_of []) backend planner (text "go") none 7).0
planner_make_plan-IsUsable_example =
    planner_make_plan-IsUsable (json_of []) backend planner (text "go") none 7

push_all-window_example :
    items (push_all ((1 ∷ []) ∷ (2 ∷ []) ∷ (3 ∷ []) ∷ []) (memory_init false [] (pos 2)).st)
    ≡ window (positive_or (pos 2) 12) ((1 ∷ []) ∷ (2 ∷ []) ∷ (3 ∷ []) ∷ [])
push_all-window_example = push_all-window false [] (pos 2) ((1 ∷ []) ∷ (2 ∷ []) ∷ (3 ∷ []) ∷ [])

contains_ci_iff_example :
    (contains_ci (text "All OK") (98 ∷ []) ≡ true) ↔ Contains (text "All OK") (98 ∷ [])
contains_ci_iff_example = contains_ci_iff (text "All OK") (98 ∷ []) (λ h. cc)

abbrev question : AgentAction ℕ
question = record {
  type = ActionType.ask_user;
  tool_name = none;
  arguments = none;
  answer = none;
  question = some (63 ∷ []);
  message = none;
  expected_result = none;
  reason = none;
  steps = none;
  raw = none;
  error = [];
}

agent_action_validate_iff_example :
    ((agent_action_validate steps_json question (some [])).1 ≡ true)
    ↔ IsAccepted steps_json [] ActionType.ask_user question
agent_action_validate_iff_example = agent_action_validate_iff steps_json question []

abbrev parts : ContextParts
parts = record {
  system_prompt = none;
  role = none;
  goal = none;
  state = none;
  plan_json = none;
  tools_desc = none;
  memory = some (109 ∷ []);
  observations = some (111 ∷ []);
  step_desc = none;
  extra = none;
}

-- a tokenizer that counts 1000 tokens for every text
context_build_whole_example :
    context_build (some (λ t. 1000)) parts (pos 10)
    ≡ assemble parts (some (109 ∷ [])) (some (111 ∷ []))
unfolding excess count
context_build_whole_example =
    context_build_whole (some (λ t. 1000)) parts (pos 10) (111 ∷ []) (109 ∷ []) refl refl
      (omega arith) (omega arith)

-- two named children of every value
abbrev child_list : ℕ → List (Option Text × ℕ)
child_list v = (some (103 ∷ []), 0) ∷ (none, 1) ∷ []

abbrev no_policy : Permissions
no_policy = record { tools = []; approval = risky; autonomy = pos 2 }

abbrev note : ℕ → AgentEvent → List ℕ → List ℕ
note k ev seen = k ∷ ev.step ∷ seen

abbrev logged : AgentEvent
logged = record { type = log; task_id = []; data_text = none; step = 5 }

event_bus_emit-deliver_example :
    event_bus_emit (subscribe_all (note 1 ∷ note 2 ∷ []) (some event_bus_create)) log [] 5 none []
    ≡ deliver (take 16 (note 1 ∷ note 2 ∷ [])) logged []
event_bus_emit-deliver_example = event_bus_emit-deliver (note 1 ∷ note 2 ∷ []) logged []

test_bus :
    event_bus_emit (subscribe_all (note 1 ∷ note 2 ∷ []) (some event_bus_create)) log [] 5 none []
    ≡ 2 ∷ 5 ∷ 1 ∷ 5 ∷ []
unfolding event_bus_emit subscribe_all event_bus_subscribe event_bus_create
test_bus = refl
