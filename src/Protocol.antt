-- ===== src/Protocol.antt =====
-- agent/planner/protocol.c: the action that a model proposes, read from its text and validated.
pub mod Accepted
use mathlib.Core.Option
use isky.Prelude.{
  ℕ, List, [], ◌∷◌, ◌++◌, Bool, true, false, not, ◌||◌, Option, none, some, Text, text, str_eq, fit,
  is_blank, is_some, or_else, if◌then◌else◌,
}
use isky.Jsonx.{Json, jx_str, jx_obj, jx_arr, jx_extract_object}
use isky.Jsonx.Repair.{jx_repair_object}

pub data ActionType : Type 0 where
  invalid tool final ask_user plan reflect : ActionType

unfoldable pub action_type_name : ActionType → Text
action_type_name tool = text "tool"
action_type_name final = text "final"
action_type_name ask_user = text "ask_user"
action_type_name plan = text "plan"
action_type_name reflect = text "reflect"
action_type_name invalid = text "invalid"

pub record AgentAction (J : Type 0) : Type 0 where
  pub type : ActionType
  pub tool_name : Option Text
  pub arguments : Option J
  pub answer : Option Text
  pub question : Option Text
  pub message : Option Text
  pub expected_result : Option Text
  pub reason : Option Text
  pub steps : Option J
  pub raw : Option Text
  pub error : Text

unfoldable pub agent_action_init : {J : Type 0} → AgentAction J
agent_action_init = record {
  type = invalid;
  tool_name = none;
  arguments = none;
  answer = none;
  question = none;
  message = none;
  expected_result = none;
  reason = none;
  steps = none;
  raw = none;
  error = [];
}

abbrev error_size : ℕ
error_size = 256

type_of_name : Text → ActionType
type_of_name s =
    if str_eq s (text "tool")
    then tool
    else if str_eq s (text "final")
    then final
    else if str_eq s (text "ask_user")
    then ask_user
    else if str_eq s (text "plan")
    then plan
    else if str_eq s (text "reflect")
    then reflect
    else invalid

unfoldable pub type_of : Option Text → ActionType
unfolding type_of_name
type_of none = invalid
type_of (some s) = type_of_name s

module _ {J : Type 0} (json : Json J) where
  -- the `switch` of `fill_from_obj`
  fill_by_type : ActionType → J → AgentAction J → AgentAction J
  fill_by_type tool obj a = record a {
    tool_name = jx_str json obj (text "tool");
    arguments =
        or_else (or_else (jx_obj json obj (text "arguments")) (jx_obj json obj (text "input")))
          (some json.empty_object);
  }
  fill_by_type final obj a = record a {
    answer = or_else (jx_str json obj (text "answer")) (jx_str json obj (text "message"));
  }
  fill_by_type ask_user obj a = record a { question = jx_str json obj (text "question") }
  fill_by_type reflect obj a = record a { message = jx_str json obj (text "message") }
  fill_by_type plan obj a = record a { steps = jx_arr json obj (text "steps") }
  fill_by_type invalid obj a = record a {
    error = fit error_size (
        text "unknown or missing action '"
        ++ (Option.get_or (jx_str json obj (text "action")) (text "(none)") ++ text "'"));
  }

  unfoldable pub fill_from_obj : J → AgentAction J → AgentAction J
  unfolding fill_by_type type_of
  fill_from_obj obj a =
      let t = type_of (jx_str json obj (text "action")) in
      fill_by_type t obj (record a {
        type = t;
        reason = jx_str json obj (text "reason");
        expected_result = jx_str json obj (text "expected_result");
      })

  -- `model_text` is never NULL here: `decide_action` passes the text of a generation that
  -- succeeded.
  unfoldable pub agent_action_parse : Text → AgentAction J
  unfolding agent_action_init fill_from_obj
  agent_action_parse t = elim (jx_extract_object json t) [
    | some f ↦ fill_from_obj f.value (record agent_action_init { raw = some f.span })
    | none ↦ elim (jx_repair_object json t) [
      | some obj ↦ fill_from_obj obj (record agent_action_init { raw = some (json.print obj) })
      | none ↦ record agent_action_init {
        error = fit error_size (text "no valid JSON action object found in model output");
      }
    ]
  ]

  reject : Text → AgentAction J → AgentAction J × Bool
  reject message a = (record a { error = fit error_size message }, false)

  known_tool : Option (List Text) → Text → Bool
  known_tool none name = true
  known_tool (some []) name = false
  known_tool (some (t ∷ rest)) name = if str_eq t name then true else known_tool (some rest) name

  is_object : Option J → Bool
  is_object none = false
  is_object (some v) = json.is_object v

  -- `!steps || !IsArray(steps) || GetArraySize(steps) == 0`
  no_steps : Option J → Bool
  no_steps none = true
  no_steps (some v) = not (json.is_array v) || elim (json.items v) [ [] ↦ true | ◌∷◌ _ _ ↦ false ]

  validate_type : ActionType → AgentAction J → Option (List Text) → AgentAction J × Bool
  unfolding reject known_tool is_object no_steps
  validate_type invalid a tools = elim a.error [
    | [] ↦ reject (text "invalid action") a
    | ◌∷◌ _ _ ↦ (a, false)
  ]
  validate_type tool a tools =
      let name = Option.get_or a.tool_name [] in
      if is_blank a.tool_name
      then reject (text "tool action missing 'tool' name") a
      else if not (known_tool tools name)
      then reject (text "unknown tool '" ++ (name ++ text "'")) a
      else if not (is_object a.arguments)
      then reject (text "tool action arguments must be an object") a
      else (a, true)
  validate_type final a tools =
      if is_some a.answer then (a, true) else reject (text "final action missing 'answer'") a
  validate_type ask_user a tools =
      if is_blank a.question
      then reject (text "ask_user action missing 'question'") a
      else (a, true)
  validate_type plan a tools =
      if no_steps a.steps
      then reject (text "plan action needs a non-empty 'steps' array") a
      else (a, true)
  validate_type reflect a tools = (a, true)

  unfoldable pub agent_action_validate : AgentAction J → Option (List Text) → AgentAction J × Bool
  unfolding validate_type
  agent_action_validate a tools = validate_type a.type a tools
