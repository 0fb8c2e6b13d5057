-- ===== src/Plan.antt =====
-- agent/planner/plan_parser.c: a plan from the text of a model, and back.
pub mod Bounds
use mathlib.Core.Option
use isky.Prelude.{
  ℕ, zero, suc, ◌+◌, ◌-◌, List, [], ◌∷◌, ◌++◌, Bool, true, false, Option, none, some, ℤ, pos, ltb,
  leb, ◌==◌, is_pos, Text, text, String, map, fit, is_blank, is_some, or_else, length, take,
  if◌then◌else◌,
}
use isky.Jsonx.{Json, Found, jx_str, jx_int, jx_arr, jx_extract_object}
use isky.Jsonx.Repair.{jx_repair_object}

pub record PlanStep : Type 0 where
  pub id : ℤ
  pub description : Option Text
  pub tool : Option Text
  pub expected_result : Option Text
  pub verification : Option Text
  pub done : Bool

pub record Plan : Type 0 where
  pub goal : Option Text
  pub steps : List PlanStep
  pub error : Text

abbrev pub n_steps : Plan → ℕ
n_steps p = length p.steps

unfoldable pub plan_init : Plan
plan_init = record { goal = none; steps = []; error = [] }

abbrev pub max_steps : ℕ
max_steps = 64

abbrev error_size : ℕ
error_size = 256

-- `min(n, 64)`, as both parsers bound the size of a plan
abbrev bound_size : ℕ → ℕ
bound_size n = if ltb max_steps n then max_steps else n

module _ {J : Type 0} (json : Json J) where
  -- The step that an object describes, at the place `idx`.
  read_step : ℕ → J → PlanStep
  read_step idx it = record {
    id = jx_int json it (text "id") (pos (idx + 1));
    description = or_else (jx_str json it (text "description")) (jx_str json it (text "step"));
    tool = jx_str json it (text "tool");
    expected_result = jx_str json it (text "expected_result");
    verification = jx_str json it (text "verification");
    done = false;
  }

  -- is `it` an object with a description or a step text?
  usable : ℕ → J → Bool
  unfolding read_step
  usable idx it = if json.is_object it then is_some (read_step idx it).description else false

  -- The loop over the children. `room` is `n - idx`.
  unfoldable pub read_steps : ℕ → ℕ → List J → List PlanStep
  unfolding read_step usable
  read_steps zero idx its = []
  read_steps (suc room) idx [] = []
  read_steps (suc room) idx (it ∷ its) = elim (usable idx it) [
    | true ↦ read_step idx it ∷ read_steps room (idx + 1) its
    | false ↦ read_steps (suc room) idx its
  ]

  -- a filled plan, or the error with `n_steps` 0
  checked_plan : Option Text → List PlanStep → Plan × Bool
  checked_plan goal [] = (
    record { goal = goal; steps = []; error = fit error_size (text "no usable steps in plan") },
    false,
  )
  checked_plan goal (s ∷ rest) = (record { goal = goal; steps = s ∷ rest; error = [] }, true)

  failed_plan : Text → Plan × Bool
  unfolding plan_init
  failed_plan message = (record plan_init { error = fit error_size message }, false)

  unfoldable pub plan_from_steps_array : Option J → Option Text → Plan × Bool
  unfolding read_steps checked_plan failed_plan
  plan_from_steps_array none goal = failed_plan (text "steps is not an array")
  plan_from_steps_array (some steps) goal =
      let n = length (json.items steps) in
      if json.is_array steps
      then if n == 0
        then failed_plan (text "empty plan")
        else checked_plan goal (read_steps (bound_size n) 0 (json.items steps))
      else failed_plan (text "steps is not an array")

  -- The simpler format: an array of strings.
  read_strings : ℕ → ℕ → List J → List PlanStep
  read_strings zero idx its = []
  read_strings (suc room) idx [] = []
  read_strings (suc room) idx (it ∷ its) = elim (json.as_string it) [
    | none ↦ read_strings (suc room) idx its
    | some s ↦
        record {
          id = pos (idx + 1);
          description = some s;
          tool = some [];
          expected_result = none;
          verification = none;
          done = false;
        }
        ∷ read_strings room (idx + 1) its
  ]

  strings_plan : List PlanStep → Plan × Bool
  unfolding plan_init
  strings_plan [] = (plan_init, false)
  strings_plan (s ∷ rest) = (record plan_init { steps = s ∷ rest }, true)

  -- The second format is tried only where the first was refused.
  plan_from_strings : Plan × Bool → Option J → Plan × Bool
  unfolding read_strings strings_plan
  plan_from_strings (p, true) arr = (p, true)
  plan_from_strings (p, false) none = (p, false)
  plan_from_strings (p, false) (some arr) =
      strings_plan (read_strings (bound_size (length (json.items arr))) 0 (json.items arr))

  plan_from_object : Option J → Plan × Bool
  unfolding plan_from_steps_array plan_from_strings
  plan_from_object none = failed_plan (text "no JSON plan found")
  plan_from_object (some obj) =
      plan_from_strings
        (plan_from_steps_array (jx_arr json obj (text "steps")) (jx_str json obj (text "goal")))
        (jx_arr json obj (text "plan"))

  unfoldable pub plan_parse_text : Text → Plan × Bool
  unfolding plan_from_object
  plan_parse_text t = plan_from_object (
      or_else (Option.map (λ (f : Found J). f.value) (jx_extract_object json t))
        (jx_repair_object json t))

module _ {J : Type 0} (json : Json J) where
  -- a string field, left out where the pointer is NULL
  text_field : String → Option Text → List (Text × J)
  text_field key none = []
  text_field key (some v) = (text key, json.make_string v) ∷ []

  step_object : PlanStep → J
  unfolding text_field
  step_object s = json.make_object (
      (text "id", json.make_number s.id)
      ∷ (text_field "description" s.description
          ++ (text_field "tool" s.tool
              ++ (text_field "expected_result" s.expected_result
                  ++ (text_field "verification" s.verification
                      ++ (text "done", json.make_bool s.done) ∷ [])))))

  unfoldable pub plan_to_json : Plan → Text
  unfolding text_field step_object
  plan_to_json p = json.print (
      json.make_object (
        text_field "goal" p.goal ++ (text "steps", json.make_array (map step_object p.steps)) ∷ []))

-- `strchr(scratch, ':')`: the part before the first colon, and the part behind it
split_colon : Text → Text × Option Text
split_colon [] = ([], none)
split_colon (c ∷ r) =
    let (kind, arg) = split_colon r in if c == b':' then ([], some r) else (c ∷ kind, arg)

-- The kind and the argument of a check. `scratchsz` bounds the text that is kept.
unfoldable pub plan_parse_verification : Option Text → ℕ → Option Text × Option Text
unfolding split_colon
plan_parse_verification none scratchsz = (none, none)
plan_parse_verification (some []) scratchsz = (none, none)
plan_parse_verification (some (c ∷ r)) scratchsz =
    let (kind, arg) = split_colon (fit scratchsz (c ∷ r)) in (some kind, arg)
