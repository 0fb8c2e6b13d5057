-- ===== src/Planner.antt =====
-- agent/planner/planner.c: asking a model for a plan, with a bounded number of attempts and a plan
-- of one step behind them.
pub mod Plans
use isky.Prelude.{
  ℕ, zero, suc, ◌+◌, List, [], ◌∷◌, ◌++◌, Bool, true, false, Option, none, some, ℤ, pos, negsuc,
  is_pos, Text, text, String, positive_or, if◌then◌else◌,
}
use isky.Jsonx.{Json}
use isky.Model.{Request, Generation, generated, model_error, Backend}
use isky.Plan.{PlanStep, Plan, plan_init, plan_parse_text}

pub record Planner : Type 0 where
  pub max_attempts : ℤ
  pub max_tokens : ℤ
  pub tools_desc : Option Text

instructions : Text
instructions =
    (text "You are the PLANNER of an autonomous agent. Decompose the objective into a short "
      ++ (text "sequence of concrete, verifiable steps.\n"
          ++ (text "\n"
              ++ (text "Respond with ONE JSON object and nothing else:\n"
                  ++ (text "{\n"
                      ++ (text "  \"goal\": \"restated objective\",\n"
                          ++ (text "  \"steps\": [\n"
                              ++ (text
                                    "    {\"id\":1, \"description\":\"what to do\", \"tool\":\"tool_name_or_empty\", \""
                                  ++ (text
                                        "expected_result\":\"what success looks like\", \"verification\":\"file_exists:PAT"
                                      ++ (text "H | contains:TEXT | exit_zero | nonempty\"}\n"
                                          ++ (text "  ]\n"
                                              ++ (text "}\n"
                                                  ++ (text "\n"
                                                      ++ (text
                                                            "Rules: keep it minimal (1-8 steps). Use only listed tools. A step needing no tool"
                                                          ++ (text
                                                            " leaves \"tool\" empty. Prefer verifiable steps.\n"
                                                            ++ (text "\n"))))))))))))))))

-- a section of the prompt, left out when it is empty
block : String → Option Text → Text
block title none = []
block title (some []) = []
block title (some (c ∷ r)) = text title ++ ((c ∷ r) ++ text "\n")

build_prompt : Text → Option Text → Option Text → Text
unfolding instructions block
build_prompt goal tools mem =
    instructions
    ++ (block "AVAILABLE TOOLS:\n" tools
        ++ (block "RELEVANT MEMORY:\n" mem
            ++ (text "OBJECTIVE: " ++ (goal ++ text "\n\nJSON plan:\n"))))

-- The single step that hands the whole goal to the loop.
unfoldable pub fallback_plan : Text → Plan
unfolding plan_init
fallback_plan goal = record plan_init {
  goal = some goal;
  steps =
      record {
        id = pos 1;
        description = some goal;
        tool = some [];
        expected_result = none;
        verification = none;
        done = false;
      }
      ∷ [];
}

module _ {W J : Type 0} (json : Json J) (backend : Backend W) where
  parsed : Plan × Bool → Option Plan
  parsed (p, true) = some p
  parsed (p, false) = none

  -- the plan that a generation holds, if any
  plan_of : Generation → Option Plan
  unfolding parsed
  plan_of (model_error e) = none
  plan_of (generated t) = parsed (plan_parse_text json t)

  -- The loop over the attempts that are left.
  unfoldable pub attempts_left : ℕ → Request → W → Option Plan × W
  unfolding plan_of
  attempts_left zero req w = (none, w)
  attempts_left (suc k) req w =
      let (g, w') = backend.generate req w in
      elim (plan_of g) [ some p ↦ (some p, w') | none ↦ attempts_left k req w' ]

  abbrev or_fallback : Text → Option Plan × W → Plan × W
  or_fallback goal (some p, w) = (p, w)
  or_fallback goal (none, w) = (fallback_plan goal, w)

  plan_request : Planner → Text → Option Text → Request
  unfolding build_prompt
  plan_request pl goal mem = record {
    prompt = build_prompt goal pl.tools_desc mem;
    max_tokens = pos (positive_or pl.max_tokens 1024);
  }

  -- The result of the function is 1 on every path, but when memory runs out.
  unfoldable pub planner_make_plan : Planner → Text → Option Text → W → Plan × W
  unfolding plan_request attempts_left fallback_plan
  planner_make_plan pl goal mem w =
      or_fallback goal (attempts_left (positive_or pl.max_attempts 3) (plan_request pl goal mem) w)
