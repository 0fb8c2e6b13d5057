-- ===== src/Plan/Bounds.antt =====
-- The size and the content of the plans that agent/planner/plan_parser.c lets through.
use isky.Prelude.{
  ℕ, zero, suc, ◌+◌, ◌≤◌, ◌<◌, ◌≡◌, refl, List, [], ◌∷◌, true, false, Option, none, some, inl, inr,
  Text, Bool, ◌==◌, is_some, length, All, Bool-cases, Option-cases, if◌then◌else◌, arith,
}
use isky.Jsonx.{Json}
use isky.Plan.{
  PlanStep, Plan, failed_plan, n_steps, max_steps, bound_size, read_step, usable, read_steps,
  checked_plan, plan_from_steps_array, read_strings, strings_plan, plan_from_strings,
  plan_from_object, plan_parse_text,
}

abbrev pub HasDescription : PlanStep → Type 0
HasDescription s = is_some s.description ≡ true

pub record IsUsable (p : Plan) : Type 0 where
  pub some_step : 0 < n_steps p
  pub bounded : n_steps p ≤ max_steps
  pub described : All HasDescription p.steps

module _ {J : Type 0} (json : Json J) where
  usable-HasDescription :
      (idx : ℕ) (it : J) → usable json idx it ≡ true → HasDescription (read_step json idx it)
  unfolding usable
  usable-HasDescription idx it h = ground arith

  read_steps_bounds :
      (room idx : ℕ) (its : List J)
      → (length (read_steps json room idx its) ≤ room)
        × All HasDescription (read_steps json room idx its)
  unfolding read_steps usable
  read_steps_bounds zero idx its = (omega arith, tt)
  read_steps_bounds (suc room) idx [] = (omega arith, tt)
  read_steps_bounds (suc room) idx (it ∷ its) = elim (Bool-cases (usable json idx it)) [
    | inl good ↦
        let (n, d) = read_steps_bounds room (idx + 1) its in
        rw (good, read_steps) (omega arith, (usable-HasDescription idx it good, d))
    | inr bad ↦ rw (bad, read_steps) (read_steps_bounds (suc room) idx its)
  ]

  read_strings_bounds :
      (room idx : ℕ) (its : List J)
      → (length (read_strings json room idx its) ≤ room)
        × All HasDescription (read_strings json room idx its)
  unfolding read_strings
  read_strings_bounds zero idx its = (omega arith, tt)
  read_strings_bounds (suc room) idx [] = (omega arith, tt)
  read_strings_bounds (suc room) idx (it ∷ its) = elim (Option-cases (json.as_string it)) [
    | inl bad ↦ rw (bad, read_strings) (read_strings_bounds (suc room) idx its)
    | inr (s, good) ↦
        let (n, d) = read_strings_bounds room (idx + 1) its in
        rw (good, read_strings) (omega arith, (refl, d))
  ]

bound_size-le : (n : ℕ) → bound_size n ≤ max_steps
bound_size-le n = ground arith

-- Success of a parser means a usable plan.
abbrev Accepts : Plan × Bool → Type 0
Accepts r = r.1 ≡ true → IsUsable r.0

Accepts-if : (b : Bool) {r s : Plan × Bool} → Accepts r → Accepts s → Accepts (if b then r else s)
Accepts-if true h k = h
Accepts-if false h k = k

module _ {J : Type 0} (json : Json J) where
  failed_plan-Accepts : (message : Text) → Accepts (failed_plan json message)
  unfolding failed_plan
  failed_plan-Accepts message h = cc

  checked_plan-Accepts :
      (goal : Option Text) (steps : List PlanStep) (room : ℕ)
      → room ≤ max_steps
      → (length steps ≤ room) × All HasDescription steps
      → Accepts (checked_plan json goal steps)
  unfolding checked_plan
  checked_plan-Accepts goal [] room le b h = cc
  checked_plan-Accepts goal (s ∷ rest) room le (n, d) h = record {
    some_step = omega arith;
    bounded = omega arith;
    described = d;
  }

  strings_plan-Accepts :
      (steps : List PlanStep) (room : ℕ)
      → room ≤ max_steps
      → (length steps ≤ room) × All HasDescription steps
      → Accepts (strings_plan json steps)
  unfolding strings_plan
  strings_plan-Accepts [] room le b h = cc
  strings_plan-Accepts (s ∷ rest) room le (n, d) h = record {
    some_step = omega arith;
    bounded = omega arith;
    described = d;
  }

  plan_from_steps_array-Accepts :
      (steps : Option J) (goal : Option Text) → Accepts (plan_from_steps_array json steps goal)
  unfolding plan_from_steps_array
  plan_from_steps_array-Accepts none goal = failed_plan-Accepts _
  plan_from_steps_array-Accepts (some steps) goal =
      let its = json.items steps in
      Accepts-if (json.is_array steps)
        (Accepts-if (length its == 0) (failed_plan-Accepts _) (
          checked_plan-Accepts goal _ _ (bound_size-le (length its))
            (read_steps_bounds json (bound_size (length its)) 0 its)))
        (failed_plan-Accepts _)

  plan_from_strings-Accepts :
      (r : Plan × Bool) (arr : Option J) → Accepts r → Accepts (plan_from_strings json r arr)
  unfolding plan_from_strings
  plan_from_strings-Accepts (p, true) arr k = k
  plan_from_strings-Accepts (p, false) none k = k
  plan_from_strings-Accepts (p, false) (some arr) k =
      let its = json.items arr in
      strings_plan-Accepts _ _ (bound_size-le (length its))
        (read_strings_bounds json (bound_size (length its)) 0 its)

  plan_from_object-Accepts : (found : Option J) → Accepts (plan_from_object json found)
  unfolding plan_from_object
  plan_from_object-Accepts none = failed_plan-Accepts _
  plan_from_object-Accepts (some obj) =
      plan_from_strings-Accepts _ _ (plan_from_steps_array-Accepts _ _)

  -- A plan that the parser accepts has between 1 and 64 steps, and each of them has a description,
  -- whatever the model wrote.
  pub plan_parse_text-IsUsable :
      (t : Text) → (plan_parse_text json t).1 ≡ true → IsUsable (plan_parse_text json t).0
  unfolding plan_parse_text
  plan_parse_text-IsUsable t = plan_from_object-Accepts _
