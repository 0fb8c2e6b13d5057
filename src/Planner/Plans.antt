-- ===== src/Planner/Plans.antt =====
-- The plans that agent/planner/planner.c hands to the loop.
use isky.Prelude.{
  Bool, positive_or, ℕ, zero, suc, ◌≡◌, refl, true, false, Option, none, some, Text, arith,
  Option-cases, inl, inr,
}
use isky.Jsonx.{Json}
use isky.Model.{Request, Generation, generated, model_error, Backend}
use isky.Plan.{Plan}
use isky.Plan.Bounds.{IsUsable, plan_parse_text-IsUsable}
use isky.Planner.{
  Planner, attempts_left, or_fallback, plan_of, parsed, plan_request, planner_make_plan,
  fallback_plan,
}

abbrev Usable? : Option Plan → Type 0
Usable? none = Unit
Usable? (some p) = IsUsable p

module _ {W J : Type 0} (json : Json J) (backend : Backend W) where
  parsed-Usable? : (r : Plan × Bool) → (r.1 ≡ true → IsUsable r.0) → Usable? (parsed json backend r)
  unfolding parsed
  parsed-Usable? (p, true) h = h refl
  parsed-Usable? (p, false) h = tt

  plan_of-Usable? : (g : Generation) → Usable? (plan_of json backend g)
  unfolding plan_of
  plan_of-Usable? (model_error e) = tt
  plan_of-Usable? (generated t) = parsed-Usable? _ (plan_parse_text-IsUsable json t)

  attempts_left-Usable? :
      (k : ℕ) (req : Request) (w : W) → Usable? (attempts_left json backend k req w).0
  unfolding attempts_left
  attempts_left-Usable? zero req w = tt
  attempts_left-Usable? (suc k) req w =
      let (g, w') = backend.generate req w in
      elim (Option-cases (plan_of json backend g)) [
        | inl bad ↦ rw (bad, attempts_left) (attempts_left-Usable? k req w')
        | inr (q, good) ↦ rw (good, attempts_left) (rw good at (plan_of-Usable? g))
      ]

  fallback_plan-IsUsable : (goal : Text) → IsUsable (fallback_plan goal)
  unfolding fallback_plan
  fallback_plan-IsUsable goal = record {
    some_step = omega arith;
    bounded = omega arith;
    described = (refl, tt);
  }

  or_fallback-IsUsable :
      (goal : Text) (r : Option Plan × W)
      → Usable? r.0
      → IsUsable (or_fallback json backend goal r).0
  or_fallback-IsUsable goal (none, w) h = fallback_plan-IsUsable goal
  or_fallback-IsUsable goal (some p, w) h = h

  -- Whatever the model answers, and even if every attempt fails, the planner returns a plan of 1
  -- to 64 steps, each with a description.
  pub planner_make_plan-IsUsable :
      (pl : Planner) (goal : Text) (mem : Option Text) (w : W)
      → IsUsable (planner_make_plan json backend pl goal mem w).0
  unfolding planner_make_plan
  planner_make_plan-IsUsable pl goal mem w =
      or_fallback-IsUsable goal
        (attempts_left json backend (positive_or pl.max_attempts 3)
          (plan_request json backend pl goal mem) w)
        (attempts_left-Usable? _ _ w)
