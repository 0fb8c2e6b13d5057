-- ===== src/Loop/Round/Total.antt =====
-- How the loop of agent/core/agent_loop.c ends.
use isky.Prelude.{
  ℕ, zero, suc, ◌+◌, ◌-◌, ◌<◌, ◌≡◌, refl, ◌⊎◌, inl, inr, true, Option, some, ltb, ltb→lt, Text,
  Bool-cases, arith,
}
use isky.State.{failed}
use isky.Loop.{Agent, LoopCtx, emit}
use isky.Loop.Round.{
  RunOutcome, run_max_iters, RunOptions, Next, continue, return, to_state, round, exhausted,
  loop_from, loop_body,
}
use isky.Loop.Round.States.{live, agrees, Good, round-Ensures}

module _ {W J : Type 0} (a : Agent W J) where
  -- What a loop that returns gives.
  pub record Returns (r : Option (LoopCtx W × RunOutcome)) : Type 0 where
    pub final : LoopCtx W
    pub outcome : RunOutcome
    pub returned : r ≡ some (final, outcome)
    pub agreed : agrees outcome final.task.state ≡ true

  exhausted-agrees :
      (l : LoopCtx W) → live l.task.state ≡ true → (exhausted a l).0.task.state ≡ failed
  unfolding exhausted emit to_state
  exhausted-agrees l h = ground arith

  record_return :
      (l : LoopCtx W) (o : RunOutcome) → agrees o l.task.state ≡ true → Returns (some (l, o))
  record_return l o h = record { final = l; outcome = o; returned = refl; agreed = h }

  continue_or_return :
      (x : Next W)
      → ((l : LoopCtx W) × (hint : Option Text) × (x ≡ continue l hint))
        ⊎ ((l : LoopCtx W) × (o : RunOutcome) × (x ≡ return l o))
  continue_or_return (continue l hint) = inl (l, hint, refl)
  continue_or_return (return l o) = inr (l, o, refl)

  loop_from-Returns :
      (fuel n m : ℕ) (opt : RunOptions) (l : LoopCtx W) (hint : Option Text)
      → m - n < fuel
      → Good n m l.task
      → Returns (loop_from a fuel opt l hint)
  unfolding loop_from
  loop_from-Returns zero n m opt l hint h g = absurd (omega arith)
  loop_from-Returns (suc fuel) n m opt l hint h g =
      elim (Bool-cases (ltb l.task.iteration l.task.max_iterations)) [
        | inr over ↦
            rw (over, loop_from)
              (record_return (exhausted a l).0 run_max_iters
                (rw (exhausted-agrees l g.is_live) refl))
        | inl more ↦ elim (continue_or_return (round a opt l hint)) [
          | inl (l', hint', e) ↦
              let lt : l.task.iteration < l.task.max_iterations = ltb→lt _ _ more in
              let k : m - (n + 1) < fuel = omega arith in
              rw (more, loop_from, e)
                (loop_from-Returns fuel (n + 1) m opt l' hint' k
                  (rw e at (round-Ensures a n m opt l hint g)))
          | inr (l', o, e) ↦
              rw (more, loop_from, e)
                (record_return l' o (rw e at (round-Ensures a n m opt l hint g)).0)
        ]
      ]

  -- From a live state the loop returns within a round more than the iterations that the budget
  -- leaves, and the state of the task agrees with the outcome: failed after a failure or when the
  -- budget is used up, completed or recovering after a completion, waiting or verifying after a
  -- question.
  pub loop_body-Returns :
      (opt : RunOptions) (l : LoopCtx W) (hint : Option Text)
      → live l.task.state ≡ true
      → Returns (loop_body a opt l hint)
  loop_body-Returns opt l hint h =
      unfold loop_body in
      loop_from-Returns (l.task.max_iterations - l.task.iteration + 1) l.task.iteration
        l.task.max_iterations opt l hint (omega arith)
        (record { iterations = refl; limit = refl; is_live = h })
