-- ===== src/Reasoning/Strategy.antt =====
-- When the recovery of agent/reasoning/verification.c gives up, asks, or goes on, and how the
-- reflection budget bounds the reflections of a step.
use isky.Prelude.{
  ℕ, zero, suc, ◌+◌, ◌≡◌, refl, ◌↔◌, ◌⊎◌, true, false, ℤ, pos, ltb_ℤ, is_pos, min, arith,
}
use isky.Reasoning.{
  ReflectionBudget, reflection_reset, reflection_allowed, RecoveryClass, none_class, tool_error,
  timeout, model_error, compilation_error, test_failure, network_error, retry, abort,
  recovery_strategy_for2,
}

-- The same action is tried again only after a transient failure or a failure of the model, and
-- only while the failures of the step are fewer than the configured retries.
pub retry_iff :
    (c : RecoveryClass) (n : ℕ) (retries repair : ℤ)
    → (recovery_strategy_for2 c n retries repair ≡ retry) ↔ (
        (ltb_ℤ (pos n) retries ≡ true)
        × ((c ≡ timeout) ⊎ (c ≡ network_error) ⊎ (c ≡ tool_error) ⊎ (c ≡ model_error)))
unfolding recovery_strategy_for2
retry_iff timeout n retries repair = (λ h. ground arith, λ h. ground arith)
retry_iff _ n retries repair = (λ h. ground arith, λ h. ground arith)

-- Recovery aborts the task only for a model failure whose retries are used up, for a compile or
-- test failure whose repairs are used up (a bound of 0 or less is no bound), and for no failure.
pub abort_iff :
    (c : RecoveryClass) (n : ℕ) (retries repair : ℤ)
    → (recovery_strategy_for2 c n retries repair ≡ abort) ↔ (
        ((c ≡ model_error) × (ltb_ℤ (pos n) retries ≡ false))
        ⊎ (((c ≡ compilation_error) ⊎ (c ≡ test_failure))
            × (is_pos repair ≡ true)
            × (ltb_ℤ (pos n) repair ≡ false))
        ⊎ (c ≡ none_class))
unfolding recovery_strategy_for2
abort_iff timeout n retries repair = (λ h. ground arith, λ h. ground arith)
abort_iff _ n retries repair = (λ h. ground arith, λ h. ground arith)

-- `n` requests for a reflection, from the state `r`: how many are granted.
pub granted : ReflectionBudget → ℕ → ℕ
unfolding reflection_allowed
granted r zero = 0
granted r (suc n) =
    let (r', ok) = reflection_allowed r in
    let rest = granted r' n in elim ok [ true ↦ suc rest | false ↦ rest ]

granted-within :
    (n used room : ℕ) (r : ReflectionBudget)
    → r.used ≡ used
    → r.max ≡ used + room
    → granted r n ≡ min n room
unfolding granted reflection_allowed
granted-within zero used room r e f = omega arith
granted-within (suc n) used zero r e f = ground (arith, granted-within n used zero r e f)
granted-within (suc n) used (suc room) r e f =
    ground (arith, granted-within n (suc used) room (record r { used = r.used + 1 }))

-- After a reset, of any number of requests the first `max` are granted and no other.
pub granted-reset : (r : ReflectionBudget) (n : ℕ) → granted (reflection_reset r) n ≡ min n r.max
unfolding reflection_reset
granted-reset r n = granted-within n 0 r.max (record r { used = 0 }) refl (omega arith)
