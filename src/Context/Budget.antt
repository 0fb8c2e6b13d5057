-- ===== src/Context/Budget.antt =====
-- The compression of agent/context/context.c where the prompt is far over its budget.
use isky.Prelude.{
  ℕ, zero, suc, ◌-◌, ◌≤◌, ◌≡◌, refl, ◌∙◌, ap, inl, inr, Option, some, ℤ, Text, ltb, length,
  Bool-cases, arith,
}
use isky.Context.{
  ContextParts, tail_trim, assemble, count, fits, excess, compress, build_pass, context_build,
}

tail_trim-zero : (s : Text) → tail_trim s 0 ≡ s
unfolding tail_trim
tail_trim-zero s = refl

compress_whole :
    (cut : ℕ) (obs mem : Text)
    → length obs ≤ cut
    → length mem ≤ cut - length obs
    → compress cut (some obs) (some mem) ≡ (some obs, some mem)
unfolding compress
compress_whole cut obs mem p q =
    let a : length obs - cut ≡ 0 = omega arith in
    let b : length mem - (cut - length obs) ≡ 0 = omega arith in
    elim (Bool-cases (ltb 0 (cut - length obs))) [
      | inl e ↦ rw (a, tail_trim-zero obs, e, b, tail_trim-zero mem) refl
      | inr e ↦ rw (a, tail_trim-zero obs, e) refl
    ]

-- Where the prompt is over its budget by so much that the two elastic sections together are no
-- longer than the characters to cut, nothing is cut: the prompt stays as it was at full size.
pub context_build_whole :
    (tokenizer : Option (Text → ℕ)) (p : ContextParts) (budget : ℤ) (obs mem : Text)
    → p.observations ≡ some obs
    → p.memory ≡ some mem
    → length obs ≤ excess budget (count tokenizer (assemble p (some mem) (some obs)))
    → length mem ≤ excess budget (count tokenizer (assemble p (some mem) (some obs))) - length obs
    → context_build tokenizer p budget ≡ assemble p (some mem) (some obs)
unfolding context_build build_pass
context_build_whole tokenizer p budget obs mem o m a b = rw (o, m) (passes 2)
  where
    passes :
        (n : ℕ)
        → build_pass n tokenizer p budget (some obs) (some mem) ≡ assemble p (some mem) (some obs)
    passes zero = refl
    passes (suc n) =
        elim (Bool-cases (fits budget (count tokenizer (assemble p (some mem) (some obs))))) [
          | inl e ↦ rw (build_pass, e) refl
          | inr e ↦
              rw (build_pass, e)
                (ap (λ x. build_pass n tokenizer p budget x.0 x.1) (compress_whole _ obs mem a b)
                  ∙ passes n)
        ]
