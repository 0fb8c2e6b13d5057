-- ===== src/Protocol/Accepted.antt =====
-- Which actions `agent_action_validate` of agent/planner/protocol.c lets through.
use mathlib.Core.Bool.{false≢true}
use mathlib.Core.Option.{some-injective}
use isky.Prelude.{
  ℕ, ◌≡◌, refl, sym, ◌∙◌, ap, ◌≢◌, ◌↔◌, ◌⊎◌, inl, inr, List, [], ◌∷◌, true, Option, none, some,
  Text, str_eq, str_eq_refl, str_eq-eq, is_blank, Bool-cases, Option-cases,
}
use isky.Jsonx.{Json}
use isky.Protocol.{
  ActionType, AgentAction, reject, known_tool, is_object, no_steps, validate_type,
  agent_action_validate,
}

-- The name is one of the list.
abbrev pub IsKnown : Text → List Text → Type 0
IsKnown name [] = ⊥
IsKnown name (t ∷ rest) = (t ≡ name) ⊎ IsKnown name rest

Blank-cases : (o : Option Text) → (is_blank o ≡ true) ⊎ ((c : ℕ) × (r : Text) × (o ≡ some (c ∷ r)))
Blank-cases none = inl refl
Blank-cases (some []) = inl refl
Blank-cases (some (c ∷ r)) = inr (c, r, refl)

none≢some_value : {A : Type 0} {a : A} → none ≢ some a
none≢some_value h = cc

List-cases : {A : Type 0} (xs : List A) → (xs ≡ []) ⊎ ((x : A) × (rest : List A) × (xs ≡ x ∷ rest))
List-cases [] = inl refl
List-cases (x ∷ xs) = inr (x, xs, refl)

nil≢cons : {A : Type 0} {x : A} {xs : List A} → [] ≢ x ∷ xs
nil≢cons h = cc

module _ {J : Type 0} (json : Json J) where
  known_tool_iff :
      (tools : List Text) (name : Text)
      → (known_tool json (some tools) name ≡ true) ↔ IsKnown name tools
  unfolding known_tool
  known_tool_iff [] name = (λ h. cc, λ h. absurd h)
  known_tool_iff (t ∷ rest) name = elim (Bool-cases (str_eq t name)) [
    | inl e ↦ rw e (λ h. inl (str_eq-eq t name e), λ h. refl)
    | inr e ↦ rw e (
      λ h. inr ((known_tool_iff rest name).0 h),
      λ h. elim h [
        | inl i ↦ absurd (false≢true (sym e ∙ (rw i (str_eq_refl name))))
        | inr k ↦ (known_tool_iff rest name).1 k
      ],
    )
  ]

  -- What a valid action of each type has.
  abbrev pub IsAccepted : List Text → ActionType → AgentAction J → Type 0
  IsAccepted tools ActionType.tool a =
      (c : ℕ) × (r : Text) × (args : J) × (a.tool_name ≡ some (c ∷ r))
      × IsKnown (c ∷ r) tools
      × (a.arguments ≡ some args)
      × (json.is_object args ≡ true)
  IsAccepted tools ActionType.final a = (t : Text) × (a.answer ≡ some t)
  IsAccepted tools ActionType.ask_user a = (c : ℕ) × (r : Text) × (a.question ≡ some (c ∷ r))
  IsAccepted tools ActionType.plan a =
      (steps : J) × (step : J) × (rest : List J) × (a.steps ≡ some steps)
      × (json.is_array steps ≡ true)
      × (json.items steps ≡ step ∷ rest)
  IsAccepted tools ActionType.reflect a = Unit
  IsAccepted tools ActionType.invalid a = ⊥

  tool-IsAccepted_iff :
      (a : AgentAction J) (tools : List Text)
      → ((validate_type json ActionType.tool a (some tools)).1 ≡ true)
        ↔ IsAccepted tools ActionType.tool a
  unfolding validate_type reject is_object
  tool-IsAccepted_iff a tools = elim (Blank-cases a.tool_name) [
    | inl e ↦
        rw e (
          λ h. cc,
          λ (c, r, args, p, known, q, good). absurd (false≢true (ap is_blank (sym p) ∙ e)),
        )
    | inr (c, r, e) ↦ elim (Bool-cases (known_tool json (some tools) (c ∷ r))) [
      | inr k ↦
          rw (e, k)
            (
              λ h. cc,
              λ (c', r', args, p, known, q, good). absurd (
                  false≢true
                    (sym k ∙ (known_tool_iff tools (c ∷ r)).1 (rw (some-injective _ _ p) known))),
            )
      | inl k ↦ elim (Option-cases a.arguments) [
        | inl n ↦
            rw (e, k, n) (λ h. cc, λ (c', r', args, p, known, q, _). absurd (none≢some_value q))
        | inr (v, n) ↦ elim (Bool-cases (json.is_object v)) [
          | inl o ↦
              rw (e, k, n, o)
                (λ h. (c, r, v, refl, (known_tool_iff tools (c ∷ r)).0 k, refl, o), λ x. refl)
          | inr o ↦
              rw (e, k, n, o)
                (
                  λ h. cc,
                  λ (c', r', args, p, known, q, good).
                      absurd (false≢true (sym o ∙ (rw (some-injective _ _ q) good))),
                )
        ]
      ]
    ]
  ]

  final-IsAccepted_iff :
      (a : AgentAction J) (tools : List Text)
      → ((validate_type json ActionType.final a (some tools)).1 ≡ true)
        ↔ IsAccepted tools ActionType.final a
  unfolding validate_type reject
  final-IsAccepted_iff a tools = elim (Option-cases a.answer) [
    | inl e ↦ rw e (λ h. cc, λ (t, p). absurd (none≢some_value p))
    | inr (t, e) ↦ rw e (λ h. (t, refl), λ x. refl)
  ]

  ask_user-IsAccepted_iff :
      (a : AgentAction J) (tools : List Text)
      → ((validate_type json ActionType.ask_user a (some tools)).1 ≡ true)
        ↔ IsAccepted tools ActionType.ask_user a
  unfolding validate_type reject
  ask_user-IsAccepted_iff a tools = elim (Blank-cases a.question) [
    | inl e ↦ rw e (λ h. cc, λ (c, r, p). absurd (false≢true (ap is_blank (sym p) ∙ e)))
    | inr (c, r, e) ↦ rw e (λ h. (c, r, refl), λ x. refl)
  ]

  plan-IsAccepted_iff :
      (a : AgentAction J) (tools : List Text)
      → ((validate_type json ActionType.plan a (some tools)).1 ≡ true)
        ↔ IsAccepted tools ActionType.plan a
  unfolding validate_type reject no_steps
  plan-IsAccepted_iff a tools = elim (Option-cases a.steps) [
    | inl e ↦ rw e (λ h. cc, λ (v, s, rest, p, q, l). absurd (none≢some_value p))
    | inr (v, e) ↦ elim (Bool-cases (json.is_array v)) [
      | inr f ↦
          rw (e, f)
            (
              λ h. cc,
              λ (v', s, rest, p, q, l). absurd (false≢true (sym f ∙ (rw (some-injective _ _ p) q))),
            )
      | inl f ↦ elim (List-cases (json.items v)) [
        | inl n ↦
            rw (e, f, n)
              (
                λ h. cc,
                λ (v', s, rest, p, q, l).
                    absurd (nil≢cons {x = s} {xs = rest} (sym n ∙ (rw (some-injective _ _ p) l))),
              )
        | inr (s, rest, n) ↦ rw (e, f, n) (λ h. (v, s, rest, refl, f, n), λ x. refl)
      ]
    ]
  ]

  invalid_refused :
      (a : AgentAction J) (tools : List Text)
      → ((validate_type json ActionType.invalid a (some tools)).1 ≡ true)
        ↔ IsAccepted tools ActionType.invalid a
  unfolding validate_type reject
  invalid_refused a tools = elim (List-cases a.error) [
    | inl e ↦ rw e (λ h. cc, λ h. absurd h)
    | inr (c, r, e) ↦ rw e (λ h. cc, λ h. absurd h)
  ]

  validate_type_iff :
      (t : ActionType) (a : AgentAction J) (tools : List Text)
      → ((validate_type json t a (some tools)).1 ≡ true) ↔ IsAccepted tools t a
  validate_type_iff ActionType.tool a tools = tool-IsAccepted_iff a tools
  validate_type_iff ActionType.final a tools = final-IsAccepted_iff a tools
  validate_type_iff ActionType.ask_user a tools = ask_user-IsAccepted_iff a tools
  validate_type_iff ActionType.plan a tools = plan-IsAccepted_iff a tools
  validate_type_iff ActionType.reflect a tools = unfold validate_type in (λ h. tt, λ h. refl)
  validate_type_iff ActionType.invalid a tools = invalid_refused a tools

  -- An action passes against a list of tools exactly when it has what its type needs: a tool action a
  -- name that is not empty and on the list, and an object of arguments; a final action an answer; a
  -- question a text that is not empty; a plan an array of steps that is not empty.
  pub agent_action_validate_iff :
      (a : AgentAction J) (tools : List Text)
      → ((agent_action_validate json a (some tools)).1 ≡ true) ↔ IsAccepted tools a.type a
  unfolding agent_action_validate
  agent_action_validate_iff a tools = validate_type_iff a.type a tools
