-- ===== src/Effects/Bus.antt =====
-- agent/core/events.c: the bus. A handler with its user data is one function on the state of what lies
-- outside; it does not subscribe another one, and the time of an event, a float, is left out.
use isky.Prelude.{
  ℕ, suc, zero, ◌+◌, ◌≡◌, refl, Bool, true, false, Option, none, some, Text, text, leb, ◌==◌,
  if◌then◌else◌, arith, List, [], ◌∷◌, take, ap, ◌∙◌,
}
use isky.Effects.{
  EventType, task_created, task_started, plan_created, step_started, tool_selected, tool_started,
  tool_completed, tool_failed, observation_created, reflection_started, verification_started,
  verification_passed, verification_failed, recovery_started, task_completed, task_failed,
  user_input_required, model_output, log,
}

pub record AgentEvent : Type 0 where
  pub type : EventType
  pub task_id : Text
  pub data_text : Option Text
  pub step : ℕ

abbrev pub max_subs : ℕ
max_subs = 16

-- The first `n` of the handlers are subscribed.
pub record EventBus (W : Type 0) : Type 0 where
  pub handlers : ℕ → AgentEvent → W → W
  pub n : ℕ

-- `calloc`: no handler is called before it is subscribed.
unfoldable pub event_bus_create : {W : Type 0} → EventBus W
event_bus_create = record { handlers = λ i ev w. w; n = 0 }

subscribed : {W : Type 0} → (AgentEvent → W → W) → EventBus W → EventBus W
subscribed h b = record { handlers = λ i. if i == b.n then h else b.handlers i; n = b.n + 1 }

-- The answer is that a handler was subscribed; `none` is a NULL bus.
unfoldable pub event_bus_subscribe :
    {W : Type 0} → (AgentEvent → W → W) → Option (EventBus W) → Option (EventBus W) × Bool
unfolding subscribed
event_bus_subscribe h none = (none, false)
event_bus_subscribe h (some b) =
    if leb max_subs b.n then (some b, false) else (some (subscribed h b), true)

-- The loop from `i` on, over `count` handlers.
call_handlers : {W : Type 0} → ℕ → ℕ → EventBus W → AgentEvent → W → W
call_handlers zero i b ev w = w
call_handlers (suc count) i b ev w = call_handlers count (i + 1) b ev (b.handlers i ev w)

unfoldable pub event_bus_emit :
    {W : Type 0} → Option (EventBus W) → EventType → Text → ℕ → Option Text → W → W
unfolding call_handlers
event_bus_emit none type task_id step data_text w = w
event_bus_emit (some b) type task_id step data_text w =
    call_handlers b.n 0 b
      (record { type = type; task_id = task_id; data_text = data_text; step = step }) w

unfoldable pub event_type_name : EventType → Text
unfolding text
event_type_name task_created = text "TASK_CREATED"
event_type_name task_started = text "TASK_STARTED"
event_type_name plan_created = text "PLAN_CREATED"
event_type_name step_started = text "STEP_STARTED"
event_type_name tool_selected = text "TOOL_SELECTED"
event_type_name tool_started = text "TOOL_STARTED"
event_type_name tool_completed = text "TOOL_COMPLETED"
event_type_name tool_failed = text "TOOL_FAILED"
event_type_name observation_created = text "OBSERVATION_CREATED"
event_type_name reflection_started = text "REFLECTION_STARTED"
event_type_name verification_started = text "VERIFICATION_STARTED"
event_type_name verification_passed = text "VERIFICATION_PASSED"
event_type_name verification_failed = text "VERIFICATION_FAILED"
event_type_name recovery_started = text "RECOVERY_STARTED"
event_type_name task_completed = text "TASK_COMPLETED"
event_type_name task_failed = text "TASK_FAILED"
event_type_name user_input_required = text "USER_INPUT_REQUIRED"
event_type_name model_output = text "MODEL_OUTPUT"
event_type_name log = text "LOG"

call_handlers-subscribed :
    {W : Type 0} (h : AgentEvent → W → W) (b : EventBus W) (ev : AgentEvent) (count i : ℕ) (w : W)
    → i + count ≡ b.n
    → call_handlers (suc count) i (subscribed h b) ev w ≡ h ev (call_handlers count i b ev w)
unfolding call_handlers subscribed
call_handlers-subscribed h b ev zero i w e = ground arith
call_handlers-subscribed h b ev (suc count) i w e =
    let other : i == b.n ≡ false = ground arith in
    rw (other, call_handlers-subscribed h b ev count (i + 1) (b.handlers i ev w) (omega arith))

-- The handlers subscribed one after the other, whatever each call answers.
unfoldable pub subscribe_all :
    {W : Type 0} → List (AgentEvent → W → W) → Option (EventBus W) → Option (EventBus W)
subscribe_all [] b = b
subscribe_all (h ∷ hs) b = subscribe_all hs (event_bus_subscribe h b).0

-- Each handler once, in the order of the list.
unfoldable pub deliver : {W : Type 0} → List (AgentEvent → W → W) → AgentEvent → W → W
deliver [] ev w = w
deliver (h ∷ hs) ev w = deliver hs ev (h ev w)

event_bus_emit-subscribe_all :
    {W : Type 0} (hs : List (AgentEvent → W → W)) (room : ℕ) (b : EventBus W) (ev : AgentEvent)
    (w : W)
    → b.n + room ≡ max_subs
    → event_bus_emit (subscribe_all hs (some b)) ev.type ev.task_id ev.step ev.data_text w
      ≡ deliver (take room hs) ev (call_handlers b.n 0 b ev w)
unfolding event_bus_emit subscribe_all deliver event_bus_subscribe subscribed
event_bus_emit-subscribe_all [] zero b ev w e = refl
event_bus_emit-subscribe_all [] (suc room) b ev w e = refl
event_bus_emit-subscribe_all (h ∷ hs) zero b ev w e =
    let full : leb max_subs b.n ≡ true = ground arith in
    rw (full, event_bus_emit-subscribe_all hs zero b ev w e)
event_bus_emit-subscribe_all (h ∷ hs) (suc room) b ev w e =
    let free : leb max_subs b.n ≡ false = ground arith in
    let added =
      ap (λ k. call_handlers k 0 (subscribed h b) ev w) {x = b.n + 1} {y = suc b.n} (omega arith) in
    let last = call_handlers-subscribed h b ev b.n 0 w (omega arith) in
    rw free (
      event_bus_emit-subscribe_all hs room (subscribed h b) ev w (omega arith)
      ∙ ap (deliver (take room hs) ev) (added ∙ last))

-- A bus delivers an event to each of the first 16 handlers that were subscribed to it, once and in
-- the order of their subscriptions; the others are never called.
pub event_bus_emit-deliver :
    {W : Type 0} (hs : List (AgentEvent → W → W)) (ev : AgentEvent) (w : W)
    → event_bus_emit
        (subscribe_all hs (some event_bus_create))
        ev.type
        ev.task_id
        ev.step
        ev.data_text
        w
      ≡ deliver (take 16 hs) ev w
unfolding event_bus_create call_handlers
event_bus_emit-deliver hs ev w = event_bus_emit-subscribe_all hs 16 event_bus_create ev w refl
