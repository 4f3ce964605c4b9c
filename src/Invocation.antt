-- ===== src/Invocation.antt =====
-- The states of a tool invocation and its legal transitions, from
-- packages/contracts/src/superlily_contracts/tool_invocation.py.
pub mod Graph
pub mod History
mod Tests
use superlily.Base.{Bool, true, false, Option, none, some}

pub data InvocationState : Type 0 where
  proposed rejected recorded_only awaiting_confirmation queued leased running : InvocationState
  succeeded failed timed_out cancel_requested cancelled : InvocationState
  unknown_completion expired lease_expired : InvocationState

-- A member's name is the source's; `lease_expire` is the event and `lease_expired` the state.
pub data InvocationTransitionEvent : Type 0 where
  propose reject record_only require_confirmation confirm : InvocationTransitionEvent
  confirmation_expire queue lease start : InvocationTransitionEvent
  complete_success complete_failure request_cancel cancel : InvocationTransitionEvent
  lease_expire timeout unknown_completion requeue : InvocationTransitionEvent

-- `s in TERMINAL_INVOCATION_STATES`
unfoldable pub is_terminal : InvocationState → Bool
is_terminal rejected = true
is_terminal recorded_only = true
is_terminal succeeded = true
is_terminal failed = true
is_terminal timed_out = true
is_terminal cancelled = true
is_terminal unknown_completion = true
is_terminal expired = true
is_terminal _ = false

-- `(previous, state) in _LEGAL_INVOCATION_TRANSITIONS[event]`
unfoldable pub is_legal :
    InvocationTransitionEvent → Option InvocationState → InvocationState → Bool
is_legal propose none proposed = true
is_legal reject (some proposed) rejected = true
is_legal reject (some awaiting_confirmation) rejected = true
is_legal record_only (some proposed) recorded_only = true
is_legal require_confirmation (some proposed) awaiting_confirmation = true
is_legal confirm (some awaiting_confirmation) queued = true
is_legal confirmation_expire (some awaiting_confirmation) expired = true
is_legal queue (some proposed) queued = true
is_legal lease (some queued) leased = true
is_legal start (some leased) running = true
is_legal complete_success (some running) succeeded = true
is_legal complete_failure (some running) failed = true
is_legal request_cancel (some leased) cancel_requested = true
is_legal request_cancel (some running) cancel_requested = true
is_legal cancel (some proposed) cancelled = true
is_legal cancel (some awaiting_confirmation) cancelled = true
is_legal cancel (some queued) cancelled = true
is_legal cancel (some cancel_requested) cancelled = true
is_legal lease_expire (some leased) lease_expired = true
is_legal lease_expire (some running) lease_expired = true
is_legal timeout (some queued) timed_out = true
is_legal timeout (some leased) timed_out = true
is_legal timeout (some running) timed_out = true
is_legal timeout (some lease_expired) timed_out = true
is_legal InvocationTransitionEvent.unknown_completion (some leased) unknown_completion = true
is_legal InvocationTransitionEvent.unknown_completion (some running) unknown_completion = true
is_legal InvocationTransitionEvent.unknown_completion (some cancel_requested) unknown_completion =
    true
is_legal InvocationTransitionEvent.unknown_completion (some lease_expired) unknown_completion = true
is_legal requeue (some lease_expired) queued = true
is_legal _ _ _ = false
