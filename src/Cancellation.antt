-- ===== src/Cancellation.antt =====
-- `_transition_confirmation`, `_authorize_invocation`, `cancel_tool_invocation` and
-- `reap_expired_invocations` of apps/core/src/superlily_core/tool_invocation_service.py.
pub mod Requests
pub mod Keeps
use Prim.Native.String.{◌++◌}
use superlily.Base.{
  ℕ, ◌+◌, ◌≡◌, Bool, true, false, not, ◌&&◌, ◌||◌, Option, none, some, min, max, String, List, [],
  ◌∷◌, take, keep_if, ltb, leb, eqb, ◌==◌, if◌then◌else◌,
}
use superlily.Base.Table.{find, replace}
use superlily.Invocation.{
  InvocationState, InvocationTransitionEvent, is_terminal, proposed, awaiting_confirmation, queued,
  cancelled, cancel_requested, cancel, request_cancel, confirmation_expire, timeout, timed_out,
  reject,
}
use superlily.Authority.Rows.{
  Caller, command, agent, admin_api, ToolInvocation, ToolConfirmation, ConfirmationState, pending,
  consumed, ConfirmationEvent, ToolConfirmationEvent, Database,
}
use superlily.Authority.Session.{
  not_found, conflict, runtime_error, Tx, ◌>>=◌, ◌>>◌, pure, raise, query, modify, database_now,
  commit, require, or_raise,
}
use superlily.Authority.Ledger.{append_invocation_transition, find_invocation}

pub record InvocationIdentity : Type 0 where
  pub caller : Caller
  pub subject : String

abbrev pub caller_name : Caller → String
caller_name command = "command"
caller_name agent = "agent"
caller_name admin_api = "admin_api"

abbrev is_admin : Caller → Bool
is_admin admin_api = true
is_admin _ = false

abbrev same_caller : Caller → Caller → Bool
same_caller command command = true
same_caller agent agent = true
same_caller admin_api admin_api = true
same_caller _ _ = false

-- an admin may act on any invocation, another caller on its own
unfoldable pub is_authorized : ToolInvocation → InvocationIdentity → Bool
is_authorized i who =
    is_admin who.caller || (same_caller i.creator_type who.caller && i.creator_id == who.subject)

abbrev pub is_pending : ConfirmationState → Bool
is_pending pending = true
is_pending _ = false

abbrev pub by_invocation : ToolConfirmation → String
by_invocation c = c.invocation_id

abbrev pub by_id : ToolConfirmation → String
by_id c = c.id

abbrev when_consumed : ConfirmationState → Option ℕ → ℕ → Option ℕ
when_consumed consumed old at = some at
when_consumed _ old at = old

abbrev when_rejected : ConfirmationState → Option ℕ → ℕ → Option ℕ
when_rejected ConfirmationState.rejected old at = some at
when_rejected _ old at = old

abbrev when_expired : ConfirmationState → Option ℕ → ℕ → Option ℕ
when_expired ConfirmationState.expired old at = some at
when_expired _ old at = old

unfoldable pub decided : ToolConfirmation → ConfirmationState → ℕ → ToolConfirmation
decided c state effective_at = record c {
  state = state;
  resource_version = c.resource_version + 1;
  consumed_at = when_consumed state c.consumed_at effective_at;
  rejected_at = when_rejected state c.rejected_at effective_at;
  expired_at = when_expired state c.expired_at effective_at;
  updated_at = effective_at;
}

unfoldable pub confirmation_event :
    ToolConfirmation
    → ConfirmationEvent
    → ConfirmationState
    → String
    → String
    → String
    → String
    → String
    → ℕ
    → ToolConfirmationEvent
confirmation_event c event state actor_type actor_id key request_hash reason effective_at = record {
  confirmation_id = c.id;
  sequence = c.resource_version + 1;
  event = event;
  state = state;
  actor_type = actor_type;
  actor_id = actor_id;
  idempotency_key = key;
  request_hash = request_hash;
  reason = reason;
  effective_at = effective_at;
}

unfoldable pub store_confirmation : ToolConfirmation → ToolConfirmationEvent → Database → Database
store_confirmation c e db = record db {
  confirmations = replace by_id c db.confirmations;
  confirmation_events = e ∷ db.confirmation_events;
}

-- the row that `WHERE id = … AND state = 'pending' AND resource_version = …` reaches
unfoldable pub reaches_pending : ToolConfirmation → Database → Bool
reaches_pending c db = elim (find by_id c.id db.confirmations) [
  | none ↦ false
  | some row ↦ is_pending row.state && eqb row.resource_version c.resource_version
]

unfoldable pub transition_confirmation :
    ToolConfirmation
    → ConfirmationEvent
    → ConfirmationState
    → String
    → String
    → String
    → String
    → String
    → ℕ
    → Tx (Unit {0})
unfolding reaches_pending
transition_confirmation c event state actor_type actor_id key request_hash reason effective_at = do
  require (is_pending c.state) (conflict "confirmation is no longer pending")
  reached ← query (reaches_pending c)
  require reached (conflict "confirmation state changed concurrently")
  modify (
      store_confirmation (decided c state effective_at)
        (confirmation_event c event state actor_type actor_id key request_hash reason effective_at))
