-- ===== src/Confirmation.antt =====
-- `_decide_tool_confirmation_once` of apps/core/src/superlily_core/tool_invocation_service.py, with
-- `_approval_revalidation_reason`, `_rate_limit_exceeded` and `_reject_confirmation_approval`. Requests commit one
-- after the other, so the IntegrityError of two decisions at once does not arise.
pub mod Revalidate
pub mod Keeps
pub mod Decides
pub mod Rulings
pub mod Outcome
pub mod Request
use superlily.Base.{
  ℕ, ◌+◌, ◌*◌, Bool, true, false, not, ◌&&◌, ◌||◌, Option, none, some, min, String, List, [], ◌∷◌,
  first_of_list, ltb, leb, eqb, ◌==◌, if◌then◌else◌,
}
use superlily.Base.Table.{find}
use superlily.Invocation.{
  InvocationState, InvocationTransitionEvent, awaiting_confirmation, queued, confirmation_expire,
  confirm,
}
use superlily.Authority.Rows.{
  ToolInvocation, ToolDescriptor, ToolConfirmation, ConfirmationState, ConfirmationEvent,
  ToolConfirmationEvent, Caller, ToolRolloutPlanRecord, ToolRolloutPlanItemRecord, Database,
}
use superlily.Authority.Session.{
  not_found, conflict, runtime_error, Tx, ◌>>=◌, ◌>>◌, pure, raise, query, database_now, commit,
  require, or_raise,
}
use superlily.Authority.Ledger.{append_invocation_transition, find_invocation}
use superlily.Rollout.{same_caller, consume_rollout_invocation}
use superlily.Execution.Lease.{LeaseSettings, RegistryView}
use superlily.Cancellation.{
  InvocationIdentity, caller_name, is_pending, by_invocation, transition_confirmation,
}
use superlily.Confirmation.Revalidate.{Revalidation, drift, authority, approval_revalidation_reason}

pub data ConfirmationDecision : Type 0 where
  approve reject : ConfirmationDecision

pub record ToolInvocationConfirmIn : Type 0 where
  pub confirmation_id : String
  pub request_hash : String
  pub input_hash : String
  pub principal_hash : String
  pub decision : ConfirmationDecision
  pub reason : String

abbrev is_approve : ConfirmationDecision → Bool
is_approve approve = true
is_approve reject = false

abbrev is_refusal : ConfirmationEvent → Bool
is_refusal ConfirmationEvent.reject = true
is_refusal ConfirmationEvent.expire = true
is_refusal _ = false

abbrev is_awaiting : InvocationState → Bool
is_awaiting awaiting_confirmation = true
is_awaiting _ = false

-- the event of an earlier request with this key
unfoldable pub is_decision_of :
    ToolConfirmation → InvocationIdentity → String → ToolConfirmationEvent → Bool
is_decision_of c who key e =
    e.confirmation_id == c.id
    && e.actor_type == caller_name who.caller
    && e.actor_id == who.subject
    && e.idempotency_key == key

-- the immutable hashes and the caller
unfoldable pub is_bound_request :
    ToolConfirmation → ToolInvocation → ToolInvocationConfirmIn → InvocationIdentity → Bool
is_bound_request c i payload who =
    c.request_hash == payload.request_hash
    && c.input_hash == payload.input_hash
    && c.principal_hash == payload.principal_hash
    && c.request_hash == i.request_hash
    && c.input_hash == i.input_hash
    && c.principal_hash == i.principal_hash
    && c.policy_hash == i.policy_hash
    && same_caller c.caller_type who.caller
    && c.caller_id == who.subject

abbrev event_of_refusal : Bool → ConfirmationEvent
event_of_refusal true = ConfirmationEvent.expire
event_of_refusal false = ConfirmationEvent.reject

abbrev state_of_refusal : Bool → ConfirmationState
state_of_refusal true = ConfirmationState.expired
state_of_refusal false = ConfirmationState.rejected

unfoldable pub reject_confirmation_approval :
    ToolInvocation
    → ToolConfirmation
    → InvocationIdentity
    → String
    → String
    → String
    → ℕ
    → Bool
    → Tx (Unit {0})
reject_confirmation_approval i c who key request_hash reason_code database_time expired = do
  transition_confirmation c (event_of_refusal expired) (state_of_refusal expired)
      (caller_name who.caller) who.subject key request_hash
      (if expired then "确认挑战已经过期" else "确认时执行权限已失效") database_time
  append_invocation_transition i.id
      (if expired then confirmation_expire else InvocationTransitionEvent.reject)
      (if expired then InvocationState.expired else InvocationState.rejected) "system"
      "tool-confirmation-policy-v1" reason_code none false
  commit

-- a request that was decided before
unfoldable pub repeat_decision :
    ToolInvocation
    → ToolConfirmationEvent
    → ToolInvocationConfirmIn
    → String
    → Tx (ToolInvocation × Bool)
repeat_decision i e payload request_hash = do
  require (e.request_hash == request_hash)
      (conflict "confirmation idempotency key was reused with different request content")
  require (not (is_approve payload.decision && is_refusal e.event))
      (conflict "confirmation approval was already rejected")
  refreshed ← query (find_invocation i.id)
  row ← or_raise refreshed runtime_error
  pure (row, true)

unfoldable pub refuse_confirmation :
    ToolInvocation
    → ToolConfirmation
    → ToolInvocationConfirmIn
    → InvocationIdentity
    → String
    → String
    → ℕ
    → Tx (ToolInvocation × Bool)
refuse_confirmation i c payload who key request_hash database_time = do
  transition_confirmation c ConfirmationEvent.reject ConfirmationState.rejected
      (caller_name who.caller) who.subject key request_hash payload.reason database_time
  row ←
      append_invocation_transition i.id InvocationTransitionEvent.reject InvocationState.rejected
        (caller_name who.caller) who.subject "confirmation_rejected" none false
  commit
  pure (row, false)

-- the part behind the consumption of the quota
unfoldable pub approve_confirmation :
    ToolInvocation
    → ToolConfirmation
    → ToolInvocationConfirmIn
    → InvocationIdentity
    → String
    → String
    → ℕ
    → ToolDescriptor
    → ToolRolloutPlanRecord
    → Bool
    → Tx (ToolInvocation × Bool)
approve_confirmation i c payload who key request_hash database_time descriptor plan false = do
  reject_confirmation_approval i c who key request_hash "rollout_invocation_limit_exhausted"
      database_time false
  raise (conflict "rollout invocation limit was exhausted before approval")
approve_confirmation i c payload who key request_hash database_time descriptor plan true = do
  transition_confirmation c ConfirmationEvent.approve ConfirmationState.consumed
      (caller_name who.caller) who.subject key request_hash payload.reason database_time
  row ←
      append_invocation_transition i.id confirm queued (caller_name who.caller) who.subject
        "confirmation_approved"
        (some (min (database_time + descriptor.timeout_ms * 1000) plan.expires_at)) false
  commit
  pure (row, false)

unfoldable pub approve_revalidated :
    ToolInvocation
    → ToolConfirmation
    → ToolInvocationConfirmIn
    → InvocationIdentity
    → String
    → String
    → ℕ
    → Revalidation
    → Tx (ToolInvocation × Bool)
approve_revalidated i c payload who key request_hash database_time (drift reason) = do
  reject_confirmation_approval i c who key request_hash reason database_time false
  raise (conflict "confirmation authority changed before approval")
approve_revalidated i c payload who key request_hash database_time
      (authority descriptor plan scope) =
    do
      consumed ← consume_rollout_invocation plan database_time
      approve_confirmation i c payload who key request_hash database_time descriptor plan consumed

-- `confirmation_decision_hash` is the SHA-256 of the canonical JSON of the decision (rfc8785 and hashlib), and
-- `is_snapshot` tells whether the contract's model accepts the stored request (pydantic).
module _
    (confirmation_decision_hash : String → ToolInvocationConfirmIn → InvocationIdentity → String)
    (is_snapshot : ToolInvocation → Bool) (registry : Database → String → RegistryView)
    (settings : LeaseSettings) where
  unfoldable pub decide_pending :
      ToolInvocation
      → ToolConfirmation
      → ToolInvocationConfirmIn
      → InvocationIdentity
      → String
      → String
      → ℕ
      → ConfirmationDecision
      → Tx (ToolInvocation × Bool)
  decide_pending i c payload who key request_hash database_time reject =
      refuse_confirmation i c payload who key request_hash database_time
  decide_pending i c payload who key request_hash database_time approve = do
    revalidated ← query (approval_revalidation_reason is_snapshot registry settings i database_time)
    approve_revalidated i c payload who key request_hash database_time revalidated

  unfoldable pub decide_new :
      ToolInvocation
      → ToolConfirmation
      → ToolInvocationConfirmIn
      → InvocationIdentity
      → String
      → String
      → Tx (ToolInvocation × Bool)
  decide_new i c payload who key request_hash = do
    require (is_bound_request c i payload who)
        (conflict "confirmation hashes or caller do not match immutable authority")
    require (is_awaiting i.state && is_pending c.state)
        (conflict "confirmation is no longer pending")
    database_time ← database_now
    if leb c.expires_at database_time
        then (reject_confirmation_approval i c who key request_hash "confirmation_expired"
              database_time true
            >> raise (conflict "confirmation expired before approval"))
        else decide_pending i c payload who key request_hash database_time payload.decision

  unfoldable pub decide_once :
      ToolInvocation
      → ToolConfirmation
      → ToolInvocationConfirmIn
      → InvocationIdentity
      → String
      → String
      → Option ToolConfirmationEvent
      → Tx (ToolInvocation × Bool)
  decide_once i c payload who key request_hash (some e) = repeat_decision i e payload request_hash
  decide_once i c payload who key request_hash none = decide_new i c payload who key request_hash

  unfoldable pub decide_tool_confirmation :
      String → ToolInvocationConfirmIn → InvocationIdentity → String → Tx (ToolInvocation × Bool)
  decide_tool_confirmation invocation_id payload who key = do
    found ← query (find_invocation invocation_id)
    i ← or_raise found not_found
    require (same_caller i.creator_type who.caller && i.creator_id == who.subject) not_found
    known ← query (λ db. find by_invocation i.id db.confirmations)
    c ← or_raise known (conflict "confirmation does not match this invocation")
    require (c.id == payload.confirmation_id)
        (conflict "confirmation does not match this invocation")
    existing ← query (λ db. first_of_list (is_decision_of c who key) db.confirmation_events)
    decide_once i c payload who key (confirmation_decision_hash invocation_id payload who) existing
