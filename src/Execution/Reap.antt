-- ===== src/Execution/Reap.antt =====
-- `reap_expired_attempts` of tool_execution_service.py. No other transaction holds a lock on a row here, so
-- `SKIP LOCKED` skips nothing.
use superlily.Base.{
  sort_by, ℕ, Bool, true, false, ◌&&◌, ◌||◌, Option, none, some, min, max, String, List, [], ◌∷◌,
  ◌++◌, take, keep_if, ltb, leb, eqb,
}
use superlily.Invocation.{
  InvocationState, InvocationTransitionEvent, lease_expire, requeue, timeout, queued, timed_out,
  cancel_requested,
}
use superlily.Authority.Rows.{
  RetryPolicy, ToolInvocation, ToolAttempt, AttemptState, AttemptEvent, Database,
}
use superlily.Base.Table.{replace}
use superlily.Authority.Session.{Tx, ◌>>=◌, ◌>>◌, pure, query, modify, database_now, commit}
use superlily.Authority.Ledger.{append_invocation_transition, find_invocation}
use superlily.Execution.Proof.{attempt_id, append_attempt_event}
use superlily.Execution.Lifecycle.{is_active}

-- ORDER BY lease_expires_at, created_at
unfoldable pub is_earlier : ToolAttempt → ToolAttempt → Bool
is_earlier a b =
    ltb a.lease_expires_at b.lease_expires_at
    || (eqb a.lease_expires_at b.lease_expires_at && leb a.created_at b.created_at)

unfoldable pub is_due : ℕ → ToolAttempt → Bool
is_due now a = is_active a.state && leb a.lease_expires_at now

unfoldable pub expired_attempts : ℕ → ℕ → Database → List ToolAttempt
unfolding is_due is_earlier
expired_attempts limit now db =
    take (max 1 (min limit 1000)) (sort_by is_earlier (keep_if (is_due now) db.attempts))

abbrev is_retry_safe : RetryPolicy → Bool
is_retry_safe RetryPolicy.retry_safe = true
is_retry_safe _ = false

reaper : String
reaper = "tool-attempt-reaper-v1"

-- where an expired lease goes: by the retry policy and by whether the deadline is still ahead
unfoldable pub after_expiry : ToolInvocation → Bool → Bool → Tx ToolInvocation
unfolding reaper
after_expiry i true true =
    append_invocation_transition i.id requeue queued "reaper" reaper "safe_retry_after_lease_expiry"
      none false
after_expiry i true false =
    append_invocation_transition i.id timeout timed_out "reaper" reaper "deadline_expired" none
      false
after_expiry i false ahead =
    append_invocation_transition i.id InvocationTransitionEvent.unknown_completion
      InvocationState.unknown_completion "reaper" reaper "ambiguous_lease_expiry" none false

-- an expired lease of an invocation that was leased or running
unfoldable pub expire_lease : ToolInvocation → ℕ → Tx ToolInvocation
unfolding reaper after_expiry
expire_lease i now = do
  append_invocation_transition i.id lease_expire InvocationState.lease_expired "reaper" reaper
      "lease_expired" none false
  after_expiry i (is_retry_safe i.descriptor.retry_policy) (ltb now i.deadline_at)

-- the branch on `original_invocation_state`
unfoldable pub expire_invocation : InvocationState → ToolInvocation → ℕ → Tx ToolInvocation
unfolding reaper
expire_invocation InvocationState.leased i now = expire_lease i now
expire_invocation InvocationState.running i now = expire_lease i now
expire_invocation cancel_requested i now =
    append_invocation_transition i.id InvocationTransitionEvent.unknown_completion
      InvocationState.unknown_completion "reaper" reaper "cancellation_unacknowledged" none false
expire_invocation _ i now = pure i

unfoldable pub expire_attempt : ToolAttempt → ℕ → ToolAttempt
expire_attempt a now = record a { state = AttemptState.lease_expired; completed_at = some now }

-- one round of the loop: the id of a reaped attempt. The fields of the attempt are written before the queries
-- that follow, by the session's flush.
unfoldable pub reap_attempt : ToolAttempt → ℕ → Option ToolInvocation → Tx (List String)
unfolding expire_attempt
reap_attempt a now none = pure []
reap_attempt a now (some i) = do
  modify (λ db. record db { attempts = replace attempt_id (expire_attempt a now) db.attempts })
  expire_invocation i.state i now
  append_attempt_event (expire_attempt a now) AttemptEvent.lease_expire true a.provider_id
      a.fencing_token "lease_expired" now
  pure (a.id ∷ [])

unfoldable pub reap_attempts : List ToolAttempt → ℕ → Tx (List String)
reap_attempts [] now = pure []
reap_attempts (a ∷ rest) now = do
  known ← query (find_invocation a.invocation_id)
  reaped ← reap_attempt a now known
  others ← reap_attempts rest now
  pure (reaped ++ others)

unfoldable pub reap_expired_attempts : ℕ → Tx (List String)
reap_expired_attempts limit = do
  now ← database_now
  attempts ← query (expired_attempts limit now)
  reaped ← reap_attempts attempts now
  commit
  pure reaped
