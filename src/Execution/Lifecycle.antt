-- ===== src/Execution/Lifecycle.antt =====
-- `start_tool_execution`, `heartbeat_tool_execution`, `_finish_attempt` and `fail_tool_execution` of
-- tool_execution_service.py. Each returns the attempt that its view shows.
use superlily.Base.{
  ℕ, ◌+◌, ◌*◌, Bool, true, false, ◌&&◌, Option, none, some, min, String, List, [], ◌∷◌, ltb,
  is_some, ◌==◌, if◌then◌else◌,
}
use superlily.Invocation.{
  InvocationState, InvocationTransitionEvent, cancel_requested, complete_failure, request_cancel,
}
use superlily.Authority.Rows.{
  ResourceBudget, ToolDescriptor, ToolInvocation, ToolAttempt, ToolUsage, AttemptState,
  AttemptEvent,
}
use superlily.Authority.Session.{Tx, ◌>>=◌, ◌>>◌, pure, commit}
use superlily.Authority.Ledger.{append_invocation_transition, same_state}
use superlily.Execution.Proof.{
  External, ToolExecutionProof, append_attempt_event, locked_attempt_and_invocation,
}

abbrev pub is_leased : AttemptState → Bool
is_leased AttemptState.leased = true
is_leased _ = false

abbrev pub is_running : AttemptState → Bool
is_running AttemptState.running = true
is_running _ = false

abbrev pub is_active : AttemptState → Bool
is_active AttemptState.leased = true
is_active AttemptState.running = true
is_active _ = false

abbrev pub invocation_leased : InvocationState → Bool
invocation_leased InvocationState.leased = true
invocation_leased _ = false

abbrev pub running_or_cancelling : InvocationState → Bool
running_or_cancelling InvocationState.running = true
running_or_cancelling cancel_requested = true
running_or_cancelling _ = false

-- now + timedelta(seconds=tool_lease_seconds), capped by the deadline; a second is 10 ^ 6 microseconds
unfoldable pub lease_until : ℕ → ℕ → ℕ → ℕ
lease_until deadline_at now tool_lease_seconds =
    min deadline_at (now + tool_lease_seconds * 1000000)

abbrev pub exceeds : ℕ → Option ℕ → Bool
exceeds value none = false
exceeds value (some limit) = ltb limit value

-- the first name of a dictionary of limits whose value is over its limit
unfoldable pub first_violation : List (String × ℕ × Option ℕ) → Option String
first_violation [] = none
first_violation ((name, value, limit) ∷ rest) =
    if exceeds value limit then some name else first_violation rest

unfoldable pub live_violation : ToolDescriptor → ToolUsage → Option String
unfolding first_violation
live_violation d u = first_violation (
    ("wall_time", u.wall_time_ms, some d.timeout_ms)
    ∷ ("cpu", u.cpu_ms, b.cpu_ms)
    ∷ ("memory", u.memory_peak_bytes, b.memory_bytes)
    ∷ ("input_bytes", u.input_bytes, b.input_bytes)
    ∷ ("output_bytes", u.output_bytes, b.output_bytes)
    ∷ ("artifact_bytes", u.artifact_bytes, b.artifact_bytes)
    ∷ [])
  where
    b : ResourceBudget
    b = d.resource_budget

unfoldable pub start_tool_execution :
    External → String → ToolExecutionProof → String → Tx ToolAttempt
start_tool_execution x invocation_id proof provider_id = do
  (a, i, now) ←
      locked_attempt_and_invocation x invocation_id proof provider_id is_leased invocation_leased
  append_invocation_transition i.id InvocationTransitionEvent.start InvocationState.running
      "provider" provider_id "provider_started" none false
  updated ←
      append_attempt_event
        (record a {
          state = AttemptState.running;
          started_at = some now;
          last_heartbeat_at = some now;
        })
        AttemptEvent.start true provider_id a.fencing_token "provider_started" now
  commit
  pure updated

-- asks for cancellation when a live limit is passed while the invocation runs
unfoldable pub request_budget_cancel : ToolInvocation → Option String → Tx ToolInvocation
request_budget_cancel i violation =
    if is_some violation && same_state i.state InvocationState.running
    then append_invocation_transition i.id request_cancel cancel_requested "system" "tool-budget-v1"
        "budget_exceeded" none false
    else pure i

-- the attempt, and whether the provider is to stop
unfoldable pub heartbeat_tool_execution :
    External → ℕ → String → ToolExecutionProof → ToolUsage → String → Tx (ToolAttempt × Bool)
heartbeat_tool_execution x tool_lease_seconds invocation_id proof usage provider_id = do
  (a, i, now) ←
      locked_attempt_and_invocation x invocation_id proof provider_id is_running
        running_or_cancelling
  let violation = live_violation i.descriptor usage
  current ← request_budget_cancel i violation
  updated ←
      append_attempt_event
        (record a {
          usage = usage;
          last_heartbeat_at = some now;
          lease_expires_at = lease_until a.deadline_at now tool_lease_seconds;
        })
        AttemptEvent.heartbeat true provider_id a.fencing_token
        (if is_some violation then "budget_exceeded" else "heartbeat_accepted") now
  commit
  pure (updated, same_state current.state cancel_requested)

-- what `_finish_attempt` is told of the end of an attempt
pub record Finish : Type 0 where
  pub event : AttemptEvent
  pub invocation_event : InvocationTransitionEvent
  pub invocation_state : InvocationState
  pub attempt_state : AttemptState
  pub reason_code : String
  pub output : Option String
  pub output_hash : Option String
  pub error_code : Option String
  pub safe_error_detail : Option String

unfoldable pub finished : ToolAttempt → String → ToolUsage → Finish → ℕ → ToolAttempt
finished a provider_result_id usage f now = record a {
  state = f.attempt_state;
  completed_at = some now;
  last_heartbeat_at = some now;
  usage = usage;
  output_json = f.output;
  output_hash = f.output_hash;
  provider_result_id = some provider_result_id;
  error_code = f.error_code;
  safe_error_detail = f.safe_error_detail;
}

unfoldable pub finish_attempt :
    ToolAttempt → ToolInvocation → String → String → ToolUsage → ℕ → Finish → Tx ToolAttempt
unfolding finished
finish_attempt a i provider_id provider_result_id usage now f = do
  append_invocation_transition i.id f.invocation_event f.invocation_state "provider" provider_id
      f.reason_code none false
  updated ←
      append_attempt_event (finished a provider_result_id usage f now) f.event true provider_id
        a.fencing_token f.reason_code now
  commit
  pure updated

-- the branch of `fail_tool_execution` on a requested cancellation and the error's code
unfoldable pub failure : ToolInvocation → String → String → Finish
failure i error_code safe_detail =
    if same_state i.state cancel_requested && error_code == "cancelled"
    then (record {
      event = AttemptEvent.cancel;
      invocation_event = InvocationTransitionEvent.cancel;
      invocation_state = InvocationState.cancelled;
      attempt_state = AttemptState.cancelled;
      reason_code = "provider_acknowledged_cancellation";
      output = none;
      output_hash = none;
      error_code = some error_code;
      safe_error_detail = some safe_detail;
    })
    else if same_state i.state cancel_requested
    then (record {
      event = AttemptEvent.fail;
      invocation_event = InvocationTransitionEvent.unknown_completion;
      invocation_state = InvocationState.unknown_completion;
      attempt_state = AttemptState.unknown_completion;
      reason_code = "failure_raced_cancellation";
      output = none;
      output_hash = none;
      error_code = some error_code;
      safe_error_detail = some safe_detail;
    })
    else (record {
      event = AttemptEvent.fail;
      invocation_event = complete_failure;
      invocation_state = InvocationState.failed;
      attempt_state = AttemptState.failed;
      reason_code = error_code;
      output = none;
      output_hash = none;
      error_code = some error_code;
      safe_error_detail = some safe_detail;
    })

unfoldable pub fail_tool_execution :
    External
    → String
    → ToolExecutionProof
    → String
    → String
    → String
    → ToolUsage
    → String
    → Tx ToolAttempt
fail_tool_execution x invocation_id proof provider_result_id error_code safe_detail usage
      provider_id =
    do
      (a, i, now) ←
          locked_attempt_and_invocation x invocation_id proof provider_id is_active
            running_or_cancelling
      finish_attempt a i provider_id provider_result_id usage now (failure i error_code safe_detail)
