-- ===== src/Execution/Complete.antt =====
-- `complete_tool_execution` and `_budget_violation` of tool_execution_service.py.
use Prim.Native.String.{len}
use superlily.Base.{
  ℕ, Bool, true, false, not, ◌||◌, Option, none, some, String, List, [], ◌∷◌, eqb, if◌then◌else◌,
}
use superlily.Invocation.{
  InvocationState, InvocationTransitionEvent, cancel_requested, complete_failure, complete_success,
}
use superlily.Authority.Rows.{
  ToolDescriptor, ToolInvocation, ToolAttempt, ToolUsage, AttemptState, AttemptEvent,
}
use superlily.Authority.Session.{runtime_error, Tx, ◌>>=◌, raise}
use superlily.Authority.Ledger.{same_state}
use superlily.Execution.Proof.{External, ToolExecutionProof, locked_attempt_and_invocation}
use superlily.Execution.Lifecycle.{
  is_running, running_or_cancelling, first_violation, Finish, finish_attempt,
}
use superlily.Execution.Artifacts.{
  ToolArtifactReference, ArtifactOutcome, total, refused, broken, validate_and_reference_artifacts,
}

-- the report against the bytes that the Core measured, and these against the reviewed limits
unfoldable pub budget_violation : ToolDescriptor → ToolUsage → ℕ → ℕ → ℕ → Option String
unfolding first_violation
budget_violation d u actual_input_bytes actual_output_bytes actual_artifact_bytes =
    if not (eqb u.input_bytes actual_input_bytes)
      || not (eqb u.output_bytes actual_output_bytes)
      || not (eqb u.artifact_bytes actual_artifact_bytes)
    then some "usage_mismatch"
    else first_violation (
        ("cpu", u.cpu_ms, d.resource_budget.cpu_ms)
        ∷ ("memory", u.memory_peak_bytes, d.resource_budget.memory_bytes)
        ∷ ("input_bytes", actual_input_bytes, d.resource_budget.input_bytes)
        ∷ ("output_bytes", actual_output_bytes, d.resource_budget.output_bytes)
        ∷ ("artifact_bytes", actual_artifact_bytes, d.resource_budget.artifact_bytes)
        ∷ ("wall_time", u.wall_time_ms, some d.timeout_ms)
        ∷ [])

-- a ToolExecutionCompleteIn; the output is its canonical text
pub record Completion : Type 0 where
  pub proof : ToolExecutionProof
  pub provider_result_id : String
  pub output : String
  pub usage : ToolUsage
  pub artifacts : List ToolArtifactReference

-- a completion that the Core does not accept, and the same one where cancellation was requested
unfoldable pub rejected_completion : ToolInvocation → String → String → String → String → Finish
rejected_completion i reason_code error_code safe_detail output_hash =
    if same_state i.state cancel_requested
    then (record {
      event = AttemptEvent.fail;
      invocation_event = InvocationTransitionEvent.unknown_completion;
      invocation_state = InvocationState.unknown_completion;
      attempt_state = AttemptState.unknown_completion;
      reason_code = "completion_raced_cancellation";
      output = none;
      output_hash = some output_hash;
      error_code = some error_code;
      safe_error_detail = some safe_detail;
    })
    else (record {
      event = AttemptEvent.fail;
      invocation_event = complete_failure;
      invocation_state = InvocationState.failed;
      attempt_state = AttemptState.failed;
      reason_code = reason_code;
      output = none;
      output_hash = some output_hash;
      error_code = some error_code;
      safe_error_detail = some safe_detail;
    })

unfoldable pub raced_completion : String → Finish
raced_completion output_hash = record {
  event = AttemptEvent.complete;
  invocation_event = InvocationTransitionEvent.unknown_completion;
  invocation_state = InvocationState.unknown_completion;
  attempt_state = AttemptState.unknown_completion;
  reason_code = "completion_raced_cancellation";
  output = none;
  output_hash = some output_hash;
  error_code = some "cancelled";
  safe_error_detail = some "completion arrived after cancellation was requested";
}

unfoldable pub accepted_completion : String → String → Finish
accepted_completion output output_hash = record {
  event = AttemptEvent.complete;
  invocation_event = complete_success;
  invocation_state = InvocationState.succeeded;
  attempt_state = AttemptState.succeeded;
  reason_code = "provider_completed";
  output = some output;
  output_hash = some output_hash;
  error_code = none;
  safe_error_detail = none;
}

-- the end of a completion whose artifacts were marked, or whose artifacts can no longer be
unfoldable pub close_completion :
    ToolAttempt
    → ToolInvocation
    → String
    → Completion
    → ℕ
    → String
    → ArtifactOutcome
    → Tx ToolAttempt
unfolding accepted_completion
close_completion a i provider_id c now output_hash (total n rows) =
    finish_attempt a i provider_id c.provider_result_id c.usage now
      (accepted_completion c.output output_hash)
close_completion a i provider_id c now output_hash (refused code detail) =
    finish_attempt a i provider_id c.provider_result_id c.usage now (record {
      event = AttemptEvent.fail;
      invocation_event = complete_failure;
      invocation_state = InvocationState.failed;
      attempt_state = AttemptState.failed;
      reason_code = code;
      output = none;
      output_hash = some output_hash;
      error_code = some "artifact_failed";
      safe_error_detail = some detail;
    })
close_completion a i provider_id c now output_hash broken = raise runtime_error

module _ (x : External) (artifact_enabled : Bool) where
  -- the second call of the artifact check, which marks the rows
  unfoldable pub reference_and_close :
      ToolAttempt → ToolInvocation → String → Completion → ℕ → String → Tx ToolAttempt
  reference_and_close a i provider_id c now output_hash = do
    outcome ←
        validate_and_reference_artifacts x artifact_enabled a i i.descriptor c.artifacts c.usage
          provider_id now true
    close_completion a i provider_id c now output_hash outcome

  -- the part behind the budget check
  unfoldable pub within_budget :
      ToolAttempt
      → ToolInvocation
      → String
      → Completion
      → ℕ
      → String
      → Option String
      → Tx ToolAttempt
  unfolding rejected_completion raced_completion
  within_budget a i provider_id c now output_hash (some violation) =
      finish_attempt a i provider_id c.provider_result_id c.usage now (
        rejected_completion i "budget_exceeded" "budget_exceeded"
          "provider result exceeded or misreported its reviewed budget" output_hash)
  within_budget a i provider_id c now output_hash none =
      if same_state i.state cancel_requested
      then finish_attempt a i provider_id c.provider_result_id c.usage now
          (raced_completion output_hash)
      else reference_and_close a i provider_id c now output_hash

  -- the part behind the first call of the artifact check
  unfoldable pub with_artifacts :
      ToolAttempt
      → ToolInvocation
      → String
      → Completion
      → ℕ
      → String
      → ArtifactOutcome
      → Tx ToolAttempt
  unfolding budget_violation rejected_completion
  with_artifacts a i provider_id c now output_hash (total n rows) =
      within_budget a i provider_id c now output_hash
        (budget_violation i.descriptor c.usage (len i.input_json) (len c.output) n)
  with_artifacts a i provider_id c now output_hash (refused code detail) =
      finish_attempt a i provider_id c.provider_result_id c.usage now
        (rejected_completion i code "artifact_failed" detail output_hash)
  with_artifacts a i provider_id c now output_hash broken = raise runtime_error

  unfoldable pub check_and_finish :
      ToolAttempt → ToolInvocation → String → Completion → ℕ → Tx ToolAttempt
  unfolding rejected_completion
  check_and_finish a i provider_id c now =
      if x.satisfies_schema c.output i.descriptor.output_schema
      then (do
        outcome ←
            validate_and_reference_artifacts x artifact_enabled a i i.descriptor c.artifacts c.usage
              provider_id now false
        with_artifacts a i provider_id c now (x.sha256 c.output) outcome)
      else finish_attempt a i provider_id c.provider_result_id c.usage now (
          rejected_completion i "invalid_output" "invalid_output"
            "provider output did not satisfy the reviewed schema" (x.sha256 c.output))

  unfoldable pub complete_tool_execution : String → Completion → String → Tx ToolAttempt
  complete_tool_execution invocation_id c provider_id = do
    (a, i, now) ←
        locked_attempt_and_invocation x invocation_id c.proof provider_id is_running
          running_or_cancelling
    check_and_finish a i provider_id c now
