-- ===== src/Execution/Keeps.antt =====
-- What each execution handler keeps: every property that survives a legal transition.
pub mod Beside
use superlily.Execution.Keeps.Beside.{budget_cancel-Keeps, settle-Keeps, expire-Keeps}
use superlily.Base.{ℕ, refl, Bool, true, false, Option, none, some, String, List, [], ◌∷◌}
use superlily.Invocation.{InvocationState, cancel_requested}
use superlily.Authority.Rows.{
  ToolInvocation, ToolAttempt, ToolUsage, AttemptState, AttemptEvent, ToolArtifact, Database,
}
use superlily.Authority.Session.Keeps.{
  Keeps, Keeps-pure, Keeps-if, Keeps-bind, Keeps-query, Keeps-require, keeps_rules,
}
use superlily.Authority.Ledger.Stable.{Stable, Gentle, Stable-Gentle, append-Keeps, aside-Keeps}
use superlily.Execution.Proof.{
  External, ToolExecutionProof, Check, store_attempt, stamp_attempt, attempt_event,
  append_attempt_event, reject_known_attempt, run_checks, locked_attempt_and_invocation,
}
use superlily.Execution.Lifecycle.{
  start_tool_execution, request_budget_cancel, heartbeat_tool_execution, Finish, finish_attempt,
  fail_tool_execution,
}
use superlily.Execution.Artifacts.{
  ArtifactOutcome, total, refused, broken, mark, mark_rows, settle_artifacts,
  validate_and_reference_artifacts,
}
use superlily.Execution.Complete.{
  Completion, close_completion, reference_and_close, within_budget, with_artifacts,
  check_and_finish, complete_tool_execution,
}
use superlily.Execution.Reap.{
  after_expiry, expire_lease, expire_invocation, expire_attempt, reap_attempt, reap_attempts,
  reap_expired_attempts,
}

module _ {P : Database → Type 0} (stable : Stable P) where
  gentle : Gentle P
  gentle = Stable-Gentle stable

  attempt_event-Keeps :
      (a : ToolAttempt) (event : AttemptEvent) (accepted : Bool) (provider_id : String)
      (fencing_token : ℕ) (reason_code : String) (now : ℕ)
      → Keeps P (append_attempt_event a event accepted provider_id fencing_token reason_code now)
  unfolding append_attempt_event
  attempt_event-Keeps a event accepted provider_id fencing_token reason_code now =
      Keeps-bind _ _
        (aside-Keeps stable
          (store_attempt (stamp_attempt a now)
            (attempt_event a event accepted provider_id fencing_token reason_code now))
          (λ db. unfold store_attempt in (refl, refl)))
        (λ _. Keeps-pure _)

  reject-Keeps :
      {A : Type 0} (a : ToolAttempt) (provider_id : String) (fencing_token : ℕ)
      (reason_code detail : String) (now : ℕ)
      → Keeps P (reject_known_attempt {A = A} a provider_id fencing_token reason_code detail now)
  unfolding reject_known_attempt
  reject-Keeps a provider_id fencing_token reason_code detail now =
      search (keeps_rules, attempt_event-Keeps)

  checks-Keeps :
      (a : ToolAttempt) (provider_id : String) (fencing_token now : ℕ) (cs : List Check)
      → Keeps P (run_checks a provider_id fencing_token now cs)
  unfolding run_checks
  checks-Keeps a provider_id fencing_token now [] = Keeps-pure tt
  checks-Keeps a provider_id fencing_token now (c ∷ rest) =
      Keeps-if c.accepted _ _ (checks-Keeps a provider_id fencing_token now rest)
        (reject-Keeps a provider_id fencing_token c.reason_code c.detail now)

  locked-Keeps :
      (x : External) (invocation_id : String) (proof : ToolExecutionProof) (provider_id : String)
      (allowed_attempt : AttemptState → Bool) (allowed_invocation : InvocationState → Bool)
      → Keeps P (
          locked_attempt_and_invocation x invocation_id proof provider_id allowed_attempt
            allowed_invocation)
  unfolding locked_attempt_and_invocation
  locked-Keeps x invocation_id proof provider_id allowed_attempt allowed_invocation =
      search (keeps_rules, checks-Keeps) depth 12

  pub start-Keeps :
      (x : External) (invocation_id : String) (proof : ToolExecutionProof) (provider_id : String)
      → Keeps P (start_tool_execution x invocation_id proof provider_id)
  unfolding start_tool_execution
  start-Keeps x invocation_id proof provider_id =
      search (keeps_rules, locked-Keeps, append-Keeps gentle, attempt_event-Keeps) depth 12

  pub heartbeat-Keeps :
      (x : External) (tool_lease_seconds : ℕ) (invocation_id : String) (proof : ToolExecutionProof)
      (usage : ToolUsage) (provider_id : String)
      → Keeps P
          (heartbeat_tool_execution x tool_lease_seconds invocation_id proof usage provider_id)
  unfolding heartbeat_tool_execution
  heartbeat-Keeps x tool_lease_seconds invocation_id proof usage provider_id =
      search (keeps_rules, locked-Keeps, budget_cancel-Keeps gentle, attempt_event-Keeps) depth 12

  finish-Keeps :
      (a : ToolAttempt) (i : ToolInvocation) (provider_id provider_result_id : String)
      (usage : ToolUsage) (now : ℕ) (f : Finish)
      → Keeps P (finish_attempt a i provider_id provider_result_id usage now f)
  unfolding finish_attempt
  finish-Keeps a i provider_id provider_result_id usage now f =
      search (keeps_rules, append-Keeps gentle, attempt_event-Keeps) depth 12

  pub fail-Keeps :
      (x : External) (invocation_id : String) (proof : ToolExecutionProof)
      (provider_result_id error_code safe_detail : String) (usage : ToolUsage)
      (provider_id : String)
      → Keeps P (
          fail_tool_execution x invocation_id proof provider_result_id error_code safe_detail usage
            provider_id)
  unfolding fail_tool_execution
  fail-Keeps x invocation_id proof provider_result_id error_code safe_detail usage provider_id =
      search (keeps_rules, locked-Keeps, finish-Keeps) depth 12

  close-Keeps :
      (a : ToolAttempt) (i : ToolInvocation) (provider_id : String) (c : Completion) (now : ℕ)
      (output_hash : String) (o : ArtifactOutcome)
      → Keeps P (close_completion a i provider_id c now output_hash o)
  unfolding close_completion
  close-Keeps a i provider_id c now output_hash (total n rows) = search finish-Keeps
  close-Keeps a i provider_id c now output_hash (refused code detail) = search finish-Keeps
  close-Keeps a i provider_id c now output_hash broken = search keeps_rules

  module _ (x : External) (artifact_enabled : Bool) where
    within-Keeps :
        (a : ToolAttempt) (i : ToolInvocation) (provider_id : String) (c : Completion) (now : ℕ)
        (output_hash : String) (violation : Option String)
        → Keeps P (within_budget x artifact_enabled a i provider_id c now output_hash violation)
    unfolding within_budget reference_and_close validate_and_reference_artifacts
    within-Keeps a i provider_id c now output_hash (some violation) = search finish-Keeps
    within-Keeps a i provider_id c now output_hash none =
        search (keeps_rules, finish-Keeps, settle-Keeps gentle, close-Keeps) depth 8

    artifacts-Keeps :
        (a : ToolAttempt) (i : ToolInvocation) (provider_id : String) (c : Completion) (now : ℕ)
        (output_hash : String) (o : ArtifactOutcome)
        → Keeps P (with_artifacts x artifact_enabled a i provider_id c now output_hash o)
    unfolding with_artifacts
    artifacts-Keeps a i provider_id c now output_hash (total n rows) = search within-Keeps
    artifacts-Keeps a i provider_id c now output_hash (refused code detail) = search finish-Keeps
    artifacts-Keeps a i provider_id c now output_hash broken = search keeps_rules

    pub complete-Keeps :
        (invocation_id : String) (c : Completion) (provider_id : String)
        → Keeps P (complete_tool_execution x artifact_enabled invocation_id c provider_id)
    unfolding complete_tool_execution check_and_finish validate_and_reference_artifacts
    complete-Keeps invocation_id c provider_id =
        search (keeps_rules, locked-Keeps, settle-Keeps gentle, artifacts-Keeps, finish-Keeps) depth
          12

  reap_attempt-Keeps :
      (a : ToolAttempt) (now : ℕ) (o : Option ToolInvocation) → Keeps P (reap_attempt a now o)
  unfolding reap_attempt
  reap_attempt-Keeps a now none = Keeps-pure []
  reap_attempt-Keeps a now (some i) =
      Keeps-bind _ _ (aside-Keeps stable _ (λ db. (refl, refl))) (λ _.
        Keeps-bind _ _ (expire-Keeps gentle i.state i now) (λ _.
          Keeps-bind _ _
            (attempt_event-Keeps (expire_attempt a now) AttemptEvent.lease_expire true a.provider_id
              a.fencing_token "lease_expired" now)
            (λ _. Keeps-pure _)))

  reap_attempts-Keeps :
      (attempts : List ToolAttempt) (now : ℕ) → Keeps P (reap_attempts attempts now)
  unfolding reap_attempts
  reap_attempts-Keeps [] now = Keeps-pure []
  reap_attempts-Keeps (a ∷ rest) now = Keeps-bind _ _ (Keeps-query _) (λ known.
      Keeps-bind _ _ (reap_attempt-Keeps a now known)
        (λ reaped. Keeps-bind _ _ (reap_attempts-Keeps rest now) (λ others. Keeps-pure _)))

  pub reap-Keeps : (limit : ℕ) → Keeps P (reap_expired_attempts limit)
  unfolding reap_expired_attempts
  reap-Keeps limit = search (keeps_rules, reap_attempts-Keeps) depth 8
