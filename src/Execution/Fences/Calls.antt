-- ===== src/Execution/Fences/Calls.antt =====
-- The calls of a provider keep the fences.
use superlily.Base.{ℕ, ◌≡◌, refl, Bool, true, false, Option, none, some, String, arith}
use superlily.Authority.Rows.{ToolInvocation, ToolAttempt, ToolUsage, AttemptState}
use superlily.Authority.Session.Keeps.{Keeps, Keeps-bind, Keeps-pure, Keeps-commit, keeps_rules}
use superlily.Authority.Ledger.Stable.{append-Keeps}
use superlily.Execution.Proof.{External, ToolExecutionProof}
use superlily.Execution.Lifecycle.{
  is_active, is_leased, is_running, invocation_leased, running_or_cancelling, Finish, finished,
  finish_attempt, failure, start_tool_execution, heartbeat_tool_execution, fail_tool_execution,
  lease_until,
}
use superlily.Execution.Artifacts.{
  ArtifactOutcome, total, refused, broken, validate_and_reference_artifacts,
}
use superlily.Execution.Complete.{
  Completion, close_completion, reference_and_close, within_budget, with_artifacts,
  check_and_finish, complete_tool_execution, rejected_completion, raced_completion,
  accepted_completion,
}
use superlily.Execution.Keeps.Beside.{budget_cancel-Keeps, settle-Keeps}
use superlily.Execution.Fences.Held.{Holds, Holds-Gentle, write-Keeps}
use superlily.Execution.Fences.Locked.{Safe, active-Ends, ended-Ends, locked-Safe}

leased-active : (s : AttemptState) → is_leased s ≡ true → true ≡ is_active s
leased-active s h = ground (arith, h)

pub start-Safe :
    (x : External) (id : String) (proof : ToolExecutionProof) (provider_id : String)
    → Safe (start_tool_execution x id proof provider_id)
unfolding start_tool_execution
start-Safe x id proof provider_id =
    locked-Safe x proof provider_id is_leased invocation_leased _
      (λ a i now ok. active-Ends a _ (
        Keeps-bind _ _ (append-Keeps (Holds-Gentle (is_active a.state) a) _ _ _ _ _ _ _ _) (λ _.
          Keeps-bind _ _
            (write-Keeps (is_active a.state) a
              (record a {
                state = AttemptState.running;
                started_at = some now;
                last_heartbeat_at = some now;
              })
              (record {
                same_id = refl;
                same_invocation = refl;
                same_fence = refl;
                activity = leased-active a.state ok;
              })
              _ _ _ _ _ _)
            (λ updated. Keeps-bind _ _ Keeps-commit (λ _. Keeps-pure _)))))
      id

pub heartbeat-Safe :
    (x : External) (seconds : ℕ) (id : String) (proof : ToolExecutionProof) (usage : ToolUsage)
    (provider_id : String)
    → Safe (heartbeat_tool_execution x seconds id proof usage provider_id)
unfolding heartbeat_tool_execution
heartbeat-Safe x seconds id proof usage provider_id =
    locked-Safe x proof provider_id is_running running_or_cancelling _
      (λ a i now ok. active-Ends a _ (
        Keeps-bind _ _ (budget_cancel-Keeps (Holds-Gentle (is_active a.state) a) i _) (λ current.
          Keeps-bind _ _
            (write-Keeps (is_active a.state) a
              (record a {
                usage = usage;
                last_heartbeat_at = some now;
                lease_expires_at = lease_until a.deadline_at now seconds;
              })
              (record {
                same_id = refl;
                same_invocation = refl;
                same_fence = refl;
                activity = refl;
              })
              _ _ _ _ _ _)
            (λ updated. Keeps-bind _ _ Keeps-commit (λ _. Keeps-pure _)))))
      id

-- the end of an attempt, whatever its state was
module _ (a : ToolAttempt) where
  finish-Holds :
      (i : ToolInvocation) (provider_id result_id : String) (usage : ToolUsage) (now : ℕ)
      (f : Finish)
      → is_active f.attempt_state ≡ false
      → Keeps (Holds false a) (finish_attempt a i provider_id result_id usage now f)
  unfolding finish_attempt finished
  finish-Holds i provider_id result_id usage now f ended =
      Keeps-bind _ _ (append-Keeps (Holds-Gentle false a) _ _ _ _ _ _ _ _) (λ _.
        Keeps-bind _ _
          (write-Keeps false a (finished a result_id usage f now)
            (record { same_id = refl; same_invocation = refl; same_fence = refl; activity = ended })
            _ _ _ _ _ _)
          (λ updated. Keeps-bind _ _ Keeps-commit (λ _. Keeps-pure _)))

  rejected-Holds :
      (i : ToolInvocation) (provider_id result_id : String) (usage : ToolUsage) (now : ℕ)
      (code error detail hash : String)
      → Keeps (Holds false a) (
          finish_attempt a i provider_id result_id usage now
            (rejected_completion i code error detail hash))
  rejected-Holds i provider_id result_id usage now code error detail hash =
      finish-Holds i provider_id result_id usage now _ (unfold rejected_completion in ground arith)

  close-Holds :
      (i : ToolInvocation) (provider_id : String) (c : Completion) (now : ℕ) (hash : String)
      (o : ArtifactOutcome)
      → Keeps (Holds false a) (close_completion a i provider_id c now hash o)
  unfolding close_completion accepted_completion
  close-Holds i provider_id c now hash (total n rows) = finish-Holds i provider_id _ _ now _ refl
  close-Holds i provider_id c now hash (refused code detail) =
      finish-Holds i provider_id _ _ now _ refl
  close-Holds i provider_id c now hash broken = search keeps_rules

  module _ (x : External) (artifact_enabled : Bool) (i : ToolInvocation) (provider_id : String)
      (c : Completion) (now : ℕ) where
    raced-Holds :
        (hash : String)
        → Keeps (Holds false a) (
            finish_attempt a i provider_id c.provider_result_id c.usage now (raced_completion hash))
    raced-Holds hash = finish-Holds i provider_id _ _ now _ (unfold raced_completion in refl)

    within-Holds :
        (hash : String) (violation : Option String)
        → Keeps
            (Holds false a)
            (within_budget x artifact_enabled a i provider_id c now hash violation)
    unfolding within_budget reference_and_close validate_and_reference_artifacts
    within-Holds hash (some violation) = rejected-Holds i provider_id _ _ now _ _ _ _
    within-Holds hash none =
        search (keeps_rules, raced-Holds, settle-Keeps (Holds-Gentle false a), close-Holds) depth 8

    artifacts-Holds :
        (hash : String) (o : ArtifactOutcome)
        → Keeps (Holds false a) (with_artifacts x artifact_enabled a i provider_id c now hash o)
    unfolding with_artifacts
    artifacts-Holds hash (total n rows) = search within-Holds
    artifacts-Holds hash (refused code detail) = search rejected-Holds
    artifacts-Holds hash broken = search keeps_rules

    check-Holds : Keeps (Holds false a) (check_and_finish x artifact_enabled a i provider_id c now)
    unfolding check_and_finish validate_and_reference_artifacts
    check-Holds =
        search (keeps_rules, settle-Keeps (Holds-Gentle false a), artifacts-Holds, rejected-Holds)
          depth 12

pub fail-Safe :
    (x : External) (id : String) (proof : ToolExecutionProof) (result_id code detail : String)
    (usage : ToolUsage) (provider_id : String)
    → Safe (fail_tool_execution x id proof result_id code detail usage provider_id)
unfolding fail_tool_execution
fail-Safe x id proof result_id code detail usage provider_id =
    locked-Safe x proof provider_id is_active running_or_cancelling _
      (λ a i now ok. ended-Ends a _ (
        finish-Holds a i provider_id result_id usage now (failure i code detail)
          (unfold failure in ground arith)))
      id

pub complete-Safe :
    (x : External) (artifact_enabled : Bool) (id : String) (c : Completion) (provider_id : String)
    → Safe (complete_tool_execution x artifact_enabled id c provider_id)
unfolding complete_tool_execution
complete-Safe x artifact_enabled id c provider_id =
    locked-Safe x c.proof provider_id is_running running_or_cancelling _
      (λ a i now ok. ended-Ends a _ (check-Holds a x artifact_enabled i provider_id c now)) id
