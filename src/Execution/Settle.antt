-- ===== src/Execution/Settle.antt =====
-- Where an invocation and its attempt end together.
use superlily.Authority.Session.Steps.{bind-ok, opened}
use superlily.Base.{
  ℕ, ◌≡◌, refl, Bool, true, Option, none, some, String, arith, ◌==◌, if◌then◌else◌,
}
use superlily.Invocation.{
  InvocationState, is_legal, is_terminal, cancel_requested, failed, cancelled, unknown_completion,
  succeeded,
}
use superlily.Authority.Rows.{ToolInvocation, ToolAttempt, ToolUsage, AttemptState, Database}
use superlily.Authority.Session.{Result, ok, run}
use superlily.Authority.Ledger.{find_invocation, advance}
use superlily.Execution.Proof.{External, ToolExecutionProof, find_attempt, stamp_attempt, checks}
use superlily.Execution.Lifecycle.{
  is_active, running_or_cancelling, Finish, finished, finish_attempt, failure, fail_tool_execution,
}
use superlily.Execution.Gate.{first_refusal, locked-passed}
use superlily.Execution.Accept.{
  ended_attempt, ended_invocation, finish_ok, find-ended, find_attempt-ended,
}

-- the attempt's state for a final state of its invocation
abbrev pub attempt_state_of : InvocationState → AttemptState
attempt_state_of succeeded = AttemptState.succeeded
attempt_state_of failed = AttemptState.failed
attempt_state_of cancelled = AttemptState.cancelled
attempt_state_of _ = AttemptState.unknown_completion

-- The request returns the attempt, and the database then holds that attempt and its invocation, which have
-- ended together in `final`; the output is kept as `output` says.
pub record Settles (r : Result ToolAttempt × Database) (attempt : String) (id : String)
    (final : InvocationState) (output : Option String) : Type 0 where
  pub row : ToolInvocation
  pub result : ToolAttempt
  pub returned : r.0 ≡ ok result
  pub stored : find_attempt attempt r.1 ≡ some result
  pub moved : find_invocation id r.1 ≡ some row
  pub row_state : row.state ≡ final
  pub result_state : result.state ≡ attempt_state_of final
  pub result_output : result.output_json ≡ output
  pub is_final : is_terminal final ≡ true

pub allowed_state :
    (x : External) (a : ToolAttempt) (i : ToolInvocation) (proof : ToolExecutionProof)
    (provider_id : String) (f : AttemptState → Bool) (g : InvocationState → Bool) (now : ℕ)
    → first_refusal (checks x a i proof provider_id f g now) ≡ none
    → g i.state ≡ true
unfolding checks
allowed_state x a i proof provider_id f g now h = ground (arith, h)

-- the final state of a reported failure
abbrev pub failure_state : InvocationState → String → InvocationState
failure_state cancel_requested code = if code == "cancelled" then cancelled else unknown_completion
failure_state _ code = failed

module _ (i : ToolInvocation) (code detail : String)
    (ok_state : running_or_cancelling i.state ≡ true) where
  failure-legal :
      is_legal
        (failure i code detail).invocation_event
        (some i.state)
        (failure i code detail).invocation_state
      ≡ true
  unfolding failure is_legal
  failure-legal = ground (arith, ok_state)

  failure-facts :
      ((failure i code detail).invocation_state ≡ failure_state i.state code)
      × ((failure i code detail).attempt_state ≡ attempt_state_of (failure_state i.state code))
      × ((failure i code detail).output ≡ none)
      × (is_terminal (failure_state i.state code) ≡ true)
  unfolding failure is_terminal
  failure-facts = ground (arith, ok_state)

-- the end of an attempt, in a session whose work is committed by it
module _ (a : ToolAttempt) (i : ToolInvocation) (provider_id result_id : String) (usage : ToolUsage)
    (now : ℕ) (db : Database) (attempt : String) (attempt_found : find_attempt attempt db ≡ some a)
    (found : find_invocation i.id db ≡ some i) where
  pub finish-Settles :
      (f : Finish) (final : InvocationState) (output : Option String)
      → is_legal f.invocation_event (some i.state) f.invocation_state ≡ true
      → f.invocation_state ≡ final
      → f.attempt_state ≡ attempt_state_of final
      → f.output ≡ output
      → is_terminal final ≡ true
      → Settles
          (let (r, s) = finish_attempt a i provider_id result_id usage now f (opened now db) in
            (r, s.committed))
          attempt
          i.id
          final
          output
  unfolding advance finished stamp_attempt
  finish-Settles f final output legal ends ends_attempt outputs terminal =
      rw (finish_ok a i provider_id result_id usage f (opened now db) found legal) (record {
        row = ended_invocation a i provider_id result_id usage f (opened now db);
        result = ended_attempt a i provider_id result_id usage f (opened now db);
        returned = refl;
        stored =
            find_attempt-ended a i provider_id result_id usage f (opened now db) found legal attempt
              attempt_found;
        moved = find-ended a i provider_id result_id usage f (opened now db) found legal;
        row_state = ends;
        result_state = ends_attempt;
        result_output = outputs;
        is_final = terminal;
      })

-- A failure report on a stored attempt and its stored invocation that passes the proof check ends the two
-- in one transaction: both as failed, where the invocation ran; as cancelled, where cancellation was
-- requested and the provider reports "cancelled"; and as of unknown completion, where it reports anything
-- else. No output is kept.
pub fail-Settles :
    (x : External) (proof : ToolExecutionProof) (provider_id result_id code detail : String)
    (usage : ToolUsage) (now : ℕ) (db : Database) (a : ToolAttempt) (i : ToolInvocation)
    → find_attempt proof.attempt_id db ≡ some a
    → (a.invocation_id == i.id) ≡ true
    → find_invocation i.id db ≡ some i
    → first_refusal (checks x a i proof provider_id is_active running_or_cancelling now) ≡ none
    → Settles
        (run now (fail_tool_execution x i.id proof result_id code detail usage provider_id) db)
        proof.attempt_id
        i.id
        (failure_state i.state code)
        none
unfolding fail_tool_execution run
fail-Settles x proof provider_id result_id code detail usage now db a i attempt_found bound found
      passed =
    let allowed : running_or_cancelling i.state ≡ true =
      allowed_state x a i proof provider_id is_active running_or_cancelling now passed in
    let (ends, ends_attempt, outputs, terminal) = failure-facts i code detail allowed in
    rw
      (bind-ok _ _ (opened now db) (opened now db) (a, i, now)
        (locked-passed x proof provider_id is_active running_or_cancelling a i (opened now db)
          attempt_found bound found passed))
      (finish-Settles a i provider_id result_id usage now db proof.attempt_id attempt_found found
        (failure i code detail) (failure_state i.state code) none
        (failure-legal i code detail allowed) ends ends_attempt outputs terminal)
