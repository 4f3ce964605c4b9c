-- ===== src/Execution/SettleComplete.antt =====
-- Where a completion that references no artifact ends.
use Prim.Native.String.{len}
use superlily.Authority.Session.Steps.{bind-ok, opened}
use superlily.Base.{
  ℕ, ◌≡◌, Bool, true, false, ◌&&◌, ◌||◌, Option, none, some, String, [], arith, eqb, is_none,
  Bool-cases, Option-cases, inl, inr, ◌==◌, if◌then◌else◌,
}
use superlily.Invocation.{
  InvocationState, is_legal, is_terminal, cancel_requested, failed, unknown_completion, succeeded,
}
use superlily.Authority.Rows.{ToolInvocation, ToolAttempt, ToolUsage, Database}
use superlily.Authority.Session.{◌>>=◌, query, pure, run}
use superlily.Authority.Ledger.{find_invocation, same_state}
use superlily.Execution.Proof.{External, find_attempt, checks}
use superlily.Execution.Lifecycle.{is_running, running_or_cancelling, Finish, finish_attempt}
use superlily.Execution.Artifacts.{
  ArtifactOutcome, total, refused, check_artifacts, settle_artifacts, mark_rows,
  validate_and_reference_artifacts,
}
use superlily.Execution.Complete.{
  Completion, budget_violation, rejected_completion, raced_completion, accepted_completion,
  close_completion, reference_and_close, within_budget, with_artifacts, check_and_finish,
  complete_tool_execution,
}
use superlily.Execution.Gate.{first_refusal, locked-passed}
use superlily.Execution.Settle.{Settles, attempt_state_of, finish-Settles, allowed_state}

abbrev artifact_free : Bool → ToolInvocation → ToolUsage → Bool
artifact_free artifact_enabled i usage =
    eqb usage.artifact_bytes 0 && (is_none i.descriptor.artifact_policy || artifact_enabled)

-- what the Core asks of a completion without artifacts
pub accepts : External → Bool → Completion → ToolInvocation → Bool
accepts x artifact_enabled c i =
    x.satisfies_schema c.output i.descriptor.output_schema
    && artifact_free artifact_enabled i c.usage
    && is_none (budget_violation i.descriptor c.usage (len i.input_json) (len c.output) 0)

abbrev pub completion_state : InvocationState → Bool → InvocationState
completion_state cancel_requested accepted = unknown_completion
completion_state _ accepted = if accepted then succeeded else failed

abbrev pub completion_output : InvocationState → Bool → String → Option String
completion_output cancel_requested accepted output = none
completion_output _ accepted output = if accepted then some output else none

-- the artifact check of an empty list of references
module _ (x : External) (artifact_enabled : Bool) (a : ToolAttempt) (i : ToolInvocation)
    (usage : ToolUsage) (provider_id : String) (db : Database) where
  abbrev outcome : ArtifactOutcome
  outcome = check_artifacts x artifact_enabled a i i.descriptor [] usage provider_id db

  outcome_free : artifact_free artifact_enabled i usage ≡ true → outcome ≡ total 0 []
  unfolding check_artifacts
  outcome_free h = ground (arith, h)

  abbrev code : String
  code = elim outcome [ refused c d ↦ c | _ ↦ "" ]

  abbrev detail : String
  detail = elim outcome [ refused c d ↦ d | _ ↦ "" ]

  outcome-refused : artifact_free artifact_enabled i usage ≡ false → outcome ≡ refused code detail
  unfolding check_artifacts
  outcome-refused h = ground (arith, h)

module _ (i : ToolInvocation) (known : running_or_cancelling i.state ≡ true) where
  rejected_facts :
      (reason error detail hash output : String)
      → let f = rejected_completion i reason error detail hash in
        (is_legal f.invocation_event (some i.state) f.invocation_state ≡ true)
        × (f.invocation_state ≡ completion_state i.state false)
        × (f.attempt_state ≡ attempt_state_of (completion_state i.state false))
        × (f.output ≡ completion_output i.state false output)
        × (is_terminal (completion_state i.state false) ≡ true)
  unfolding rejected_completion is_legal is_terminal
  rejected_facts reason error detail hash output = ground (arith, known)

  raced_facts :
      (hash output : String)
      → same_state i.state cancel_requested ≡ true
      → let f = raced_completion hash in
        (is_legal f.invocation_event (some i.state) f.invocation_state ≡ true)
        × (f.invocation_state ≡ completion_state i.state true)
        × (f.attempt_state ≡ attempt_state_of (completion_state i.state true))
        × (f.output ≡ completion_output i.state true output)
        × (is_terminal (completion_state i.state true) ≡ true)
  unfolding raced_completion is_legal is_terminal
  raced_facts hash output c = ground (arith, known, c)

  accepted_facts :
      (hash output : String)
      → same_state i.state cancel_requested ≡ false
      → let f = accepted_completion output hash in
        (is_legal f.invocation_event (some i.state) f.invocation_state ≡ true)
        × (f.invocation_state ≡ completion_state i.state true)
        × (f.attempt_state ≡ attempt_state_of (completion_state i.state true))
        × (f.output ≡ completion_output i.state true output)
        × (is_terminal (completion_state i.state true) ≡ true)
  unfolding accepted_completion is_legal is_terminal
  accepted_facts hash output c = ground (arith, known, c)

module _ (x : External) (artifact_enabled : Bool) (a : ToolAttempt) (i : ToolInvocation)
    (provider_id : String) (c : Completion) (now : ℕ) (db : Database)
    (attempt_found : find_attempt c.proof.attempt_id db ≡ some a)
    (found : find_invocation i.id db ≡ some i) (known : running_or_cancelling i.state ≡ true) where
  abbrev Ends : (Finish → Bool → Type 0)
  Ends f accepted =
      Settles
        (let (r, s) =
            finish_attempt a i provider_id c.provider_result_id c.usage now f (opened now db) in
          (r, s.committed))
        c.proof.attempt_id i.id (completion_state i.state accepted)
        (completion_output i.state accepted c.output)

  end_rejected :
      (reason error detail hash : String)
      → Ends (rejected_completion i reason error detail hash) false
  end_rejected reason error detail hash =
      let (legal, ends, ends_attempt, outputs, terminal) =
        rejected_facts i known reason error detail hash c.output in
      finish-Settles a i provider_id c.provider_result_id c.usage now db c.proof.attempt_id
        attempt_found found (rejected_completion i reason error detail hash) _ _ legal ends
        ends_attempt outputs terminal

  end_raced :
      (hash : String)
      → same_state i.state cancel_requested ≡ true
      → Ends (raced_completion hash) true
  end_raced hash e =
      let (legal, ends, ends_attempt, outputs, terminal) = raced_facts i known hash c.output e in
      finish-Settles a i provider_id c.provider_result_id c.usage now db c.proof.attempt_id
        attempt_found found (raced_completion hash) _ _ legal ends ends_attempt outputs terminal

  end_accepted :
      (hash : String)
      → same_state i.state cancel_requested ≡ false
      → Ends (accepted_completion c.output hash) true
  end_accepted hash e =
      let (legal, ends, ends_attempt, outputs, terminal) = accepted_facts i known hash c.output e in
      finish-Settles a i provider_id c.provider_result_id c.usage now db c.proof.attempt_id
        attempt_found found (accepted_completion c.output hash) _ _ legal ends ends_attempt outputs
        terminal

  module _ (no_artifacts : c.artifacts ≡ []) where
    abbrev Completes : Type 0
    Completes =
        Settles
          (let (r, s) = check_and_finish x artifact_enabled a i provider_id c now (opened now db) in
            (r, s.committed))
          c.proof.attempt_id i.id (completion_state i.state (accepts x artifact_enabled c i))
          (completion_output i.state (accepts x artifact_enabled c i) c.output)

    with_bad_schema : x.satisfies_schema c.output i.descriptor.output_schema ≡ false → Completes
    unfolding check_and_finish accepts
    with_bad_schema e = rw e (
        end_rejected "invalid_output" "invalid_output"
          "provider output did not satisfy the reviewed schema" (x.sha256 c.output))

    with_bad_artifacts :
        x.satisfies_schema c.output i.descriptor.output_schema ≡ true
        → artifact_free artifact_enabled i c.usage ≡ false
        → Completes
    unfolding check_and_finish validate_and_reference_artifacts ◌>>=◌ query settle_artifacts pure
        with_artifacts
    with_bad_artifacts e f =
        let refuses : accepts x artifact_enabled c i ≡ false =
          unfold accepts in ground (arith, f) in
        rw (refuses, e, no_artifacts)
          (rw (outcome-refused x artifact_enabled a i c.usage provider_id db f, settle_artifacts)
            (end_rejected (code x artifact_enabled a i c.usage provider_id db) "artifact_failed"
              (detail x artifact_enabled a i c.usage provider_id db) (x.sha256 c.output)))

    with_violation :
        (violation : String)
        → x.satisfies_schema c.output i.descriptor.output_schema ≡ true
        → artifact_free artifact_enabled i c.usage ≡ true
        → budget_violation i.descriptor c.usage (len i.input_json) (len c.output) 0 ≡ some violation
        → Completes
    unfolding check_and_finish validate_and_reference_artifacts ◌>>=◌ query settle_artifacts pure
        with_artifacts within_budget
    with_violation violation e f v =
        let refuses : accepts x artifact_enabled c i ≡ false =
          unfold accepts in ground (arith, v) in
        rw (refuses, e, no_artifacts)
          (rw (outcome_free x artifact_enabled a i c.usage provider_id db f, settle_artifacts)
            (rw (v, within_budget)
              (end_rejected "budget_exceeded" "budget_exceeded"
                "provider result exceeded or misreported its reviewed budget" (x.sha256 c.output))))

    within_limits :
        x.satisfies_schema c.output i.descriptor.output_schema ≡ true
        → artifact_free artifact_enabled i c.usage ≡ true
        → budget_violation i.descriptor c.usage (len i.input_json) (len c.output) 0 ≡ none
        → Completes
    unfolding check_and_finish validate_and_reference_artifacts ◌>>=◌ query settle_artifacts pure
        with_artifacts within_budget reference_and_close close_completion mark_rows
    within_limits e f v =
        let takes : accepts x artifact_enabled c i ≡ true =
          unfold accepts in ground (arith, e, f, v) in
        rw (takes, e, no_artifacts)
          (rw (outcome_free x artifact_enabled a i c.usage provider_id db f, settle_artifacts)
            (rw (v, within_budget)
              elim (Bool-cases (same_state i.state cancel_requested)) [
                | inl raced ↦ rw raced (end_raced (x.sha256 c.output) raced)
                | inr runs ↦ rw runs (
                    rw
                      (
                        outcome_free x artifact_enabled a i c.usage provider_id db f,
                        settle_artifacts,
                      )
                      (end_accepted (x.sha256 c.output) runs))
              ]))

    completes : Completes
    completes = elim (Bool-cases (x.satisfies_schema c.output i.descriptor.output_schema)) [
      | inr bad ↦ with_bad_schema bad
      | inl good ↦ elim (Bool-cases (artifact_free artifact_enabled i c.usage)) [
        | inr bad ↦ with_bad_artifacts good bad
        | inl free ↦
            elim (Option-cases
              (budget_violation i.descriptor c.usage (len i.input_json) (len c.output) 0)) [
                | inl none_found ↦ within_limits good free none_found
                | inr (violation, v) ↦ with_violation violation good free v
              ]
      ]
    ]

-- A completion without artifacts, of a stored attempt and its stored invocation, that passes the proof
-- check ends the two in one transaction. Where the invocation runs, both succeed and the output is kept if
-- the Core accepts it (the schema holds, no artifact bytes are reported, artifacts are possible if the
-- descriptor has a policy for them, and the report is exact and within the budget); otherwise both fail
-- and no output is kept. Where cancellation was requested, the completion is unknown and no output is
-- kept, whatever the provider sent.
pub complete-Settles :
    (x : External) (artifact_enabled : Bool) (c : Completion) (provider_id : String) (now : ℕ)
    (db : Database) (a : ToolAttempt) (i : ToolInvocation)
    → find_attempt c.proof.attempt_id db ≡ some a
    → (a.invocation_id == i.id) ≡ true
    → find_invocation i.id db ≡ some i
    → first_refusal (checks x a i c.proof provider_id is_running running_or_cancelling now) ≡ none
    → c.artifacts ≡ []
    → Settles
        (run now (complete_tool_execution x artifact_enabled i.id c provider_id) db)
        c.proof.attempt_id
        i.id
        (completion_state i.state (accepts x artifact_enabled c i))
        (completion_output i.state (accepts x artifact_enabled c i) c.output)
unfolding complete_tool_execution run
complete-Settles x artifact_enabled c provider_id now db a i attempt_found bound found passed
      no_artifacts =
    rw
      (bind-ok _ _ (opened now db) (opened now db) (a, i, now)
        (locked-passed x c.proof provider_id is_running running_or_cancelling a i (opened now db)
          attempt_found bound found passed))
      (completes x artifact_enabled a i provider_id c now db attempt_found found
        (allowed_state x a i c.proof provider_id is_running running_or_cancelling now passed)
        no_artifacts)
