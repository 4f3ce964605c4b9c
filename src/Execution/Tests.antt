-- ===== src/Execution/Tests.antt =====
-- Calls of a provider on one leased or running attempt.
use superlily.Base.{is_some, ◌||◌, ◌+◌, ◌*◌, Bool, ◌≡◌, refl, true, none}
use superlily.Base.Table.{find}
use superlily.Invocation.{running, cancel_requested}
use superlily.Authority.Rows.{ToolInvocation, ToolAttempt, AttemptState, Database}
use superlily.Authority.Session.{Result, run}
use superlily.Authority.Ledger.{same_state, find_invocation}
use superlily.Execution.Proof.{
  Check, find_attempt, checks, credential_checks, state_checks, lease_secret_hash,
}
use superlily.Execution.Lifecycle.{
  live_violation, start_tool_execution, heartbeat_tool_execution, fail_tool_execution,
}
use superlily.Execution.Complete.{Completion, complete_tool_execution}
use superlily.Execution.Heartbeat.{Beats, heartbeat-Beats}
use superlily.Execution.Outcome.{wrong_proof-refused, refusal}
use superlily.Execution.Settle.{Settles, failure_state, fail-Settles}
use superlily.Execution.SettleComplete.{
  accepts, completion_state, completion_output, complete-Settles,
}
use superlily.Service.Tests.{
  tool_descriptor, tool_external, tool_invocation, tool_attempt, tool_rows, tool_proof,
  tool_completion, small_usage,
}

abbrev stale_completion : Completion
stale_completion = record tool_completion { proof = record tool_proof { fencing_token = 2 } }

abbrev running_invocation : ToolInvocation
running_invocation = tool_invocation running

abbrev running_attempt : ToolAttempt
running_attempt = tool_attempt AttemptState.running

abbrev running_rows : Database
running_rows = tool_rows running AttemptState.running

-- what each operation makes of the stale call
abbrev stale_refusal : Check → Result ToolAttempt × Database
stale_refusal c =
    refusal tool_external stale_completion.proof "latex" running_attempt running_invocation c 10
      running_rows

abbrev stale_heartbeat : Check → Result (ToolAttempt × Bool) × Database
stale_heartbeat c =
    refusal tool_external stale_completion.proof "latex" running_attempt running_invocation c 10
      running_rows

wrong_proof-refused_example :
    (c : Check) × (c.reason_code ≡ "stale_fence")
    × (run 10 (start_tool_execution tool_external "i1" stale_completion.proof "latex") running_rows
        ≡ stale_refusal c)
    × (run 10
          (heartbeat_tool_execution tool_external 30 "i1" stale_completion.proof small_usage
            "latex")
          running_rows
        ≡ stale_heartbeat c)
    × (run 10
          (fail_tool_execution tool_external "i1" stale_completion.proof "r1" "timeout" "late"
            small_usage "latex")
          running_rows
        ≡ stale_refusal c)
    × (run 10
          (complete_tool_execution tool_external true "i1" stale_completion "latex")
          running_rows
        ≡ stale_refusal c)
unfolding find_attempt find_invocation find lease_secret_hash
wrong_proof-refused_example =
    wrong_proof-refused tool_external stale_completion "latex" running_attempt running_invocation 10
      running_rows true 30 small_usage "r1" "timeout" "late" refl refl refl refl

fail-Settles_example :
    Settles
      (run 10
        (fail_tool_execution tool_external "i1" tool_proof "r1" "cancelled" "stopped" small_usage
          "latex")
        (tool_rows cancel_requested AttemptState.running))
      "a1"
      "i1"
      (failure_state cancel_requested "cancelled")
      none
unfolding find_attempt find_invocation find checks credential_checks state_checks lease_secret_hash
fail-Settles_example =
    fail-Settles tool_external tool_proof "latex" "r1" "cancelled" "stopped" small_usage 10
      (tool_rows cancel_requested AttemptState.running) running_attempt
      (tool_invocation cancel_requested) refl refl refl refl

complete-Settles_example :
    Settles
      (run 20
        (complete_tool_execution tool_external true "i1" tool_completion "latex")
        running_rows)
      "a1"
      "i1"
      (completion_state running (accepts tool_external true tool_completion running_invocation))
      (completion_output running
        (accepts tool_external true tool_completion running_invocation)
        "{}")
unfolding find_attempt find_invocation find checks credential_checks state_checks lease_secret_hash
complete-Settles_example =
    complete-Settles tool_external true tool_completion "latex" 20 running_rows running_attempt
      running_invocation refl refl refl refl refl

heartbeat-Beats_example :
    Beats
      (run 10
        (heartbeat_tool_execution tool_external 30 "i1" tool_proof small_usage "latex")
        running_rows)
      "a1"
      "i1"
      small_usage
      running_attempt.deadline_at
      (10 + 30 * 1000000)
      10
      (is_some (live_violation tool_descriptor small_usage) || same_state running cancel_requested)
unfolding find_attempt find_invocation find checks credential_checks state_checks lease_secret_hash
heartbeat-Beats_example =
    heartbeat-Beats tool_external 30 tool_proof small_usage "latex" 10 running_rows running_attempt
      running_invocation refl refl refl refl
