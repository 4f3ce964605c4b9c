-- ===== src/Service/FenceTests.antt =====
-- A deployment that leases a second attempt after the first has expired.
use superlily.Base.{arith, ℕ, ◌≡◌, ◌<◌, refl, false, some, List, [], ◌∷◌}
use superlily.Invocation.{queued, is_legal, is_terminal}
use superlily.Authority.Rows.{ToolProvider, ProviderLifecycle, AttemptState, ToolAttempt, Database}
use superlily.Authority.Session.{
  raised, runtime_error, ok, run, ◌>>=◌, pure, raise, query, modify, database_now, commit, rollback,
  require, or_raise,
}
use superlily.Base.Table.{find, replace}
use superlily.Authority.Ledger.{
  find_invocation, append_invocation_transition, advance, or_default, transition, store_transition,
  matches_row,
}
use superlily.Execution.Proof.{
  External, find_attempt, locked_attempt_and_invocation, checks, credential_checks, state_checks,
  lease_secret_hash, run_checks, append_attempt_event, store_attempt, stamp_attempt, attempt_event,
}
use superlily.Execution.Lifecycle.{is_active, lease_until, start_tool_execution}
use superlily.Execution.Lease.{
  ToolLeaseOut, Draw, is_candidate, lease_candidates, is_older, is_bound_to, rollout_allows,
  authorities_allow, selected_runtime, allowed_implementation, count_attempts, has_capacity,
}
use superlily.Rollout.{is_open, locked_rollout_for_lease}
use superlily.Execution.Lease.Grant.{
  max_fence, new_attempt, clashes, active_for, lease_event, lease_out, insert_attempt, record_lease,
  issue_lease, lose_lease, grant_lease, lease_allows, lease_first, pull_lease, lease_tool_execution,
  policy_snapshot, is_lease, validate_canonical_payload,
}
use superlily.Execution.Fences.{has_fences, all_give_way}
use superlily.Execution.Fences.Held.{HasFences}
use superlily.Service.{Request, handle, serve}
use superlily.Service.Fences.{serve-HasFences, serve-active_alone}
use superlily.Execution.Leasing.{Leases, lease-Leases, proof_of}
use superlily.Execution.Lease.Candidates.{allows, Waits}
use superlily.Execution.Refusing.{lease-refused}
use superlily.Execution.Lease.Oldest.{IsOldestAllowed}
use superlily.CanonicalJson.{dict, no_members, canonicalize_json_value, validate_tree, check_bytes}
use superlily.Execution.Starting.{Starts, lease-start}
use superlily.Service.Tests.{
  tool_external, latex_registry, tool_invocation, tool_deployment, tool_rows, tool_attempt,
}

abbrev latex_provider : ToolProvider
latex_provider = record { id = "latex"; lifecycle = ProviderLifecycle.active; resource_version = 3 }

abbrev queued_rows : Database
queued_rows = tool_rows queued AttemptState.lease_expired

abbrev second_draw : Draw
second_draw = record { new_id = "a2"; secret = "t" }

abbrev lease_requests : List (ℕ × Request)
lease_requests =
    (10, Request.lease second_draw "inv" "latex")
    ∷ (
      20,
      Request.start "i1" (record { attempt_id = "a2"; fencing_token = 2; lease_secret = "t" })
          "latex",
    )
    ∷ []

queued_rows-HasFences : HasFences queued_rows
unfolding has_fences all_give_way
queued_rows-HasFences = record { fences = refl }

serve-HasFences_example : HasFences (serve tool_deployment lease_requests queued_rows)
serve-HasFences_example =
    serve-HasFences tool_deployment lease_requests queued_rows queued_rows-HasFences

abbrev served : Database
served = serve tool_deployment lease_requests queued_rows

abbrev running_attempt : ToolAttempt
running_attempt = record (tool_attempt AttemptState.running) {
  id = "a2";
  attempt_number = 2;
  fencing_token = 2;
  lease_secret_hash = "{\"lease_secret\":\"t\"}";
  lease_expires_at = 30000010;
  started_at = some 20;
  last_heartbeat_at = some 20;
  event_sequence = 2;
  created_at = 10;
  updated_at = 20;
}

served-rows :
    (find_attempt "a2" served ≡ some running_attempt)
    × (find_attempt "a1" served ≡ some (tool_attempt AttemptState.lease_expired))
unfolding serve run handle ◌>>=◌ pure raise query modify database_now commit rollback require
    or_raise find_invocation find replace find_attempt start_tool_execution
    locked_attempt_and_invocation checks credential_checks state_checks lease_secret_hash run_checks
    append_invocation_transition advance or_default transition store_transition matches_row is_legal
    is_terminal append_attempt_event store_attempt stamp_attempt attempt_event lease_until
    is_candidate lease_candidates is_older is_bound_to rollout_allows authorities_allow
    selected_runtime allowed_implementation count_attempts has_capacity is_open
    locked_rollout_for_lease max_fence new_attempt clashes active_for lease_event lease_out
    insert_attempt record_lease issue_lease lose_lease grant_lease lease_allows lease_first
    pull_lease lease_tool_execution policy_snapshot is_lease canonicalize_json_value validate_tree
    check_bytes validate_canonical_payload
served-rows = (refl, refl)

serve-active_alone_example :
    ((tool_attempt AttemptState.lease_expired).fencing_token < running_attempt.fencing_token)
    × (is_active (tool_attempt AttemptState.lease_expired).state ≡ false)
serve-active_alone_example =
    serve-active_alone tool_deployment lease_requests queued_rows "a2" "a1" running_attempt
      (tool_attempt AttemptState.lease_expired) queued_rows-HasFences served-rows.0 served-rows.1
      refl refl refl

lease-Leases_example :
    Leases
      (run 10
        (lease_tool_execution tool_external
          (λ db tool_id. latex_registry)
          second_draw
          tool_deployment.lease_settings
          "inv"
          "latex")
        queued_rows)
      tool_external
      "i1"
      "latex"
      queued_rows.attempts
      20
    × Waits "latex" 10 (tool_invocation queued)
    × IsOldestAllowed
        (allows tool_external
          (λ db tool_id. latex_registry)
          second_draw
          tool_deployment.lease_settings
          latex_provider
          "inv"
          10
          queued_rows)
        "latex"
        10
        queued_rows
        (tool_invocation queued)
unfolding find_invocation find is_candidate lease_candidates is_older is_bound_to rollout_allows
    authorities_allow selected_runtime allowed_implementation count_attempts has_capacity is_open
    locked_rollout_for_lease max_fence new_attempt clashes lease_allows policy_snapshot is_lease
    canonicalize_json_value validate_tree check_bytes validate_canonical_payload lease_out
    lease_until
lease-Leases_example =
    lease-Leases tool_external (λ db tool_id. latex_registry) second_draw
      tool_deployment.lease_settings latex_provider "latex" "inv" 10 20 queued_rows
      (tool_invocation queued) "impl" (dict no_members) (dict no_members) refl refl refl refl refl
      refl refl refl refl (omega arith) (omega arith)

-- a SHA-256 under which the stored input does not have its hash
abbrev other_external : External
other_external = record tool_external { sha256 = λ s. "other" }

lease-refused_example :
    run 10
      (lease_tool_execution other_external
        (λ db tool_id. latex_registry)
        second_draw
        tool_deployment.lease_settings
        "inv"
        "latex")
      queued_rows
    ≡ (raised runtime_error, queued_rows)
unfolding find_invocation find is_candidate lease_candidates is_older is_bound_to rollout_allows
    authorities_allow selected_runtime allowed_implementation count_attempts has_capacity is_open
    locked_rollout_for_lease max_fence new_attempt clashes lease_allows policy_snapshot is_lease
    canonicalize_json_value validate_tree check_bytes validate_canonical_payload lease_out
    lease_until
lease-refused_example =
    lease-refused other_external (λ db tool_id. latex_registry) second_draw
      tool_deployment.lease_settings latex_provider "latex" "inv" 10 queued_rows
      (tool_invocation queued) "impl" (dict no_members) (dict no_members) refl refl refl refl refl
      refl refl refl refl

lease-start_example :
    (let (r, leased_db) =
        run 10
          (lease_tool_execution tool_external
            (λ db tool_id. latex_registry)
            second_draw
            tool_deployment.lease_settings
            "inv"
            "latex")
          queued_rows in
      (out : ToolLeaseOut) × (r ≡ ok (some out))
      × Starts
          (run 20 (start_tool_execution tool_external "i1" (proof_of out) "latex") leased_db)
          out.attempt_id
          "i1")
unfolding find_invocation find is_candidate lease_candidates is_older is_bound_to rollout_allows
    authorities_allow selected_runtime allowed_implementation count_attempts has_capacity is_open
    locked_rollout_for_lease max_fence new_attempt clashes lease_allows policy_snapshot is_lease
    canonicalize_json_value validate_tree check_bytes validate_canonical_payload lease_out
    lease_until
lease-start_example =
    lease-start tool_external (λ db tool_id. latex_registry) second_draw
      tool_deployment.lease_settings latex_provider "latex" "inv" 10 20 queued_rows
      (tool_invocation queued) "impl" (dict no_members) (dict no_members) refl refl refl refl refl
      refl refl refl refl (omega arith) (omega arith)
