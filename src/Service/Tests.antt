-- ===== src/Service/Tests.antt =====
-- A deployment with one leased invocation, and requests on it.
use superlily.Base.{
  false, ℕ, ◌≡◌, refl, true, Option, none, some, List, [], ◌∷◌, arith, eq_iff, ◌==◌, ◌≤◌, ◌+◌, ◌*◌,
}
use superlily.Invocation.{
  InvocationState, InvocationTransitionEvent, is_terminal, proposed, queued, leased, succeeded,
  propose, queue, lease, complete_success, start, is_legal,
}
use superlily.Invocation.History.{requeues}
use superlily.Authority.Rows.{
  SideEffect, Confirmation, RateLimitScope, canary, ProviderLifecycle, CredentialLifecycle,
  DescriptorLifecycle, PlanLifecycle, retry_safe, ToolDescriptor, command, ToolInvocation,
  ToolInvocationTransition, AttemptState, ToolUsage, ToolAttempt, Database,
}
use superlily.Authority.Ledger.Chain.{HasLedgers, ledger_of, events}
use superlily.Service.Ledgers.{
  serve-HasLedgers, serve-terminal, serve-ledger_bound, serve-succeeded,
}
use superlily.Authority.Session.{
  run, ◌>>=◌, pure, raise, query, modify, database_now, commit, require, or_raise,
}
use superlily.Base.Table.{find, replace}
use superlily.Execution.Proof.{
  find_attempt, locked_attempt_and_invocation, checks, credential_checks, state_checks,
  lease_secret_hash, run_checks, append_attempt_event, store_attempt, stamp_attempt, attempt_event,
  External, ToolExecutionProof,
}
use superlily.Authority.Ledger.{
  find_invocation, append_invocation_transition, advance, or_default, transition, store_transition,
  matches_row,
}
use superlily.Execution.Complete.{
  Completion, complete_tool_execution, check_and_finish, with_artifacts, within_budget,
  reference_and_close, close_completion, accepted_completion, budget_violation,
}
use superlily.Execution.Artifacts.{
  validate_and_reference_artifacts, check_artifacts, settle_artifacts, mark_rows,
}
use superlily.Execution.Lease.{RegistryView}
use superlily.Execution.Lifecycle.{start_tool_execution, first_violation, finish_attempt, finished}
use superlily.CanonicalJson.{dict, no_members}
use superlily.Cancellation.Requests.{cancel_tool_invocation}
use superlily.Cancellation.{is_authorized}
use superlily.Service.{Deployment, Request, handle, serve}

abbrev pub tool_external : External
tool_external = record {
  sha256 = λ s. s;
  satisfies_schema = λ output schema. output == schema;
  object_exists = λ key size. true;
  json_value = λ text. dict no_members;
  canonical_text = λ value. some "{}";
  accepts_lease = λ lease. true;
}

-- one latex runtime with room for one more attempt
abbrev pub latex_registry : RegistryView
latex_registry = record {
  tools =
      record {
        version = "1.0.0";
        descriptor_hash = "dh";
        eligible = true;
        reported =
            record {
              provider_id = "latex";
              runtime_eligible = true;
              inventory_hash = "inv";
              implementation_hash = some "impl";
            }
            ∷ [];
      }
      ∷ [];
  providers =
      record {
        provider_id = "latex";
        heartbeat = some (record { current_concurrency = 0; max_concurrency = 2 });
      }
      ∷ [];
}

abbrev pub tool_deployment : Deployment
tool_deployment = record {
  external = tool_external;
  artifact_enabled = true;
  lease_settings = record {
    tool_execution_mode = canary;
    global_stop = false;
    tool_lease_seconds = 30;
  };
  registry = λ db tool_id. latex_registry;
  hash_object = λ fields. "hash";
  isoformat = λ t. "time";
  confirmation_decision_hash = λ id payload who. payload.reason;
  is_snapshot = λ i. true;
}

abbrev pub tool_descriptor : ToolDescriptor
tool_descriptor = record {
  tool_id = "latex.render";
  side_effect = SideEffect.read;
  confirmation = Confirmation.never;
  rate_limit = record { requests = 10; window_seconds = 60; scope = RateLimitScope.tool };
  concurrency_limit = 2;
  output_schema = "{}";
  retry_policy = retry_safe;
  timeout_ms = 5000;
  resource_budget = record {
    cpu_ms = some 100;
    memory_bytes = none;
    input_bytes = none;
    output_bytes = some 64;
    artifact_bytes = none;
  };
  artifact_policy = none;
}

abbrev pub no_usage : ToolUsage
no_usage = record {
  wall_time_ms = 0;
  cpu_ms = 0;
  memory_peak_bytes = 0;
  input_bytes = 0;
  output_bytes = 0;
  artifact_bytes = 0;
}

abbrev pub small_usage : ToolUsage
small_usage = record no_usage { wall_time_ms = 20; cpu_ms = 10; input_bytes = 2; output_bytes = 2 }

abbrev pub tool_invocation : InvocationState → ToolInvocation
tool_invocation s = record {
  id = "i1";
  tool_id = "latex.render";
  descriptor_id = "d1";
  descriptor_version = "1.0.0";
  descriptor_hash = "dh";
  execution_mode = canary;
  rollout_plan_id = some "p1";
  rollout_plan_item_id = some "pi1";
  selected_provider_id = some "latex";
  policy = record {
    rollout_plan_is_object = true;
    rollout_scope_is_object = true;
    scope_item_id = some "latex";
    scope_descriptor_resource_version = some 4;
    scope_provider_resource_version = some 3;
    selected_provider_id = some "latex";
    selected_inventory_hash = some "inv";
    plan_hash = some "ph";
    plan_resource_version = some 2;
    canonical_conversation = some "qq:group:1";
    selected_implementation_hash = some "impl";
    resource_budget = some "{}";
    execution_permissions = some "{}";
  };
  principal = some (record { platform = "qq"; conversation_id = "group:1"; sender_id = "7" });
  request_hash = "rh";
  input_hash = "{}";
  principal_hash = "pr";
  policy_hash = "po";
  creator_type = command;
  creator_id = "nekro";
  descriptor = tool_descriptor;
  input_json = "{}";
  state = s;
  transition_sequence = 3;
  reason_code = "attempt_leased";
  deadline_at = 90000000;
  terminal_at = none;
  created_at = 1;
  updated_at = 3;
}

abbrev pub tool_attempt : AttemptState → ToolAttempt
tool_attempt s = record {
  id = "a1";
  invocation_id = "i1";
  attempt_number = 1;
  provider_id = "latex";
  inventory_hash = "inv";
  implementation_hash = "impl";
  fencing_token = 1;
  lease_secret_hash = "{\"lease_secret\":\"s\"}";
  state = s;
  deadline_at = 90000000;
  lease_expires_at = 30000000;
  started_at = none;
  last_heartbeat_at = none;
  completed_at = none;
  usage = no_usage;
  output_json = none;
  output_hash = none;
  provider_result_id = none;
  error_code = none;
  safe_error_detail = none;
  event_sequence = 1;
  created_at = 3;
  updated_at = 3;
}

abbrev row_of :
    ℕ
    → InvocationTransitionEvent
    → Option InvocationState
    → InvocationState
    → ToolInvocationTransition
row_of n event previous state = record {
  invocation_id = "i1";
  sequence = n;
  event = event;
  previous_state = previous;
  state = state;
  actor_type = "system";
  actor_id = "core";
  reason_code = "test";
  created_at = n;
}

abbrev pub tool_rows : InvocationState → AttemptState → Database
tool_rows s t = record {
  invocations = tool_invocation s ∷ [];
  transitions =
      row_of 3 lease (some queued) leased
      ∷ row_of 2 queue (some proposed) queued
      ∷ row_of 1 propose none proposed
      ∷ [];
  attempts = tool_attempt t ∷ [];
  attempt_events = [];
  artifacts = [];
  artifact_events = [];
  confirmations = [];
  confirmation_events = [];
  providers =
      record { id = "latex"; lifecycle = ProviderLifecycle.active; resource_version = 3 } ∷ [];
  credentials = record { id = "latex"; lifecycle = CredentialLifecycle.active } ∷ [];
  descriptors =
      record {
        id = "d1";
        lifecycle = DescriptorLifecycle.active;
        descriptor_hash = "dh";
        descriptor = tool_descriptor;
        resource_version = 4;
      }
      ∷ [];
  rollout_plans =
      record {
        id = "p1";
        plan_hash = "ph";
        mode = canary;
        lifecycle = PlanLifecycle.active;
        resource_version = 2;
        starts_at = 0;
        expires_at = 1000000000;
        max_invocations = 5;
      }
      ∷ [];
  rollout_items =
      record {
        id = "pi1";
        plan_record_id = "p1";
        item_id = "latex";
        tool_id = "latex.render";
        descriptor_version = "1.0.0";
        descriptor_hash = "dh";
        canonical_conversation = "qq:group:1";
        caller = command;
        provider_id = "latex";
        expected_descriptor_resource_version = 4;
        expected_provider_resource_version = 3;
      }
      ∷ [];
  rollout_counters =
      record { plan_record_id = "p1"; consumed_invocations = 1; last_consumed_at = none } ∷ [];
}

abbrev leased_rows : Database
leased_rows = tool_rows leased AttemptState.leased

abbrev pub tool_proof : ToolExecutionProof
tool_proof = record { attempt_id = "a1"; fencing_token = 1; lease_secret = "s" }

abbrev pub tool_completion : Completion
tool_completion = record {
  proof = tool_proof;
  provider_result_id = "r1";
  output = "{}";
  usage = small_usage;
  artifacts = [];
}

abbrev tool_requests : List (ℕ × Request)
tool_requests =
    (10, Request.start "i1" tool_proof "latex")
    ∷ (20, Request.complete "i1" tool_completion "latex")
    ∷ (30, Request.cancel "i1" (record { caller = command; subject = "nekro" }) "late")
    ∷ []

leased_rows-HasLedgers : HasLedgers leased_rows
unfolding find_invocation find is_legal
leased_rows-HasLedgers = record {
  chain = λ id i e. ground (arith, eq_iff "i1" id, e);
  counted = λ id i e. ground (arith, eq_iff "i1" id, e);
}

serve-HasLedgers_example : HasLedgers (serve tool_deployment tool_requests leased_rows)
serve-HasLedgers_example =
    serve-HasLedgers tool_deployment tool_requests leased_rows leased_rows-HasLedgers

abbrev succeeded_row : ToolInvocation
succeeded_row = record (tool_invocation succeeded) {
  transition_sequence = 5;
  reason_code = "provider_completed";
  terminal_at = some 20;
  updated_at = 20;
}

served-row :
    find_invocation "i1" (serve tool_deployment tool_requests leased_rows) ≡ some succeeded_row
unfolding serve run handle ◌>>=◌ pure raise query modify database_now commit require or_raise
    find_invocation find replace find_attempt start_tool_execution locked_attempt_and_invocation
    checks credential_checks state_checks lease_secret_hash run_checks append_invocation_transition
    advance or_default transition store_transition matches_row is_legal is_terminal
    append_attempt_event store_attempt stamp_attempt attempt_event complete_tool_execution
    check_and_finish validate_and_reference_artifacts check_artifacts settle_artifacts mark_rows
    with_artifacts within_budget reference_and_close close_completion accepted_completion
    budget_violation first_violation finish_attempt finished cancel_tool_invocation is_authorized
served-row = refl

abbrev served : Database
served = serve tool_deployment tool_requests leased_rows

serve-terminal_example :
    find_invocation "i1" (serve tool_deployment tool_requests served) ≡ some succeeded_row
unfolding is_terminal
serve-terminal_example =
    serve-terminal tool_deployment tool_requests served "i1" succeeded_row refl served-row

serve-ledger_bound_example : 5 ≤ 7 + 4 * requeues (events (ledger_of "i1" served))
serve-ledger_bound_example =
    serve-ledger_bound tool_deployment tool_requests leased_rows "i1" succeeded_row
      leased_rows-HasLedgers served-row

serve-succeeded_example :
    (rest : List InvocationTransitionEvent) × (events (ledger_of "i1" served)
      ≡ complete_success ∷ start ∷ lease ∷ rest)
serve-succeeded_example =
    serve-succeeded tool_deployment tool_requests leased_rows "i1" succeeded_row
      leased_rows-HasLedgers served-row refl
