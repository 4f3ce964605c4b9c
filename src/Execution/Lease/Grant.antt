-- ===== src/Execution/Lease/Grant.antt =====
-- The new attempt of a lease, its fence, and the loop over the candidates.
use superlily.Rollout.{is_canary}
use superlily.Base.{
  ℕ, ◌+◌, Bool, true, false, not, ◌&&◌, ◌||◌, Option, none, some, max, String, List, [], ◌∷◌, leb,
  eqb, ◌==◌, if◌then◌else◌,
}
use superlily.Base.Table.{find}
use superlily.Invocation.{InvocationState, InvocationTransitionEvent}
use superlily.Authority.Rows.{
  ToolInvocation, ToolAttempt, ToolUsage, AttemptState, ToolAttemptEvent, AttemptEvent,
  ToolProvider, Database,
}
use superlily.Authority.Session.{
  runtime_error, Tx, ◌>>=◌, ◌>>◌, pure, raise, query, modify, database_now, commit, rollback,
  require, or_raise,
}
use superlily.Authority.Ledger.{append_invocation_transition}
use superlily.CanonicalJson.{
  Json, checked, canonical_json_error, default_limits, canonicalize_json_value,
}
use superlily.Execution.Proof.{External, lease_secret_hash}
use superlily.Execution.Lifecycle.{is_active, lease_until}
use superlily.Execution.Lease.{
  Draw, LeaseSettings, ToolLeaseOut, RegistryView, provider_key, provider_is_active,
  lease_candidates, rollout_allows, authorities_allow, allowed_implementation, has_capacity,
  count_attempts,
}

abbrev is_of : String → ToolAttempt → Bool
is_of id a = a.invocation_id == id

-- select(func.max(ToolAttempt.fencing_token)), where an empty selection counts as 0
unfoldable pub max_fence : String → List ToolAttempt → ℕ
max_fence id [] = 0
max_fence id (a ∷ rest) =
    let high = max_fence id rest in if is_of id a then max a.fencing_token high else high

abbrev unused : ToolUsage
unused = record {
  wall_time_ms = 0;
  cpu_ms = 0;
  memory_peak_bytes = 0;
  input_bytes = 0;
  output_bytes = 0;
  artifact_bytes = 0;
}

unfoldable pub new_attempt :
    External → Draw → ToolInvocation → String → String → String → ℕ → ℕ → Database → ToolAttempt
unfolding count_attempts max_fence lease_secret_hash lease_until
new_attempt x draw i provider_id inventory_hash implementation_hash tool_lease_seconds now db =
    record {
      id = draw.new_id;
      invocation_id = i.id;
      attempt_number = count_attempts (is_of i.id) db.attempts + 1;
      provider_id = provider_id;
      inventory_hash = inventory_hash;
      implementation_hash = implementation_hash;
      fencing_token = max_fence i.id db.attempts + 1;
      lease_secret_hash = lease_secret_hash x draw.secret;
      state = AttemptState.leased;
      deadline_at = i.deadline_at;
      lease_expires_at = lease_until i.deadline_at now tool_lease_seconds;
      started_at = none;
      last_heartbeat_at = none;
      completed_at = none;
      usage = unused;
      output_json = none;
      output_hash = none;
      provider_result_id = none;
      error_code = none;
      safe_error_detail = none;
      event_sequence = 1;
      created_at = now;
      updated_at = now;
    }

-- The UNIQUE constraints of tool_attempts: the id, the number and the fence in an invocation, and one active
-- attempt for an invocation.
unfoldable pub clashes : ToolAttempt → List ToolAttempt → Bool
clashes a [] = false
clashes a (b ∷ rest) =
    b.id == a.id
    || (b.invocation_id == a.invocation_id
        && (eqb b.attempt_number a.attempt_number
            || eqb b.fencing_token a.fencing_token
            || (is_active b.state && is_active a.state)))
    || clashes a rest

unfoldable pub active_for : String → List ToolAttempt → Bool
active_for id [] = false
active_for id (a ∷ rest) = (a.invocation_id == id && is_active a.state) || active_for id rest

-- the first event of an attempt
unfoldable pub lease_event : ToolAttempt → ℕ → ToolAttemptEvent
lease_event a now = record {
  attempt_id = a.id;
  sequence = 1;
  event = AttemptEvent.lease;
  accepted = true;
  provider_id = a.provider_id;
  fencing_token = a.fencing_token;
  reason_code = "lease_issued";
  created_at = now;
}

-- `_snapshot` of an entry of the policy, `none` where it raises
unfoldable pub policy_snapshot : External → Option String → Option Json
unfolding canonicalize_json_value
policy_snapshot x none = none
policy_snapshot x (some text) =
    elim (canonicalize_json_value x.canonical_text x.sha256 default_limits (x.json_value text)) [
      | checked canonical ↦ some canonical.value
      | canonical_json_error e ↦ none
    ]

unfoldable pub lease_out :
    External → ToolAttempt → ToolInvocation → Json → Json → Draw → ToolLeaseOut
lease_out x a i budget permissions draw = record {
  invocation_id = a.invocation_id;
  attempt_id = a.id;
  attempt_number = a.attempt_number;
  fencing_token = a.fencing_token;
  lease_secret = draw.secret;
  provider_id = a.provider_id;
  inventory_hash = a.inventory_hash;
  implementation_hash = a.implementation_hash;
  tool_id = i.tool_id;
  descriptor_version = i.descriptor_version;
  descriptor_hash = i.descriptor_hash;
  input = x.json_value i.input_json;
  input_hash = i.input_hash;
  deadline_at = a.deadline_at;
  lease_expires_at = a.lease_expires_at;
  resource_budget = budget;
  execution_permissions = permissions;
}

abbrev is_canonical : External → Json → Bool
is_canonical x value =
    elim (canonicalize_json_value x.canonical_text x.sha256 default_limits value) [
      | checked canonical ↦ true
      | canonical_json_error e ↦ false
    ]

-- whether the validator lets the lease pass
unfoldable pub validate_canonical_payload : External → ToolLeaseOut → Bool
unfolding canonicalize_json_value
validate_canonical_payload x lease =
    elim (canonicalize_json_value x.canonical_text x.sha256 default_limits lease.input) [
      | checked canonical_input ↦
          is_canonical x lease.resource_budget
          && is_canonical x lease.execution_permissions
          && canonical_input.sha256 == lease.input_hash
          && leb lease.lease_expires_at lease.deadline_at
      | canonical_json_error e ↦ false
    ]

-- the construction of a ToolLeaseOut, which raises a ValidationError where this is false
unfoldable pub is_lease : External → ToolLeaseOut → Bool
unfolding validate_canonical_payload
is_lease x lease = x.accepts_lease lease && validate_canonical_payload x lease

unfoldable pub insert_attempt : ToolAttempt → Database → Database
insert_attempt a db = record db { attempts = a ∷ db.attempts }

-- what follows a flush that the constraints let pass
unfoldable pub record_lease :
    External → ToolAttempt → ToolLeaseOut → ToolInvocation → ℕ → Tx (Option ToolLeaseOut)
unfolding lease_event is_lease
record_lease x a lease i now = do
  modify (λ db. record db { attempt_events = lease_event a now ∷ db.attempt_events })
  append_invocation_transition i.id InvocationTransitionEvent.lease InvocationState.leased
      "provider" a.provider_id "lease_issued" none false
  require (is_lease x lease) runtime_error
  commit
  pure (some lease)

unfoldable pub issue_lease :
    External → ToolAttempt → ToolLeaseOut → ToolInvocation → ℕ → Tx (Option ToolLeaseOut)
unfolding insert_attempt
issue_lease x a lease i now = do modify (insert_attempt a); record_lease x a lease i now

-- the IntegrityError of the flush
unfoldable pub lose_lease : String → Tx (Option ToolLeaseOut)
unfolding active_for
lose_lease invocation_id = do
  rollback
  active ← query (λ db. active_for invocation_id db.attempts)
  if active then pure none else raise runtime_error

unfoldable pub grant_lease :
    External → Draw → ToolInvocation → String → String → String → ℕ → ℕ → Tx (Option ToolLeaseOut)
unfolding issue_lease lose_lease new_attempt lease_out policy_snapshot
grant_lease x draw i provider_id inventory_hash implementation_hash tool_lease_seconds now = do
  budget ← or_raise (policy_snapshot x i.policy.resource_budget) runtime_error
  permissions ← or_raise (policy_snapshot x i.policy.execution_permissions) runtime_error
  a ←
      query
        (new_attempt x draw i provider_id inventory_hash implementation_hash tool_lease_seconds now)
  clash ← query (λ db. clashes a db.attempts)
  if clash then lose_lease i.id else issue_lease x a (lease_out x a i budget permissions draw) i now

-- The guards of one round of the loop: the implementation to lease, `none` where it continues.
unfoldable pub lease_allows :
    RegistryView → ToolInvocation → ToolProvider → String → ℕ → Database → Option String
lease_allows registry i provider inventory_hash now db = elim (rollout_allows i provider now db) [
  | none ↦ none
  | some item ↦
      if authorities_allow i provider.id item db && has_capacity registry i provider.id db
      then allowed_implementation registry i provider.id inventory_hash
      else none
]

-- the next round, or the lease of this one
abbrev pub where_allowed :
    Option String
    → Tx (Option ToolLeaseOut)
    → (String → Tx (Option ToolLeaseOut))
    → Tx (Option ToolLeaseOut)
where_allowed none next lease = next
where_allowed (some implementation_hash) next lease = lease implementation_hash

-- the provider that may pull
abbrev pub active_provider : String → Database → Option ToolProvider
active_provider provider_id db = elim (find provider_key provider_id db.providers) [
  | none ↦ none
  | some p ↦ if provider_is_active p.lifecycle then some p else none
]

module _ (x : External) (registry : Database → String → RegistryView) (draw : Draw)
    (settings : LeaseSettings) where
  unfoldable pub lease_first :
      List ToolInvocation → ToolProvider → String → ℕ → Tx (Option ToolLeaseOut)
  lease_first [] provider inventory_hash now = pure none
  lease_first (i ∷ rest) provider inventory_hash now = do
    allowed ← query (λ db. lease_allows (registry db i.tool_id) i provider inventory_hash now db)
    where_allowed allowed (lease_first rest provider inventory_hash now) (λ implementation_hash.
        grant_lease x draw i provider.id inventory_hash implementation_hash
          settings.tool_lease_seconds now)

  unfoldable pub pull_lease : Option ToolProvider → String → ℕ → Tx (Option ToolLeaseOut)
  pull_lease none inventory_hash now = pure none
  pull_lease (some provider) inventory_hash now = do
    candidates ← query (lease_candidates provider.id now)
    lease_first candidates provider inventory_hash now

  unfoldable pub lease_tool_execution : String → String → Tx (Option ToolLeaseOut)
  unfolding pull_lease
  lease_tool_execution inventory_hash provider_id =
      if is_canary settings.tool_execution_mode && not settings.global_stop
      then (do
        now ← database_now
        provider ← query (active_provider provider_id)
        pull_lease provider inventory_hash now)
      else pure none
