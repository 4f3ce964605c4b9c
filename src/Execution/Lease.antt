-- ===== src/Execution/Lease.antt =====
-- `lease_tool_execution` of tool_execution_service.py: a provider pulls its oldest exactly matching invocation.
-- The registry's view and the random id and secret are parameters.
pub mod Grant
pub mod Keeps
pub mod Oldest
pub mod Candidates
pub use superlily.Execution.Proof.{ToolLeaseOut}
use Prim.Native.Nat.{Ordering}
use Prim.Native.String.{compare}
use superlily.Base.{
  sort_by, ℕ, zero, suc, ◌+◌, ◌≡◌, Bool, true, false, not, ◌&&◌, ◌||◌, Option, none, some, max,
  String, List, [], ◌∷◌, take, keep_if, first_of_list, length, ltb, leb, eqb, is_none, is_some,
  ◌==◌, if◌then◌else◌,
}
use superlily.Base.Table.{find}
use superlily.Invocation.{InvocationState, InvocationTransitionEvent, queued}
use superlily.Authority.Rows.{
  ExecutionMode, ToolInvocation, ToolAttempt, ToolUsage, AttemptState, ToolAttemptEvent,
  AttemptEvent, ExecutionMode, PolicySnapshot, ProviderLifecycle, CredentialLifecycle,
  DescriptorLifecycle, ToolProvider, ToolProviderCredential, ToolDescriptorRecord,
  ToolRolloutPlanRecord, ToolRolloutPlanItemRecord, Database,
}
use superlily.Authority.Session.{
  Result, ok, Session, runtime_error, Tx, ◌>>=◌, ◌>>◌, pure, raise, query, modify, database_now,
  commit,
}
use superlily.Authority.Ledger.{same_state, append_invocation_transition}
use superlily.Execution.Proof.{External, attempt_id, find_attempt, lease_secret_hash}
use superlily.Execution.Lifecycle.{is_active, lease_until}
use superlily.Rollout.{is_canary, same_caller, locked_rollout_for_lease}

-- what a lease reads of the result of `tool_registry_view`
pub record Runtime : Type 0 where
  pub provider_id : String
  pub runtime_eligible : Bool
  pub inventory_hash : String
  pub implementation_hash : Option String

pub record RegistryVersion : Type 0 where
  pub version : String
  pub descriptor_hash : String
  pub eligible : Bool
  pub reported : List Runtime

pub record ProviderHeartbeat : Type 0 where
  pub current_concurrency : ℕ
  pub max_concurrency : ℕ

pub record ProviderView : Type 0 where
  pub provider_id : String
  pub heartbeat : Option ProviderHeartbeat

pub record RegistryView : Type 0 where
  pub tools : List RegistryVersion
  pub providers : List ProviderView

-- the draws of one request: `new_id()` and `secrets.token_urlsafe(32)`
pub record Draw : Type 0 where
  pub new_id : String
  pub secret : String

pub record LeaseSettings : Type 0 where
  pub tool_execution_mode : ExecutionMode
  pub global_stop : Bool
  pub tool_lease_seconds : ℕ

abbrev pub provider_key : ToolProvider → String
provider_key p = p.id

abbrev credential_key : ToolProviderCredential → String
credential_key c = c.id

abbrev pub descriptor_key : ToolDescriptorRecord → String
descriptor_key d = d.id

abbrev pub provider_is_active : ProviderLifecycle → Bool
provider_is_active ProviderLifecycle.active = true
provider_is_active _ = false

abbrev credential_is_active : CredentialLifecycle → Bool
credential_is_active CredentialLifecycle.active = true
credential_is_active _ = false

abbrev pub descriptor_is_active : DescriptorLifecycle → Bool
descriptor_is_active DescriptorLifecycle.active = true
descriptor_is_active _ = false

abbrev pub is_text : Option String → String → Bool
is_text none s = false
is_text (some t) s = t == s

abbrev pub is_number : Option ℕ → ℕ → Bool
is_number none n = false
is_number (some m) n = eqb m n

-- ORDER BY created_at, id
abbrev is_less : Ordering → Bool
is_less Ordering.lt = true
is_less _ = false

unfoldable pub is_older : ToolInvocation → ToolInvocation → Bool
is_older i j =
    ltb i.created_at j.created_at || (eqb i.created_at j.created_at && is_less (compare i.id j.id))

unfoldable pub is_candidate : String → ℕ → ToolInvocation → Bool
is_candidate provider_id now i =
    same_state i.state queued && is_text i.selected_provider_id provider_id && ltb now i.deadline_at

unfoldable pub lease_candidates : String → ℕ → Database → List ToolInvocation
unfolding is_candidate is_older
lease_candidates provider_id now db =
    take 100 (sort_by is_older (keep_if (is_candidate provider_id now) db.invocations))

-- the exact binding of the invocation to its rollout
unfoldable pub is_bound_to :
    ToolInvocation → ToolProvider → ToolRolloutPlanRecord → ToolRolloutPlanItemRecord → Bool
is_bound_to i provider plan item =
    is_canary i.execution_mode
    && is_text i.policy.plan_hash plan.plan_hash
    && is_number i.policy.plan_resource_version plan.resource_version
    && item.tool_id == i.tool_id
    && item.descriptor_version == i.descriptor_version
    && item.descriptor_hash == i.descriptor_hash
    && is_text i.policy.canonical_conversation item.canonical_conversation
    && same_caller item.caller i.creator_type
    && item.provider_id == provider.id
    && eqb provider.resource_version item.expected_provider_resource_version

unfoldable pub rollout_allows :
    ToolInvocation → ToolProvider → ℕ → Database → Option ToolRolloutPlanItemRecord
unfolding is_bound_to
rollout_allows i provider now db = elim i.rollout_plan_id [
  | none ↦ none
  | some plan_id ↦ elim i.rollout_plan_item_id [
    | none ↦ none
    | some item_id ↦ elim (locked_rollout_for_lease plan_id item_id now db) [
      | none ↦ none
      | some (plan, item) ↦ if is_bound_to i provider plan item then some item else none
    ]
  ]
]

unfoldable pub authorities_allow :
    ToolInvocation → String → ToolRolloutPlanItemRecord → Database → Bool
authorities_allow i provider_id item db =
    elim (find descriptor_key i.descriptor_id db.descriptors) [
      | none ↦ false
      | some d ↦
          descriptor_is_active d.lifecycle
          && eqb d.resource_version item.expected_descriptor_resource_version
    ]
    && elim (find credential_key provider_id db.credentials) [
      | none ↦ false
      | some c ↦ credential_is_active c.lifecycle
    ]

-- `_selected_runtime`
unfoldable pub selected_runtime : RegistryVersion → String → String → Option Runtime
selected_runtime v provider_id inventory_hash =
    first_of_list
      (λ r.
        r.provider_id == provider_id
        && r.runtime_eligible
        && r.inventory_hash == inventory_hash
        && is_some r.implementation_hash)
      v.reported

-- the implementation that the registry and the policy agree on
unfoldable pub allowed_implementation :
    RegistryView → ToolInvocation → String → String → Option String
unfolding selected_runtime
allowed_implementation registry i provider_id inventory_hash =
    elim (first_of_list
      (λ v. v.version == i.descriptor_version && v.descriptor_hash == i.descriptor_hash)
      registry.tools) [
        | none ↦ none
        | some v ↦
            if v.eligible
            then elim (selected_runtime v provider_id inventory_hash) [
              | none ↦ none
              | some r ↦ elim r.implementation_hash [
                | none ↦ none
                | some h ↦ if is_text i.policy.selected_implementation_hash h then some h else none
              ]
            ]
            else none
      ]

abbrev provider_heartbeat : RegistryView → String → Option ProviderHeartbeat
provider_heartbeat registry provider_id =
    elim (first_of_list (λ p. p.provider_id == provider_id) registry.providers) [
      | none ↦ none
      | some p ↦ p.heartbeat
    ]

unfoldable pub count_attempts : (ToolAttempt → Bool) → List ToolAttempt → ℕ
count_attempts p [] = 0
count_attempts p (a ∷ rest) = (if p a then 1 else 0) + count_attempts p rest

-- the join on the invocation of the attempt
abbrev is_of_tool : ToolInvocation → List ToolInvocation → ToolAttempt → Bool
is_of_tool i rows a = elim (find (λ r. r.id) a.invocation_id rows) [
  | none ↦ false
  | some j ↦ j.tool_id == i.tool_id && j.descriptor_version == i.descriptor_version
]

unfoldable pub has_capacity : RegistryView → ToolInvocation → String → Database → Bool
unfolding count_attempts
has_capacity registry i provider_id db = elim (provider_heartbeat registry provider_id) [
  | none ↦ false
  | some h ↦
      ltb
        (max (count_attempts (λ a. a.provider_id == provider_id && is_active a.state) db.attempts)
          h.current_concurrency)
        h.max_concurrency
      && ltb (count_attempts (λ a. is_of_tool i db.invocations a && is_active a.state) db.attempts)
          i.descriptor.concurrency_limit
]
