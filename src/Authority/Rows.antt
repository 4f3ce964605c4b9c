-- ===== src/Authority/Rows.antt =====
-- Rows of apps/core/src/superlily_core/models.py that the execution services read and write. Times are
-- microseconds; a JSON value is its canonical text; evidence, which no code reads back, is left out.
use superlily.Base.{ℕ, Bool, Option, String, List}
use superlily.Invocation.{InvocationState, InvocationTransitionEvent}

-- the reviewed bounds of a descriptor; `none` is no bound
pub record ResourceBudget : Type 0 where
  pub cpu_ms : Option ℕ
  pub memory_bytes : Option ℕ
  pub input_bytes : Option ℕ
  pub output_bytes : Option ℕ
  pub artifact_bytes : Option ℕ

pub record ArtifactPolicy : Type 0 where
  pub max_count : ℕ

pub data RetryPolicy : Type 0 where
  retry_safe no_automatic_retry provider_idempotency_key_required : RetryPolicy

pub data SideEffect : Type 0 where
  read compute write admin external_message : SideEffect

pub data Confirmation : Type 0 where
  never on_write always two_person : Confirmation

pub data RateLimitScope : Type 0 where
  global tool provider conversation sender : RateLimitScope

pub record RateLimit : Type 0 where
  pub requests : ℕ
  pub window_seconds : ℕ
  pub scope : RateLimitScope

-- the fields of a ToolDescriptor that execution reads
pub record ToolDescriptor : Type 0 where
  pub tool_id : String
  pub side_effect : SideEffect
  pub confirmation : Confirmation
  pub rate_limit : RateLimit
  pub concurrency_limit : ℕ
  pub output_schema : String
  pub retry_policy : RetryPolicy
  pub timeout_ms : ℕ
  pub resource_budget : ResourceBudget
  pub artifact_policy : Option ArtifactPolicy

pub data Caller : Type 0 where
  command agent admin_api : Caller

-- the entries of `policy_snapshot_json` that a lease and an approval read; `none` is a missing key, and the budget
-- and the permissions are canonical JSON
pub record PolicySnapshot : Type 0 where
  pub rollout_plan_is_object : Bool
  pub rollout_scope_is_object : Bool
  pub scope_item_id : Option String
  pub scope_descriptor_resource_version : Option ℕ
  pub scope_provider_resource_version : Option ℕ
  pub selected_provider_id : Option String
  pub selected_inventory_hash : Option String
  pub plan_hash : Option String
  pub plan_resource_version : Option ℕ
  pub canonical_conversation : Option String
  pub selected_implementation_hash : Option String
  pub resource_budget : Option String
  pub execution_permissions : Option String

-- the facts of `principal_snapshot_json`
pub record Principal : Type 0 where
  pub platform : String
  pub conversation_id : String
  pub sender_id : String

pub data ExecutionMode : Type 0 where
  off ledger_only canary enforce : ExecutionMode

pub record ToolInvocation : Type 0 where
  pub id : String
  pub tool_id : String
  pub descriptor_id : String
  pub descriptor_version : String
  pub descriptor_hash : String
  pub execution_mode : ExecutionMode
  pub rollout_plan_id : Option String
  pub rollout_plan_item_id : Option String
  pub selected_provider_id : Option String
  pub policy : PolicySnapshot
  pub principal : Option Principal
  pub request_hash : String
  pub input_hash : String
  pub principal_hash : String
  pub policy_hash : String
  pub creator_type : Caller
  pub creator_id : String
  pub descriptor : ToolDescriptor
  pub input_json : String
  pub state : InvocationState
  pub transition_sequence : ℕ
  pub reason_code : String
  pub deadline_at : ℕ
  pub terminal_at : Option ℕ
  pub created_at : ℕ
  pub updated_at : ℕ

pub record ToolInvocationTransition : Type 0 where
  pub invocation_id : String
  pub sequence : ℕ
  pub event : InvocationTransitionEvent
  pub previous_state : Option InvocationState
  pub state : InvocationState
  pub actor_type : String
  pub actor_id : String
  pub reason_code : String
  pub created_at : ℕ

pub data AttemptState : Type 0 where
  leased running succeeded failed cancelled lease_expired unknown_completion : AttemptState

pub record ToolUsage : Type 0 where
  pub wall_time_ms : ℕ
  pub cpu_ms : ℕ
  pub memory_peak_bytes : ℕ
  pub input_bytes : ℕ
  pub output_bytes : ℕ
  pub artifact_bytes : ℕ

pub record ToolAttempt : Type 0 where
  pub id : String
  pub invocation_id : String
  pub attempt_number : ℕ
  pub provider_id : String
  pub inventory_hash : String
  pub implementation_hash : String
  pub fencing_token : ℕ
  pub lease_secret_hash : String
  pub state : AttemptState
  pub deadline_at : ℕ
  pub lease_expires_at : ℕ
  pub started_at : Option ℕ
  pub last_heartbeat_at : Option ℕ
  pub completed_at : Option ℕ
  pub usage : ToolUsage
  pub output_json : Option String
  pub output_hash : Option String
  pub provider_result_id : Option String
  pub error_code : Option String
  pub safe_error_detail : Option String
  pub event_sequence : ℕ
  pub created_at : ℕ
  pub updated_at : ℕ

pub data AttemptEvent : Type 0 where
  lease start heartbeat complete fail cancel lease_expire reject : AttemptEvent

pub record ToolAttemptEvent : Type 0 where
  pub attempt_id : String
  pub sequence : ℕ
  pub event : AttemptEvent
  pub accepted : Bool  -- outcome: "accepted" or "rejected"
  pub provider_id : String
  pub fencing_token : ℕ
  pub reason_code : String
  pub created_at : ℕ

pub data ConfirmationState : Type 0 where
  pending consumed rejected expired : ConfirmationState

pub record ToolConfirmation : Type 0 where
  pub id : String
  pub invocation_id : String
  pub state : ConfirmationState
  pub request_hash : String
  pub input_hash : String
  pub principal_hash : String
  pub policy_hash : String
  pub caller_type : Caller
  pub caller_id : String
  pub resource_version : ℕ
  pub expires_at : ℕ
  pub consumed_at : Option ℕ
  pub rejected_at : Option ℕ
  pub expired_at : Option ℕ
  pub updated_at : ℕ

pub data ConfirmationEvent : Type 0 where
  create approve reject expire : ConfirmationEvent

pub record ToolConfirmationEvent : Type 0 where
  pub confirmation_id : String
  pub sequence : ℕ
  pub event : ConfirmationEvent
  pub state : ConfirmationState
  pub actor_type : String
  pub actor_id : String
  pub idempotency_key : String
  pub request_hash : String
  pub reason : String
  pub effective_at : ℕ

pub data ArtifactState : Type 0 where
  reserved uploading finalized rejected expired : ArtifactState

pub record ToolArtifact : Type 0 where
  pub id : String
  pub invocation_id : String
  pub attempt_id : String
  pub provider_id : String
  pub fencing_token : ℕ
  pub state : ArtifactState
  pub resource_version : ℕ
  pub content_sha256 : Option String
  pub mime_type : String
  pub byte_size : Option ℕ
  pub width_pixels : Option ℕ
  pub height_pixels : Option ℕ
  pub storage_key : Option String
  pub referenced_at : Option ℕ
  pub content_deleted_at : Option ℕ
  pub updated_at : ℕ

pub data ArtifactEvent : Type 0 where
  reserve upload_start upload_complete finalize reference reject expire cleanup : ArtifactEvent

pub record ToolArtifactEvent : Type 0 where
  pub artifact_id : String
  pub sequence : ℕ
  pub event : ArtifactEvent
  pub previous_state : Option ArtifactState
  pub state : ArtifactState
  pub reason_code : String
  pub effective_at : ℕ

pub data ProviderLifecycle : Type 0 where
  registered active quarantined retired revoked : ProviderLifecycle

pub data CredentialLifecycle : Type 0 where
  active revoked : CredentialLifecycle

pub data DescriptorLifecycle : Type 0 where
  draft reviewed active suspended retired revoked : DescriptorLifecycle

pub data PlanLifecycle : Type 0 where
  reviewed active paused : PlanLifecycle

-- The registry's and the rollout's rows.
pub record ToolProvider : Type 0 where
  pub id : String
  pub lifecycle : ProviderLifecycle
  pub resource_version : ℕ

pub record ToolProviderCredential : Type 0 where
  pub id : String
  pub lifecycle : CredentialLifecycle

pub record ToolDescriptorRecord : Type 0 where
  pub id : String
  pub lifecycle : DescriptorLifecycle
  pub descriptor_hash : String
  pub descriptor : ToolDescriptor
  pub resource_version : ℕ

pub record ToolRolloutPlanRecord : Type 0 where
  pub id : String
  pub plan_hash : String
  pub mode : ExecutionMode
  pub lifecycle : PlanLifecycle
  pub resource_version : ℕ
  pub starts_at : ℕ
  pub expires_at : ℕ
  pub max_invocations : ℕ

pub record ToolRolloutPlanItemRecord : Type 0 where
  pub id : String
  pub plan_record_id : String
  pub item_id : String
  pub tool_id : String
  pub descriptor_version : String
  pub descriptor_hash : String
  pub canonical_conversation : String
  pub caller : Caller
  pub provider_id : String
  pub expected_descriptor_resource_version : ℕ
  pub expected_provider_resource_version : ℕ

pub record ToolRolloutPlanCounter : Type 0 where
  pub plan_record_id : String
  pub consumed_invocations : ℕ
  pub last_consumed_at : Option ℕ

-- The tables; the ledgers have their newest row first.
pub record Database : Type 0 where
  pub invocations : List ToolInvocation
  pub transitions : List ToolInvocationTransition
  pub attempts : List ToolAttempt
  pub attempt_events : List ToolAttemptEvent
  pub artifacts : List ToolArtifact
  pub artifact_events : List ToolArtifactEvent
  pub confirmations : List ToolConfirmation
  pub confirmation_events : List ToolConfirmationEvent
  pub providers : List ToolProvider
  pub credentials : List ToolProviderCredential
  pub descriptors : List ToolDescriptorRecord
  pub rollout_plans : List ToolRolloutPlanRecord
  pub rollout_items : List ToolRolloutPlanItemRecord
  pub rollout_counters : List ToolRolloutPlanCounter
