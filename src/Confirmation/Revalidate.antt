-- ===== src/Confirmation/Revalidate.antt =====
-- `_approval_revalidation_reason` and `_rate_limit_exceeded`: whether an approval still has its authority.
use Prim.Native.String.{◌++◌ as text_append}
use superlily.Base.{
  ℕ, ◌+◌, ◌*◌, Bool, true, false, not, ◌&&◌, ◌||◌, Option, none, some, String, first_of_list,
  keep_if, length, ltb, leb, eqb, ◌==◌, if◌then◌else◌,
}
use superlily.Base.Table.{find}
use superlily.Invocation.{InvocationState, recorded_only}
use superlily.Authority.Rows.{
  ToolInvocation, ToolDescriptor, SideEffect, Confirmation, RateLimitScope, Principal,
  ExecutionMode, canary, enforce, ToolRolloutPlanRecord, ToolRolloutPlanItemRecord, Database,
}
use superlily.Rollout.{is_canary, locked_rollout_for_lease}
use superlily.Execution.Lease.{
  LeaseSettings, RegistryView, is_text, is_number, descriptor_key, provider_key,
  descriptor_is_active, provider_is_active,
}

-- the reason of a refusal, or the descriptor, the plan and the item that still authorize the invocation
pub data Revalidation : Type 0 where
  drift : String → Revalidation
  authority : ToolDescriptor → ToolRolloutPlanRecord → ToolRolloutPlanItemRecord → Revalidation

abbrev is_write : SideEffect → Bool
is_write SideEffect.write = true
is_write SideEffect.admin = true
is_write SideEffect.external_message = true
is_write _ = false

unfoldable pub descriptor_requires_confirmation : ToolDescriptor → Bool
descriptor_requires_confirmation d = elim d.confirmation [
  | Confirmation.always ↦ true
  | Confirmation.on_write ↦ is_write d.side_effect
  | _ ↦ false
]

abbrev is_two_person : Confirmation → Bool
is_two_person Confirmation.two_person = true
is_two_person _ = false

-- the states that count against a rate
abbrev is_counted : InvocationState → Bool
is_counted InvocationState.rejected = false
is_counted recorded_only = false
is_counted _ = true

abbrev is_executing : ExecutionMode → Bool
is_executing canary = true
is_executing enforce = true
is_executing _ = false

abbrev is_global : RateLimitScope → Bool
is_global RateLimitScope.global = true
is_global _ = false

abbrev same_sender : Option Principal → Principal → Bool
same_sender none p = false
same_sender (some q) p = q.platform == p.platform && q.sender_id == p.sender_id

unfoldable pub canonical_invocation_conversation : Principal → String
canonical_invocation_conversation p = text_append p.platform (text_append ":" p.conversation_id)

-- the branch on the scope of the rate
unfoldable pub in_scope :
    RateLimitScope → Principal → ToolRolloutPlanItemRecord → ToolInvocation → Bool
in_scope RateLimitScope.provider p item row =
    is_text row.policy.selected_provider_id item.provider_id
in_scope RateLimitScope.conversation p item row =
    is_text row.policy.canonical_conversation (canonical_invocation_conversation p)
in_scope RateLimitScope.sender p item row = same_sender row.principal p
in_scope _ p item row = true

unfoldable pub rate_limit_exceeded :
    ToolDescriptor → Principal → ToolRolloutPlanItemRecord → ℕ → String → Database → Bool
unfolding in_scope
rate_limit_exceeded d p item database_time exclude_invocation_id db =
    let rate = d.rate_limit in
    let count = length (
      keep_if
        (λ row.
          leb database_time (row.created_at + rate.window_seconds * 1000000)
          && is_counted row.state
          && is_executing row.execution_mode
          && not (row.id == exclude_invocation_id)
          && (is_global rate.scope || row.tool_id == d.tool_id)
          && in_scope rate.scope p item row)
        db.invocations) in
    ltb 0 count && leb rate.requests count

-- the plan, the item and the provider that the invocation names
abbrev rollout_authority : ToolInvocation → Option (String × String × String)
rollout_authority i =
    if is_canary i.execution_mode
    then elim i.rollout_plan_id [
      | none ↦ none
      | some plan_id ↦ elim i.rollout_plan_item_id [
        | none ↦ none
        | some item_id ↦ elim i.selected_provider_id [
          | none ↦ none
          | some provider_id ↦ some (plan_id, item_id, provider_id)
        ]
      ]
    ]
    else none

unfoldable pub is_undrifted :
    ToolInvocation → ToolRolloutPlanRecord → ToolRolloutPlanItemRecord → String → Bool
is_undrifted i plan scope provider_id =
    is_text i.policy.plan_hash plan.plan_hash
    && is_number i.policy.plan_resource_version plan.resource_version
    && scope.tool_id == i.tool_id
    && scope.descriptor_version == i.descriptor_version
    && scope.descriptor_hash == i.descriptor_hash
    && scope.provider_id == provider_id
    && is_text i.policy.scope_item_id scope.item_id
    && is_number i.policy.scope_descriptor_resource_version
        scope.expected_descriptor_resource_version
    && is_number i.policy.scope_provider_resource_version scope.expected_provider_resource_version

abbrev same_optional : Option String → Option String → Bool
same_optional none none = true
same_optional (some s) (some t) = s == t
same_optional _ _ = false

module _ (is_snapshot : ToolInvocation → Bool) (registry : Database → String → RegistryView) where
  -- the request is rebuilt from its snapshot, and its rate is counted
  unfoldable pub revalidate_rate :
      ToolInvocation
      → ℕ
      → Database
      → ToolDescriptor
      → ToolRolloutPlanRecord
      → ToolRolloutPlanItemRecord
      → Revalidation
  revalidate_rate i database_time db d plan scope = elim i.principal [
    | none ↦ drift "invocation_snapshot_invalid"
    | some p ↦
        if not (is_snapshot i)
        then drift "invocation_snapshot_invalid"
        else if rate_limit_exceeded d p scope database_time i.id db
        then drift "rate_limited"
        else authority d plan scope
  ]

  unfoldable pub revalidate_runtime :
      ToolInvocation → String → Database → Revalidation → Revalidation
  revalidate_runtime i provider_id db next =
      elim (first_of_list
        (λ v. v.version == i.descriptor_version && v.descriptor_hash == i.descriptor_hash)
        (registry db i.tool_id).tools) [
          | none ↦ drift "descriptor_runtime_missing"
          | some v ↦
              elim (first_of_list (λ r. r.provider_id == provider_id && r.runtime_eligible)
                v.reported) [
                  | none ↦ drift "provider_runtime_ineligible"
                  | some r ↦
                      if is_text i.policy.selected_inventory_hash r.inventory_hash
                        && same_optional r.implementation_hash i.policy.selected_implementation_hash
                      then next
                      else drift "provider_runtime_drift"
                ]
        ]

  unfoldable pub revalidate_provider :
      ToolRolloutPlanItemRecord → String → Database → Revalidation → Revalidation
  revalidate_provider scope provider_id db next =
      elim (find provider_key provider_id db.providers) [
        | none ↦ drift "provider_authority_drift"
        | some p ↦
            if provider_is_active p.lifecycle
              && eqb p.resource_version scope.expected_provider_resource_version
            then next
            else drift "provider_authority_drift"
      ]

  -- a constraint of the table keeps review_status at "reviewed"
  unfoldable pub revalidate_descriptor :
      ToolInvocation
      → ToolRolloutPlanItemRecord
      → Database
      → (ToolDescriptor → Revalidation)
      → Revalidation
  revalidate_descriptor i scope db next =
      elim (find descriptor_key i.descriptor_id db.descriptors) [
        | none ↦ drift "descriptor_authority_drift"
        | some d ↦
            if not (
              descriptor_is_active d.lifecycle
              && eqb d.resource_version scope.expected_descriptor_resource_version
              && d.descriptor_hash == i.descriptor_hash)
            then drift "descriptor_authority_drift"
            else if not (descriptor_requires_confirmation d.descriptor)
                || is_two_person d.descriptor.confirmation
            then drift "confirmation_policy_drift"
            else next d.descriptor
      ]

  unfoldable pub revalidate_scope :
      ToolInvocation
      → ℕ
      → Database
      → ToolRolloutPlanRecord
      → ToolRolloutPlanItemRecord
      → String
      → Revalidation
  revalidate_scope i database_time db plan scope provider_id =
      if not (i.policy.rollout_plan_is_object && i.policy.rollout_scope_is_object)
      then drift "rollout_snapshot_invalid"
      else if not (is_undrifted i plan scope provider_id)
      then drift "rollout_authority_drift"
      else revalidate_descriptor i scope db (λ d.
        revalidate_provider scope provider_id db
          (revalidate_runtime i provider_id db (revalidate_rate i database_time db d plan scope)))

  unfoldable pub approval_revalidation_reason :
      LeaseSettings → ToolInvocation → ℕ → Database → Revalidation
  approval_revalidation_reason settings i database_time db =
      if not (is_canary settings.tool_execution_mode)
      then drift "execution_mode_changed"
      else if settings.global_stop
      then drift "global_stop"
      else elim (rollout_authority i) [
        | none ↦ drift "rollout_authority_missing"
        | some (plan_id, item_id, provider_id) ↦
            elim (locked_rollout_for_lease plan_id item_id database_time db) [
              | none ↦ drift "rollout_plan_inactive"
              | some (plan, scope) ↦ revalidate_scope i database_time db plan scope provider_id
            ]
      ]
