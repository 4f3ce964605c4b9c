-- ===== src/Confirmation/Keeps.antt =====
-- What a confirmation decision keeps: every gentle property.
use superlily.Base.{ℕ, refl, Bool, true, false, Option, none, some, String}
use superlily.Authority.Rows.{
  ToolInvocation, ToolDescriptor, ToolConfirmation, ToolConfirmationEvent, ToolRolloutPlanRecord,
  ToolRolloutPlanCounter, Database,
}
use superlily.Authority.Session.Keeps.{Keeps, Keeps-pure, Keeps-bind, Keeps-if, keeps_rules}
use superlily.Authority.Ledger.Stable.{Gentle, append-Keeps, beside-Keeps}
use superlily.Rollout.{spend_from, consume_rollout_invocation}
use superlily.Execution.Lease.{LeaseSettings, RegistryView}
use superlily.Cancellation.{InvocationIdentity}
use superlily.Cancellation.Keeps.{confirmation-Keeps}
use superlily.Confirmation.Revalidate.{Revalidation, drift, authority}
use superlily.Confirmation.{
  ToolInvocationConfirmIn, ConfirmationDecision, approve, reject, reject_confirmation_approval,
  repeat_decision, refuse_confirmation, approve_confirmation, approve_revalidated, decide_pending,
  decide_new, decide_once, decide_tool_confirmation,
}

module _ {P : Database → Type 0} (gentle : Gentle P) where
  spend-Keeps :
      (plan : ToolRolloutPlanRecord) (database_time : ℕ) (c : Option ToolRolloutPlanCounter)
      → Keeps P (spend_from plan database_time c)
  unfolding spend_from
  spend-Keeps plan database_time none = Keeps-pure false
  spend-Keeps plan database_time (some c) =
      Keeps-if _ _ _
        (Keeps-bind _ _ (beside-Keeps gentle _ (λ db. (refl, refl, refl))) (λ _. Keeps-pure true))
        (Keeps-pure false)

  consume-Keeps :
      (plan : ToolRolloutPlanRecord) (database_time : ℕ)
      → Keeps P (consume_rollout_invocation plan database_time)
  unfolding consume_rollout_invocation
  consume-Keeps plan database_time = search (keeps_rules, spend-Keeps)

  module _ (i : ToolInvocation) (c : ToolConfirmation) (payload : ToolInvocationConfirmIn)
      (who : InvocationIdentity) (key request_hash : String) where
    reject_approval-Keeps :
        (reason_code : String) (database_time : ℕ) (expired : Bool)
        → Keeps P (
            reject_confirmation_approval i c who key request_hash reason_code database_time expired)
    unfolding reject_confirmation_approval
    reject_approval-Keeps reason_code database_time expired =
        search (keeps_rules, confirmation-Keeps gentle, append-Keeps gentle) depth 12

    repeat-Keeps : (e : ToolConfirmationEvent) → Keeps P (repeat_decision i e payload request_hash)
    unfolding repeat_decision
    repeat-Keeps e = search keeps_rules depth 12

    refuse-Keeps :
        (database_time : ℕ)
        → Keeps P (refuse_confirmation i c payload who key request_hash database_time)
    unfolding refuse_confirmation
    refuse-Keeps database_time =
        search (keeps_rules, confirmation-Keeps gentle, append-Keeps gentle) depth 12

    approve-Keeps :
        (database_time : ℕ) (d : ToolDescriptor) (plan : ToolRolloutPlanRecord) (consumed : Bool)
        → Keeps P
            (approve_confirmation i c payload who key request_hash database_time d plan consumed)
    unfolding approve_confirmation
    approve-Keeps database_time d plan false = search (keeps_rules, reject_approval-Keeps) depth 8
    approve-Keeps database_time d plan true =
        search (keeps_rules, confirmation-Keeps gentle, append-Keeps gentle) depth 12

    revalidated-Keeps :
        (database_time : ℕ) (r : Revalidation)
        → Keeps P (approve_revalidated i c payload who key request_hash database_time r)
    unfolding approve_revalidated
    revalidated-Keeps database_time (drift reason) =
        search (keeps_rules, reject_approval-Keeps) depth 8
    revalidated-Keeps database_time (authority d plan scope) =
        search (keeps_rules, consume-Keeps, approve-Keeps) depth 8

  module _
      (confirmation_decision_hash : String → ToolInvocationConfirmIn → InvocationIdentity → String)
      (is_snapshot : ToolInvocation → Bool) (registry : Database → String → RegistryView)
      (settings : LeaseSettings) where
    module _ (i : ToolInvocation) (c : ToolConfirmation) (payload : ToolInvocationConfirmIn)
        (who : InvocationIdentity) (key request_hash : String) where
      pending-Keeps :
          (database_time : ℕ) (decision : ConfirmationDecision)
          → Keeps P (
              decide_pending confirmation_decision_hash is_snapshot registry settings i c payload
                who key request_hash database_time decision)
      unfolding decide_pending
      pending-Keeps database_time reject =
          refuse-Keeps i c payload who key request_hash database_time
      pending-Keeps database_time approve = search (keeps_rules, revalidated-Keeps) depth 8

      new-Keeps : Keeps P (
          decide_new confirmation_decision_hash is_snapshot registry settings i c payload who key
            request_hash)
      unfolding decide_new
      new-Keeps = search (keeps_rules, reject_approval-Keeps, pending-Keeps) depth 12

      once-Keeps :
          (e : Option ToolConfirmationEvent)
          → Keeps P (
              decide_once confirmation_decision_hash is_snapshot registry settings i c payload who
                key request_hash e)
      unfolding decide_once
      once-Keeps none = new-Keeps
      once-Keeps (some e) = repeat-Keeps i c payload who key request_hash e

    pub decide-Keeps :
        (invocation_id : String) (payload : ToolInvocationConfirmIn) (who : InvocationIdentity)
        (key : String)
        → Keeps P (
            decide_tool_confirmation confirmation_decision_hash is_snapshot registry settings
              invocation_id payload who key)
    unfolding decide_tool_confirmation
    decide-Keeps invocation_id payload who key = search (keeps_rules, once-Keeps) depth 20
