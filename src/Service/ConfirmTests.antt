-- ===== src/Service/ConfirmTests.antt =====
-- An approval of an invocation that awaits it.
use superlily.Base.{refl, true, none, [], ◌∷◌}
use superlily.Base.Table.{find}
use superlily.Invocation.{queued, awaiting_confirmation}
use superlily.Authority.Rows.{
  command, AttemptState, Confirmation, ConfirmationState, DescriptorLifecycle, ToolInvocation,
  ToolConfirmation, Database,
}
use superlily.Authority.Session.{run}
use superlily.Authority.Ledger.{find_invocation}
use superlily.Rollout.{is_open, locked_rollout_for_lease}
use superlily.Cancellation.{InvocationIdentity}
use superlily.Confirmation.{
  ToolInvocationConfirmIn, approve, decide_tool_confirmation, is_bound_request, is_decision_of,
}
use superlily.Confirmation.Revalidate.{
  approval_revalidation_reason, revalidate_scope, revalidate_descriptor, revalidate_provider,
  revalidate_runtime, revalidate_rate, rate_limit_exceeded, in_scope, is_undrifted,
  descriptor_requires_confirmation, canonical_invocation_conversation,
}
use superlily.Confirmation.Rulings.{Rules}
use superlily.Confirmation.Request.{decide_tool_confirmation-Rules}
use superlily.Service.Tests.{
  tool_deployment, tool_rows, tool_invocation, tool_descriptor, latex_registry,
}

abbrev waiting : ToolInvocation
waiting = tool_invocation awaiting_confirmation

abbrev challenge : ToolConfirmation
challenge = record {
  id = "c1";
  invocation_id = "i1";
  state = ConfirmationState.pending;
  request_hash = "rh";
  input_hash = "{}";
  principal_hash = "pr";
  policy_hash = "po";
  caller_type = command;
  caller_id = "nekro";
  resource_version = 1;
  expires_at = 1000;
  consumed_at = none;
  rejected_at = none;
  expired_at = none;
  updated_at = 1;
}

abbrev confirm_rows : Database
confirm_rows = record (tool_rows awaiting_confirmation AttemptState.lease_expired) {
  attempts = [];
  confirmations = challenge ∷ [];
  descriptors =
      record {
        id = "d1";
        lifecycle = DescriptorLifecycle.active;
        descriptor_hash = "dh";
        descriptor = record tool_descriptor { confirmation = Confirmation.always };
        resource_version = 4;
      }
      ∷ [];
}

abbrev approval : ToolInvocationConfirmIn
approval = record {
  confirmation_id = "c1";
  request_hash = "rh";
  input_hash = "{}";
  principal_hash = "pr";
  decision = approve;
  reason = "yes";
}

abbrev owner : InvocationIdentity
owner = record { caller = command; subject = "nekro" }

decide_tool_confirmation-Rules_example :
    (let (q, after) =
        run 10
          (decide_tool_confirmation
            (λ id payload who. payload.reason)
            (λ i. true)
            (λ db tool_id. latex_registry)
            tool_deployment.lease_settings
            "i1"
            approval
            owner
            "k1")
          confirm_rows in
      Rules q after "i1" "c1"
        (record { state = queued; confirmation = ConfirmationState.consumed; accepted = true }))
unfolding find_invocation find is_open locked_rollout_for_lease is_bound_request is_decision_of
    approval_revalidation_reason revalidate_scope revalidate_descriptor revalidate_provider
    revalidate_runtime revalidate_rate rate_limit_exceeded in_scope is_undrifted
    descriptor_requires_confirmation canonical_invocation_conversation
decide_tool_confirmation-Rules_example =
    decide_tool_confirmation-Rules (λ id payload who. payload.reason) (λ i. true)
      (λ db tool_id. latex_registry) tool_deployment.lease_settings waiting challenge approval owner
      "k1" 10 confirm_rows refl refl refl refl refl refl refl refl refl
