-- ===== src/Cancellation/Keeps.antt =====
-- What cancellation and the deadline reaper keep: every gentle property.
use superlily.Base.{ℕ, refl, String, List, [], ◌∷◌}
use superlily.Authority.Rows.{
  ToolInvocation, ToolConfirmation, ConfirmationState, ConfirmationEvent, Database,
}
use superlily.Authority.Session.Keeps.{
  Keeps, Keeps-pure, Keeps-bind, Keeps-require, Keeps-query, keeps_rules,
}
use superlily.Authority.Ledger.Stable.{Gentle, append-Keeps, beside-Keeps}
use superlily.Cancellation.{
  InvocationIdentity, decided, confirmation_event, store_confirmation, transition_confirmation,
}
use superlily.Cancellation.Requests.{
  reject_pending, cancel_tool_invocation, expire_pending, reap_invocation, reap_invocations,
  reap_expired_invocations,
}

module _ {P : Database → Type 0} (gentle : Gentle P) where
  pub confirmation-Keeps :
      (c : ToolConfirmation) (event : ConfirmationEvent) (state : ConfirmationState)
      (actor_type actor_id key request_hash reason : String) (effective_at : ℕ)
      → Keeps P (
          transition_confirmation c event state actor_type actor_id key request_hash reason
            effective_at)
  unfolding transition_confirmation
  confirmation-Keeps c event state actor_type actor_id key request_hash reason effective_at =
      Keeps-bind _ _ (Keeps-require _ _) (λ _. Keeps-bind _ _ (Keeps-query _) (λ reached.
        Keeps-bind _ _ (Keeps-require reached _) (λ _.
          beside-Keeps gentle
            (store_confirmation (decided c state effective_at) (
              confirmation_event c event state actor_type actor_id key request_hash reason
                effective_at))
            (λ db. unfold store_confirmation in (refl, refl, refl)))))

module _ {P : Database → Type 0} (gentle : Gentle P) (hash_object : List (String × String) → String)
    (isoformat : ℕ → String) where
  reject_pending-Keeps :
      (i : ToolInvocation) (who : InvocationIdentity) (reason : String)
      → Keeps P (reject_pending hash_object isoformat i who reason)
  unfolding reject_pending
  reject_pending-Keeps i who reason = search (keeps_rules, confirmation-Keeps gentle) depth 12

  pub cancel-Keeps :
      (invocation_id : String) (who : InvocationIdentity) (reason : String)
      → Keeps P (cancel_tool_invocation hash_object isoformat invocation_id who reason)
  unfolding cancel_tool_invocation
  cancel-Keeps invocation_id who reason =
      search (keeps_rules, reject_pending-Keeps, append-Keeps gentle) depth 20

  reap_invocation-Keeps :
      (i : ToolInvocation) (now : ℕ) → Keeps P (reap_invocation hash_object isoformat i now)
  unfolding reap_invocation expire_pending
  reap_invocation-Keeps i now =
      search (keeps_rules, confirmation-Keeps gentle, append-Keeps gentle) depth 12

  reap_invocations-Keeps :
      (rows : List ToolInvocation) (now : ℕ)
      → Keeps P (reap_invocations hash_object isoformat rows now)
  unfolding reap_invocations
  reap_invocations-Keeps [] now = Keeps-pure []
  reap_invocations-Keeps (i ∷ rest) now =
      Keeps-bind _ _ (reap_invocation-Keeps i now)
        (λ _. Keeps-bind _ _ (reap_invocations-Keeps rest now) (λ others. Keeps-pure _))

  pub reap_invocations_due-Keeps :
      (limit : ℕ) → Keeps P (reap_expired_invocations hash_object isoformat limit)
  unfolding reap_expired_invocations
  reap_invocations_due-Keeps limit = search (keeps_rules, reap_invocations-Keeps) depth 8
