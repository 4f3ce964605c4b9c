-- ===== src/Claims/Pipeline.antt =====
-- The way of an event through `decide_event` and `evaluate_claim`: `evaluate_event_claim` of
-- apps/core/src/superlily_core/service.py evaluates the claims of an event on its decision.
use superlily.Base.{
  ◌≡◌, refl, ap, subst, eq_iff, Bool-cases, ◌⊎◌, inl, inr, ℕ, true, false, Option, none, some,
  String, arith, ◌==◌,
}
use superlily.Decisions.{
  DecisionType, Event, group, talk, command, Decision, decide_event, observe, talk_target_instance,
  is_talk_enabled, is_command_enabled,
}
use superlily.Decisions.Targets.{
  target_fits, mode_fits, decide_event-HasTarget, decide_event-FitsMode,
}
use superlily.Claims.{
  ClaimMode, allow, abstain, Claim, evaluate_claim, common_gate, suppress_all, same_text,
}
use superlily.Claims.Exclusive.{allow-target}

-- the claim that is evaluated on a decision; the other arguments come from the settings and the stored rows
unfoldable pub claim_on : ClaimMode → Option String → ℕ → ℕ → ℕ → Option String → Decision → Claim
claim_on mode correlation observed required minimum status d = record {
  mode = mode;
  decision_type = d.decision_type;
  decision_reason = d.reason;
  target_instance_id = d.target_instance_id;
  confidence = d.confidence;
  decision_features = d.features;
  correlation_version = correlation;
  observation_count = observed;
  required_observations = required;
  minimum_confidence = minimum;
  target_status = status;
}

allow-actionable :
    (c : Claim)
    → common_gate c ≡ none
    → suppress_all c ≡ false
    → (c.decision_type ≡ talk) ⊎ (c.decision_type ≡ command)
unfolding common_gate
allow-actionable c passed some_target = ground (arith, passed, some_target)

talk-target :
    (k : DecisionType) (t : Option String) (r : String)
    → target_fits k t ≡ true
    → k ≡ talk
    → same_text t r ≡ true
    → r ≡ talk_target_instance
talk-target k none r fits talks h = cc
talk-target k (some t) r fits talks h = ground (arith, eq_iff t r, eq_iff t talk_target_instance)

same_text-some : (t : Option String) (r : String) → same_text t r ≡ true → t ≡ some r
same_text-some none r h = cc
same_text-some (some t) r h = ap some ((eq_iff t r).0 h)

-- In a group an instance is allowed to answer in two cases only: the event was decided as talk, the instance
-- is the talk bot and the group's mode has talk enabled; or it was decided as a command, the instance is the
-- command's target and the group's mode has commands enabled.
pub event_claim-allowed :
    (e : Event) (mode : ClaimMode) (correlation : Option String) (observed required minimum : ℕ)
    (status : Option String) (r : String)
    → e.conversation_type ≡ group
    → (evaluate_claim
        (claim_on mode correlation observed required minimum status (decide_event e))
        r).action
      ≡ allow
    → (((decide_event e).decision_type ≡ talk)
        × (r ≡ talk_target_instance)
        × (is_talk_enabled e.conversation_mode ≡ true))
      ⊎ (((decide_event e).decision_type ≡ command)
          × ((decide_event e).target_instance_id ≡ some r)
          × (is_command_enabled e.conversation_mode ≡ true))
unfolding claim_on
event_claim-allowed e mode correlation observed required minimum status r g allowed =
    let d : Decision = decide_event e in
    let c : Claim = claim_on mode correlation observed required minimum status d in
    let (same, some_target, passed, _) = allow-target c r allowed in
    elim (allow-actionable c passed some_target) [
      | inl talks ↦ inl (
        talks,
        talk-target d.decision_type d.target_instance_id r (decide_event-HasTarget e) talks same,
        subst (λ k. mode_fits e.conversation_mode k ≡ true) talks (decide_event-FitsMode e g),
      )
      | inr commands ↦ inr (
        commands,
        same_text-some d.target_instance_id r same,
        subst (λ k. mode_fits e.conversation_mode k ≡ true) commands (decide_event-FitsMode e g),
      )
    ]

abbrev IsSilent : Decision → Type 0
IsSilent d = (d.target_instance_id ≡ none) × ((d.reason == "reply_to_other_observed") ≡ false)

-- a decision on a bot's message has no target and is not one to suppress
bot_decision :
    (e : Event) (b : String) → e.sender_bot_instance_id ≡ some b → IsSilent (decide_event e)
unfolding decide_event observe
bot_decision e b sent = elim (Bool-cases (e.source_event_type == "message")) [
  | inl message ↦ rw (message, sent) (refl, refl)
  | inr other ↦ rw other (refl, refl)
]

unsuppressed :
    (c : Claim) → (c.decision_reason == "reply_to_other_observed") ≡ false → suppress_all c ≡ false
unfolding suppress_all
unsuppressed c other = ground (arith, other)

untargeted-abstain :
    (c : Claim) (r : String)
    → suppress_all c ≡ false
    → c.target_instance_id ≡ none
    → (evaluate_claim c r).action ≡ abstain
unfolding evaluate_claim common_gate
untargeted-abstain c r some_target absent = ground (arith, some_target, absent)

-- No instance is told to answer, or to be silent, on a message that a bot sent: every instance abstains,
-- whatever the mode and the settings are.
pub event_claim-bot :
    (e : Event) (mode : ClaimMode) (correlation : Option String) (observed required minimum : ℕ)
    (status : Option String) (b r : String)
    → e.sender_bot_instance_id ≡ some b
    → (evaluate_claim
        (claim_on mode correlation observed required minimum status (decide_event e))
        r).action
      ≡ abstain
unfolding claim_on
event_claim-bot e mode correlation observed required minimum status b r sent =
    let (absent, other) = bot_decision e b sent in
    let c : Claim = claim_on mode correlation observed required minimum status (decide_event e) in
    untargeted-abstain c r (unsuppressed c other) absent
