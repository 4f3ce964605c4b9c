-- ===== src/Claims/Tests.antt =====
-- Claims on one decided event, by the target and by another bot.
use superlily.Base.{◌≡◌, refl, ◌⊎◌, true, false, none, some, [], ◌∷◌}
use superlily.Decisions.{
  talk, command, group, full, no_reply, RegistryRuntime, Event, decide_event, decide_command,
  decide_talk, command_of, lookup_command, summoned, features_of, to_talk_bot, observe,
  talk_target_instance, is_talk_enabled, is_command_enabled,
}
use superlily.Decisions.Targets.{HasTarget, decide_event-HasTarget, FitsMode, decide_event-FitsMode}
use superlily.Claims.{
  enforce, canary, allow, abstain, Claim, evaluate_claim, common_gate, target_gate, suppress_all,
  decide_owner, effective_required_observations,
}
use superlily.Claims.Exclusive.{evaluate_claim-exclusive, Verdict, evaluate_claim-Verdict}
use superlily.Claims.Pipeline.{claim_on, event_claim-allowed, event_claim-bot}

abbrev fresh_runtime : RegistryRuntime
fresh_runtime = record { status = some "fresh"; runtime_match = none; unregistered_match = none }

abbrev mention_event : Event
mention_event = record {
  source_event_type = "message";
  conversation_type = group;
  text = some "hello";
  has_reply_link = false;
  reply_target_instance_id = none;
  reply_target_status = no_reply;
  mentioned_bot_instance_ids = "nekro-agent" ∷ [];
  command_registry_match = none;
  command_registry_error = none;
  command_registry_runtime = fresh_runtime;
  sender_bot_instance_id = none;
  conversation_mode = full;
  command_eligible = true;
  observing_instance_id = some "nekro-agent";
}

abbrev bot_event : Event
bot_event = record mention_event { sender_bot_instance_id = some "lily-command" }

abbrev mention_claim : Claim
mention_claim =
    claim_on enforce (some "qq-message-v3") 2 2 80 (some "online") (decide_event mention_event)

mention-allowed : (evaluate_claim mention_claim "nekro-agent").action ≡ allow
unfolding evaluate_claim common_gate suppress_all target_gate decide_owner claim_on decide_event
    decide_command decide_talk command_of lookup_command summoned observe
    effective_required_observations features_of to_talk_bot
mention-allowed = refl

evaluate_claim-exclusive_example : talk_target_instance ≡ talk_target_instance
evaluate_claim-exclusive_example =
    evaluate_claim-exclusive mention_claim mention_claim "nekro-agent" "nekro-agent" refl
      mention-allowed mention-allowed

decide_event-FitsMode_example : FitsMode mention_event (decide_event mention_event)
decide_event-FitsMode_example = decide_event-FitsMode mention_event refl

event_claim-allowed_example :
    (((decide_event mention_event).decision_type ≡ talk)
      × ("nekro-agent" ≡ talk_target_instance)
      × (is_talk_enabled mention_event.conversation_mode ≡ true))
    ⊎ (((decide_event mention_event).decision_type ≡ command)
        × ((decide_event mention_event).target_instance_id ≡ some "nekro-agent")
        × (is_command_enabled mention_event.conversation_mode ≡ true))
event_claim-allowed_example =
    event_claim-allowed mention_event enforce (some "qq-message-v3") 2 2 80 (some "online")
      "nekro-agent" refl mention-allowed

event_claim-bot_example :
    (evaluate_claim
      (claim_on canary (some "qq-message-v3") 2 2 80 (some "online") (decide_event bot_event))
      "nekro-agent").action
    ≡ abstain
event_claim-bot_example =
    event_claim-bot bot_event canary (some "qq-message-v3") 2 2 80 (some "online") "lily-command"
      "nekro-agent" refl

evaluate_claim-Verdict_example : Verdict mention_claim
evaluate_claim-Verdict_example = evaluate_claim-Verdict mention_claim

decide_event-HasTarget_example : HasTarget (decide_event mention_event)
decide_event-HasTarget_example = decide_event-HasTarget mention_event
