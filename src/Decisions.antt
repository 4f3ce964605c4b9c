-- ===== src/Decisions.antt =====
-- `decide_event` of apps/core/src/superlily_core/decisions.py: which bot an observed event is for. Of the
-- features, those are kept that `evaluate_claim` reads; the others are audit output. A registry is its `match`.
pub mod Targets
use Prim.Native.String.{◌++◌}
use text.Mathlib.Text.{find?}
use superlily.Base.{
  ℕ, Bool, true, false, not, ◌&&◌, ◌||◌, Option, none, some, String, List, [], ◌∷◌, is_none,
  is_some, ◌==◌, if◌then◌else◌,
}

pub data DecisionType : Type 0 where
  ignore observe_only talk command : DecisionType

pub data ConversationType : Type 0 where
  group private channel system unknown : ConversationType

pub data ConversationMode : Type 0 where
  command_only conversation_only full observing : ConversationMode  -- the last is "observe_only"

pub data ReplyStatus : Type 0 where
  no_reply resolved_other resolved unresolved ambiguous conflict : ReplyStatus

pub data CommandRuleKind : Type 0 where
  command token prefix exact suffix contains regex : CommandRuleKind

pub record CommandMatch : Type 0 where
  pub kind : CommandRuleKind
  pub trigger : String
  pub target_instance_id : String
  pub confidence : ℕ
  pub permission : String
  pub sensitive : Bool
  pub runtime_introspection : String

pub record RuntimeMatch : Type 0 where
  pub complete : Bool

-- the dictionary `command_registry_runtime`; a value that is no dictionary reads as the empty one
pub record RegistryRuntime : Type 0 where
  pub status : Option String
  pub runtime_match : Option RuntimeMatch
  pub unregistered_match : Option RuntimeMatch

pub record Features : Type 0 where
  pub command_registry_error : Option String
  pub command_registry_runtime : RegistryRuntime
  pub matched_command : Option CommandMatch
  pub summons_talk_bot : Bool
  pub mentions_observing_bot : Bool
  pub reply_target_status : ReplyStatus

pub record Decision : Type 0 where
  pub decision_type : DecisionType
  pub target_instance_id : Option String
  pub confidence : ℕ
  pub reason : String
  pub features : Features

pub record Event : Type 0 where
  pub source_event_type : String
  pub conversation_type : ConversationType
  pub text : Option String
  pub has_reply_link : Bool
  pub reply_target_instance_id : Option String
  pub reply_target_status : ReplyStatus
  pub mentioned_bot_instance_ids : List String
  pub command_registry_match : Option (Option String → Option CommandMatch)
  pub command_registry_error : Option String
  pub command_registry_runtime : RegistryRuntime
  pub sender_bot_instance_id : Option String
  pub conversation_mode : ConversationMode
  pub command_eligible : Bool
  pub observing_instance_id : Option String

abbrev pub talk_target_instance : String
talk_target_instance = "nekro-agent"

abbrev pub command_target_instance : String
command_target_instance = "lily-command"

abbrev pub is_talk_enabled : ConversationMode → Bool
is_talk_enabled conversation_only = true
is_talk_enabled full = true
is_talk_enabled _ = false

abbrev pub is_command_enabled : ConversationMode → Bool
is_command_enabled command_only = true
is_command_enabled full = true
is_command_enabled _ = false

-- `conversation_mode in {"command_only", "observe_only"}`
abbrev not_talking : ConversationMode → Bool
not_talking command_only = true
not_talking observing = true
not_talking _ = false

abbrev mode_reason : ConversationMode → String
mode_reason command_only = "conversation_mode_command_only"
mode_reason conversation_only = "conversation_mode_conversation_only"
mode_reason full = "conversation_mode_full"
mode_reason observing = "conversation_mode_observe_only"

abbrev is_text : Option String → String → Bool
is_text none s = false
is_text (some t) s = t == s

abbrev is_group : ConversationType → Bool
is_group group = true
is_group _ = false

abbrev is_private : ConversationType → Bool
is_private private = true
is_private _ = false

abbrev is_unclear : ReplyStatus → Bool
is_unclear ambiguous = true
is_unclear conflict = true
is_unclear _ = false

abbrev pub is_resolved_other : ReplyStatus → Bool
is_resolved_other resolved_other = true
is_resolved_other _ = false

abbrev is_empty : List String → Bool
is_empty [] = true
is_empty (x ∷ xs) = false

-- "莉莉" in (text or "")
unfoldable pub summons : Option String → Bool
summons none = false
summons (some t) = is_some (find? t "莉莉")

unfoldable pub lookup_command :
    Option (Option String → Option CommandMatch) → Bool → Option String → Option CommandMatch
lookup_command (some match) true text = match text
lookup_command _ _ text = none

abbrev kind_name : CommandRuleKind → String
kind_name CommandRuleKind.command = "prefix"
kind_name token = "token"
kind_name prefix = "prefix"
kind_name exact = "exact"
kind_name suffix = "suffix"
kind_name contains = "contains"
kind_name regex = "regex"

unfoldable pub command_of : Event → Option CommandMatch
unfolding lookup_command
command_of e =
    lookup_command e.command_registry_match (is_none e.sender_bot_instance_id && e.command_eligible)
      e.text

unfoldable pub summoned : Event → Bool
unfolding summons
summoned e = is_none e.sender_bot_instance_id && summons e.text

unfoldable pub features_of : Event → Features
unfolding command_of summoned
features_of e = record {
  command_registry_error = e.command_registry_error;
  command_registry_runtime = e.command_registry_runtime;
  matched_command = command_of e;
  summons_talk_bot = summoned e;
  mentions_observing_bot = not (is_empty e.mentioned_bot_instance_ids);
  reply_target_status = e.reply_target_status;
}

unfoldable pub observe : Event → DecisionType → ℕ → String → Decision
unfolding features_of
observe e kind confidence reason = record {
  decision_type = kind;
  target_instance_id = none;
  confidence = confidence;
  reason = reason;
  features = features_of e;
}

unfoldable pub to_talk_bot : Event → ℕ → String → Decision
unfolding features_of
to_talk_bot e confidence reason = record {
  decision_type = talk;
  target_instance_id = some talk_target_instance;
  confidence = confidence;
  reason = reason;
  features = features_of e;
}

-- `if has_reply_link:`
pub decide_reply : Event → Decision
unfolding observe to_talk_bot summoned
decide_reply e =
    if is_text e.reply_target_instance_id talk_target_instance
    then (if is_talk_enabled e.conversation_mode
        then to_talk_bot e 95 "reply_to_talk_response"
        else observe e observe_only 95 (mode_reason e.conversation_mode))
    else if is_text e.reply_target_instance_id command_target_instance
    then observe e observe_only 90 "reply_to_command_response_observed"
    else if is_unclear e.reply_target_status
    then observe e observe_only 50 "reply_target_conflict_observed"
    else if summoned e || not (is_empty e.mentioned_bot_instance_ids)
    then (if is_talk_enabled e.conversation_mode
        then to_talk_bot e 90 "summons_talk_bot_with_reply"
        else observe e observe_only 90 (mode_reason e.conversation_mode))
    else if is_resolved_other e.reply_target_status
    then observe e observe_only 95 "reply_to_other_observed"
    else observe e observe_only 60 "reply_reference_observed"

-- `observing_instance_id in {None, TALK_TARGET_INSTANCE}`
abbrev is_talk_observer : Option String → Bool
is_talk_observer none = true
is_talk_observer (some i) = i == talk_target_instance

-- what follows the command branch
unfoldable pub decide_talk : Event → Decision
unfolding observe to_talk_bot summoned
decide_talk e =
    if is_group e.conversation_type && not_talking e.conversation_mode
    then observe e observe_only 90 (mode_reason e.conversation_mode)
    else if is_private e.conversation_type
    then (if is_talk_observer e.observing_instance_id
        then to_talk_bot e 95 "private_recipient_talk"
        else observe e observe_only 95 "private_recipient_observed")
    else if summoned e
    then to_talk_bot e 90 "summons_talk_bot"
    else if not (is_empty e.mentioned_bot_instance_ids)
    then to_talk_bot e 85 "explicit_bot_mention"
    else observe e observe_only 70 "ordinary_message"

-- `command_match and (conversation_type != "private" or …)`, and its branch
unfoldable pub decide_command : Event → Option CommandMatch → Decision
unfolding observe features_of decide_talk
decide_command e none = decide_talk e
decide_command e (some m) =
    if not (is_private e.conversation_type) || is_text e.observing_instance_id m.target_instance_id
    then (if is_group e.conversation_type && not (is_command_enabled e.conversation_mode)
        then observe e observe_only 95 "command_target_unavailable"
        else (record {
          decision_type = command;
          target_instance_id = some m.target_instance_id;
          confidence = m.confidence;
          reason = "command_" ++ (kind_name m.kind ++ (":" ++ m.trigger));
          features = features_of e;
        }))
    else decide_talk e

unfoldable pub decide_event : Event → Decision
unfolding observe
decide_event e =
    if not (e.source_event_type == "message")
    then observe e ignore 95 "non_message_event"
    else if is_some e.sender_bot_instance_id
    then observe e observe_only 100 "bot_message_observed"
    else if e.has_reply_link
    then decide_reply e
    else decide_command e (command_of e)
