-- ===== src/Claims.antt =====
-- `evaluate_claim` and `enforcement_enabled` of apps/core/src/superlily_core/claims.py: whether a bot instance
-- may answer an event. The gates, a copy of the inputs for the audit, are left out.
pub mod Exclusive
pub mod Pipeline
mod Tests
use Prim.Native.String.{◌++◌}
use superlily.Base.{
  ℕ, Bool, true, false, not, ◌&&◌, ◌||◌, Option, none, some, String, List, contains, ltb, is_none,
  is_some, ◌==◌, if◌then◌else◌,
}
use superlily.Decisions.{
  DecisionType, observe_only, talk, command, ignore, ReplyStatus, unresolved, ambiguous, conflict,
  is_resolved_other, CommandMatch, RuntimeMatch, RegistryRuntime, Features,
}

pub data ClaimMode : Type 0 where
  off shadow canary enforce : ClaimMode

pub data Action : Type 0 where
  abstain allow deny : Action

pub record ClaimEvaluation : Type 0 where
  pub action : Action
  pub reason : String
  pub ready : Bool

-- the arguments but `requesting_instance_id`
pub record Claim : Type 0 where
  pub mode : ClaimMode
  pub decision_type : DecisionType
  pub decision_reason : String
  pub target_instance_id : Option String
  pub confidence : ℕ
  pub decision_features : Features
  pub correlation_version : Option String
  pub observation_count : ℕ
  pub required_observations : ℕ
  pub minimum_confidence : ℕ
  pub target_status : Option String

abbrev correlation_version_3 : String
correlation_version_3 = "qq-message-v3"

abbrev is_off : ClaimMode → Bool
is_off off = true
is_off _ = false

abbrev is_observe_only : DecisionType → Bool
is_observe_only observe_only = true
is_observe_only _ = false

-- `decision_type in ACTIONABLE_DECISIONS`
abbrev pub is_actionable : DecisionType → Bool
is_actionable command = true
is_actionable talk = true
is_actionable _ = false

abbrev pub is_command : DecisionType → Bool
is_command command = true
is_command _ = false

abbrev is_unsafe : ReplyStatus → Bool
is_unsafe unresolved = true
is_unsafe ambiguous = true
is_unsafe conflict = true
is_unsafe _ = false

abbrev pub same_text : Option String → String → Bool
same_text none s = false
same_text (some t) s = t == s

-- a text that is present and not empty, as Python's truth of an optional text
abbrev is_truthy : Option String → Bool
is_truthy none = false
is_truthy (some t) = not (t == "")

unfoldable pub suppress_all : Claim → Bool
suppress_all c =
    is_observe_only c.decision_type
    && c.decision_reason == "reply_to_other_observed"
    && is_none c.target_instance_id
    && is_resolved_other c.decision_features.reply_target_status
    && not c.decision_features.summons_talk_bot
    && not c.decision_features.mentions_observing_bot

unfoldable pub effective_required_observations : Claim → ℕ
unfolding suppress_all
effective_required_observations c = if suppress_all c then 1 else c.required_observations

abstaining : String → ClaimEvaluation
abstaining reason = record { action = abstain; reason = reason; ready = false }

abbrev is_complete : Option RuntimeMatch → Bool
is_complete none = false
is_complete (some m) = m.complete

abbrev is_reviewed : Option CommandMatch → Bool
is_reviewed none = false
is_reviewed (some m) = m.runtime_introspection == "reviewed"

abbrev is_sensitive : Option CommandMatch → Bool
is_sensitive none = false
is_sensitive (some m) = m.sensitive

abbrev is_public : Option CommandMatch → Bool
is_public none = false
is_public (some m) = m.permission == "public"

abbrev text_of : Option String → String
text_of none = "None"
text_of (some t) = t

-- The gates in front of `suppress_all`, the reason of the first one that abstains.
unfoldable pub common_gate : Claim → Option String
unfolding suppress_all effective_required_observations
common_gate c =
    if is_off c.mode
    then some "claim_mode_off"
    else if not (suppress_all c)
        && (not (is_actionable c.decision_type) || not (is_truthy c.target_instance_id))
    then some "non_actionable_decision"
    else if not (same_text c.correlation_version correlation_version_3)
    then some "strong_correlation_required"
    else if ltb c.observation_count (effective_required_observations c)
    then some "insufficient_observations"
    else if ltb c.confidence c.minimum_confidence
    then some "confidence_below_threshold"
    else none

-- The gates of a command, on the runtime match and on the reviewed rule.
pub command_gate : Features → Option String
command_gate f =
    if is_some f.command_registry_runtime.unregistered_match
    then some "unregistered_runtime_command"
    else if is_none f.command_registry_runtime.runtime_match
    then some "command_not_confirmed_at_runtime"
    else if not (is_complete f.command_registry_runtime.runtime_match)
        && not (is_reviewed f.matched_command)
    then some "runtime_match_not_fully_introspected"
    else if is_none f.matched_command
    then some "command_metadata_missing"
    else if is_sensitive f.matched_command
    then some "sensitive_command_not_enforced"
    else if not (is_public f.matched_command)
    then some "command_permission_not_modeled"
    else none

-- The gates behind it.
unfoldable pub target_gate : Claim → Option String
target_gate c =
    if is_truthy c.decision_features.command_registry_error
    then some "command_registry_unavailable"
    else if not (same_text c.decision_features.command_registry_runtime.status "fresh")
    then some "runtime_registry_not_fresh"
    else elim (if is_command c.decision_type then command_gate c.decision_features else none) [
      | some reason ↦ some reason
      | none ↦
          if is_unsafe c.decision_features.reply_target_status
          then some "reply_target_not_deterministic"
          else if not (same_text c.target_status "online")
          then some "target_instance_not_online"
          else none
    ]

-- the end of the function, where every gate is passed
unfoldable pub decide_owner : Claim → String → ClaimEvaluation
decide_owner c requesting_instance_id = record {
  action = if same_text c.target_instance_id requesting_instance_id then allow else deny;
  reason = "decision_target:" ++ text_of c.target_instance_id;
  ready = true;
}

unfoldable pub evaluate_claim : Claim → String → ClaimEvaluation
unfolding abstaining
evaluate_claim c requesting_instance_id = elim (common_gate c) [
  | some reason ↦ abstaining reason
  | none ↦
      if suppress_all c
      then (record {
        action = deny;
        reason = "decision_suppress_all:" ++ c.decision_reason;
        ready = true;
      })
      else elim (target_gate c) [
        | some reason ↦ abstaining reason
        | none ↦ decide_owner c requesting_instance_id
      ]
]

-- The conversation's key is the text `platform:type:id`.
unfoldable pub enforcement_enabled : ClaimMode → String → String → String → List String → Bool
enforcement_enabled enforce platform conversation_type conversation_id canary_conversations = true
enforcement_enabled canary platform conversation_type conversation_id canary_conversations =
    contains canary_conversations
      (platform ++ (":" ++ (conversation_type ++ (":" ++ conversation_id))))
enforcement_enabled _ platform conversation_type conversation_id canary_conversations = false
