-- ===== src/Decisions/Targets.antt =====
-- Which bot a decision is for, and which decisions the mode of a group allows.
use superlily.Base.{String, ◌≡◌, ◌==◌, Bool, true, false, Option, none, some, arith}
use superlily.Decisions.{
  DecisionType, observe_only, talk, command, ignore, ConversationMode, group, Decision, Event,
  CommandMatch, decide_reply, decide_talk, decide_command, command_of, talk_target_instance,
  is_talk_enabled, is_command_enabled, decide_event,
}

-- the target that goes with each type of decision
abbrev pub target_fits : DecisionType → Option String → Bool
target_fits talk (some t) = t == talk_target_instance
target_fits command (some t) = true
target_fits observe_only none = true
target_fits ignore none = true
target_fits _ _ = false

abbrev pub HasTarget : Decision → Type 0
HasTarget d = target_fits d.decision_type d.target_instance_id ≡ true

decide_reply-HasTarget : (e : Event) → HasTarget (decide_reply e)
unfolding decide_reply
decide_reply-HasTarget e = ground arith

decide_talk-HasTarget : (e : Event) → HasTarget (decide_talk e)
unfolding decide_talk
decide_talk-HasTarget e = ground arith

decide_command-HasTarget : (e : Event) (m : Option CommandMatch) → HasTarget (decide_command e m)
unfolding decide_command
decide_command-HasTarget e none = decide_talk-HasTarget e
decide_command-HasTarget e (some m) = ground (arith, decide_talk-HasTarget e)

-- A decision to talk is for the talk bot, a command is for some bot, and a decision to observe or to ignore
-- is for none.
pub decide_event-HasTarget : (e : Event) → HasTarget (decide_event e)
unfolding decide_event
decide_event-HasTarget e =
    ground (arith, decide_reply-HasTarget e, decide_command-HasTarget e (command_of e))

-- the modes in which a group hears each type of decision
abbrev pub mode_fits : ConversationMode → DecisionType → Bool
mode_fits mode talk = is_talk_enabled mode
mode_fits mode command = is_command_enabled mode
mode_fits mode _ = true

abbrev pub FitsMode : Event → Decision → Type 0
FitsMode e d = mode_fits e.conversation_mode d.decision_type ≡ true

decide_reply-FitsMode : (e : Event) → FitsMode e (decide_reply e)
unfolding decide_reply
decide_reply-FitsMode e = ground arith

decide_talk-FitsMode : (e : Event) → e.conversation_type ≡ group → FitsMode e (decide_talk e)
unfolding decide_talk
decide_talk-FitsMode e g = ground arith

decide_command-FitsMode :
    (e : Event) (m : Option CommandMatch)
    → e.conversation_type ≡ group
    → FitsMode e (decide_command e m)
unfolding decide_command
decide_command-FitsMode e none g = decide_talk-FitsMode e g
decide_command-FitsMode e (some m) g = ground (arith, decide_talk-FitsMode e g)

-- In a group, talk is decided only in a mode that has talk enabled, and a command only in one that has
-- commands enabled.
pub decide_event-FitsMode : (e : Event) → e.conversation_type ≡ group → FitsMode e (decide_event e)
unfolding decide_event
decide_event-FitsMode e g =
    ground (arith, decide_reply-FitsMode e, decide_command-FitsMode e (command_of e) g)
