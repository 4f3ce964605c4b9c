-- ===== src/Confirmation/Rulings.antt =====
-- The ruling on a confirmation, by its expiry, the decision, the authority and the quota.
use superlily.Base.{ℕ, ◌∙◌, ◌≡◌, refl, Bool, true, false, Option, none, some, String, if◌then◌else◌}
use superlily.Base.Table.{find}
use superlily.Invocation.{
  InvocationState, InvocationTransitionEvent, is_legal, queued, confirmation_expire, confirm,
}
use superlily.Authority.Rows.{
  ToolInvocation, ToolConfirmation, ConfirmationState, ConfirmationEvent, Database,
}
use superlily.Authority.Session.{Result, ok, raised, Session, Tx, ◌>>=◌}
use superlily.Authority.Session.Steps.{bind-ok}
use superlily.Authority.Ledger.{find_invocation, advance, append_invocation_transition}
use superlily.Cancellation.{
  InvocationIdentity, caller_name, is_pending, by_id, transition_confirmation,
}
use superlily.Confirmation.{
  ToolInvocationConfirmIn, is_awaiting, event_of_refusal, state_of_refusal,
}
use superlily.Confirmation.Decides.{Decides, transition-pending, final, final-Decides, moved-on}

-- where a decision ends, and whether the request is answered or raises
pub record Ruling : Type 0 where
  pub state : InvocationState
  pub confirmation : ConfirmationState
  pub accepted : Bool

abbrev pub is_ok : {A : Type 0} → Result A → Bool
is_ok (ok a) = true
is_ok (raised e) = false

pub record Rules {A : Type 0} (r : Result A) (db : Database) (id confirmation_id : String)
    (g : Ruling) : Type 0 where
  pub decides : Decides db id confirmation_id g.state g.confirmation
  pub answer : is_ok r ≡ g.accepted

abbrev pub refused : Ruling
refused = record {
  state = InvocationState.rejected;
  confirmation = ConfirmationState.rejected;
  accepted = false;
}

-- a decision on the confirmation and the transition of its invocation
pub record Act : Type 0 where
  pub event : ConfirmationEvent
  pub state : ConfirmationState
  pub actor_id : String
  pub actor_type : String
  pub key : String
  pub request_hash : String
  pub reason : String
  pub at : ℕ
  pub move : InvocationTransitionEvent
  pub target : InvocationState
  pub mover_type : String
  pub mover_id : String
  pub reason_code : String
  pub deadline : Option ℕ

abbrev pub perform :
    {A : Type 0} → Act → ToolInvocation → ToolConfirmation → (ToolInvocation → Tx A) → Tx A
perform a i c next =
    transition_confirmation c a.event a.state a.actor_type a.actor_id a.key a.request_hash a.reason
      a.at
    >>= λ _.
        append_invocation_transition i.id a.move a.target a.mover_type a.mover_id a.reason_code
          a.deadline false
        >>= next

abbrev pub refusing : InvocationIdentity → String → String → String → ℕ → Bool → Act
refusing who key request_hash reason_code t expired = record {
  event = event_of_refusal expired;
  state = state_of_refusal expired;
  actor_type = caller_name who.caller;
  actor_id = who.subject;
  key = key;
  request_hash = request_hash;
  reason = if expired then "确认挑战已经过期" else "确认时执行权限已失效";
  at = t;
  move = if expired then confirmation_expire else InvocationTransitionEvent.reject;
  target = if expired then InvocationState.expired else InvocationState.rejected;
  mover_type = "system";
  mover_id = "tool-confirmation-policy-v1";
  reason_code = reason_code;
  deadline = none;
}

abbrev pub rejecting : ToolInvocationConfirmIn → InvocationIdentity → String → String → ℕ → Act
rejecting payload who key request_hash t = record {
  event = ConfirmationEvent.reject;
  state = ConfirmationState.rejected;
  actor_type = caller_name who.caller;
  actor_id = who.subject;
  key = key;
  request_hash = request_hash;
  reason = payload.reason;
  at = t;
  move = InvocationTransitionEvent.reject;
  target = InvocationState.rejected;
  mover_type = caller_name who.caller;
  mover_id = who.subject;
  reason_code = "confirmation_rejected";
  deadline = none;
}

abbrev pub approving : ToolInvocationConfirmIn → InvocationIdentity → String → String → ℕ → ℕ → Act
approving payload who key request_hash t deadline = record {
  event = ConfirmationEvent.approve;
  state = ConfirmationState.consumed;
  actor_type = caller_name who.caller;
  actor_id = who.subject;
  key = key;
  request_hash = request_hash;
  reason = payload.reason;
  at = t;
  move = confirm;
  target = queued;
  mover_type = caller_name who.caller;
  mover_id = who.subject;
  reason_code = "confirmation_approved";
  deadline = some deadline;
}

module _ (i : ToolInvocation) (c : ToolConfirmation) (s : Session)
    (found : find_invocation i.id s.working ≡ some i)
    (known : find by_id c.id s.working.confirmations ≡ some c) (awaits : is_awaiting i.state ≡ true)
    (waits : is_pending c.state ≡ true) where
  module _ (a : Act) (legal : is_legal a.move (some i.state) a.target ≡ true) where
    abbrev pub done : Database
    done =
        final i c s found known awaits waits a.event a.state a.actor_type a.actor_id a.key
          a.request_hash a.reason a.at a.move a.target a.mover_type a.mover_id a.reason_code
          a.deadline legal

    abbrev pub done_row : ToolInvocation
    done_row = advance i a.target a.reason_code a.deadline s.now

    pub perform-ok :
        {A : Type 0} (next : ToolInvocation → Tx A)
        → perform a i c next s ≡ next done_row (record s { working = done })
    perform-ok next =
        bind-ok _ _ s _ tt (
          transition-pending i c s found known awaits waits a.event a.state a.actor_type a.actor_id
            a.key a.request_hash a.reason a.at)
        ∙ bind-ok _ next _ _ done_row (
            moved-on i c s found known awaits waits a.event a.state a.actor_type a.actor_id a.key
              a.request_hash a.reason a.at a.move a.target a.mover_type a.mover_id a.reason_code
              a.deadline legal)

    pub done-Decides : Decides done i.id c.id a.target a.state
    done-Decides =
        final-Decides i c s found known awaits waits a.event a.state a.actor_type a.actor_id a.key
          a.request_hash a.reason a.at a.move a.target a.mover_type a.mover_id a.reason_code
          a.deadline legal

    -- a decision that is committed and answered
    pub answers :
        {A : Type 0} (next : ToolInvocation → Tx A) (r : Result A)
        → next done_row (record s { working = done })
          ≡ (r, record s { committed = done; working = done })
        → (let (q, t) = perform a i c next s in
            Rules q t.committed i.id c.id
              (record { state = a.target; confirmation = a.state; accepted = is_ok r }))
    answers next r e = rw (perform-ok next, e) (record { decides = done-Decides; answer = refl })
