-- ===== src/Confirmation/Decides.antt =====
-- Where a decision leaves the confirmation and its invocation.
use superlily.Base.{ℕ, ◌≡◌, refl, true, false, ◌&&◌, Option, some, String, arith, eqb}
use superlily.Base.Table.{find, find-replace_self}
use superlily.Invocation.{InvocationState, InvocationTransitionEvent, is_legal}
use superlily.Authority.Rows.{
  ToolInvocation, ToolConfirmation, ConfirmationState, ConfirmationEvent, Database,
}
use superlily.Authority.Session.{ok, Session, ◌>>=◌, query, modify, require}
use superlily.Authority.Ledger.{
  find_invocation, advance, store_transition, append_invocation_transition,
}
use superlily.Authority.Ledger.Append.{appended, find-appended, append-legal}
use superlily.Cancellation.{
  is_pending, by_id, decided, confirmation_event, store_confirmation, reaches_pending,
  transition_confirmation,
}
use superlily.Confirmation.{is_awaiting}

-- The request left the invocation and the confirmation in these states.
pub record Decides (db : Database) (id confirmation_id : String) (state : InvocationState)
    (decision : ConfirmationState) : Type 0 where
  pub row : ToolInvocation
  pub confirmation : ToolConfirmation
  pub moved : find_invocation id db ≡ some row
  pub row_state : row.state ≡ state
  pub stored : find by_id confirmation_id db.confirmations ≡ some confirmation
  pub confirmation_state : confirmation.state ≡ decision

module _ (i : ToolInvocation) (c : ToolConfirmation) (s : Session)
    (found : find_invocation i.id s.working ≡ some i)
    (known : find by_id c.id s.working.confirmations ≡ some c) (awaits : is_awaiting i.state ≡ true)
    (waits : is_pending c.state ≡ true) (event : ConfirmationEvent) (state : ConfirmationState)
    (actor_type actor_id key request_hash reason : String) (at : ℕ) where
  abbrev pub decided_session : Session
  decided_session = record s {
    working =
        store_confirmation (decided c state at)
          (confirmation_event c event state actor_type actor_id key request_hash reason at)
          s.working;
  }

  pub transition-pending :
      transition_confirmation c event state actor_type actor_id key request_hash reason at s
      ≡ (ok tt, decided_session)
  unfolding transition_confirmation reaches_pending ◌>>=◌ query require modify
  transition-pending = rw (waits, require) (rw (known, reaches_pending) (rw (own, require) refl))
    where
      own : (is_pending c.state && eqb c.resource_version c.resource_version) ≡ true
      own = ground (arith, waits)

  pub still : find_invocation i.id decided_session.working ≡ some i
  unfolding store_confirmation find_invocation
  still = found

  module _ (ievent : InvocationTransitionEvent) (istate : InvocationState)
      (iactor iactor_id ireason : String) (deadline : Option ℕ)
      (legal : is_legal ievent (some i.state) istate ≡ true) where
    abbrev pub final : Database
    final = appended i ievent istate iactor iactor_id ireason deadline decided_session still

    pub final-Decides : Decides final i.id c.id istate state
    unfolding store_transition store_confirmation advance decided
    final-Decides = record {
      row = advance i istate ireason deadline s.now;
      confirmation = decided c state at;
      moved = find-appended i ievent istate iactor iactor_id ireason deadline decided_session still;
      row_state = refl;
      stored =
          find-replace_self by_id c.id (decided c state at) s.working.confirmations c refl known;
      confirmation_state = refl;
    }

    pub moved-on :
        append_invocation_transition i.id ievent istate iactor iactor_id ireason deadline false
          decided_session
        ≡ (ok (advance i istate ireason deadline s.now), record s { working = final })
    moved-on =
        append-legal i ievent istate iactor iactor_id ireason deadline decided_session still legal
