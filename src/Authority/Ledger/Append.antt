-- ===== src/Authority/Ledger/Append.antt =====
-- What one append does, where it succeeds and where it raises.
use superlily.Base.{ℕ, ◌≡◌, refl, true, false, Option, some, String}
use superlily.Base.Table.{find-replace_self}
use superlily.Invocation.{InvocationState, InvocationTransitionEvent, is_legal}
use superlily.Authority.Rows.{ToolInvocation, Database}
use superlily.Authority.Session.{
  ok, raised, conflict, Session, ◌>>=◌, pure, query, modify, database_now, require, or_raise,
}
use superlily.Authority.Ledger.{
  invocation_id, find_invocation, advance, transition, store_transition,
  append_invocation_transition,
}
use superlily.Authority.Ledger.Stable.{matches_own}

module _ (i : ToolInvocation) (event : InvocationTransitionEvent) (state : InvocationState)
    (actor_type actor_id reason_code : String) (deadline_at : Option ℕ) (s : Session)
    (found : find_invocation i.id s.working ≡ some i) where
  -- the working database behind the append
  abbrev pub appended : Database
  appended =
      store_transition (advance i state reason_code deadline_at s.now)
        (transition i event state actor_type actor_id reason_code s.now) s.working

  pub find-appended :
      find_invocation i.id appended ≡ some (advance i state reason_code deadline_at s.now)
  unfolding find_invocation store_transition advance
  find-appended =
      find-replace_self invocation_id i.id (advance i state reason_code deadline_at s.now)
        s.working.invocations i refl found

  pub append-legal :
      is_legal event (some i.state) state ≡ true
      → append_invocation_transition i.id event state actor_type actor_id reason_code deadline_at
          false s
        ≡ (ok (advance i state reason_code deadline_at s.now), record s { working = appended })
  unfolding append_invocation_transition ◌>>=◌ pure query modify database_now require or_raise
  append-legal legal =
      rw (found, or_raise)
        (rw (legal, require)
          (rw (found, matches_own i, require) (rw (find-appended, or_raise) refl)))

  -- an illegal transition raises a conflict and writes nothing
  pub append-illegal :
      is_legal event (some i.state) state ≡ false
      → append_invocation_transition i.id event state actor_type actor_id reason_code deadline_at
          false s
        ≡ (raised (conflict "illegal invocation transition"), s)
  unfolding append_invocation_transition ◌>>=◌ query require or_raise
  append-illegal illegal = rw (found, or_raise) (rw (illegal, require) refl)
