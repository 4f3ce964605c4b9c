-- ===== src/Execution/Accept.antt =====
-- What an accepted `fail` or `complete` leaves in the database.
use superlily.Base.{◌≡◌, true, none, some, String}
use superlily.Base.Table.{find-replace_self, key-find}
use superlily.Invocation.{is_legal}
use superlily.Authority.Rows.{ToolInvocation, ToolAttempt, ToolUsage, Database}
use superlily.Authority.Session.{ok, Session, ◌>>=◌, pure, modify, commit}
use superlily.Authority.Ledger.{find_invocation, advance, store_transition}
use superlily.Authority.Ledger.Append.{appended, find-appended, append-legal}
use superlily.Execution.Proof.{
  attempt_id, find_attempt, store_attempt, stamp_attempt, attempt_event, append_attempt_event,
}
use superlily.Execution.Lifecycle.{Finish, finished, finish_attempt}

module _ (a : ToolAttempt) (i : ToolInvocation) (provider_id provider_result_id : String)
    (usage : ToolUsage) (f : Finish) (s : Session) where
  -- the attempt and the database of an end that is recorded
  abbrev pub ended_attempt : ToolAttempt
  ended_attempt = stamp_attempt (finished a provider_result_id usage f s.now) s.now

  abbrev pub ended_invocation : ToolInvocation
  ended_invocation = advance i f.invocation_state f.reason_code none s.now

  module _ (found : find_invocation i.id s.working ≡ some i)
      (legal : is_legal f.invocation_event (some i.state) f.invocation_state ≡ true) where
    abbrev pub ended : Database
    ended =
        store_attempt ended_attempt
          (attempt_event (finished a provider_result_id usage f s.now) f.event true provider_id
            a.fencing_token f.reason_code s.now)
          (appended i f.invocation_event f.invocation_state "provider" provider_id f.reason_code
            none s found)

    pub finish_ok :
        finish_attempt a i provider_id provider_result_id usage s.now f s
        ≡ (ok ended_attempt, record s { committed = ended; working = ended })
    unfolding finish_attempt append_attempt_event ◌>>=◌ modify pure commit
    finish_ok = rw (
        append-legal i f.invocation_event f.invocation_state "provider" provider_id f.reason_code
          none s found legal)

    pub find-ended : find_invocation i.id ended ≡ some ended_invocation
    unfolding store_attempt find_invocation
    find-ended =
        find-appended i f.invocation_event f.invocation_state "provider" provider_id f.reason_code
          none s found

    pub find_attempt-ended :
        (id : String)
        → find_attempt id s.working ≡ some a
        → find_attempt id ended ≡ some ended_attempt
    unfolding store_attempt find_attempt store_transition stamp_attempt finished
    find_attempt-ended id h =
        find-replace_self attempt_id id ended_attempt s.working.attempts a
          (key-find attempt_id id s.working.attempts a h) h
