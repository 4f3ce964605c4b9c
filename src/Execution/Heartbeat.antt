-- ===== src/Execution/Heartbeat.antt =====
-- What an accepted heartbeat leaves in the database.
use superlily.Authority.Session.Steps.{bind-ok, opened}
use superlily.Base.{
  ℕ, ◌+◌, ◌*◌, ◌≤◌, min, ◌≡◌, refl, ap, Bool, true, false, ◌&&◌, ◌||◌, none, some, String, arith,
  is_some, ◌==◌, Bool-cases, inl, inr, if◌then◌else◌,
}
use superlily.Base.Table.{find-replace_self, key-find}
use superlily.Invocation.{is_legal, cancel_requested, request_cancel, running}
use superlily.Authority.Rows.{ToolInvocation, ToolAttempt, ToolUsage, AttemptEvent, Database}
use superlily.Authority.Session.{Result, Tx, ok, ◌>>=◌, ◌>>◌, modify, pure, commit, run}
use superlily.Authority.Ledger.{find_invocation, store_transition, same_state, advance}
use superlily.Authority.Ledger.Append.{find-appended, append-legal}
use superlily.Execution.Proof.{
  External, ToolExecutionProof, attempt_id, find_attempt, store_attempt, stamp_attempt,
  attempt_event, append_attempt_event, checks,
}
use superlily.Execution.Lifecycle.{
  is_running, running_or_cancelling, lease_until, live_violation, request_budget_cancel,
  heartbeat_tool_execution,
}
use superlily.Execution.Gate.{first_refusal, locked-passed}
use superlily.Execution.Settle.{allowed_state}

-- The request returns the attempt and whether to stop, and the database then holds that attempt, beaten now, with
-- its deadline, a lease that ends at the deadline or at `last`, whichever is first, the reported usage, and the invocation, which is to be cancelled exactly if `stop`.
pub record Beats (r : Result (ToolAttempt × Bool) × Database) (attempt id : String)
    (usage : ToolUsage) (deadline last now : ℕ) (stop : Bool) : Type 0 where
  pub row : ToolInvocation
  pub result : ToolAttempt
  pub returned : r.0 ≡ ok (result, stop)
  pub stored : find_attempt attempt r.1 ≡ some result
  pub moved : find_invocation id r.1 ≡ some row
  pub reported : result.usage ≡ usage
  pub deadline_kept : result.deadline_at ≡ deadline
  pub extended : result.lease_expires_at ≡ min deadline last
  pub beaten_at : result.last_heartbeat_at ≡ some now
  pub within_deadline : result.lease_expires_at ≤ result.deadline_at
  pub within_lease : result.lease_expires_at ≤ last
  pub stops : same_state row.state cancel_requested ≡ stop

module _ (a : ToolAttempt) (attempt : String) (usage : ToolUsage) (lease_seconds now : ℕ) where
  abbrev beaten : ToolAttempt
  beaten = record a {
    usage = usage;
    last_heartbeat_at = some now;
    lease_expires_at = lease_until a.deadline_at now lease_seconds;
  }

  find-beaten :
      (db : Database) (provider_id reason : String)
      → find_attempt attempt db ≡ some a
      → find_attempt attempt (
          store_attempt
            (stamp_attempt beaten now)
            (attempt_event beaten AttemptEvent.heartbeat true provider_id a.fencing_token reason
              now)
            db)
        ≡ some (stamp_attempt beaten now)
  unfolding store_attempt find_attempt stamp_attempt
  find-beaten db provider_id reason h =
      find-replace_self attempt_id attempt (stamp_attempt beaten now) db.attempts a
        (key-find attempt_id attempt db.attempts a h) h

  lease-bounds :
      ((stamp_attempt beaten now).lease_expires_at ≤ (stamp_attempt beaten now).deadline_at)
      × ((stamp_attempt beaten now).lease_expires_at ≤ now + lease_seconds * 1000000)
  unfolding stamp_attempt lease_until
  lease-bounds = (omega arith, omega arith)

module _ (i : ToolInvocation) (known : running_or_cancelling i.state ≡ true) (over : Bool) where
  cancels :
      (over && same_state i.state running) ≡ true
      → (is_legal request_cancel (some i.state) cancel_requested ≡ true)
        × ((over || same_state i.state cancel_requested) ≡ true)
  unfolding is_legal
  cancels h = ground (arith, known, h)

  carries_on :
      (over && same_state i.state running) ≡ false
      → same_state i.state cancel_requested ≡ (over || same_state i.state cancel_requested)
  carries_on h = ground (arith, known, h)

-- the part of a heartbeat behind the proof check
abbrev beat : ℕ → ToolUsage → String → ToolAttempt → ToolInvocation → ℕ → Tx (ToolAttempt × Bool)
beat lease_seconds usage provider_id a i now = do
  let violation = live_violation i.descriptor usage
  current ← request_budget_cancel i violation
  updated ←
      append_attempt_event
        (record a {
          usage = usage;
          last_heartbeat_at = some now;
          lease_expires_at = lease_until a.deadline_at now lease_seconds;
        })
        AttemptEvent.heartbeat true provider_id a.fencing_token
        (if is_some violation then "budget_exceeded" else "heartbeat_accepted") now
  commit
  pure (updated, same_state current.state cancel_requested)

beat-Beats :
    (lease_seconds : ℕ) (usage : ToolUsage) (provider_id attempt : String) (now : ℕ) (db : Database)
    (a : ToolAttempt) (i : ToolInvocation)
    → find_attempt attempt db ≡ some a
    → find_invocation i.id db ≡ some i
    → running_or_cancelling i.state ≡ true
    → Beats
        (let (r, s) = beat lease_seconds usage provider_id a i now (opened now db) in
          (r, s.committed))
        attempt
        i.id
        usage
        a.deadline_at
        (now + lease_seconds * 1000000)
        now
        (is_some (live_violation i.descriptor usage) || same_state i.state cancel_requested)
unfolding request_budget_cancel ◌>>=◌ append_attempt_event modify commit pure advance store_attempt
    find_invocation find_attempt store_transition
beat-Beats lease_seconds usage provider_id attempt now db a i attempt_found found known =
    let over : Bool = is_some (live_violation i.descriptor usage) in
    let (in_deadline, in_lease) = lease-bounds a attempt usage lease_seconds now in
    elim (Bool-cases (over && same_state i.state running)) [
      | inl asks ↦
          let (legal, stop) = cancels i known over asks in
          rw (asks, request_budget_cancel, stop)
            (rw
              (append-legal i request_cancel cancel_requested "system" "tool-budget-v1"
                "budget_exceeded" none (opened now db) found legal)
              (record {
                row = advance i cancel_requested "budget_exceeded" none now;
                result = stamp_attempt (beaten a attempt usage lease_seconds now) now;
                returned = refl;
                stored =
                    find-beaten a attempt usage lease_seconds now db provider_id "" attempt_found;
                moved =
                    find-appended i request_cancel cancel_requested "system" "tool-budget-v1"
                      "budget_exceeded" none (opened now db) found;
                reported = refl;
                deadline_kept = refl;
                extended = unfold lease_until in refl;
                beaten_at = refl;
                within_deadline = in_deadline;
                within_lease = in_lease;
                stops = refl;
              }))
      | inr keeps ↦
          rw (keeps, request_budget_cancel)
            (record {
              row = i;
              result = stamp_attempt (beaten a attempt usage lease_seconds now) now;
              returned =
                  ap
                    (λ stop.
                      ok (stamp_attempt (beaten a attempt usage lease_seconds now) now, stop))
                    (carries_on i known over keeps);
              stored =
                  find-beaten a attempt usage lease_seconds now db provider_id "" attempt_found;
              moved = found;
              reported = refl;
              deadline_kept = refl;
              extended = unfold lease_until in refl;
              beaten_at = refl;
              within_deadline = in_deadline;
              within_lease = in_lease;
              stops = carries_on i known over keeps;
            })
    ]

-- A heartbeat of a running attempt of a stored invocation that passes the proof check stores the reported
-- usage and sets the end of the lease to the configured seconds from now, or to the unchanged deadline where
-- that is earlier; it tells
-- the provider to stop exactly if the usage is over a live limit or cancellation was requested, and the
-- invocation is then in the state of a requested cancellation.
pub heartbeat-Beats :
    (x : External) (lease_seconds : ℕ) (proof : ToolExecutionProof) (usage : ToolUsage)
    (provider_id : String) (now : ℕ) (db : Database) (a : ToolAttempt) (i : ToolInvocation)
    → find_attempt proof.attempt_id db ≡ some a
    → (a.invocation_id == i.id) ≡ true
    → find_invocation i.id db ≡ some i
    → first_refusal (checks x a i proof provider_id is_running running_or_cancelling now) ≡ none
    → Beats
        (run now (heartbeat_tool_execution x lease_seconds i.id proof usage provider_id) db)
        proof.attempt_id
        i.id
        usage
        a.deadline_at
        (now + lease_seconds * 1000000)
        now
        (is_some (live_violation i.descriptor usage) || same_state i.state cancel_requested)
unfolding heartbeat_tool_execution run
heartbeat-Beats x lease_seconds proof usage provider_id now db a i attempt_found bound found
      passed =
    rw
      (bind-ok _ _ (opened now db) (opened now db) (a, i, now)
        (locked-passed x proof provider_id is_running running_or_cancelling a i (opened now db)
          attempt_found bound found passed))
      (beat-Beats lease_seconds usage provider_id proof.attempt_id now db a i attempt_found found
        (allowed_state x a i proof provider_id is_running running_or_cancelling now passed))
