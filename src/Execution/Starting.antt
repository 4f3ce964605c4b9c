-- ===== src/Execution/Starting.antt =====
-- What an accepted start leaves in the database, and that a lease can be started.
use superlily.Rollout.{is_canary}
use superlily.Authority.Ledger.{invocation_id}
use superlily.Authority.Ledger.Stable.{find_own}
use superlily.Authority.Rows.{ToolProvider}
use superlily.Execution.Lease.{Draw, LeaseSettings, ToolLeaseOut, RegistryView, lease_candidates}
use superlily.Execution.Lease.Grant.{
  clashes, active_provider, lease_tool_execution, policy_snapshot, is_lease,
}
use superlily.CanonicalJson.{Json}
use superlily.Execution.Leasing.{Leases, lease-Leases, granted, answer, proof_of}
use superlily.Execution.Lease.Candidates.{allows}
use superlily.Execution.Lease.Oldest.{first_allowed}
use superlily.Base.{
  subst, ℕ, ◌+◌, ◌*◌, ◌≤◌, ◌≡◌, refl, true, false, none, some, String, arith, ◌==◌,
}
use superlily.Base.Table.{find-replace_self, key-find}
use superlily.Invocation.{InvocationState, InvocationTransitionEvent, is_legal}
use superlily.Authority.Rows.{ToolInvocation, ToolAttempt, AttemptState, AttemptEvent, Database}
use superlily.Authority.Session.{Result, ok, ◌>>=◌, pure, modify, commit, run}
use superlily.Authority.Session.Steps.{bind-ok, opened}
use superlily.Authority.Ledger.{find_invocation, advance, store_transition}
use superlily.Authority.Ledger.Append.{appended, find-appended, append-legal}
use superlily.Execution.Proof.{
  External, ToolExecutionProof, attempt_id, find_attempt, store_attempt, stamp_attempt,
  attempt_event, append_attempt_event, checks,
}
use superlily.Execution.Lifecycle.{is_leased, invocation_leased, start_tool_execution}
use superlily.Execution.Gate.{first_refusal, locked-passed}
use superlily.Execution.Settle.{allowed_state}

-- The request returns the attempt, and the database then holds it and its invocation, both running.
pub record Starts (r : Result ToolAttempt × Database) (attempt id : String) : Type 0 where
  pub result : ToolAttempt
  pub row : ToolInvocation
  pub returned : r.0 ≡ ok result
  pub stored : find_attempt attempt r.1 ≡ some result
  pub moved : find_invocation id r.1 ≡ some row
  pub result_state : result.state ≡ AttemptState.running
  pub row_state : row.state ≡ InvocationState.running

module _ (x : External) (proof : ToolExecutionProof) (provider_id : String) (now : ℕ)
    (db : Database) (a : ToolAttempt) (i : ToolInvocation)
    (attempt_found : find_attempt proof.attempt_id db ≡ some a)
    (bound : (a.invocation_id == i.id) ≡ true) (found : find_invocation i.id db ≡ some i)
    (passed : first_refusal (checks x a i proof provider_id is_leased invocation_leased now)
      ≡ none) where
  abbrev started : ToolAttempt
  started = record a {
    state = AttemptState.running;
    started_at = some now;
    last_heartbeat_at = some now;
  }

  abbrev stamped : ToolAttempt
  stamped = stamp_attempt started now

  legal : is_legal InvocationTransitionEvent.start (some i.state) InvocationState.running ≡ true
  unfolding is_legal
  legal =
      ground (arith, allowed_state x a i proof provider_id is_leased invocation_leased now passed)

  abbrev running_db : Database
  running_db =
      appended i InvocationTransitionEvent.start InvocationState.running "provider" provider_id
        "provider_started" none (opened now db) found

  abbrev final : Database
  final =
      store_attempt stamped
        (attempt_event started AttemptEvent.start true provider_id a.fencing_token
          "provider_started" now)
        running_db

  stored-started : find_attempt proof.attempt_id final ≡ some stamped
  unfolding find_attempt store_attempt store_transition stamp_attempt
  stored-started =
      find-replace_self attempt_id proof.attempt_id stamped db.attempts a
        (key-find attempt_id proof.attempt_id db.attempts a attempt_found) attempt_found

  moved-started :
      find_invocation i.id final
      ≡ some (advance i InvocationState.running "provider_started" none now)
  unfolding find_invocation store_attempt
  moved-started =
      find-appended i InvocationTransitionEvent.start InvocationState.running "provider" provider_id
        "provider_started" none (opened now db) found

  start-ok :
      start_tool_execution x i.id proof provider_id (opened now db)
      ≡ (ok stamped, record { committed = final; working = final; now = now })
  unfolding start_tool_execution
  start-ok =
      rw
        (bind-ok _ _ (opened now db) (opened now db) (a, i, now)
          (locked-passed x proof provider_id is_leased invocation_leased a i (opened now db)
            attempt_found bound found passed))
        (rw
          (bind-ok _ _ (opened now db) (record (opened now db) { working = running_db }) _
            (append-legal i InvocationTransitionEvent.start InvocationState.running "provider"
              provider_id "provider_started" none (opened now db) found legal))
          (unfold append_attempt_event in
            unfold ◌>>=◌ in unfold modify in unfold pure in unfold commit in refl))

  pub start-Starts :
      Starts (run now (start_tool_execution x i.id proof provider_id) db) proof.attempt_id i.id
  unfolding run stamp_attempt advance
  start-Starts = rw start-ok (record {
    result = stamped;
    row = advance i InvocationState.running "provider_started" none now;
    returned = refl;
    stored = stored-started;
    moved = moved-started;
    result_state = refl;
    row_state = refl;
  })

-- On a pull by an active provider, where execution is on, some candidate passes the guards, its policy has the two
-- snapshots, the new attempt meets no unique constraint and the answer keeps the contract of a lease: the request answers with a lease, and a start with the proof of this lease, before
-- the deadline and the end of the lease, brings the attempt and the invocation to running.
pub lease-start :
    (x : External) (registry : Database → String → RegistryView) (draw : Draw)
    (settings : LeaseSettings) (provider : ToolProvider) (provider_id inventory_hash : String)
    (now later : ℕ) (db : Database) (i : ToolInvocation) (h : String) (budget permissions : Json)
    → is_canary settings.tool_execution_mode ≡ true
    → settings.global_stop ≡ false
    → active_provider provider_id db ≡ some provider
    → first_allowed
        (allows x registry draw settings provider inventory_hash now db)
        (lease_candidates provider.id now db)
      ≡ some (i, h)
    → find_invocation i.id db ≡ some i
    → clashes
        (granted x draw i provider.id inventory_hash h settings.tool_lease_seconds now db)
        db.attempts
      ≡ false
    → policy_snapshot x i.policy.resource_budget ≡ some budget
    → policy_snapshot x i.policy.execution_permissions ≡ some permissions
    → is_lease x (
        answer x draw i provider.id inventory_hash h settings.tool_lease_seconds now db budget
          permissions)
      ≡ true
    → later ≤ i.deadline_at
    → later ≤ now + settings.tool_lease_seconds * 1000000
    → (let (r, leased_db) =
          run now (lease_tool_execution x registry draw settings inventory_hash provider_id) db in
        (out : ToolLeaseOut) × (r ≡ ok (some out))
        × Starts
            (run later (start_tool_execution x i.id (proof_of out) provider.id) leased_db)
            out.attempt_id
            i.id)
lease-start x registry draw settings provider provider_id inventory_hash now later db i h budget
      permissions enabled running active first found free has_budget has_permissions contract
      in_time in_lease =
    let l : Leases
        (run now (lease_tool_execution x registry draw settings inventory_hash provider_id) db) x
        i.id provider.id db.attempts later =
      (lease-Leases x registry draw settings provider provider_id inventory_hash now later db i h
        budget permissions enabled running active first found free has_budget has_permissions
        contract in_time in_lease).0 in
    let leased_db : Database =
      (run now (lease_tool_execution x registry draw settings inventory_hash provider_id) db).1 in
    let own : l.row.id ≡ i.id =
      key-find invocation_id i.id leased_db.invocations l.row (unfold find_invocation in l.moved) in
    (
      l.out,
      l.returned,
      subst
          (λ k.
            Starts (run later (start_tool_execution x k (proof_of l.out) provider.id) leased_db)
              l.out.attempt_id k)
          own
          (start-Starts x (proof_of l.out) provider.id later leased_db l.attempt l.row l.stored
            l.bound (find_own i.id leased_db l.row l.moved) l.accepted),
    )
