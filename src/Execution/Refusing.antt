-- ===== src/Execution/Refusing.antt =====
-- A lease whose answer breaks the contract of ToolLeaseOut.
use superlily.Rollout.{is_canary}
use superlily.Base.{ℕ, ◌≡◌, refl, true, false, none, some, Option, String, ◌∷◌}
use superlily.Invocation.{InvocationState, InvocationTransitionEvent, is_legal}
use superlily.Authority.Rows.{ToolInvocation, ToolProvider, Database}
use superlily.Authority.Session.{
  Result, Session, runtime_error, raised, ◌>>=◌, query, modify, database_now, run, require,
}
use superlily.Authority.Session.Steps.{opened}
use superlily.Authority.Ledger.{find_invocation}
use superlily.Authority.Ledger.Append.{append-legal}
use superlily.CanonicalJson.{Json}
use superlily.Execution.Proof.{External}
use superlily.Execution.Lease.{ToolLeaseOut, Draw, LeaseSettings, RegistryView, lease_candidates}
use superlily.Execution.Lease.Grant.{
  clashes, insert_attempt, lease_event, record_lease, policy_snapshot, is_lease, issue_lease,
  grant_lease, active_provider, pull_lease, lease_tool_execution,
}
use superlily.Execution.Lease.Oldest.{first_allowed}
use superlily.Execution.Lease.Candidates.{allows, first-found, candidate-queued, candidate-legal}
use superlily.Execution.Leasing.{granted, answer, grant-free}

module _ (x : External) (draw : Draw) (i : ToolInvocation)
    (provider_id inventory_hash implementation_hash : String) (seconds now : ℕ) (db : Database)
    (budget permissions : Json) where
  abbrev attempted : Session
  attempted =
      let a = granted x draw i provider_id inventory_hash implementation_hash seconds now db in
      record {
        committed = db;
        working = record db {
          attempts = a ∷ db.attempts;
          attempt_events = lease_event a now ∷ db.attempt_events;
        };
        now = now;
      }

  kept-attempted :
      find_invocation i.id db ≡ some i → find_invocation i.id attempted.working ≡ some i
  unfolding find_invocation
  kept-attempted found = found

  grant-refused :
      policy_snapshot x i.policy.resource_budget ≡ some budget
      → policy_snapshot x i.policy.execution_permissions ≡ some permissions
      → clashes
          (granted x draw i provider_id inventory_hash implementation_hash seconds now db)
          db.attempts
        ≡ false
      → is_lease x (
          answer x draw i provider_id inventory_hash implementation_hash seconds now db budget
            permissions)
        ≡ false
      → find_invocation i.id db ≡ some i
      → is_legal InvocationTransitionEvent.lease (some i.state) InvocationState.leased ≡ true
      → ◌≡◌ {A = Result (Option ToolLeaseOut) × Database}
          (let (r, s) =
              grant_lease x draw i provider_id inventory_hash implementation_hash seconds now
                (opened now db) in
            (r, s.committed))
          (raised runtime_error, db)
  unfolding issue_lease record_lease ◌>>=◌ modify insert_attempt require
  grant-refused has_budget has_permissions free broken found legal =
      rw
        (grant-free x draw i provider_id inventory_hash implementation_hash seconds now db budget
          permissions has_budget has_permissions free)
        (rw
          (append-legal i InvocationTransitionEvent.lease InvocationState.leased "provider"
            (granted x draw i provider_id inventory_hash implementation_hash seconds now
              db).provider_id
            "lease_issued" none attempted (kept-attempted found) legal)
          (rw (broken, require) refl))

-- On a pull by an active provider, where execution is on, some candidate passes the guards, its policy has the two
-- snapshots and the new attempt meets no unique constraint, but the answer breaks the contract of a lease: the
-- request raises and the database stays as it was, without the attempt, its event and the transition.
pub lease-refused :
    (x : External) (registry : Database → String → RegistryView) (draw : Draw)
    (settings : LeaseSettings) (provider : ToolProvider) (provider_id inventory_hash : String)
    (now : ℕ) (db : Database) (i : ToolInvocation) (h : String) (budget permissions : Json)
    → is_canary settings.tool_execution_mode ≡ true
    → settings.global_stop ≡ false
    → active_provider provider_id db ≡ some provider
    → first_allowed
        (allows x registry draw settings provider inventory_hash now db)
        (lease_candidates provider.id now db)
      ≡ some (i, h)
    → find_invocation i.id db ≡ some i
    → clashes
        (granted x draw i provider.id inventory_hash h settings.tool_lease_seconds now db)
        db.attempts
      ≡ false
    → policy_snapshot x i.policy.resource_budget ≡ some budget
    → policy_snapshot x i.policy.execution_permissions ≡ some permissions
    → is_lease x (
        answer x draw i provider.id inventory_hash h settings.tool_lease_seconds now db budget
          permissions)
      ≡ false
    → run now (lease_tool_execution x registry draw settings inventory_hash provider_id) db
      ≡ (raised runtime_error, db)
unfolding run lease_tool_execution pull_lease ◌>>=◌ query database_now
lease-refused x registry draw settings provider provider_id inventory_hash now db i h budget
      permissions enabled running active first found free has_budget has_permissions broken =
    rw (enabled, running, active, pull_lease)
      (rw
        (first-found x registry draw settings provider inventory_hash now
          (lease_candidates provider.id now db) (opened now db) i h first)
        (grant-refused x draw i provider.id inventory_hash h settings.tool_lease_seconds now db
          budget permissions has_budget has_permissions free broken found
          (candidate-legal provider.id now i (candidate-queued _ provider.id now db i h first))))
