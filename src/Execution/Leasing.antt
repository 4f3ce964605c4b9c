-- ===== src/Execution/Leasing.antt =====
-- What a lease leaves in the database, and that its answer is a proof which the check lets through.
use superlily.Authority.Session.Steps.{opened}
use superlily.Rollout.{is_canary}
use superlily.Base.{
  ℕ, ◌+◌, ◌*◌, ◌≤◌, ◌<◌, ◌≡◌, refl, true, false, Option, none, some, String, List, [], ◌∷◌, All,
  arith, ◌==◌, eq_iff, Bool-cases, inl, inr, ◌⊎◌,
}
use superlily.Base.Table.{find}
use superlily.Invocation.{InvocationState, InvocationTransitionEvent, is_legal}
use superlily.Authority.Rows.{ToolInvocation, ToolAttempt, ToolProvider, Database}
use superlily.Authority.Session.{
  Result, ok, Session, ◌>>=◌, pure, query, modify, database_now, commit, run, require, or_raise,
}
use superlily.Authority.Ledger.{find_invocation, advance, store_transition}
use superlily.Authority.Ledger.Append.{appended, find-appended, append-legal}
use superlily.Execution.Proof.{
  External, ToolExecutionProof, find_attempt, lease_secret_hash, checks, credential_checks,
  state_checks,
}
use superlily.Execution.Lifecycle.{is_leased, invocation_leased, lease_until}
use superlily.Execution.Lease.{Draw, LeaseSettings, ToolLeaseOut, RegistryView, lease_candidates}
use superlily.Execution.Lease.Grant.{
  max_fence, new_attempt, clashes, insert_attempt, lease_event, lease_out, record_lease,
  policy_snapshot, is_lease, issue_lease, grant_lease, active_provider, pull_lease,
  lease_tool_execution,
}
use superlily.Execution.Gate.{first_refusal}
use superlily.Execution.Lease.Candidates.{
  Waits, candidate-Waits, allows, first-found, candidate-queued, candidate-legal,
}
use superlily.Execution.Lease.Oldest.{first_allowed, IsOldestAllowed, first-IsOldestAllowed}
use superlily.CanonicalJson.{Json}

-- the proof that a provider makes of the answer to its pull
abbrev pub proof_of : ToolLeaseOut → ToolExecutionProof
proof_of out = record {
  attempt_id = out.attempt_id;
  fencing_token = out.fencing_token;
  lease_secret = out.lease_secret;
}

-- no attempt of the invocation has a fence as high
abbrev pub IsAbove : ℕ → String → List ToolAttempt → Type 0
IsAbove fence id = All (λ b. ((b.invocation_id == id) ≡ false) ⊎ (b.fencing_token < fence))

max-IsAbove :
    (id : String) (rows : List ToolAttempt) (fence : ℕ)
    → max_fence id rows < fence
    → IsAbove fence id rows
unfolding max_fence
max-IsAbove id [] fence h = tt
max-IsAbove id (b ∷ rest) fence h = elim (Bool-cases (b.invocation_id == id)) [
  | inl e ↦ (inr (ground (arith, h, e)), max-IsAbove id rest fence (ground (arith, h, e)))
  | inr e ↦ (inl e, max-IsAbove id rest fence (ground (arith, h, e)))
]

-- The request returns a lease, and the database holds its attempt, with a fence over all of `before`, and its
-- invocation, leased. A start with the proof of this answer passes the check at the time `later`.
pub record Leases (r : Result (Option ToolLeaseOut) × Database) (x : External)
    (id provider_id : String) (before : List ToolAttempt) (later : ℕ) : Type 0 where
  pub out : ToolLeaseOut
  pub attempt : ToolAttempt
  pub row : ToolInvocation
  pub returned : r.0 ≡ ok (some out)
  pub stored : find_attempt out.attempt_id r.1 ≡ some attempt
  pub moved : find_invocation id r.1 ≡ some row
  pub bound : (attempt.invocation_id == row.id) ≡ true
  pub row_state : row.state ≡ InvocationState.leased
  pub over : IsAbove attempt.fencing_token id before
  pub accepted :
      first_refusal
        (checks x attempt row (proof_of out) provider_id is_leased invocation_leased later)
      ≡ none

module _ (x : External) (draw : Draw) (i : ToolInvocation)
    (provider_id inventory_hash implementation_hash : String) (seconds now : ℕ)
    (db : Database) where
  abbrev pub granted : ToolAttempt
  granted = new_attempt x draw i provider_id inventory_hash implementation_hash seconds now db

  abbrev pub answer : Json → Json → ToolLeaseOut
  answer budget permissions = lease_out x granted i budget permissions draw

  pub grant-free :
      (budget permissions : Json)
      → policy_snapshot x i.policy.resource_budget ≡ some budget
      → policy_snapshot x i.policy.execution_permissions ≡ some permissions
      → clashes granted db.attempts ≡ false
      → grant_lease x draw i provider_id inventory_hash implementation_hash seconds now
          (opened now db)
        ≡ issue_lease x granted (answer budget permissions) i now (opened now db)
  unfolding grant_lease ◌>>=◌ query or_raise
  grant-free budget permissions has_budget has_permissions free =
      rw (has_budget, has_permissions, free, or_raise) refl

  module _ (later : ℕ) (budget permissions : Json)
      (has_budget : policy_snapshot x i.policy.resource_budget ≡ some budget)
      (has_permissions : policy_snapshot x i.policy.execution_permissions ≡ some permissions)
      (contract : is_lease x (answer budget permissions) ≡ true)
      (free : clashes granted db.attempts ≡ false) (found : find_invocation i.id db ≡ some i)
      (legal : is_legal InvocationTransitionEvent.lease (some i.state) InvocationState.leased
        ≡ true)
      (in_time : later ≤ i.deadline_at) (in_lease : later ≤ now + seconds * 1000000) where
    abbrev recorded : Session
    recorded = record {
      committed = db;
      working = record db {
        attempts = granted ∷ db.attempts;
        attempt_events = lease_event granted now ∷ db.attempt_events;
      };
      now = now;
    }

    kept : find_invocation i.id recorded.working ≡ some i
    unfolding find_invocation
    kept = found

    abbrev leased_row : ToolInvocation
    leased_row = advance i InvocationState.leased "lease_issued" none now

    abbrev final : Database
    final =
        appended i InvocationTransitionEvent.lease InvocationState.leased "provider"
          granted.provider_id "lease_issued" none recorded kept

    issued : issue_lease x granted (answer budget permissions) i now (opened now db) ≡ (
      ok (some (answer budget permissions)),
      record { committed = final; working = final; now = now },
    )
    unfolding issue_lease record_lease ◌>>=◌ modify commit pure insert_attempt require
    issued =
        rw
          (append-legal i InvocationTransitionEvent.lease InvocationState.leased "provider"
            granted.provider_id "lease_issued" none recorded kept legal)
          (rw (contract, require) refl)

    stored-granted : find_attempt draw.new_id final ≡ some granted
    unfolding find_attempt store_transition find new_attempt
    stored-granted = ground (arith, eq_iff draw.new_id draw.new_id)

    moved-leased : find_invocation i.id final ≡ some leased_row
    moved-leased =
        find-appended i InvocationTransitionEvent.lease InvocationState.leased "provider"
          granted.provider_id "lease_issued" none recorded kept

    passes :
        first_refusal (
          checks x granted leased_row
            (proof_of (answer budget permissions))
            provider_id
            is_leased
            invocation_leased
            later)
        ≡ none
    unfolding checks credential_checks state_checks new_attempt lease_out advance lease_until
    passes = ground (
      arith,
      in_time,
      in_lease,
      eq_iff provider_id provider_id,
      eq_iff (lease_secret_hash x draw.secret) (lease_secret_hash x draw.secret),
    )

    bound-granted : (granted.invocation_id == leased_row.id) ≡ true
    unfolding new_attempt advance
    bound-granted = ground (arith, eq_iff i.id i.id)

    over-granted : IsAbove granted.fencing_token i.id db.attempts
    unfolding new_attempt
    over-granted = max-IsAbove i.id db.attempts (max_fence i.id db.attempts + 1) (omega arith)

    pub grant-Leases :
        Leases
          (let (r, s) =
              grant_lease x draw i provider_id inventory_hash implementation_hash seconds now
                (opened now db) in
            (r, s.committed))
          x
          i.id
          provider_id
          db.attempts
          later
    grant-Leases =
        rw (grant-free budget permissions has_budget has_permissions free, issued)
          (record {
            out = answer budget permissions;
            attempt = granted;
            row = leased_row;
            returned = refl;
            stored = unfold lease_out in unfold new_attempt in stored-granted;
            moved = moved-leased;
            bound = bound-granted;
            row_state = unfold advance in refl;
            over = over-granted;
            accepted = passes;
          })

-- On a pull by an active provider, where execution is on: if some candidate passes the guards, its policy has the
-- two snapshots, the new attempt meets no unique constraint and the answer keeps the contract of a lease, then the
-- first such candidate is leased. It was queued, selected for this provider and before its deadline, and no other
-- such row that passes the guards was created before it. Its attempt
-- has a higher fence than every other of the invocation, and until the deadline and the end of the lease a start
-- with the proof that the provider is given passes the check.
pub lease-Leases :
    (x : External) (registry : Database → String → RegistryView) (draw : Draw)
    (settings : LeaseSettings) (provider : ToolProvider) (provider_id inventory_hash : String)
    (now later : ℕ) (db : Database) (i : ToolInvocation) (h : String) (budget permissions : Json)
    → is_canary settings.tool_execution_mode ≡ true
    → settings.global_stop ≡ false
    → active_provider provider_id db ≡ some provider
    → first_allowed
        (allows x registry draw settings provider inventory_hash now db)
        (lease_candidates provider.id now db)
      ≡ some (i, h)
    → find_invocation i.id db ≡ some i
    → clashes
        (granted x draw i provider.id inventory_hash h settings.tool_lease_seconds now db)
        db.attempts
      ≡ false
    → policy_snapshot x i.policy.resource_budget ≡ some budget
    → policy_snapshot x i.policy.execution_permissions ≡ some permissions
    → is_lease x (
        answer x draw i provider.id inventory_hash h settings.tool_lease_seconds now db budget
          permissions)
      ≡ true
    → later ≤ i.deadline_at
    → later ≤ now + settings.tool_lease_seconds * 1000000
    → Leases
        (run now (lease_tool_execution x registry draw settings inventory_hash provider_id) db)
        x
        i.id
        provider.id
        db.attempts
        later
      × Waits provider.id now i
      × IsOldestAllowed
          (allows x registry draw settings provider inventory_hash now db)
          provider.id
          now
          db
          i
unfolding run lease_tool_execution pull_lease ◌>>=◌ query database_now
lease-Leases x registry draw settings provider provider_id inventory_hash now later db i h budget
      permissions enabled running active first found free has_budget has_permissions contract
      in_time in_lease =
    (
      rw (enabled, running, active, pull_lease)
          (rw
            (first-found x registry draw settings provider inventory_hash now
              (lease_candidates provider.id now db) (opened now db) i h first)
            (grant-Leases x draw i provider.id inventory_hash h settings.tool_lease_seconds now db
              later budget permissions has_budget has_permissions contract free found
              (candidate-legal provider.id now i (candidate-queued _ provider.id now db i h first))
              in_time in_lease)),
      candidate-Waits provider.id now i (candidate-queued _ provider.id now db i h first),
      first-IsOldestAllowed _ provider.id now db i h first,
    )
