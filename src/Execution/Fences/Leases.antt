-- ===== src/Execution/Fences/Leases.antt =====
-- A lease keeps the fences: the fence of the new attempt is over every other of its invocation.
use superlily.Base.{ℕ, ◌<◌, ◌≡◌, refl, Bool, true, false, String, arith, if◌then◌else◌}
use superlily.Authority.Rows.{ToolInvocation, ToolAttempt, Database}
use superlily.Authority.Session.{Session, ◌>>=◌, query, modify}
use superlily.Authority.Session.Keeps.{Keeps, Keeps-bind, keeps_rules}
use superlily.Authority.Ledger.Stable.{append-Keeps, beside-Keeps}
use superlily.CanonicalJson.{Json}
use superlily.Execution.Proof.{External}
use superlily.Execution.Lifecycle.{is_active}
use superlily.Execution.Lease.{Draw, LeaseSettings, RegistryView, ToolLeaseOut}
use superlily.Execution.Lease.Grant.{
  new_attempt, max_fence, clashes, insert_attempt, record_lease, issue_lease, lose_lease,
  grant_lease, lease_tool_execution, lease_out,
}
use superlily.Execution.Lease.Keeps.{lease-Keeps}
use superlily.Execution.Fences.{insert-fences}
use superlily.Execution.Fences.Held.{HasFences, HasFences-Gentle}

new-active :
    (x : External) (draw : Draw) (i : ToolInvocation)
    (provider_id inventory_hash implementation_hash : String) (seconds now : ℕ) (db : Database)
    → is_active
        (new_attempt x draw i provider_id inventory_hash implementation_hash seconds now db).state
      ≡ true
unfolding new_attempt
new-active x draw i provider_id inventory_hash implementation_hash seconds now db = refl

new-over :
    (x : External) (draw : Draw) (i : ToolInvocation)
    (provider_id inventory_hash implementation_hash : String) (seconds now : ℕ) (db : Database)
    → (let a = new_attempt x draw i provider_id inventory_hash implementation_hash seconds now db in
        max_fence a.invocation_id db.attempts < a.fencing_token)
unfolding new_attempt
new-over x draw i provider_id inventory_hash implementation_hash seconds now db = omega arith

record-Keeps :
    (x : External) (a : ToolAttempt) (lease : ToolLeaseOut) (i : ToolInvocation) (now : ℕ)
    → Keeps HasFences (record_lease x a lease i now)
unfolding record_lease
record-Keeps x a lease i now =
    Keeps-bind _ _ (beside-Keeps HasFences-Gentle _ (λ db. (refl, refl, refl)))
      (λ _. search (keeps_rules, append-Keeps HasFences-Gentle))

lose-Keeps : (id : String) → Keeps HasFences (lose_lease id)
unfolding lose_lease
lose-Keeps id = search keeps_rules

module _ (x : External) (draw : Draw) (i : ToolInvocation)
    (provider_id inventory_hash implementation_hash : String) (seconds now : ℕ) where
  abbrev next : Database → ToolAttempt
  next = new_attempt x draw i provider_id inventory_hash implementation_hash seconds now

  inserted :
      (db : Database)
      → clashes (next db) db.attempts ≡ false
      → HasFences db
      → HasFences (insert_attempt (next db) db)
  unfolding insert_attempt
  inserted db free h = record {
    fences =
        insert-fences (next db) db.attempts
          (new-active x draw i provider_id inventory_hash implementation_hash seconds now db) free
          (new-over x draw i provider_id inventory_hash implementation_hash seconds now db)
          h.fences;
  }

  issue-at :
      (lease : ToolLeaseOut) (s : Session)
      → HasFences s.committed
      → HasFences s.working
      → clashes (next s.working) s.working.attempts ≡ false
      → HasFences (issue_lease x (next s.working) lease i now s).1.committed
        × HasFences (issue_lease x (next s.working) lease i now s).1.working
  unfolding issue_lease ◌>>=◌ modify
  issue-at lease s c w free =
      (record-Keeps x (next s.working) lease i now).at
        (record s { working = insert_attempt (next s.working) s.working }) c
        (inserted s.working free w)

  grant-at :
      (lease : ToolLeaseOut) (s : Session) (b : Bool)
      → clashes (next s.working) s.working.attempts ≡ b
      → HasFences s.committed
      → HasFences s.working
      → (let t =
            ((if b then lose_lease i.id else issue_lease x (next s.working) lease i now) s).1 in
          HasFences t.committed × HasFences t.working)
  grant-at lease s true clash c w = (lose-Keeps i.id).at s c w
  grant-at lease s false free c w = issue-at lease s c w free

  -- the part of a grant behind the snapshots
  insert-Keeps :
      (budget permissions : Json)
      → Keeps HasFences (
          query next >>= λ a. query (λ db. clashes a db.attempts) >>= λ clash.
          (if clash
            then lose_lease i.id
            else issue_lease x a (lease_out x a i budget permissions draw) i now))
  unfolding ◌>>=◌ query
  insert-Keeps budget permissions = record {
    at = λ s c w.
        grant-at (lease_out x (next s.working) i budget permissions draw) s
          (clashes (next s.working) s.working.attempts) refl c w;
  }

  pub grant-Keeps :
      Keeps HasFences
        (grant_lease x draw i provider_id inventory_hash implementation_hash seconds now)
  unfolding grant_lease
  grant-Keeps = Keeps-bind _ _ (search keeps_rules) (λ budget.
      Keeps-bind _ _ (search keeps_rules) (λ permissions. insert-Keeps budget permissions))

pub lease-HasFences :
    (x : External) (registry : Database → String → RegistryView) (draw : Draw)
    (settings : LeaseSettings) (inventory_hash provider_id : String)
    → Keeps HasFences (lease_tool_execution x registry draw settings inventory_hash provider_id)
lease-HasFences x registry draw settings inventory_hash provider_id =
    lease-Keeps grant-Keeps x registry draw settings inventory_hash provider_id
