-- ===== src/Service/Ledgers.antt =====
-- What no sequence of requests can break.
use superlily.Base.{ℕ, ◌+◌, ◌*◌, ◌≤◌, ◌≡◌, true, some, String, List, [], ◌∷◌, arith}
use superlily.Invocation.{
  InvocationTransitionEvent, is_terminal, succeeded, complete_success, start, lease,
}
use superlily.Invocation.History.{History, requeues, length-History, succeeded-History}
use superlily.Authority.Rows.{ToolInvocation, Database}
use superlily.Authority.Session.{run}
use superlily.Authority.Session.Keeps.{Keeps, Keeps-pure, Keeps-bind, run-Keeps}
use superlily.Authority.Ledger.{find_invocation}
use superlily.Authority.Ledger.Stable.{Stable, Stable-Gentle}
use superlily.Authority.Ledger.Chain.{
  HasLedgers, HasLedgers-Stable, ledger_of, events, chain-History, length-events,
}
use superlily.Authority.Ledger.Frozen.{IsRow-Stable}
use superlily.Execution.Lease.Keeps.{grant-Keeps, lease-Keeps}
use superlily.Execution.Keeps.{start-Keeps, heartbeat-Keeps, fail-Keeps, complete-Keeps, reap-Keeps}
use superlily.Confirmation.Keeps.{decide-Keeps}
use superlily.Cancellation.Keeps.{cancel-Keeps, reap_invocations_due-Keeps}
use superlily.Service.{Deployment, Request, handle, serve}

module _ {P : Database → Type 0} (stable : Stable P) (d : Deployment) where
  handle-Keeps : (r : Request) → Keeps P (handle d r)
  unfolding handle
  handle-Keeps (Request.lease draw inventory_hash provider) =
      Keeps-bind _ _
        (lease-Keeps (grant-Keeps stable) d.external d.registry draw d.lease_settings inventory_hash
          provider)
        (λ _. Keeps-pure tt)
  handle-Keeps (Request.start id proof provider) =
      Keeps-bind _ _ (start-Keeps stable d.external id proof provider) (λ _. Keeps-pure tt)
  handle-Keeps (Request.heartbeat id proof usage provider) =
      Keeps-bind _ _
        (heartbeat-Keeps stable d.external d.lease_settings.tool_lease_seconds id proof usage
          provider)
        (λ _. Keeps-pure tt)
  handle-Keeps (Request.complete id c provider) =
      Keeps-bind _ _ (complete-Keeps stable d.external d.artifact_enabled id c provider)
        (λ _. Keeps-pure tt)
  handle-Keeps (Request.fail id proof result code detail usage provider) =
      Keeps-bind _ _ (fail-Keeps stable d.external id proof result code detail usage provider)
        (λ _. Keeps-pure tt)
  handle-Keeps (Request.cancel id who reason) =
      Keeps-bind _ _ (cancel-Keeps (Stable-Gentle stable) d.hash_object d.isoformat id who reason)
        (λ _. Keeps-pure tt)
  handle-Keeps (Request.confirm id payload who key) =
      Keeps-bind _ _
        (decide-Keeps (Stable-Gentle stable) d.confirmation_decision_hash d.is_snapshot d.registry
          d.lease_settings id payload who key)
        (λ _. Keeps-pure tt)
  handle-Keeps (Request.reap_attempts limit) =
      Keeps-bind _ _ (reap-Keeps stable limit) (λ _. Keeps-pure tt)
  handle-Keeps (Request.reap_invocations limit) =
      Keeps-bind _ _
        (reap_invocations_due-Keeps (Stable-Gentle stable) d.hash_object d.isoformat limit)
        (λ _. Keeps-pure tt)

  serve-Stable : (requests : List (ℕ × Request)) (db : Database) → P db → P (serve d requests db)
  unfolding serve
  serve-Stable [] db p = p
  serve-Stable ((now, r) ∷ rest) db p =
      serve-Stable rest (run now (handle d r) db).1
        (run-Keeps now (handle d r) db (handle-Keeps r) p)

-- From a database whose transition ledgers are chains, every sequence of requests, whatever they raise,
-- leads to one whose ledgers are chains: the rows of each invocation are numbered from 1, each is a legal
-- transition from the state that the row before it reached, and the last reaches the invocation's state.
pub serve-HasLedgers :
    (d : Deployment) (requests : List (ℕ × Request)) (db : Database)
    → HasLedgers db
    → HasLedgers (serve d requests db)
serve-HasLedgers d requests db h = serve-Stable HasLedgers-Stable d requests db h

-- An invocation in a terminal state is immutable: after every sequence of requests its row is the same.
pub serve-terminal :
    (d : Deployment) (requests : List (ℕ × Request)) (db : Database) (id : String)
    (row : ToolInvocation)
    → is_terminal row.state ≡ true
    → find_invocation id db ≡ some row
    → find_invocation id (serve d requests db) ≡ some row
serve-terminal d requests db id row terminal found =
    (serve-Stable (IsRow-Stable id row terminal) d requests db (record { found = found })).found

-- From a database whose transition ledgers are chains, after every sequence of requests, the ledger of an
-- invocation has at most 7 rows and 4 more for each time that it was put back into the queue.
pub serve-ledger_bound :
    (d : Deployment) (requests : List (ℕ × Request)) (db : Database) (id : String)
    (row : ToolInvocation)
    → HasLedgers db
    → find_invocation id (serve d requests db) ≡ some row
    → row.transition_sequence ≤ 7 + 4 * requeues (events (ledger_of id (serve d requests db)))
serve-ledger_bound d requests db id row h found =
    let after : HasLedgers (serve d requests db) = serve-HasLedgers d requests db h in
    omega (
      arith,
      after.counted id row found,
      length-events (ledger_of id (serve d requests db)),
      length-History (chain-History _ _ (after.chain id row found)),
    )

-- From a database whose transition ledgers are chains: an invocation that has succeeded after any sequence
-- of requests was leased, started and completed, in this order, with no other transition between.
pub serve-succeeded :
    (d : Deployment) (requests : List (ℕ × Request)) (db : Database) (id : String)
    (row : ToolInvocation)
    → HasLedgers db
    → find_invocation id (serve d requests db) ≡ some row
    → row.state ≡ succeeded
    → (rest : List InvocationTransitionEvent) × (events (ledger_of id (serve d requests db))
        ≡ complete_success ∷ start ∷ lease ∷ rest)
serve-succeeded d requests db id row h found done =
    let after : HasLedgers (serve d requests db) = serve-HasLedgers d requests db h in
    let history : History (events (ledger_of id (serve d requests db))) (some row.state) =
      chain-History _ _ (after.chain id row found) in
    let (rest, e, _) = succeeded-History (rw done at history) in (rest, e)
