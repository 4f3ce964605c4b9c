-- ===== src/Service/Fences.antt =====
-- The fences through every sequence of requests.
use superlily.Base.{
  ℕ, ◌<◌, ◌≡◌, true, false, some, String, List, [], ◌∷◌, arith, eq_iff, ◌==◌, and_left, and_right,
  Bool-cases, inl, inr,
}
use superlily.Base.Table.{find}
use superlily.Authority.Rows.{ToolAttempt, Database}
use superlily.Authority.Session.{run}
use superlily.Execution.Proof.{find_attempt, attempt_id}
use superlily.Execution.Lifecycle.{is_active}
use superlily.Execution.Fences.{has_fences, all_give_way, gives_way}
use superlily.Execution.Fences.Held.{HasFences, HasFences-Gentle}
use superlily.Execution.Fences.Locked.{Safe, Safe-then, Keeps-Safe}
use superlily.Execution.Fences.Calls.{start-Safe, heartbeat-Safe, fail-Safe, complete-Safe}
use superlily.Execution.Fences.Leases.{lease-HasFences}
use superlily.Execution.Fences.Reaper.{reap-Safe}
use superlily.Confirmation.Keeps.{decide-Keeps}
use superlily.Cancellation.Keeps.{cancel-Keeps, reap_invocations_due-Keeps}
use superlily.Service.{Deployment, Request, handle, serve}

handle-Safe : (d : Deployment) (r : Request) → Safe (handle d r)
unfolding handle
handle-Safe d (Request.lease draw inventory_hash provider) = Safe-then _ (
    Keeps-Safe _
      (lease-HasFences d.external d.registry draw d.lease_settings inventory_hash provider))
handle-Safe d (Request.start id proof provider) =
    Safe-then _ (start-Safe d.external id proof provider)
handle-Safe d (Request.heartbeat id proof usage provider) =
    Safe-then _
      (heartbeat-Safe d.external d.lease_settings.tool_lease_seconds id proof usage provider)
handle-Safe d (Request.complete id c provider) =
    Safe-then _ (complete-Safe d.external d.artifact_enabled id c provider)
handle-Safe d (Request.fail id proof result code detail usage provider) =
    Safe-then _ (fail-Safe d.external id proof result code detail usage provider)
handle-Safe d (Request.cancel id who reason) =
    Safe-then _
      (Keeps-Safe _ (cancel-Keeps HasFences-Gentle d.hash_object d.isoformat id who reason))
handle-Safe d (Request.confirm id payload who key) = Safe-then _ (
    Keeps-Safe _ (
      decide-Keeps HasFences-Gentle d.confirmation_decision_hash d.is_snapshot d.registry
        d.lease_settings id payload who key))
handle-Safe d (Request.reap_attempts limit) = Safe-then _ (reap-Safe limit)
handle-Safe d (Request.reap_invocations limit) =
    Safe-then _
      (Keeps-Safe _ (reap_invocations_due-Keeps HasFences-Gentle d.hash_object d.isoformat limit))

-- From a table of attempts whose fences fall and of which only the newest of an invocation may be active,
-- every sequence of requests, whatever they raise, leads to such a table.
pub serve-HasFences :
    (d : Deployment) (requests : List (ℕ × Request)) (db : Database)
    → HasFences db
    → HasFences (serve d requests db)
unfolding serve run
serve-HasFences d [] db h = h
serve-HasFences d ((now, r) ∷ rest) db h =
    serve-HasFences d rest (run now (handle d r) db).1 ((handle-Safe d r).at now db h)

gives-lower :
    (a b : ToolAttempt)
    → gives_way a b ≡ true
    → (a.invocation_id == b.invocation_id) ≡ true
    → (b.fencing_token < a.fencing_token) × (is_active b.state ≡ false)
unfolding gives_way
gives-lower a b g same =
    ground (
      arith,
      g,
      same,
      eq_iff a.invocation_id b.invocation_id,
      eq_iff b.invocation_id a.invocation_id,
    )

-- the earlier of two attempts of one invocation
earlier_inactive :
    (a b : ToolAttempt) (l : List ToolAttempt) (id : String)
    → all_give_way a l ≡ true
    → find attempt_id id l ≡ some b
    → (a.invocation_id == b.invocation_id) ≡ true
    → (b.fencing_token < a.fencing_token) × (is_active b.state ≡ false)
unfolding all_give_way find
earlier_inactive a b [] id g h same = ground (arith, h)
earlier_inactive a b (c ∷ rest) id g h same = elim (Bool-cases (c.id == id)) [
  | inl e ↦
      let here : c ≡ b = ground (arith, rw e at h) in
      let behind : gives_way a c ≡ true = and_left _ _ g in gives-lower a b (rw here at behind) same
  | inr e ↦ earlier_inactive a b rest id (and_right _ _ g) (rw e at h) same
]

alone :
    (l : List ToolAttempt) (k j : String) (a b : ToolAttempt)
    → has_fences l ≡ true
    → find attempt_id k l ≡ some a
    → find attempt_id j l ≡ some b
    → (a.invocation_id == b.invocation_id) ≡ true
    → is_active a.state ≡ true
    → (k == j) ≡ false
    → (b.fencing_token < a.fencing_token) × (is_active b.state ≡ false)
unfolding has_fences find
alone [] k j a b h ha hb same act other = ground (arith, ha)
alone (c ∷ rest) k j a b h ha hb same act other = elim (Bool-cases (c.id == k)) [
  | inl e ↦ elim (Bool-cases (c.id == j)) [
    | inl f ↦ ground (arith, e, f, other, eq_iff c.id k, eq_iff c.id j, eq_iff k j)
    | inr f ↦
        let here : c ≡ a = ground (arith, rw e at ha) in
        let ahead : all_give_way c rest ≡ true = and_left _ _ h in
        earlier_inactive a b rest j (rw here at ahead) (rw f at hb) same
  ]
  | inr e ↦ elim (Bool-cases (c.id == j)) [
    | inl f ↦
        let here : c ≡ b = ground (arith, rw f at hb) in
        let ahead : all_give_way c rest ≡ true = and_left _ _ h in
        let ended : is_active a.state ≡ false =
          (earlier_inactive b a rest k (rw here at ahead) (rw e at ha) (
            ground (
              arith,
              same,
              eq_iff a.invocation_id b.invocation_id,
              eq_iff b.invocation_id a.invocation_id,
            ))).1 in
        ground (arith, act, ended)
    | inr f ↦ alone rest k j a b (and_right _ _ h) (rw e at ha) (rw f at hb) same act other
  ]
]

-- From a table of attempts whose fences fall and of which only the newest of an invocation may be active:
-- after every sequence of requests, an active attempt is alone. Every other attempt of its invocation has
-- ended, and has a lower fencing token.
pub serve-active_alone :
    (d : Deployment) (requests : List (ℕ × Request)) (db : Database) (k j : String)
    (a b : ToolAttempt)
    → HasFences db
    → find_attempt k (serve d requests db) ≡ some a
    → find_attempt j (serve d requests db) ≡ some b
    → (a.invocation_id == b.invocation_id) ≡ true
    → is_active a.state ≡ true
    → (k == j) ≡ false
    → (b.fencing_token < a.fencing_token) × (is_active b.state ≡ false)
unfolding find_attempt
serve-active_alone d requests db k j a b h ha hb same act other =
    alone (serve d requests db).attempts k j a b (serve-HasFences d requests db h).fences ha hb same
      act other
