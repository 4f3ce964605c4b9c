-- ===== src/Confirmation/Request.antt =====
-- The whole request: every branch of a first decision on a confirmation.
use superlily.Base.{
  ℕ, ◌≡◌, refl, Bool, true, false, ◌&&◌, Option, none, some, String, leb, ◌==◌, if◌then◌else◌,
  first_of_list,
}
use superlily.Base.Table.{find}
use superlily.Authority.Rows.{
  ToolInvocation, ToolDescriptor, ToolConfirmation, ToolRolloutPlanRecord,
  ToolRolloutPlanItemRecord, Database,
}
use superlily.Authority.Session.{
  HttpException, ok, conflict, Session, ◌>>=◌, ◌>>◌, pure, raise, query, database_now, require,
  or_raise, run,
}
use superlily.Authority.Session.Steps.{opened}
use superlily.Authority.Ledger.{find_invocation}
use superlily.Rollout.{same_caller, consume_rollout_invocation}
use superlily.Cancellation.{InvocationIdentity, is_pending, by_id, by_invocation}
use superlily.Confirmation.{ToolInvocationConfirmIn, is_awaiting, reject_confirmation_approval}
use superlily.Authority.Session.Steps.{bind-ok}
use superlily.Execution.Lease.{LeaseSettings, RegistryView}
use superlily.Rollout.{counter_key, spend_from}
use superlily.Rollout.Quota.{consume-left, consume-none, spent}
use superlily.Confirmation.{
  ConfirmationDecision, approve, reject, approve_revalidated, decide_pending, decide_new,
  decide_once, decide_tool_confirmation, is_bound_request, is_decision_of,
}
use superlily.Base.{and_true, ltb, Bool-cases, Option-cases, inl, inr}
use superlily.Confirmation.Revalidate.{Revalidation, drift, authority, approval_revalidation_reason}
use superlily.Confirmation.Rulings.{Rules}
use superlily.Confirmation.Outcome.{
  has_left, ruling, exhausted-Rules, consumed-Rules, refusal-Rules, reject-Rules,
}

consume-absent :
    (plan : ToolRolloutPlanRecord) (t : ℕ) (s : Session)
    → find counter_key plan.id s.working.rollout_counters ≡ none
    → consume_rollout_invocation plan t s ≡ (ok false, s)
unfolding consume_rollout_invocation spend_from ◌>>=◌ query pure
consume-absent plan t s absent = rw (absent, spend_from) refl

require-true : (b : Bool) (e : HttpException) (s : Session) → b ≡ true → require b e s ≡ (ok tt, s)
unfolding require
require-true b e s h = rw (h, require) refl

require-some :
    {A : Type 0} (o : Option A) (a : A) (e : HttpException) (s : Session)
    → o ≡ some a
    → or_raise o e s ≡ (ok a, s)
unfolding or_raise
require-some o a e s h = rw (h, or_raise) refl

now-ok : (s : Session) → database_now s ≡ (ok s.now, s)
unfolding database_now
now-ok s = refl

query-ok :
    {A : Type 0} (f : Database → A) (a : A) (s : Session) → f s.working ≡ a → query f s ≡ (ok a, s)
unfolding query
query-ok f a s h = rw h refl

module _ (i : ToolInvocation) (c : ToolConfirmation) (payload : ToolInvocationConfirmIn)
    (who : InvocationIdentity) (key request_hash : String) (awaits : is_awaiting i.state ≡ true)
    (waits : is_pending c.state ≡ true) (now : ℕ) (db : Database)
    (found : find_invocation i.id db ≡ some i)
    (known : find by_id c.id db.confirmations ≡ some c) where
  abbrev s : Session
  s = opened now db

  approve_authority-Rules :
      (d : ToolDescriptor) (plan : ToolRolloutPlanRecord) (scope : ToolRolloutPlanItemRecord)
      → (let (q, u) =
            approve_revalidated i c payload who key request_hash now (authority d plan scope) s in
          Rules q u.committed i.id c.id
            (ruling false approve (authority d plan scope) (has_left db)))
  approve_authority-Rules d plan scope =
      elim (Option-cases (find counter_key plan.id db.rollout_counters)) [
        | inl absent ↦
            rw (absent, has_left)
              (exhausted-Rules i c payload who key request_hash awaits waits now db found known d
                plan scope (consume-absent plan now s absent))
        | inr (k, counter) ↦ elim (Bool-cases (ltb k.consumed_invocations plan.max_invocations)) [
          | inl left ↦
              rw (counter, has_left)
                (rw left (
                  consumed-Rules i c payload who key request_hash awaits waits now db found known d
                    plan scope (spent plan now s k counter) (consume-left plan now s k counter left)
                    (unfold find_invocation in found) known))
          | inr over ↦
              rw (counter, has_left)
                (rw over (
                  exhausted-Rules i c payload who key request_hash awaits waits now db found known d
                    plan scope (consume-none plan now s k counter over)))
        ]
      ]

  revalidated-Rules :
      (r : Revalidation)
      → (let (q, u) = approve_revalidated i c payload who key request_hash now r s in
          Rules q u.committed i.id c.id (ruling false approve r (has_left db)))
  unfolding approve_revalidated
  revalidated-Rules (drift reason) =
      refusal-Rules i c payload who key request_hash awaits waits s found known reason now false _
  revalidated-Rules (authority d plan scope) = approve_authority-Rules d plan scope

  module _
      (confirmation_decision_hash : String → ToolInvocationConfirmIn → InvocationIdentity → String)
      (is_snapshot : ToolInvocation → Bool) (registry : Database → String → RegistryView)
      (settings : LeaseSettings) where
    abbrev revalidation : Revalidation
    revalidation = approval_revalidation_reason is_snapshot registry settings i now db

    pending-Rules :
        (decision : ConfirmationDecision)
        → (let (q, u) =
              decide_pending confirmation_decision_hash is_snapshot registry settings i c payload
                who key request_hash now decision s in
            Rules q u.committed i.id c.id (ruling false decision revalidation (has_left db)))
    unfolding decide_pending ◌>>=◌ query
    pending-Rules reject =
        reject-Rules i c payload who key request_hash awaits waits s found known now
    pending-Rules approve = revalidated-Rules revalidation

    new-Rules :
        is_bound_request c i payload who ≡ true
        → (let (q, u) =
              decide_new confirmation_decision_hash is_snapshot registry settings i c payload who
                key request_hash s in
            Rules q u.committed i.id c.id
              (ruling (leb c.expires_at now) payload.decision revalidation (has_left db)))
    unfolding decide_new
    new-Rules bound = rw (bind-ok _ _ s s tt (require-true _ _ s bound)) (
        rw (bind-ok _ _ s s tt (require-true _ _ s (and_true awaits waits)))
          (rw (bind-ok _ _ s s now (now-ok s)) (timely-Rules (leb c.expires_at now))))
      where
        timely-Rules :
            (late : Bool)
            → (let (q, u) =
                  (if late
                      then (reject_confirmation_approval i c who key request_hash
                            "confirmation_expired" now true
                          >> raise (conflict "confirmation expired before approval"))
                      else decide_pending confirmation_decision_hash is_snapshot registry settings i
                          c payload who key request_hash now payload.decision)
                    s in
                Rules q u.committed i.id c.id
                  (ruling late payload.decision revalidation (has_left db)))
        timely-Rules true =
            refusal-Rules i c payload who key request_hash awaits waits s found known
              "confirmation_expired" now true _
        timely-Rules false = pending-Rules payload.decision

decided-at :
    (confirmation_decision_hash : String → ToolInvocationConfirmIn → InvocationIdentity → String)
    (is_snapshot : ToolInvocation → Bool) (registry : Database → String → RegistryView)
    (settings : LeaseSettings) (i : ToolInvocation) (c : ToolConfirmation)
    (payload : ToolInvocationConfirmIn) (who : InvocationIdentity) (key : String) (now : ℕ)
    (db : Database)
    → find_invocation i.id db ≡ some i
    → (same_caller i.creator_type who.caller && i.creator_id == who.subject) ≡ true
    → find by_invocation i.id db.confirmations ≡ some c
    → find by_id c.id db.confirmations ≡ some c
    → (c.id == payload.confirmation_id) ≡ true
    → first_of_list (is_decision_of c who key) db.confirmation_events ≡ none
    → is_bound_request c i payload who ≡ true
    → is_awaiting i.state ≡ true
    → is_pending c.state ≡ true
    → (let (q, after) =
          decide_tool_confirmation confirmation_decision_hash is_snapshot registry settings i.id
            payload who key
            (opened now db) in
        Rules q after.committed i.id c.id (
          ruling
            (leb c.expires_at now)
            payload.decision
            (approval_revalidation_reason is_snapshot registry settings i now db)
            (has_left db)))
unfolding decide_tool_confirmation decide_once
decided-at confirmation_decision_hash is_snapshot registry settings i c payload who key now db found
      caller bound known named new hashes awaits waits =
    let s : Session = opened now db in
    rw (bind-ok _ _ s s (some i) (query-ok _ _ s found)) (
      rw (bind-ok _ _ s s i (require-some _ i _ s refl)) (
        rw (bind-ok _ _ s s tt (require-true _ _ s caller)) (
          rw (bind-ok _ _ s s (some c) (query-ok _ _ s bound)) (
            rw (bind-ok _ _ s s c (require-some _ c _ s refl)) (
              rw (bind-ok _ _ s s tt (require-true _ _ s named)) (
                rw (bind-ok _ _ s s none (query-ok _ _ s new)) (
                  new-Rules i c payload who key (confirmation_decision_hash i.id payload who) awaits
                    waits now db found known confirmation_decision_hash is_snapshot registry
                    settings hashes)))))))

-- The first decision of the creator on a pending confirmation, with the hashes that it was shown, on an
-- invocation that awaits it: where the confirmation has expired, both expire and the request raises; a rejection
-- rejects both and is answered; an approval rejects both and raises, if the authority has drifted or the quota of
-- the plan is used up. Otherwise it queues the invocation, consumes the confirmation and is answered.
pub decide_tool_confirmation-Rules :
    (confirmation_decision_hash : String → ToolInvocationConfirmIn → InvocationIdentity → String)
    (is_snapshot : ToolInvocation → Bool) (registry : Database → String → RegistryView)
    (settings : LeaseSettings) (i : ToolInvocation) (c : ToolConfirmation)
    (payload : ToolInvocationConfirmIn) (who : InvocationIdentity) (key : String) (now : ℕ)
    (db : Database)
    → find_invocation i.id db ≡ some i
    → (same_caller i.creator_type who.caller && i.creator_id == who.subject) ≡ true
    → find by_invocation i.id db.confirmations ≡ some c
    → find by_id c.id db.confirmations ≡ some c
    → (c.id == payload.confirmation_id) ≡ true
    → first_of_list (is_decision_of c who key) db.confirmation_events ≡ none
    → is_bound_request c i payload who ≡ true
    → is_awaiting i.state ≡ true
    → is_pending c.state ≡ true
    → (let (q, after) =
          run now
            (decide_tool_confirmation confirmation_decision_hash is_snapshot registry settings i.id
              payload who key)
            db in
        Rules q after i.id c.id (
          ruling
            (leb c.expires_at now)
            payload.decision
            (approval_revalidation_reason is_snapshot registry settings i now db)
            (has_left db)))
unfolding run
decide_tool_confirmation-Rules confirmation_decision_hash is_snapshot registry settings i c payload
      who key now db found caller bound known named new hashes awaits waits =
    decided-at confirmation_decision_hash is_snapshot registry settings i c payload who key now db
      found caller bound known named new hashes awaits waits
