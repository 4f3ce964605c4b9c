-- ===== src/Confirmation/Outcome.antt =====
-- The whole request: every branch of a first decision on a confirmation.
use superlily.Base.{
  ℕ, ◌+◌, ◌*◌, ◌≡◌, refl, Bool, true, false, none, some, min, String, arith, if◌then◌else◌,
}
use superlily.Base.Table.{find}
use superlily.Invocation.{
  InvocationState, InvocationTransitionEvent, is_legal, queued, confirmation_expire, confirm,
}
use superlily.Authority.Rows.{
  ToolInvocation, ToolDescriptor, ToolConfirmation, ConfirmationState, ToolRolloutPlanRecord,
  ToolRolloutPlanItemRecord, Database,
}
use superlily.Authority.Session.{ok, conflict, Session, ◌>>=◌, pure, raise, commit}
use superlily.Authority.Session.Steps.{opened}
use superlily.Authority.Ledger.{find_invocation}
use superlily.Rollout.{consume_rollout_invocation}
use superlily.Cancellation.{InvocationIdentity, is_pending, by_id}
use superlily.Confirmation.{
  ToolInvocationConfirmIn, is_awaiting, reject_confirmation_approval, refuse_confirmation,
  approve_confirmation, state_of_refusal,
}
use superlily.Authority.Session.Steps.{bind-ok}
use superlily.Rollout.{counter_key}
use superlily.Confirmation.{ConfirmationDecision, approve, reject, approve_revalidated}
use superlily.Base.{ltb, ◌∙◌}
use superlily.Confirmation.Revalidate.{Revalidation, drift, authority}
use superlily.Confirmation.Rulings.{
  Ruling, Rules, refused, refusing, rejecting, approving, perform-ok, answers, done-Decides, done,
}

-- whether the plan's counter has something left
abbrev pub has_left : Database → ToolRolloutPlanRecord → Bool
has_left db plan = elim (find counter_key plan.id db.rollout_counters) [
  | none ↦ false
  | some k ↦ ltb k.consumed_invocations plan.max_invocations
]

-- by whether the confirmation has expired, the decision, the authority that is left, and the quota
abbrev pub ruling :
    Bool → ConfirmationDecision → Revalidation → (ToolRolloutPlanRecord → Bool) → Ruling
ruling true decision r left = record {
  state = InvocationState.expired;
  confirmation = ConfirmationState.expired;
  accepted = false;
}
ruling false reject r left = record {
  state = InvocationState.rejected;
  confirmation = ConfirmationState.rejected;
  accepted = true;
}
ruling false approve (drift reason) left = refused
ruling false approve (authority d plan scope) left =
    if left plan
    then (record { state = queued; confirmation = ConfirmationState.consumed; accepted = true })
    else refused

commit-pure :
    {A : Type 0} (a : A) (t : Session)
    → (commit >>= λ _. pure a) t ≡ (ok a, record t { committed = t.working })
unfolding ◌>>=◌ commit pure
commit-pure a t = refl

module _ (i : ToolInvocation) (c : ToolConfirmation) (payload : ToolInvocationConfirmIn)
    (who : InvocationIdentity) (key request_hash : String) (awaits : is_awaiting i.state ≡ true)
    (waits : is_pending c.state ≡ true) where
  legal_refusal :
      (expired : Bool)
      → is_legal
          (if expired then confirmation_expire else InvocationTransitionEvent.reject)
          (some i.state)
          (if expired then InvocationState.expired else InvocationState.rejected)
        ≡ true
  unfolding is_legal
  legal_refusal true = ground (arith, awaits)
  legal_refusal false = ground (arith, awaits)

  legal_approval : is_legal confirm (some i.state) queued ≡ true
  unfolding is_legal
  legal_approval = ground (arith, awaits)

  module _ (s : Session) (found : find_invocation i.id s.working ≡ some i)
      (known : find by_id c.id s.working.confirmations ≡ some c) where
    reject-ok :
        (reason_code : String) (t : ℕ) (expired : Bool)
        → (let d =
              done i c s found known awaits waits
                (refusing who key request_hash reason_code t expired)
                (legal_refusal expired) in
            reject_confirmation_approval i c who key request_hash reason_code t expired s
            ≡ (ok tt, record s { committed = d; working = d }))
    unfolding reject_confirmation_approval
    reject-ok reason_code t expired =
        perform-ok i c s found known awaits waits
          (refusing who key request_hash reason_code t expired) (legal_refusal expired)
          (λ _. commit)
        ∙ (unfold commit in refl)

    -- a refusal that is committed, and the conflict that follows
    pub refusal-Rules :
        (reason_code : String) (t : ℕ) (expired : Bool) (detail : String)
        → (let (q, u) =
              (reject_confirmation_approval i c who key request_hash reason_code t expired >>= λ _.
              raise {A = ToolInvocation × Bool} (conflict detail))
                s in
            Rules q u.committed i.id c.id (record {
              state = if expired then InvocationState.expired else InvocationState.rejected;
              confirmation = state_of_refusal expired;
              accepted = false;
            }))
    refusal-Rules reason_code t expired detail =
        rw (bind-ok _ _ s _ tt (reject-ok reason_code t expired)) (
          unfold raise in
          record {
            decides =
                done-Decides i c s found known awaits waits
                  (refusing who key request_hash reason_code t expired) (legal_refusal expired);
            answer = refl;
          })

    pub reject-Rules :
        (t : ℕ)
        → (let (q, u) = refuse_confirmation i c payload who key request_hash t s in
            Rules q u.committed i.id c.id (record {
              state = InvocationState.rejected;
              confirmation = ConfirmationState.rejected;
              accepted = true;
            }))
    unfolding refuse_confirmation
    reject-Rules t =
        answers i c s found known awaits waits (rejecting payload who key request_hash t)
          (legal_refusal false) (λ row. commit >>= λ _. pure (row, false)) _ (commit-pure _ _)

    approve-Rules :
        (t : ℕ) (d : ToolDescriptor) (plan : ToolRolloutPlanRecord)
        → (let (q, u) = approve_confirmation i c payload who key request_hash t d plan true s in
            Rules q u.committed i.id c.id (record {
              state = queued;
              confirmation = ConfirmationState.consumed;
              accepted = true;
            }))
    unfolding approve_confirmation
    approve-Rules t d plan =
        answers i c s found known awaits waits
          (approving payload who key request_hash t (min (t + d.timeout_ms * 1000) plan.expires_at))
          legal_approval (λ row. commit >>= λ _. pure (row, false)) _ (commit-pure _ _)

-- the same row, behind the consumption of the quota
module _ (i : ToolInvocation) (c : ToolConfirmation) (payload : ToolInvocationConfirmIn)
    (who : InvocationIdentity) (key request_hash : String) (awaits : is_awaiting i.state ≡ true)
    (waits : is_pending c.state ≡ true) (now : ℕ) (db : Database)
    (found : find_invocation i.id db ≡ some i)
    (known : find by_id c.id db.confirmations ≡ some c) where
  abbrev s : Session
  s = opened now db

  -- nothing is left
  pub exhausted-Rules :
      (d : ToolDescriptor) (plan : ToolRolloutPlanRecord) (scope : ToolRolloutPlanItemRecord)
      → consume_rollout_invocation plan now s ≡ (ok false, s)
      → (let (q, u) =
            approve_revalidated i c payload who key request_hash now (authority d plan scope) s in
          Rules q u.committed i.id c.id refused)
  unfolding approve_revalidated approve_confirmation
  exhausted-Rules d plan scope e = rw (bind-ok _ _ s s false e) (
      refusal-Rules i c payload who key request_hash awaits waits s found known
        "rollout_invocation_limit_exhausted" now false _)

  pub consumed-Rules :
      (d : ToolDescriptor) (plan : ToolRolloutPlanRecord) (scope : ToolRolloutPlanItemRecord)
      (u : Session)
      → consume_rollout_invocation plan now s ≡ (ok true, u)
      → find_invocation i.id u.working ≡ some i
      → find by_id c.id u.working.confirmations ≡ some c
      → (let (q, t) =
            approve_revalidated i c payload who key request_hash now (authority d plan scope) s in
          Rules q t.committed i.id c.id
            (record { state = queued; confirmation = ConfirmationState.consumed; accepted = true }))
  unfolding approve_revalidated
  consumed-Rules d plan scope u e found' known' =
      rw (bind-ok _ _ s u true e)
        (approve-Rules i c payload who key request_hash awaits waits u found' known' now d plan)
