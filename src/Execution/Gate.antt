-- ===== src/Execution/Gate.antt =====
-- What the proof check lets through and what it refuses.
use superlily.Base.{
  ℕ, ◌≡◌, refl, Bool, true, false, max, Option, none, some, String, List, [], ◌∷◌, arith, ◌==◌,
  if◌then◌else◌, Bool-cases, inl, inr,
}
use superlily.Invocation.{InvocationState}
use superlily.Authority.Rows.{ToolInvocation, ToolAttempt, AttemptState, AttemptEvent, Database}
use superlily.Authority.Session.{
  Result, ok, raised, conflict, Session, ◌>>=◌, pure, raise, query, modify, database_now, commit,
  require, or_raise,
}
use superlily.Authority.Ledger.{find_invocation}
use superlily.Execution.Proof.{
  External, ToolExecutionProof, Check, find_attempt, store_attempt, stamp_attempt, attempt_event,
  append_attempt_event, reject_known_attempt, run_checks, checks, locked_attempt_and_invocation,
}

-- the first check that does not accept
abbrev pub first_refusal : List Check → Option Check
first_refusal [] = none
first_refusal (c ∷ rest) = if c.accepted then first_refusal rest else some c

-- the database with the refusal of an attempt on record
abbrev pub with_refusal : ToolAttempt → String → ℕ → Check → ℕ → Database → Database
with_refusal a provider_id fencing_token c now db =
    store_attempt (stamp_attempt a now)
      (attempt_event a AttemptEvent.reject false provider_id (max 1 fencing_token) c.reason_code
        now)
      db

pub run_checks-refused :
    (a : ToolAttempt) (provider_id : String) (fencing_token now : ℕ) (cs : List Check) (c : Check)
    (s : Session)
    → first_refusal cs ≡ some c
    → run_checks a provider_id fencing_token now cs s ≡ (
      raised (conflict c.detail),
      record s {
        committed = with_refusal a provider_id fencing_token c now s.working;
        working = with_refusal a provider_id fencing_token c now s.working;
      },
    )
unfolding run_checks reject_known_attempt append_attempt_event ◌>>=◌ modify pure commit raise
run_checks-refused a provider_id fencing_token now [] c s h = cc
run_checks-refused a provider_id fencing_token now (d ∷ rest) c s h = elim (Bool-cases d.accepted) [
  | inl accepts ↦
      rw accepts (run_checks-refused a provider_id fencing_token now rest c s (rw accepts at h))
  | inr refusal ↦ let same : d ≡ c = ground (arith, h) in rw refusal (rw same refl)
]

pub run_checks-passed :
    (a : ToolAttempt) (provider_id : String) (fencing_token now : ℕ) (cs : List Check) (s : Session)
    → first_refusal cs ≡ none
    → run_checks a provider_id fencing_token now cs s ≡ (ok tt, s)
unfolding run_checks pure
run_checks-passed a provider_id fencing_token now [] s h = refl
run_checks-passed a provider_id fencing_token now (d ∷ rest) s h = elim (Bool-cases d.accepted) [
  | inl accepts ↦
      rw accepts (run_checks-passed a provider_id fencing_token now rest s (rw accepts at h))
  | inr refusal ↦ ground (arith, h)
]

module _ (x : External) (proof : ToolExecutionProof) (provider_id : String)
    (allowed_attempt : AttemptState → Bool) (allowed_invocation : InvocationState → Bool)
    (a : ToolAttempt) (i : ToolInvocation) (s : Session)
    (attempt_found : find_attempt proof.attempt_id s.working ≡ some a)
    (bound : (a.invocation_id == i.id) ≡ true)
    (found : find_invocation i.id s.working ≡ some i) where
  abbrev pub verdict : Option Check
  verdict = first_refusal (checks x a i proof provider_id allowed_attempt allowed_invocation s.now)

  abbrev locked : Result (ToolAttempt × ToolInvocation × ℕ) × Session
  locked =
      locked_attempt_and_invocation x i.id proof provider_id allowed_attempt allowed_invocation s

  pub locked-passed : verdict ≡ none → locked ≡ (ok (a, i, s.now), s)
  unfolding locked_attempt_and_invocation ◌>>=◌ query database_now or_raise require pure
  locked-passed h =
      rw (attempt_found, or_raise)
        (rw (bound, require)
          (rw (found, or_raise)
            (rw
              (run_checks-passed a provider_id proof.fencing_token s.now
                (checks x a i proof provider_id allowed_attempt allowed_invocation s.now) s h)
              refl)))

  pub locked-refused :
      (c : Check)
      → verdict ≡ some c
      → locked ≡ (
        raised (conflict c.detail),
        record s {
          committed = with_refusal a provider_id proof.fencing_token c s.now s.working;
          working = with_refusal a provider_id proof.fencing_token c s.now s.working;
        },
      )
  unfolding locked_attempt_and_invocation ◌>>=◌ query database_now or_raise require pure
  locked-refused c h =
      rw (attempt_found, or_raise)
        (rw (bound, require)
          (rw (found, or_raise)
            (rw
              (run_checks-refused a provider_id proof.fencing_token s.now
                (checks x a i proof provider_id allowed_attempt allowed_invocation s.now) c s h)
              refl)))
