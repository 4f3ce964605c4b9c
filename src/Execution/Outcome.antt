-- ===== src/Execution/Outcome.antt =====
-- What the handlers leave in the database, on acceptance and on refusal.
use superlily.Base.{
  ◌&&◌, if◌then◌else◌, false, not, Bool-cases, inl, inr, eqb, ℕ, ◌≡◌, refl, Bool, true, some,
  String, List, [], ◌∷◌, ◌++◌, arith, ◌==◌,
}
use superlily.Invocation.{InvocationState}
use superlily.Authority.Rows.{ToolInvocation, ToolAttempt, ToolUsage, AttemptState, Database}
use superlily.Authority.Session.{Result, raised, conflict, Tx, ◌>>=◌, run}
use superlily.Authority.Session.Steps.{bind-raised, opened}
use superlily.Authority.Ledger.{find_invocation}
use superlily.Execution.Proof.{
  External, ToolExecutionProof, Check, find_attempt, locked_attempt_and_invocation,
  credential_checks, state_checks, lease_secret_hash, checks,
}
use superlily.Execution.Lifecycle.{
  is_leased, is_running, is_active, invocation_leased, running_or_cancelling, start_tool_execution,
  heartbeat_tool_execution, fail_tool_execution,
}
use superlily.Execution.Complete.{Completion, complete_tool_execution}
use superlily.Execution.Gate.{first_refusal, with_refusal, locked-refused}

first_refusal-append :
    (cs ds : List Check) (c : Check) → first_refusal cs ≡ some c → first_refusal (cs ++ ds) ≡ some c
first_refusal-append [] ds c h = cc
first_refusal-append (d ∷ cs) ds c h = ground (arith, first_refusal-append cs ds c)

module _ (x : External) (proof : ToolExecutionProof) (provider_id : String) (a : ToolAttempt)
    (i : ToolInvocation) (c : Check) (now : ℕ) (db : Database) where
  -- what a refusal leaves behind: the error, and the attempt's rejection on record
  abbrev pub refusal : {A : Type 0} → Result A × Database
  refusal = (raised (conflict c.detail), with_refusal a provider_id proof.fencing_token c now db)

  module _ (attempt_found : find_attempt proof.attempt_id db ≡ some a)
      (bound : (a.invocation_id == i.id) ≡ true) (found : find_invocation i.id db ≡ some i)
      (wrong : first_refusal (credential_checks x a proof provider_id) ≡ some c) where
    always :
        (f : AttemptState → Bool) (g : InvocationState → Bool)
        → first_refusal (checks x a i proof provider_id f g now) ≡ some c
    unfolding checks
    always f g =
        first_refusal-append (credential_checks x a proof provider_id) (state_checks x a i f g now)
          c wrong

    -- every operation ends at the check
    refused :
        {A : Type 0} (f : AttemptState → Bool) (g : InvocationState → Bool)
        (k : ToolAttempt × ToolInvocation × ℕ → Tx A)
        → (let m = locked_attempt_and_invocation x i.id proof provider_id f g >>= k in
            let (r, s) = m (opened now db) in (r, s.committed))
          ≡ refusal
    refused f g k = rw (
        bind-raised _ k (opened now db) _ _ (
          locked-refused x proof provider_id f g a i (opened now db) attempt_found bound found c
            (always f g)))

    wrong_proof-start : run now (start_tool_execution x i.id proof provider_id) db ≡ refusal
    unfolding run start_tool_execution
    wrong_proof-start = refused is_leased invocation_leased _

    wrong_proof-heartbeat :
        (lease_seconds : ℕ) (usage : ToolUsage)
        → run now (heartbeat_tool_execution x lease_seconds i.id proof usage provider_id) db
          ≡ refusal
    unfolding run heartbeat_tool_execution
    wrong_proof-heartbeat lease_seconds usage = refused is_running running_or_cancelling _

    wrong_proof-fail :
        (result code detail : String) (usage : ToolUsage)
        → run now (fail_tool_execution x i.id proof result code detail usage provider_id) db
          ≡ refusal
    unfolding run fail_tool_execution
    wrong_proof-fail result code detail usage = refused is_active running_or_cancelling _

    wrong_proof_complete :
        (artifact_enabled : Bool) (completion : Completion)
        → completion.proof ≡ proof
        → run now (complete_tool_execution x artifact_enabled i.id completion provider_id) db
          ≡ refusal
    unfolding run complete_tool_execution
    wrong_proof_complete artifact_enabled completion same =
        rw same (refused is_running running_or_cancelling _)

module _ (x : External) (a : ToolAttempt) (proof : ToolExecutionProof) (provider_id : String) where
  -- the attempt's own provider, fence and secret
  abbrev pub credentials_match : Bool
  credentials_match =
      a.provider_id == provider_id
      && eqb a.fencing_token proof.fencing_token
      && a.lease_secret_hash == lease_secret_hash x proof.lease_secret

  abbrev pub mismatch_reason : String
  mismatch_reason =
      if not (a.provider_id == provider_id)
      then "provider_mismatch"
      else if not (eqb a.fencing_token proof.fencing_token)
      then "stale_fence"
      else "secret_mismatch"

  mismatch :
      credentials_match ≡ false
      → (c : Check) × (first_refusal (credential_checks x a proof provider_id) ≡ some c)
        × (c.reason_code ≡ mismatch_reason)
  unfolding credential_checks
  mismatch wrong = elim (Bool-cases (a.provider_id == provider_id)) [
    | inr other ↦ rw other (_, refl, refl)
    | inl same ↦ elim (Bool-cases (eqb a.fencing_token proof.fencing_token)) [
      | inr stale ↦ rw (same, stale) (_, refl, refl)
      | inl current ↦
          let secret : (a.lease_secret_hash == lease_secret_hash x proof.lease_secret) ≡ false =
            ground (arith, wrong, same, current) in
          rw (same, current, secret) (_, refl, refl)
    ]
  ]

-- A call on a stored attempt and its stored invocation, with another provider, fence or secret than the
-- attempt's, is refused by every operation: start, heartbeat, fail and complete raise one and the same
-- conflict, and all that they leave behind is the rejection of the attempt, on record with the first of
-- the three that is wrong as its reason.
pub wrong_proof-refused :
    (x : External) (completion : Completion) (provider_id : String) (a : ToolAttempt)
    (i : ToolInvocation) (now : ℕ) (db : Database) (artifact_enabled : Bool) (lease_seconds : ℕ)
    (usage : ToolUsage) (result code detail : String)
    → find_attempt completion.proof.attempt_id db ≡ some a
    → (a.invocation_id == i.id) ≡ true
    → find_invocation i.id db ≡ some i
    → credentials_match x a completion.proof provider_id ≡ false
    → (c : Check) × (c.reason_code ≡ mismatch_reason x a completion.proof provider_id)
      × (run now (start_tool_execution x i.id completion.proof provider_id) db
          ≡ refusal x completion.proof provider_id a i c now db)
      × (run now
            (heartbeat_tool_execution x lease_seconds i.id completion.proof usage provider_id)
            db
          ≡ refusal x completion.proof provider_id a i c now db)
      × (run now
            (fail_tool_execution x i.id completion.proof result code detail usage provider_id)
            db
          ≡ refusal x completion.proof provider_id a i c now db)
      × (run now (complete_tool_execution x artifact_enabled i.id completion provider_id) db
          ≡ refusal x completion.proof provider_id a i c now db)
wrong_proof-refused x completion provider_id a i now db artifact_enabled lease_seconds usage result
      code detail attempt_found bound found mismatched =
    let (c, wrong, reason) = mismatch x a completion.proof provider_id mismatched in
    (
      c,
      reason,
      wrong_proof-start x completion.proof provider_id a i c now db attempt_found bound found wrong,
      wrong_proof-heartbeat x completion.proof provider_id a i c now db attempt_found bound found
          wrong lease_seconds usage,
      wrong_proof-fail x completion.proof provider_id a i c now db attempt_found bound found wrong
          result code detail usage,
      wrong_proof_complete x completion.proof provider_id a i c now db attempt_found bound found
          wrong artifact_enabled completion refl,
    )
