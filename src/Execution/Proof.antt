-- ===== src/Execution/Proof.antt =====
-- The lease and fence proof of a provider's call: `_append_attempt_event`, `_reject_known_attempt` and
-- `_locked_attempt_and_invocation` of tool_execution_service.py, `lease_secret_hash` of
-- packages/contracts/src/superlily_contracts/tool_execution.py.
use Prim.Native.String.{◌++◌ as text_append}
use superlily.Base.{
  ℕ, ◌+◌, Bool, false, max, Option, String, List, [], ◌∷◌, ◌++◌, leb, eqb, ◌==◌, if◌then◌else◌,
}
use superlily.Base.Table.{find, replace}
use superlily.CanonicalJson.{Json}
use superlily.Invocation.{InvocationState}
use superlily.Authority.Rows.{
  ToolInvocation, ToolAttempt, ToolAttemptEvent, AttemptState, AttemptEvent, Database,
}
use superlily.Authority.Session.{
  not_found, conflict, Tx, ◌>>=◌, ◌>>◌, pure, raise, query, modify, database_now, commit, require,
  or_raise,
}
use superlily.Authority.Ledger.{find_invocation}

-- The contract of a lease. The budget and the permissions are the JSON dumps of their models, which are the
-- snapshots that they were made of.
pub record ToolLeaseOut : Type 0 where
  pub invocation_id : String
  pub attempt_id : String
  pub attempt_number : ℕ
  pub fencing_token : ℕ
  pub lease_secret : String
  pub provider_id : String
  pub inventory_hash : String
  pub implementation_hash : String
  pub tool_id : String
  pub descriptor_version : String
  pub descriptor_hash : String
  pub input : Json
  pub input_hash : String
  pub deadline_at : ℕ
  pub lease_expires_at : ℕ
  pub resource_budget : Json
  pub execution_permissions : Json

-- What the code takes from other libraries: hashlib's SHA-256 of a text, the JSON Schema validator, the file
-- system of the artifact store, the value of a JSON column (SQLAlchemy), rfc8785.dumps, which may raise, and
-- pydantic's check of the types that the fields of a lease are declared with.
pub record External : Type 0 where
  pub sha256 : String → String
  pub satisfies_schema : String → String → Bool
  pub object_exists : String → ℕ → Bool
  pub json_value : String → Json
  pub canonical_text : Json → Option String
  pub accepts_lease : ToolLeaseOut → Bool

pub record ToolExecutionProof : Type 0 where
  pub attempt_id : String
  pub fencing_token : ℕ
  pub lease_secret : String

-- the hash of the canonical JSON of {"lease_secret": secret}; a secret has no character to escape
unfoldable pub lease_secret_hash : External → String → String
lease_secret_hash x secret =
    x.sha256 (text_append "{\"lease_secret\":\"" (text_append secret "\"}"))

abbrev pub attempt_id : ToolAttempt → String
attempt_id a = a.id

unfoldable pub find_attempt : String → Database → Option ToolAttempt
find_attempt k db = find attempt_id k db.attempts

-- the attempt's row, and its new event in front of the attempt ledger
unfoldable pub store_attempt : ToolAttempt → ToolAttemptEvent → Database → Database
store_attempt a e db = record db {
  attempts = replace attempt_id a db.attempts;
  attempt_events = e ∷ db.attempt_events;
}

unfoldable pub stamp_attempt : ToolAttempt → ℕ → ToolAttempt
stamp_attempt a now = record a { event_sequence = a.event_sequence + 1; updated_at = now }

unfoldable pub attempt_event :
    ToolAttempt → AttemptEvent → Bool → String → ℕ → String → ℕ → ToolAttemptEvent
attempt_event a event accepted provider_id fencing_token reason_code now = record {
  attempt_id = a.id;
  sequence = a.event_sequence + 1;
  event = event;
  accepted = accepted;
  provider_id = provider_id;
  fencing_token = fencing_token;
  reason_code = reason_code;
  created_at = now;
}

-- The session writes the fields of the loaded attempt with the event, so `a` is the attempt as changed.
unfoldable pub append_attempt_event :
    ToolAttempt → AttemptEvent → Bool → String → ℕ → String → ℕ → Tx ToolAttempt
unfolding store_attempt stamp_attempt attempt_event
append_attempt_event a event accepted provider_id fencing_token reason_code now = do
  modify (
      store_attempt (stamp_attempt a now)
        (attempt_event a event accepted provider_id fencing_token reason_code now))
  pure (stamp_attempt a now)

unfoldable pub reject_known_attempt :
    {A : Type 0} → ToolAttempt → String → ℕ → String → String → ℕ → Tx A
reject_known_attempt a provider_id fencing_token reason_code detail now = do
  append_attempt_event a AttemptEvent.reject false provider_id (max 1 fencing_token) reason_code now
  commit
  raise (conflict detail)

pub record Check : Type 0 where
  pub accepted : Bool
  pub reason_code : String
  pub detail : String

-- the loop over `checks`
unfoldable pub run_checks : ToolAttempt → String → ℕ → ℕ → List Check → Tx (Unit {0})
run_checks a provider_id fencing_token now [] = pure tt
run_checks a provider_id fencing_token now (c ∷ rest) =
    if c.accepted
    then run_checks a provider_id fencing_token now rest
    else reject_known_attempt a provider_id fencing_token c.reason_code c.detail now

module _ (x : External) where
  -- the first three of `checks`: the provider, the fence and the secret
  unfoldable pub credential_checks : ToolAttempt → ToolExecutionProof → String → List Check
  unfolding lease_secret_hash
  credential_checks a proof provider_id =
      record {
        accepted = a.provider_id == provider_id;
        reason_code = "provider_mismatch";
        detail = "attempt belongs to another provider";
      }
      ∷ record {
        accepted = eqb a.fencing_token proof.fencing_token;
        reason_code = "stale_fence";
        detail = "fencing token is stale or invalid";
      }
      ∷ record {
        accepted = a.lease_secret_hash == lease_secret_hash x proof.lease_secret;
        reason_code = "secret_mismatch";
        detail = "attempt secret is invalid";
      }
      ∷ []

  -- the last four: the states that the operation allows, the lease and the deadline
  unfoldable pub state_checks :
      ToolAttempt
      → ToolInvocation
      → (AttemptState → Bool)
      → (InvocationState → Bool)
      → ℕ
      → List Check
  state_checks a i allowed_attempt allowed_invocation now =
      record {
        accepted = allowed_attempt a.state;
        reason_code = "attempt_state_conflict";
        detail = "attempt is not in a state accepted by this operation";
      }
      ∷ record {
        accepted = allowed_invocation i.state;
        reason_code = "invocation_state_conflict";
        detail = "invocation is not in a state accepted by this operation";
      }
      ∷ record {
        accepted = leb now a.lease_expires_at;
        reason_code = "lease_expired";
        detail = "attempt lease has expired";
      }
      ∷ record {
        accepted = leb now a.deadline_at;
        reason_code = "deadline_expired";
        detail = "invocation deadline has expired";
      }
      ∷ []

  unfoldable pub checks :
      ToolAttempt
      → ToolInvocation
      → ToolExecutionProof
      → String
      → (AttemptState → Bool)
      → (InvocationState → Bool)
      → ℕ
      → List Check
  unfolding credential_checks state_checks
  checks a i proof provider_id allowed_attempt allowed_invocation now =
      credential_checks a proof provider_id
      ++ state_checks a i allowed_attempt allowed_invocation now

  unfoldable pub locked_attempt_and_invocation :
      String
      → ToolExecutionProof
      → String
      → (AttemptState → Bool)
      → (InvocationState → Bool)
      → Tx (ToolAttempt × ToolInvocation × ℕ)
  locked_attempt_and_invocation invocation_id proof provider_id allowed_attempt allowed_invocation =
      do
        now ← database_now
        found ← query (find_attempt proof.attempt_id)
        a ← or_raise found not_found
        require (a.invocation_id == invocation_id) not_found
        known ← query (find_invocation invocation_id)
        i ← or_raise known not_found
        run_checks a provider_id proof.fencing_token now
            (checks a i proof provider_id allowed_attempt allowed_invocation now)
        pure (a, i, now)
