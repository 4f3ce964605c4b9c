-- ===== src/Service.antt =====
-- The Core as a sequence of requests: the provider calls, the cancellation and the confirmation of
-- apps/core/src/superlily_core/routes.py and the rounds of the reapers, each one transaction at its own
-- time, in the order of their commits.
pub mod Ledgers
pub mod Fences
pub mod Tests
mod FenceTests
mod ConfirmTests
use superlily.Base.{ℕ, Bool, String, List, [], ◌∷◌}
use superlily.Authority.Rows.{ToolInvocation, ToolUsage, Database}
use superlily.Authority.Session.{Tx, ◌>>=◌, ◌>>◌, pure, run}
use superlily.Execution.Proof.{External, ToolExecutionProof}
use superlily.Execution.Lease.{Draw, LeaseSettings, RegistryView}
use superlily.Execution.Lease.Grant.{lease_tool_execution}
use superlily.Execution.Lifecycle.{
  start_tool_execution, heartbeat_tool_execution, fail_tool_execution,
}
use superlily.Execution.Complete.{Completion, complete_tool_execution}
use superlily.Execution.Reap.{reap_expired_attempts}
use superlily.Confirmation.{ToolInvocationConfirmIn, decide_tool_confirmation}
use superlily.Cancellation.{InvocationIdentity}
use superlily.Cancellation.Requests.{cancel_tool_invocation, reap_expired_invocations}

-- the settings that the handlers read, and the other libraries
pub record Deployment : Type 0 where
  pub external : External
  pub artifact_enabled : Bool
  pub lease_settings : LeaseSettings
  pub registry : Database → String → RegistryView
  pub hash_object : List (String × String) → String
  pub isoformat : ℕ → String
  pub confirmation_decision_hash : String → ToolInvocationConfirmIn → InvocationIdentity → String
  pub is_snapshot : ToolInvocation → Bool

-- the provider of a call is the subject of its credential
pub data Request : Type 0 where
  lease : Draw → String → String → Request  -- the inventory's hash, then the provider
  start : String → ToolExecutionProof → String → Request
  heartbeat : String → ToolExecutionProof → ToolUsage → String → Request
  complete : String → Completion → String → Request
  fail : String → ToolExecutionProof → String → String → String → ToolUsage → String → Request
  cancel : String → InvocationIdentity → String → Request
  confirm : String → ToolInvocationConfirmIn → InvocationIdentity → String → Request
  reap_attempts : ℕ → Request
  reap_invocations : ℕ → Request

module _ (d : Deployment) where
  unfoldable pub handle : Request → Tx (Unit {0})
  handle (lease draw inventory_hash provider) = do
    lease_tool_execution d.external d.registry draw d.lease_settings inventory_hash provider
    pure tt
  handle (start id proof provider) = do start_tool_execution d.external id proof provider; pure tt
  handle (heartbeat id proof usage provider) = do
    heartbeat_tool_execution d.external d.lease_settings.tool_lease_seconds id proof usage provider
    pure tt
  handle (complete id c provider) = do
    complete_tool_execution d.external d.artifact_enabled id c provider
    pure tt
  handle (fail id proof result code detail usage provider) = do
    fail_tool_execution d.external id proof result code detail usage provider
    pure tt
  handle (cancel id who reason) = do
    cancel_tool_invocation d.hash_object d.isoformat id who reason
    pure tt
  handle (confirm id payload who key) = do
    decide_tool_confirmation d.confirmation_decision_hash d.is_snapshot d.registry d.lease_settings
        id payload who key
    pure tt
  handle (reap_attempts limit) = do reap_expired_attempts limit; pure tt
  handle (reap_invocations limit) = do
    reap_expired_invocations d.hash_object d.isoformat limit
    pure tt

  -- the database after the requests of a list, each at its time
  unfoldable pub serve : List (ℕ × Request) → Database → Database
  serve [] db = db
  serve ((now, r) ∷ rest) db = serve rest (run now (handle r) db).1
