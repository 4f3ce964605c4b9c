-- ===== src/Lib.antt =====
-- superlily: the Lily Core's tool execution authority and its message coordination.
--
-- The Core accepts tool invocations, leases them to providers that pull work, and records every change of an
-- invocation in an append-only ledger. The model has these parts, which interact through the database:
--
--   * Invocation.antt: the states, events and legal transitions of
--     packages/contracts/src/superlily_contracts/tool_invocation.py. Invocation/Graph and Invocation/History
--     study the diagram.
--   * Authority/: the rows of apps/core/src/superlily_core/models.py (Rows), a database session with commit,
--     rollback and raised HTTP errors (Session), and `append_invocation_transition` of
--     apps/core/src/superlily_core/tool_invocation_service.py (Ledger), the only writer of an invocation's state.
--   * Execution/: apps/core/src/superlily_core/tool_execution_service.py. Proof has the lease and fence check,
--     Lifecycle start, heartbeat and failure, Complete the completion, Artifacts the artifact check of
--     tool_artifact_service.py that a completion makes, and Reap the lease reaper. Gate, Outcome, Accept, Settle,
--     SettleComplete and Heartbeat hold the proofs. Lease has the guards of `lease_tool_execution` and
--     Lease/Grant the new attempt, the contract of the answer (ToolLeaseOut of
--     packages/contracts/src/superlily_contracts/tool_execution.py) and the loop over the candidates;
--     Lease/Candidates, Lease/Oldest, Leasing, Refusing, Starting and Fences hold their proofs.
--   * Rollout.antt: the choice of a rollout plan and its quota in apps/core/src/superlily_core/rollout_service.py.
--   * Cancellation/: cancellation and the deadline reaper of tool_invocation_service.py.
--   * Confirmation/: `decide_tool_confirmation` of tool_invocation_service.py with its revalidation
--     (Revalidate); the other children hold its proofs.
--   * Service.antt: the requests of apps/core/src/superlily_core/routes.py as a sequence, each one transaction.
--   * Decisions.antt and Claims.antt: decisions.py and claims.py of apps/core/src/superlily_core, which decide
--     the bot that an observed message is for, and whether an instance may answer.
--   * Spool.antt and Spool/: bridges/nekro/superlily_bridge/spool.py, the outbox that keeps events until the Core
--     acknowledges them (bridges/lily_nonebot/lily_core_bridge/spool.py is the same file). Append and Delivery have
--     its methods and Queue/Loop `next_pending`, whose loop runs on fuel: one round for each pending row and one more is
--     enough. Calls runs any sequence of them.
--   * Delivery.antt: the choice of alternatives and the decision of
--     packages/contracts/src/superlily_contracts/delivery_planning.py.
--   * CanonicalJson.antt: `_validate_tree`, whose mutable counter is an argument and a result of `visit`, and
--     `canonicalize_json_value` of packages/contracts/src/superlily_contracts/canonical_json.py.
--   * Base/: helpers that the parts share.
--
-- A function has the name of the source's. A handler is a function on a session (`Tx`); `run` gives its result
-- and the committed database. Row locks make each request's work one step, so an interleaving is a list of
-- requests. Loops are structural on rows, but for `next_pending`. Times are microseconds on ℕ, and a JSON
-- column is its canonical text, whose `len` counts the bytes of its UTF-8; `json_value` is its value.
--
-- Other libraries are parameters: SHA-256, the JSON Schema validator, the file store, the value of a JSON column,
-- RFC 8785 encoding and the types that pydantic checks of a lease (`External`), the canonical hash of an
-- object, ISO times, the JSON library of the spool, the match function of a command registry, the random id
-- and secret of a lease, the hash of a confirmation decision, and the contract models that accept a stored
-- request. The view of the tool registry that a lease reads is a parameter too. What a property needs of a
-- parameter is among its hypotheses.
--
-- Not modelled: creation of invocations, the tool registry, the import of rollout plans and
-- the artifact upload; the rows' evidence, which no code reads; the HTTP layer; rendering, agent
-- runs, history import, the providers and the platform adapters.
pub mod Base
pub mod Invocation
pub mod Authority
pub mod Execution
pub mod Cancellation
pub mod Service
pub mod Decisions
pub mod Claims
pub mod CanonicalJson
pub mod Confirmation
pub mod Delivery
pub mod Rollout
pub mod Spool
