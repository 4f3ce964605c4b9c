-- ===== src/Execution.antt =====
-- Provider-pull execution: apps/core/src/superlily_core/tool_execution_service.py, with the artifact check
-- of tool_artifact_service.py that a completion makes.
pub mod Proof
pub mod Lifecycle
pub mod Lease
pub mod Artifacts
pub mod Complete
pub mod Reap
pub mod Keeps
pub mod Gate
pub mod Outcome
pub mod Accept
pub mod Settle
pub mod SettleComplete
pub mod Heartbeat
pub mod Fences
pub mod Leasing
pub mod Refusing
pub mod Starting
mod Tests
