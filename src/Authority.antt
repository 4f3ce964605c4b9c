-- ===== src/Authority.antt =====
-- The execution authority that the services of apps/core/src/superlily_core share: the rows, a database
-- session with its transaction, and the transition ledger of invocations.
pub mod Rows
pub mod Session
pub mod Ledger
