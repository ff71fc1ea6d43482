-- ===== src/Demo.antt =====
-- The Demo BTC order strategy (internal/platform/demo_strategy.go): its records and tables, the
-- transactions on them, and the operations.
pub mod Records
pub mod Tables
pub mod Session
pub mod Transactions
pub mod Lookup
pub mod Reads
pub mod Provider
pub mod Evaluate
pub mod Checks
pub mod Verdict
pub mod Cleared
pub mod Plans
pub mod Posted
pub mod Reconcile
pub mod Execute
pub mod Lifecycle
pub mod Quiet
pub mod Guard
pub mod Idempotent
pub mod Outcomes
pub mod Settled
pub mod Fixture
mod Tests
mod EvaluateTests
