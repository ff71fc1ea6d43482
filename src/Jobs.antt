-- ===== src/Jobs.antt =====
-- The replay jobs (internal/platform/platform.go): the durable queue of runs, its outbox and its
-- workers.
pub mod Records
pub mod Queue
pub mod Retries
pub mod Calls
pub mod Publishing
pub mod Delivery
mod Tests
