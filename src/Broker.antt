-- ===== src/Broker.antt =====
-- internal/platform/broker.go: the read-only synchronisation of eToro portfolios.
pub mod Records
pub mod Store
pub mod Sync
pub mod Turns
pub mod Bindings
pub mod Archive
pub mod Calls
pub mod Methods
pub mod Sessions
pub mod History
pub mod Sorted
pub mod Roundtrip
pub mod Evidence
pub mod Permission
pub mod Spacing
pub mod Status
mod Tests
