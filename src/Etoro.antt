-- ===== src/Etoro.antt =====
-- internal/etoro: the client of eToro's public API.
pub mod Wire
pub mod Timestamps
pub mod Aggregate
pub mod Market
pub mod Terms
pub mod Orders
mod Yields
pub mod Honest
pub mod Checked
pub mod Connected
pub mod Planning
mod Tests
