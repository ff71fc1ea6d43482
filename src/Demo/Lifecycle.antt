-- ===== src/Demo/Lifecycle.antt =====
-- The life of a Demo decision, as the tables of internal/platform/demo_strategy.go show it: what one
-- atomic action of a live handler does to the rows, to the committed intents and to the posts, and
-- the sessions that any interleaving of such actions reaches.
pub mod Edges
pub mod Runs
pub mod Steps
pub mod Safety
pub mod Traces
pub mod Handlers
pub mod Lookups
pub mod Orders
pub mod Kept
pub mod Operations
pub mod Synced
