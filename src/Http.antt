-- ===== src/Http.antt =====
-- internal/httpapi/server.go: the HTTP interface.
pub mod Patterns
pub mod Identifiers
pub mod Handlers
pub mod Serve
pub mod Gate
pub mod Proper
pub mod Routes
mod Tests
