-- ===== src/Service.antt =====
-- The BrokerService (internal/platform/broker.go and demo_strategy.go) as a whole.
pub mod Calls
pub mod Safety
pub mod Platform
pub mod Answers
pub mod Requests
pub mod Unauthorized
mod Tests
