-- ===== src/Connector.antt =====
-- connector/: the gate in front of everything a treasury connects to.
pub mod Amount
pub mod Breaker
pub mod Egress
pub mod Rate
pub mod Guard
mod Tests
