-- ===== src/Health.antt =====
-- The package internal/health: whether Redash is reachable, and the gate that the servers ask.
pub mod Gate
pub mod Checker
