-- ===== src/Pgwire.antt =====
-- The package internal/pgwire: what the proxy answers on the PostgreSQL wire.
pub mod Message
pub mod Query
pub mod Startup
pub mod Rewrite
pub mod Catalog
