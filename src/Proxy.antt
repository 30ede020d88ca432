-- ===== src/Proxy.antt =====
-- The package internal/proxy: the accept loop, the sessions of the PostgreSQL wire, and the directory of
-- their queries.
pub mod Accept
pub mod Session
pub mod Cancel
pub mod PeekConn
