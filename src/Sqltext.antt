-- ===== src/Sqltext.antt =====
-- The package internal/sqltext: the lexical rules of the two dialects, statements, and the
-- read-only check.
pub mod Mask
pub mod Redact
pub mod Token
pub mod Statements
pub mod Verb
