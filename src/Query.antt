-- ===== src/Query.antt =====
-- Scopes and references of query plans: crates/vlorql-core/src/query.rs.
pub mod References
pub mod Mentions
pub mod Scope
