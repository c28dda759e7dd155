-- ===== src/Schema.antt =====
-- The data model of crates/vlorql-core/src/schema.
pub mod Types
pub mod Plan
pub mod Snapshot
pub mod Dialect
