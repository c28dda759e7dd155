-- ===== src/Policy.antt =====
-- Table, column and row policies: crates/vlorql-core/src/policy.
pub mod Config
pub mod Report
pub mod Engine
pub mod Permitted
pub mod Filters
pub mod BlindSpots
