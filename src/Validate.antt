-- ===== src/Validate.antt =====
-- The validation of plans: crates/vlorql-core/src/validate.
pub mod Pipeline
pub mod Repairing
pub mod Warnings
pub mod Audit
pub mod Dialect
