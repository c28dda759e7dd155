-- ===== src/Optimizer.antt =====
-- The query optimizer: crates/vlorql-core/src/optimizer.
pub mod Conjuncts
pub mod Columns
pub mod Targets
pub mod Rules
