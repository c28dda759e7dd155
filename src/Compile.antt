-- ===== src/Compile.antt =====
-- The SQL compiler: crates/vlorql-core/src/compile.
pub mod Dialect
pub mod Sql
pub mod Builder
