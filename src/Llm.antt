-- ===== src/Llm.antt =====
-- The crate crates/vlorql-llm: from the text of a model to a query plan.
pub mod Recover
pub mod Retry
pub mod Sse
