-- ===== src/Facade.antt =====
-- The crate crates/vlorql: questions put to a model, with validation, retries and compilation.
pub mod Feedback
pub mod Query
pub mod Stream
