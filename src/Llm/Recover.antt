-- ===== src/Llm/Recover.antt =====
-- Recovery of JSON from the text of a model: crates/vlorql-llm/src/parser_v2/recover.
pub mod Chars
pub mod Bracket
pub mod Json
pub mod Repair
pub mod Best
pub mod Markdown
pub mod Extract
