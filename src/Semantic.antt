-- ===== src/Semantic.antt =====
-- crates/jdruby-semantic: the types and the scopes of the semantic analysis.
pub mod Types
pub mod Scope
mod Tests
