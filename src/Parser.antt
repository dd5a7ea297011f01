-- ===== src/Parser.antt =====
-- The parser, crates/jdruby-parser/src/parser.rs.
pub mod Kinds
pub mod State
pub mod Text
pub mod Calls
pub mod Lists
pub mod Primary
pub mod Runs
pub mod Current
pub mod Branches
pub mod Helpers
pub mod Calling
pub mod Expression
pub mod Definitions
pub mod Control
pub mod Statement
pub mod Total
pub mod Stuck
pub mod Grammar
mod Tests
