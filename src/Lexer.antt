-- ===== src/Lexer.antt =====
-- The lexer, crates/jdruby-lexer.
pub mod Token
pub mod Cursor
pub mod Operators
pub mod Literals
pub mod Scan
pub mod Ahead
pub mod Lexemes
pub mod Scanned
pub mod Reads
pub mod Tiles
pub mod Total
pub mod Unknown
pub mod Keywords
mod Tests
