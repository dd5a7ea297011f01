-- ===== src/Parser/Total.antt =====
-- The parser ends: the promises of its functions, and of `parse`.
pub mod Lists
pub mod Bodies
pub mod Primary
pub mod Calling
pub mod Expression
pub mod Definitions
pub mod Control
pub mod Statement
pub mod Program
pub mod Source
