-- ===== src/Mir/Optimize.antt =====
-- crates/jdruby-mir/src/optimize.rs: the passes over one function's blocks.
pub mod Constants
pub mod Remove
pub mod Reach
pub mod Straight
pub mod Known
pub mod FoldSound
pub mod Rounds
