-- ===== src/Mir.antt =====
-- crates/jdruby-mir: the intermediate representation and its optimisation passes.
pub mod Nodes
pub mod Fold
pub mod Optimize
pub mod Peephole
pub mod Fusion
mod Tests
