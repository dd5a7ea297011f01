-- ===== src/Jit.antt =====
-- crates/jdruby-jit: the interpreter of MIR.
pub mod Value
pub mod Exec
