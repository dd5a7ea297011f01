-- ===== src/Codegen.antt =====
-- Code generation, crates/jdruby-codegen.
pub mod Registers
