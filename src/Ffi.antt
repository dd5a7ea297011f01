-- ===== src/Ffi.antt =====
-- crates/jdruby-ffi and the C types that it shares with the runtime.
pub mod Tags
pub mod Symbols
