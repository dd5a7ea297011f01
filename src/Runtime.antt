-- ===== src/Runtime.antt =====
-- crates/jdruby-runtime: the parts of the runtime that the library models.
pub mod Fiber
