-- ===== src/Common.antt =====
-- Spans and source files, crates/jdruby-common.
pub mod Source
