-- ===== src/Gc.antt =====
-- crates/jdgc: the garbage collector's headers, regions and allocation buffers.
pub mod Util
pub mod Header
pub mod Tlab
pub mod Region
pub mod Marker
pub mod Roots
pub mod Collector
mod Tests
