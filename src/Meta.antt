-- ===== src/Meta.antt =====
-- The metaprogramming tables, crates/jdruby-meta.
pub mod Table
pub mod Cache
pub mod Resolver
