-- ===== src/Gc/Collector/Laws.antt =====
-- crates/jdgc/src/collector.rs and heap.rs: the sizes of the heap.
use jdruby.Base.{
  ◌-◌, ℕ, ◌+◌, ◌*◌, ◌%◌, ◌^◌, ◌≤◌, ◌<◌, ◌≡◌, refl, Option, some, none, List, [], ◌∷◌, All, length,
  ltb, if◌then◌else◌, arith, done,
}
use jdruby.Gc.Util.{region_size}
use jdruby.Gc.Region.{Region}
use jdruby.Gc.Region.Manager.{RegionManager, Place, allocate, used_bytes}
use jdruby.Gc.Region.Manager.Space.{InBounds}
use jdruby.Gc.Collector.Sizes.{IsSized, allocate-IsSized}
use jdruby.Gc.Collector.{
  Heap, heap_allocate, count_allocated, free_bytes, Collector, calculate_new_size,
}

used_bytes-le : (rs : List Region) → All InBounds rs → used_bytes rs ≤ length rs * region_size
unfolding used_bytes
used_bytes-le [] b = omega arith
used_bytes-le (r ∷ rs) b = omega (arith, b.0, used_bytes-le rs b.1)

used_and_free :
    (m : RegionManager)
    → IsSized m
    → (used_bytes m.regions ≤ m.total_size)
      × ((m.total_size + (2 ^ 64 - used_bytes m.regions)) % 2 ^ 64 + used_bytes m.regions
          ≡ m.total_size)
used_and_free m v =
    let u = used_bytes-le m.regions v.in_bounds in
    (omega (arith, u, v.total), omega (arith, u, v.total, v.fits))

-- What the heap is after an allocation with this answer.
abbrev pub Accounts : ℕ → Heap → Option Place × Heap → Type 0
Accounts size h o =
    IsSized o.1.region_manager
    × (o.1.total_allocated
        ≡ elim o.0 [ some p ↦ (h.total_allocated + size) % 2 ^ 64 | none ↦ h.total_allocated ])
    × (used_bytes o.1.region_manager.regions ≤ o.1.region_manager.total_size)
    × (free_bytes o.1 + used_bytes o.1.region_manager.regions ≡ o.1.region_manager.total_size)

-- Where the regions' sizes are kept, an allocation does not panic and keeps them; the heap counts the
-- bytes of an object that it gives; and the bytes in use are at most the whole size, so that the free
-- bytes are their difference and nothing wraps.
pub heap_allocate-IsSized :
    (size : ℕ) (h : Heap)
    → size < 2 ^ 63
    → IsSized h.region_manager
    → (o : Option Place × Heap) × (heap_allocate size h ≡ done o) × Accounts size h o
unfolding heap_allocate free_bytes
heap_allocate-IsSized size h k w =
    let (r, e, v) = allocate-IsSized size h.region_manager k w in counted r e v
  where
    counted :
        (r : Option Place × RegionManager)
        → allocate size h.region_manager ≡ done r
        → IsSized r.1
        → (o : Option Place × Heap) × (heap_allocate size h ≡ done o) × Accounts size h o
    counted (some p, m) e v =
        let (u, f) = used_and_free m v in
        (count_allocated size h (some p, m), rw e refl, (v, refl, u, f))
    counted (none, m) e v =
        let (u, f) = used_and_free m v in
        (count_allocated size h (none, m), rw e refl, (v, refl, u, f))

-- The new heap size is within the configured bounds, whatever the float product gives, and it is
-- that product where it is within them; where the bounds are the wrong way round the code panics.
pub calculate_new_size-bounds :
    (scaled : ℕ → ℕ) (live : ℕ) (c : Collector)
    → c.config.min_heap_size ≤ c.config.max_heap_size
    → (n : ℕ) × (calculate_new_size scaled live c ≡ done n)
      × (c.config.min_heap_size ≤ n)
      × (n ≤ c.config.max_heap_size)
      × (c.config.min_heap_size ≤ scaled live
          → scaled live ≤ c.config.max_heap_size
          → n ≡ scaled live)
unfolding calculate_new_size
calculate_new_size-bounds scaled live c h = (
  (if ltb (scaled live) c.config.min_heap_size
      then c.config.min_heap_size
      else if ltb c.config.max_heap_size (scaled live)
      then c.config.max_heap_size
      else scaled live),
  ground arith,
  ground arith,
  ground arith,
  λ p q. ground arith,
)
