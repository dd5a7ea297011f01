-- ===== src/Gc/Roots/Tests.antt =====
-- The roots and the heap's sizes on small inputs.
use jdruby.Base.{◌≡◌, refl, arith, Option, [], ◌∷◌, done}
use jdruby.Gc.Roots.{register}
use jdruby.Gc.Roots.Laws.{IsRootSet, Registers, register-Registers}
use jdruby.Gc.Roots.{RootSet}
use jdruby.Gc.Region.{new}
use jdruby.Gc.Region.Manager.{Place}
use jdruby.Gc.Util.{region_size}
use jdruby.Gc.Collector.{Heap, heap_allocate}
use jdruby.Gc.Collector.Laws.{Accounts, heap_allocate-IsSized}

abbrev one_root : RootSet
one_root = record { roots = (1, 4096) ∷ []; next_id = 2; max_roots = 10 }

one_root-IsRootSet : IsRootSet one_root
one_root-IsRootSet = record {
  below = (omega arith, tt);
  not_null = ((λ e. ground arith), tt);
  apart = (tt, tt);
  fits = omega arith;
}

register-Registers_example : Registers 8192 one_root (register 8192 one_root)
register-Registers_example = register-Registers 8192 one_root one_root-IsRootSet (omega arith)

abbrev one_region : Heap
one_region = record {
  region_manager = record {
    regions = new 0 4096 ∷ [];
    current_region = 0;
    total_size = region_size;
  };
  total_allocated = 0;
  gc_cycles = 0;
}

heap_allocate-IsSized_example :
    (o : Option Place × Heap) × (heap_allocate 64 one_region ≡ done o) × Accounts 64 one_region o
heap_allocate-IsSized_example = heap_allocate-IsSized 64 one_region (omega arith) (record {
  in_bounds = (omega arith, tt);
  current = omega arith;
  total = refl;
  fits = omega arith;
})
