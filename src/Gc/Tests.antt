-- ===== src/Gc/Tests.antt =====
-- The theorems on jdgc at concrete words, buffers and regions.
use jdruby.Base.{◌*◌, ◌/◌, ◌≡◌, refl, false, some, [], ◌∷◌, arith}
use jdruby.Base.Assoc.{lookup}
use jdruby.Gc.Util.{region_size}
use jdruby.Gc.Header.{install_loop, installed, try_shade_gray}
use jdruby.Gc.Header.Laws.{try_shade_gray-Shades, Shades}
use jdruby.Gc.Header.Forward.{install_loop-Installs, Installs}
use jdruby.Gc.Tlab.{Tlab, allocate}
use jdruby.Gc.Tlab.Laws.{IsBuffer, Allocates, allocate-Allocates}
use jdruby.Gc.Region.{Region, allocate_object, iter_objects}
use jdruby.Gc.Region.Laws.{IsRegion, Objects, iter_objects-visits, Places, allocate_object-Places}
use jdruby.Gc.Region.Manager
use jdruby.Gc.Region.Manager.{RegionManager, sweep_region}
use jdruby.Gc.Region.Manager.Sweep.{dead, all_white, sweep_region-frees}
use jdruby.Gc.Region.Manager.Space.{Serves, allocate-Serves}

try_shade_gray-Shades_example : Shades 0x1000 0x1000 (try_shade_gray 0x1000 0x1000)
try_shade_gray-Shades_example = try_shade_gray-Shades 0x1000 0x1000 (omega arith)

-- Another thread shades the word black between the first exchange and the second.
install_loop-Installs_example :
    Installs 0x1000 0x2000 0x1000 (0x1002 ∷ 0x1002 ∷ []) (installed 0x2000 0x2002)
unfolding install_loop
install_loop-Installs_example =
    install_loop-Installs 0x1000 0x2000 0x1000 (0x1002 ∷ 0x1002 ∷ []) (installed 0x2000 0x2002)
      (omega arith) refl refl

abbrev buffer : Tlab
buffer = record { bump = 0x1001; end = 0x2000; allocated_count = 0; remaining = 0xFFF }

buffer-IsBuffer : IsBuffer buffer
buffer-IsBuffer = (omega arith, omega arith, refl)

allocate-Allocates_example :
    IsBuffer (allocate 100 8 buffer).1 × Allocates 100 8 buffer (allocate 100 8 buffer)
allocate-Allocates_example = allocate-Allocates 100 3 buffer (omega arith) buffer-IsBuffer

-- A region with one object of 20 bytes.
abbrev one_object : Objects
one_object = (0, record { bits = 0x200002; payload_size = 20 }) ∷ []

abbrev small_region : Region
small_region = record {
  id = 0;
  base = 0x200000;
  bump = 40;
  live_count = 1;
  garbage_ratio = 0;
  evacuation_target = false;
  memory = one_object;
}

small_IsRegion : IsRegion one_object small_region
unfolding lookup
small_IsRegion = ((refl, refl, omega arith, refl), omega arith, refl)

iter_objects-visits_example : iter_objects (region_size / 16) 0 small_region ≡ some one_object
iter_objects-visits_example = iter_objects-visits one_object small_region small_IsRegion

allocate_object-Places_example : Places 64 one_object small_region (allocate_object 64 small_region)
allocate_object-Places_example =
    allocate_object-Places 64 one_object small_region (omega arith) small_IsRegion

sweep_region-frees_example :
    (s : Region) × (sweep_region (region_size / 16) 40 0 small_region ≡ some (dead one_object, s))
    × IsRegion (all_white one_object) s
sweep_region-frees_example = sweep_region-frees one_object small_region small_IsRegion

abbrev heap : RegionManager
heap = record { regions = small_region ∷ []; current_region = 0; total_size = 2 * 1024 * 1024 }

allocate-Serves_example : Serves 64 heap (Manager.allocate 64 heap)
allocate-Serves_example = allocate-Serves 64 heap (omega arith) (omega arith, tt)
