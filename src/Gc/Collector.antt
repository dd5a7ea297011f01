-- ===== src/Gc/Collector.antt =====
-- crates/jdgc/src/collector.rs and heap.rs: the phases, the sizes and the counters of the collector,
-- and the heap on top of the region manager. A float is compared and scaled by a parameter.
pub mod Sizes
pub mod Laws
use jdruby.Base.{
  ℕ, ◌+◌, ◌*◌, ◌-◌, ◌%◌, ◌^◌, Bool, false, Option, some, none, List, length, ◌==◌, ◌||◌, ltb,
  if◌then◌else◌, Outcome, done, panic, ◌>>=◌,
}
use jdruby.Gc.Region.Manager.{
  RegionManager, Place, new_manager, allocate, used_bytes, expand, reset_all,
}

pub data GcPhase : Type 0 where
  idle marking evacuating sweeping : GcPhase

-- The float fields are in the parameters `exceeds` and `scaled` of the functions that read them.
pub record GcConfig : Type 0 where
  pub initial_heap_size : ℕ
  pub min_heap_size : ℕ
  pub max_heap_size : ℕ
  pub worker_threads : ℕ

abbrev pub default_gc_config : GcConfig
default_gc_config = record {
  initial_heap_size = 64 * 1024 * 1024;
  min_heap_size = 8 * 1024 * 1024;
  max_heap_size = 1024 * 1024 * 1024;
  worker_threads = 2;
}

pub record Collector : Type 0 where
  pub phase : GcPhase
  pub config : GcConfig
  pub gc_cycles : ℕ
  pub gc_time_ns : ℕ
  pub bytes_freed : ℕ
  pub target_pause_ms : ℕ

unfoldable pub new_collector : GcConfig → Collector
new_collector config = record {
  phase = idle;
  config = config;
  gc_cycles = 0;
  gc_time_ns = 0;
  bytes_freed = 0;
  target_pause_ms = 10;
}

unfoldable pub set_phase : GcPhase → Collector → Collector
set_phase phase c = record c { phase = phase }

-- `exceeds used capacity`: the ratio of the two is above the threshold.
unfoldable pub should_collect : (ℕ → ℕ → Bool) → ℕ → ℕ → Bool
should_collect exceeds used capacity =
    if used == 0 || capacity == 0 then false else exceeds used capacity

-- `clamp` of `Ord`, which panics where the bounds are the wrong way round.
abbrev pub clamp : ℕ → ℕ → ℕ → Outcome ℕ
clamp lo hi x =
    if ltb hi lo then panic else done (if ltb x lo then lo else if ltb hi x then hi else x)

-- `scaled live`: the float product with the growth factor, as an integer.
unfoldable pub calculate_new_size : (ℕ → ℕ) → ℕ → Collector → Outcome ℕ
calculate_new_size scaled live_bytes c =
    clamp c.config.min_heap_size c.config.max_heap_size (scaled live_bytes)

unfoldable pub set_target_pause : ℕ → Collector → Collector
set_target_pause ms c = record c { target_pause_ms = ms }

unfoldable pub record_cycle : ℕ → ℕ → Collector → Collector
record_cycle duration_ns freed c = record c {
  gc_cycles = (c.gc_cycles + 1) % 2 ^ 64;
  gc_time_ns = (c.gc_time_ns + duration_ns) % 2 ^ 64;
  bytes_freed = (c.bytes_freed + freed) % 2 ^ 64;
}

pub record Heap : Type 0 where
  pub region_manager : RegionManager
  pub total_allocated : ℕ
  pub gc_cycles : ℕ

unfoldable pub new_heap : (ℕ → ℕ) → GcConfig → Heap
new_heap base config = record {
  region_manager = new_manager base config.initial_heap_size;
  total_allocated = 0;
  gc_cycles = 0;
}

abbrev pub count_allocated : ℕ → Heap → Option Place × RegionManager → Option Place × Heap
count_allocated size h (some p, m) =
    (some p, record h { region_manager = m; total_allocated = (h.total_allocated + size) % 2 ^ 64 })
count_allocated size h (none, m) = (none, record h { region_manager = m })

unfoldable pub heap_allocate : ℕ → Heap → Outcome (Option Place × Heap)
heap_allocate size h = allocate size h.region_manager >>= λ r. done (count_allocated size h r)

-- The difference wraps in a release build.
unfoldable pub free_bytes : Heap → ℕ
free_bytes h =
    (h.region_manager.total_size + (2 ^ 64 - used_bytes h.region_manager.regions)) % 2 ^ 64

unfoldable pub should_gc : (ℕ → ℕ → Bool) → Heap → Bool
should_gc exceeds h =
    if h.region_manager.total_size == 0
    then exceeds 0 1
    else exceeds (used_bytes h.region_manager.regions) h.region_manager.total_size

unfoldable pub record_gc_cycle : Heap → Heap
record_gc_cycle h = record h { gc_cycles = (h.gc_cycles + 1) % 2 ^ 64 }

unfoldable pub heap_expand : (ℕ → ℕ) → ℕ → Heap → Heap
heap_expand base additional_bytes h = record h {
  region_manager = expand base additional_bytes h.region_manager;
}

unfoldable pub heap_reset : Heap → Heap
heap_reset h = record h { region_manager = reset_all h.region_manager; total_allocated = 0 }
