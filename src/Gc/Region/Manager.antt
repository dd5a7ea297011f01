-- ===== src/Gc/Region/Manager.antt =====
-- `RegionManager` of region.rs, and `Allocator` of allocator.rs on top of it.
pub mod Space
pub mod Sweep
use jdruby.Base.{
  ℕ, zero, suc, ◌+◌, ◌-◌, ◌*◌, ◌/◌, ◌%◌, ◌^◌, Bool, Option, some, none, List, [], ◌∷◌, ◌++◌, ltb,
  leb, map, length, set, get_elem?, retain, if◌then◌else◌, Outcome, done, panic, ◌>>=◌,
}
use jdruby.Base.Assoc.{lookup, insert}
use jdruby.Base.Keys.{nat_eq}
use jdruby.Gc.Util.{region_size}
use jdruby.Gc.Header.{ObjectHeader, is_white, reset_white}
use jdruby.Gc.Region.{Region, usize, new, allocate_object, can_allocate, reset, next_offset}

pub record RegionManager : Type 0 where
  pub regions : List Region
  pub current_region : ℕ
  pub total_size : ℕ

-- The regions of the ids from `id` on; the system's allocator gives the addresses `base id`.
unfoldable pub fresh_regions : (ℕ → ℕ) → ℕ → ℕ → List Region
fresh_regions base zero id = []
fresh_regions base (suc n) id = new id (base id) ∷ fresh_regions base n (id + 1)

unfoldable pub new_manager : (ℕ → ℕ) → ℕ → RegionManager
new_manager base initial_size =
    let num_regions = usize (initial_size + region_size + 2 ^ 64 - 1) / region_size in
    record {
      regions = fresh_regions base num_regions 0;
      current_region = 0;
      total_size = usize (num_regions * region_size);
    }

-- The answer of `allocate`: the region's index and the offset in it.
abbrev pub Place : Type 0
Place = ℕ × ℕ

-- The region `i` was tried: the object is there, or the search goes on with what it finds later.
abbrev pub after_try :
    ℕ
    → List Region
    → Option ℕ × Region
    → ℕ × Option Place × List Region
    → ℕ × Option Place × List Region
after_try i rs (some p, r) later = (i, some (i, p), r ∷ rs)
after_try i rs (none, r) later = (later.0, later.1, r ∷ later.2)

-- The search of `allocate` from the index `i` on, over the regions that are left. It gives the new
-- current region, the answer and those regions afterwards.
unfoldable pub find_space : ℕ → ℕ → ℕ → List Region → ℕ × Option Place × List Region
find_space size i current [] = (current, none, [])
find_space size i current (r ∷ rs) =
    let skipped = find_space size (i + 1) current rs in
    let failed = find_space size (i + 1) i rs in
    if can_allocate size r
    then after_try i rs (allocate_object size r) failed
    else (skipped.0, skipped.1, r ∷ skipped.2)

-- The current region was tried first.
abbrev pub after_current : ℕ → RegionManager → Option ℕ × Region → Option Place × RegionManager
after_current size m (some p, r) =
    (some (m.current_region, p), record m { regions = set m.regions m.current_region r })
after_current size m (none, r) =
    let found = find_space size 0 m.current_region (set m.regions m.current_region r) in
    (found.1, record m { regions = found.2; current_region = found.0 })

-- `self.regions[current]` panics where there is no such region.
unfoldable pub allocate : ℕ → RegionManager → Outcome (Option Place × RegionManager)
allocate size m = elim (get_elem? m.regions m.current_region) [
  | none ↦ panic
  | some r ↦ done (after_current size m (allocate_object size r))
]

unfoldable pub used_bytes : List Region → ℕ
used_bytes [] = 0
used_bytes (r ∷ rs) = usize (r.bump + used_bytes rs)

unfoldable pub expand : (ℕ → ℕ) → ℕ → RegionManager → RegionManager
expand base additional_size m =
    let num_regions = usize (additional_size + region_size + 2 ^ 64 - 1) / region_size in
    record m {
      regions = m.regions ++ fresh_regions base num_regions (length m.regions);
      total_size = usize (m.total_size + num_regions * region_size);
    }

-- `above` stands for the comparison of the float ratio with the threshold.
unfoldable pub find_evacuation_targets : (ℕ → Bool) → RegionManager → List Region
find_evacuation_targets above m = retain (λ r. above r.garbage_ratio) m.regions

-- The body of `sweep_unmarked`: what is freed, and the header that is left.
abbrev pub sweep_header : ObjectHeader → ObjectHeader
sweep_header h = if is_white h.bits then h else record h { bits = reset_white h.bits }

abbrev pub Freed : Type 0
Freed = List (ℕ × ObjectHeader)

abbrev pub note_freed : ℕ → ObjectHeader → Option (Freed × Region) → Option (Freed × Region)
note_freed offset h none = none
note_freed offset h (some (freed, r)) =
    some ((if is_white h.bits then (offset, h) ∷ freed else freed), r)

-- The loop of `iter_objects` with the body of `sweep_unmarked`, up to the bump pointer `bump` that
-- was loaded before it.
unfoldable pub sweep_region : ℕ → ℕ → ℕ → Region → Option (Freed × Region)
sweep_region zero bump offset r = if ltb offset bump then none else some ([], r)
sweep_region (suc n) bump offset r = elim (lookup offset r.memory) [
  | none ↦ if ltb offset bump then none else some ([], r)
  | some h ↦
      let swept = record r { memory = insert offset (sweep_header h) r.memory } in
      let rest = sweep_region n bump (next_offset offset (sweep_header h)) swept in
      if ltb offset bump then note_freed offset h rest else some ([], r)
]

abbrev pub join_swept :
    Option (Freed × Region) → Option (Freed × List Region) → Option (Freed × List Region)
join_swept (some (f, r)) (some (fs, rs)) = some (f ++ fs, r ∷ rs)
join_swept (some p) none = none
join_swept none q = none

-- `sweep_unmarked` over the regions; an object has 16 bytes at least, which bounds each loop.
unfoldable pub sweep_unmarked : List Region → Option (Freed × List Region)
sweep_unmarked [] = some ([], [])
sweep_unmarked (r ∷ rs) =
    join_swept (sweep_region (region_size / 16) r.bump 0 r) (sweep_unmarked rs)

unfoldable pub reset_all : RegionManager → RegionManager
reset_all m = record m { regions = map reset m.regions; current_region = 0 }

pub data AllocationError : Type 0 where
  out_of_memory invalid_size region_full invalid_alignment : AllocationError

pub record Allocator : Type 0 where
  pub heap : RegionManager
  pub allocated_bytes : ℕ

-- The outer outcome is a panic, the inner answer an address or an error.
unfoldable pub allocate_layout : ℕ → Allocator → Outcome (Option Place × Allocator)
allocate_layout size a = allocate size a.heap >>= λ r. done (
  r.0,
  record {
    heap = r.1;
    allocated_bytes = elim r.0 [
      | some p ↦ usize (a.allocated_bytes + size)
      | none ↦ a.allocated_bytes
    ];
  },
)
