-- ===== src/Gc/Region.antt =====
-- crates/jdgc/src/region.rs: regions with bump allocation, and their manager. A region's memory is
-- a map from offsets to headers; a `usize` is a number below 2 ^ 64 and sums wrap. Relaxed atomics
-- are plain fields here: the operations of one thread. Floats of the garbage ratio are a parameter.
pub mod Manager
pub mod Laws
use jdruby.Base.{
  ℕ, zero, suc, ◌+◌, ◌-◌, ◌*◌, ◌/◌, ◌%◌, ◌^◌, Bool, Option, some, none, List, [], ◌∷◌, ◌++◌, map,
  ltb, leb, ◌==◌, not, length, set, get_elem?, retain, if◌then◌else◌, ◌&&◌, Outcome, done, panic,
}
use jdruby.Base.Assoc.{lookup, insert}
use jdruby.Base.Keys.{nat_eq}
use jdruby.Gc.Util.{region_size, obj_align, align_up}
use jdruby.Gc.Header.{ObjectHeader, init_at, total_size, header_size, is_white, reset_white}

abbrev pub usize : ℕ → ℕ
usize n = n % 2 ^ 64

pub record Region : Type 0 where
  pub id : ℕ
  pub base : ℕ
  pub bump : ℕ
  pub live_count : ℕ
  pub garbage_ratio : ℕ
  pub evacuation_target : Bool
  pub memory : List (ℕ × ObjectHeader)

-- `Region::new`, where the system's allocator gives the address `base`.
abbrev pub new : ℕ → ℕ → Region
new id base = record {
  id = id;
  base = base;
  bump = 0;
  live_count = 0;
  garbage_ratio = 0;
  evacuation_target = Bool.false;
  memory = [];
}

-- The bytes of an object with its header.
abbrev pub object_bytes : ℕ → ℕ
object_bytes payload = align_up (usize (header_size + payload)) obj_align

-- The header's offset instead of its address. `fetch_add` and `fetch_sub` wrap.
unfoldable pub allocate_object : ℕ → Region → Option ℕ × Region
allocate_object payload r =
    let total = object_bytes payload in
    let offset = r.bump in
    let moved = usize (offset + total) in
    if ltb region_size (usize (offset + total))
    then (none, record r { bump = usize (moved + 2 ^ 64 - total) })
    else (
      some offset,
      record r {
        bump = moved;
        live_count = usize (r.live_count + 1);
        memory = insert offset (init_at (r.base + offset) payload) r.memory;
      },
    )

unfoldable pub can_allocate : ℕ → Region → Bool
can_allocate size r = leb (usize (r.bump + size)) region_size

unfoldable pub remaining : Region → ℕ
remaining r = usize (region_size + 2 ^ 64 - r.bump)

unfoldable pub is_empty : Region → Bool
is_empty r = r.live_count == 0

-- `ratio total dead` stands for the float `(dead / total) * 1000.0` as an integer.
unfoldable pub update_garbage_ratio : (ℕ → ℕ → ℕ) → ℕ → Region → Region
update_garbage_ratio ratio live_objects r =
    if ltb 0 r.live_count
    then record r {
      garbage_ratio = ratio r.live_count (usize (r.live_count + 2 ^ 64 - live_objects));
    }
    else r

unfoldable pub set_evacuation_target : Bool → Region → Region
set_evacuation_target b r = record r { evacuation_target = b }

unfoldable pub reset : Region → Region
reset r = record r { bump = 0; live_count = 0; garbage_ratio = 0; evacuation_target = Bool.false }

unfoldable pub contains : ℕ → Region → Bool
contains addr r = leb r.base addr && ltb addr (usize (r.base + region_size))

-- One object of `iter_objects`: the offset of the next one.
abbrev pub next_offset : ℕ → ObjectHeader → ℕ
next_offset offset h = usize (offset + align_up (usize (total_size h)) obj_align)

abbrev pub prepend {ℓ} : {A : Type ℓ} → A → Option (List A) → Option (List A)
prepend x none = none
prepend x (some xs) = some (x ∷ xs)

-- The offsets and headers that the loop of `iter_objects` visits from an offset on. `none`: the
-- fuel ends, or there is no header at an offset (the source would read whatever bytes are there).
unfoldable pub iter_objects : ℕ → ℕ → Region → Option (List (ℕ × ObjectHeader))
iter_objects zero offset r = if ltb offset r.bump then none else some []
iter_objects (suc n) offset r = elim (lookup offset r.memory) [
  | none ↦ if ltb offset r.bump then none else some []
  | some h ↦
      let rest = iter_objects n (next_offset offset h) r in
      if ltb offset r.bump then prepend (offset, h) rest else some []
]
