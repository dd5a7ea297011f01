-- ===== src/Gc/Region/Laws.antt =====
-- The objects in a region of region.rs under allocation, and the loop of `iter_objects`.
use jdruby.Base.{
  ℕ, zero, suc, ◌+◌, ◌-◌, ◌*◌, ◌/◌, ◌%◌, ◌^◌, ◌≤◌, ◌<◌, ◌≡◌, refl, sym, true, false, Option, some,
  none, List, [], ◌∷◌, ◌++◌, length, ltb, arith, Option-cases, Bool-cases, inl, inr,
}
use jdruby.Base.Assoc.{lookup, insert, lookup-insert}
use jdruby.Base.Keys.{nat_eq}
use jdruby.Gc.Util.{region_size, align_up_eight}
use jdruby.Gc.Header.{ObjectHeader, init_at, total_size}
use jdruby.Gc.Region.{
  usize, Region, new, object_bytes, allocate_object, reset, iter_objects, next_offset,
}

abbrev pub Objects : Type 0
Objects = List (ℕ × ObjectHeader)

-- The bytes of an object: header and payload, rounded up to a multiple of 8.
abbrev pub rounded : ℕ → ℕ
rounded payload = (16 + payload + 7) / 8 * 8

-- The objects of the list lie in the memory one behind the other, from the offset `lo` to `hi`.
abbrev pub Laid : ℕ → ℕ → Objects → Objects → Type 0
Laid lo hi [] m = lo ≡ hi
Laid lo hi ((p, h) ∷ os) m =
    (p ≡ lo)
    × (lookup lo m ≡ some h)
    × (h.payload_size < 2 ^ 63)
    × Laid (lo + rounded h.payload_size) hi os m

-- A region whose objects are those of the list, up to the bump pointer.
abbrev pub IsRegion : Objects → Region → Type 0
IsRegion os r = Laid 0 r.bump os r.memory × (r.bump ≤ region_size) × (r.bump % 8 ≡ 0)

pub object_bytes-rounded : (payload : ℕ) → payload < 2 ^ 63 → object_bytes payload ≡ rounded payload
object_bytes-rounded payload h = ground (arith, align_up_eight (16 + payload) (omega arith))

pub Laid-le : (lo hi : ℕ) (os m : Objects) → Laid lo hi os m → lo + 16 * length os ≤ hi
Laid-le lo hi [] m h = omega arith
Laid-le lo hi ((p, x) ∷ os) m h = omega (arith, Laid-le (lo + rounded x.payload_size) hi os m h.3)

pub next_offset-rounded :
    (o : ℕ) (h : ObjectHeader)
    → h.payload_size < 2 ^ 63
    → o ≤ region_size
    → next_offset o h ≡ o + rounded h.payload_size
unfolding total_size
next_offset-rounded o h k l = ground (arith, object_bytes-rounded h.payload_size k)

-- With as much fuel as objects, `iter_objects` visits the objects from an offset on.
iter_from :
    (n lo : ℕ) (os : Objects) (r : Region)
    → length os ≤ n
    → r.bump ≤ region_size
    → Laid lo r.bump os r.memory
    → iter_objects n lo r ≡ some os
unfolding iter_objects
iter_from zero lo [] r k b h = ground arith
iter_from zero lo (x ∷ os) r k b h = absurd (omega arith)
iter_from (suc n) lo [] r k b h = elim (Option-cases (lookup lo r.memory)) [
  | inl e ↦ rw (iter_objects, e) (ground arith)
  | inr (x, e) ↦ rw (iter_objects, e) (ground arith)
]
iter_from (suc n) lo ((p, x) ∷ os) r k b h =
    let room = Laid-le lo r.bump ((p, x) ∷ os) r.memory h in
    let below : ltb lo r.bump ≡ true = ground (arith, room) in
    let rest = iter_from n (lo + rounded x.payload_size) os r (omega arith) b h.3 in
    rw (iter_objects, h.1, next_offset-rounded lo x h.2 (omega (arith, room, b)), rest, below, h.0)
      refl

-- `iter_objects` from the start of a region, with a fuel of one for every 16 bytes of it: it ends
-- and visits exactly the objects of the region, each once and in the order of their offsets.
pub iter_objects-visits :
    (os : Objects) (r : Region) → IsRegion os r → iter_objects (region_size / 16) 0 r ≡ some os
iter_objects-visits os r h =
    iter_from (region_size / 16) 0 os r (omega (arith, Laid-le 0 r.bump os r.memory h.0, h.1)) h.1
      h.0

Laid-push :
    (lo hi : ℕ) (os m : Objects) (h : ObjectHeader)
    → h.payload_size < 2 ^ 63
    → Laid lo hi os m
    → Laid lo (hi + rounded h.payload_size) (os ++ (hi, h) ∷ []) (insert hi h m)
Laid-push lo hi [] m h k l = (sym l, ground (arith, lookup-insert hi lo h m), k, omega (arith, l))
Laid-push lo hi ((p, x) ∷ os) m h k l =
    let room = Laid-le lo hi ((p, x) ∷ os) m l in
    (
      l.0,
      ground (arith, lookup-insert hi lo h m, room),
      l.2,
      Laid-push (lo + rounded x.payload_size) hi os m h k l.3,
    )

-- What `allocate_object` does to a region whose objects are `os`.
abbrev pub Places : ℕ → Objects → Region → Option ℕ × Region → Type 0
Places payload os r (none, s) = (s ≡ r) × (region_size < r.bump + rounded payload)
Places payload os r (some p, s) =
    (p ≡ r.bump)
    × (p % 8 ≡ 0)
    × (p + rounded payload ≡ s.bump)
    × IsRegion (os ++ (p, init_at (r.base + p) payload) ∷ []) s

pub allocate_full :
    (payload : ℕ) (r : Region)
    → payload < 2 ^ 63
    → r.bump ≤ region_size
    → ltb region_size (r.bump + rounded payload) ≡ true
    → allocate_object payload r ≡ (none, r)
unfolding allocate_object
allocate_full payload r k b full =
    let e = object_bytes-rounded payload k in
    let moved : usize (r.bump + object_bytes payload) ≡ r.bump + rounded payload =
      omega (arith, e) in
    let back : usize (r.bump + rounded payload + 2 ^ 64 - object_bytes payload) ≡ r.bump =
      omega (arith, e) in
    rw (moved, full, back) refl

pub allocate_fits :
    (payload : ℕ) (r : Region)
    → payload < 2 ^ 63
    → r.bump ≤ region_size
    → ltb region_size (r.bump + rounded payload) ≡ false
    → allocate_object payload r ≡ (
      some r.bump,
      record r {
        bump = r.bump + rounded payload;
        live_count = usize (r.live_count + 1);
        memory = insert r.bump (init_at (r.base + r.bump) payload) r.memory;
      },
    )
unfolding allocate_object
allocate_fits payload r k b fits =
    let e = object_bytes-rounded payload k in
    let moved : usize (r.bump + object_bytes payload) ≡ r.bump + rounded payload =
      omega (arith, e) in
    rw (moved, fits) refl

-- `allocate_object` for a region with the objects `os` and a payload below 2 ^ 63 bytes: it fails
-- exactly where the object does not fit, and then leaves the region as it was; else the new object
-- stands, aligned, behind all the others, the bump pointer is at its end, and the objects are `os`
-- and then the new one, with the header that `init_at` gives it.
pub allocate_object-Places :
    (payload : ℕ) (os : Objects) (r : Region)
    → payload < 2 ^ 63
    → IsRegion os r
    → Places payload os r (allocate_object payload r)
unfolding init_at
allocate_object-Places payload os r k h =
    elim (Bool-cases (ltb region_size (r.bump + rounded payload)))
      as (λ _. Places payload os r (allocate_object payload r)) [
        | inl full ↦ rw (allocate_full payload r k h.1 full) (refl, ground arith)
        | inr fits ↦ rw (allocate_fits payload r k h.1 fits) (
          refl,
          h.2,
          refl,
          (
            Laid-push 0 r.bump os r.memory (init_at (r.base + r.bump) payload) k h.0,
            ground arith,
            omega (arith, h.2),
          ),
        )
      ]

-- A new region and a region after `reset` have no objects, whatever the region held.
pub reset-IsRegion : (id base : ℕ) (r : Region) → IsRegion [] (new id base) × IsRegion [] (reset r)
unfolding reset
reset-IsRegion id base r = ((refl, omega arith, refl), (refl, omega arith, refl))
