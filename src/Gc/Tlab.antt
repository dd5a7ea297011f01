-- ===== src/Gc/Tlab.antt =====
-- crates/jdgc/src/tlab.rs: a thread's allocation buffer over addresses. A null pointer is 0. The
-- counters are words that wrap, as in a build without overflow checks.
pub mod Laws
use jdruby.Base.{
  ℕ, ◌+◌, ◌-◌, ◌%◌, ◌^◌, Bool, not, Option, some, none, ltb, leb, ◌==◌, ◌||◌, ◌&&◌, if◌then◌else◌,
}
use jdruby.Gc.Util.{max_tlab_allocation, align_up}

-- The two fields that the source marks as unused are left out.
pub record Tlab : Type 0 where
  pub bump : ℕ
  pub end : ℕ
  pub allocated_count : ℕ
  pub remaining : ℕ

abbrev pub new : Tlab
new = record { bump = 0; end = 0; allocated_count = 0; remaining = 0 }

-- The size and the alignment of a `Layout`.
unfoldable pub allocate : ℕ → ℕ → Tlab → Option ℕ × Tlab
allocate size align t =
    let aligned_bump = align_up t.bump align in
    let new_bump = (aligned_bump + size) % 2 ^ 64 in
    if ltb max_tlab_allocation size
    then (none, t)
    else if t.bump == 0 || ltb t.remaining size
    then (none, t)
    else if ltb t.end new_bump
    then (none, t)
    else (
      some aligned_bump,
      record t {
        bump = new_bump;
        remaining = t.end - new_bump;
        allocated_count = (t.allocated_count + 1) % 2 ^ 64;
      },
    )

unfoldable pub can_allocate : ℕ → Tlab → Bool
can_allocate size t = not (t.bump == 0) && leb size t.remaining

unfoldable pub retire : Tlab → Tlab
retire t = record { bump = 0; end = 0; allocated_count = 0; remaining = 0 }

unfoldable pub is_active : Tlab → Bool
is_active t = not (t.bump == 0)

unfoldable pub init : ℕ → ℕ → Tlab → Tlab
init start end t = record {
  bump = start;
  end = end;
  allocated_count = 0;
  remaining = (end + 2 ^ 64 - start) % 2 ^ 64;
}

pub record TlabStats : Type 0 where
  pub allocations : ℕ
  pub slow_path_allocs : ℕ
  pub bytes_allocated : ℕ
  pub refills : ℕ

pub record ThreadLocalTlab : Type 0 where
  pub tlab : Tlab
  pub stats : TlabStats

abbrev pub counted : ℕ → TlabStats → Option ℕ × Tlab → Option ℕ × ThreadLocalTlab
counted size s (some p, t) = (
  some p,
  record {
    tlab = t;
    stats = record s {
      allocations = (s.allocations + 1) % 2 ^ 64;
      bytes_allocated = (s.bytes_allocated + size) % 2 ^ 64;
    };
  },
)
counted size s (none, t) = (
  none,
  record { tlab = t; stats = record s { slow_path_allocs = (s.slow_path_allocs + 1) % 2 ^ 64 } },
)

-- `ThreadLocalTlab::allocate` and `refill`
unfoldable pub allocate_counted : ℕ → ℕ → ThreadLocalTlab → Option ℕ × ThreadLocalTlab
allocate_counted size align l = counted size l.stats (allocate size align l.tlab)

unfoldable pub refill : ℕ → ℕ → ThreadLocalTlab → ThreadLocalTlab
refill start end l = record {
  tlab = init start end l.tlab;
  stats = record l.stats { refills = (l.stats.refills + 1) % 2 ^ 64 };
}
