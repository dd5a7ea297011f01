-- ===== src/Gc/Region/Manager/Space.antt =====
-- The search for a region with room in `RegionManager::allocate`.
use mathlib.Core.Path.{subst}
use jdruby.Base.{
  ℕ, zero, suc, ◌+◌, ◌^◌, ◌≤◌, ◌<◌, ◌≡◌, refl, ap, sym, ◌∙◌, false, Option, some, none, List, [],
  ◌∷◌, All, length, get_elem?, set, ltb, arith, Option-cases, Bool-cases, inl, inr, Outcome, done,
  panic,
}
use jdruby.Gc.Util.{region_size}
use jdruby.Gc.Region.{Region, can_allocate}
use jdruby.Gc.Region.Manager.{RegionManager, Place, find_space, allocate}
use jdruby.Gc.Region.Laws.{rounded, allocate_full, allocate_fits}

abbrev pub InBounds : Region → Type 0
InBounds r = r.bump ≤ region_size

-- A region with no room for an object of this payload.
abbrev pub IsFull : ℕ → Region → Type 0
IsFull size r = region_size < r.bump + rounded size

-- The outcome of the search: an answer, or every region is full and none has changed.
abbrev pub Searches : ℕ → List Region → ℕ × Option Place × List Region → Type 0
Searches size rs (c, none, rs') = All (IsFull size) rs × (rs' ≡ rs)
Searches size rs (c, some p, rs') = Unit {0}

full_on :
    (size c : ℕ) (r : Region) (rs : List Region) (o : ℕ × Option Place × List Region)
    → IsFull size r
    → Searches size rs o
    → Searches size (r ∷ rs) (o.0, o.1, r ∷ o.2)
full_on size c r rs (d, none, rs') h s = ((h, s.0), ap (λ x. r ∷ x) s.1)
full_on size c r rs (d, some p, rs') h s = tt

room_can :
    (size : ℕ) (r : Region)
    → size < 2 ^ 63
    → InBounds r
    → can_allocate size r ≡ false
    → IsFull size r
unfolding can_allocate
room_can size r k b h = ground arith

find_space-Searches :
    (size i c : ℕ) (rs : List Region)
    → size < 2 ^ 63
    → All InBounds rs
    → Searches size rs (find_space size i c rs)
unfolding find_space
find_space-Searches size i c [] k b = (tt, refl)
find_space-Searches size i c (r ∷ rs) k b =
    elim (Bool-cases (can_allocate size r))
      as (λ _. Searches size (r ∷ rs) (find_space size i c (r ∷ rs))) [
        | inr shut ↦ rw shut (
            full_on size c r rs (find_space size (i + 1) c rs) (room_can size r k b.0 shut)
              (find_space-Searches size (i + 1) c rs k b.1))
        | inl can ↦
            elim (Bool-cases (ltb region_size (r.bump + rounded size)))
              as (λ _. Searches size (r ∷ rs) (find_space size i c (r ∷ rs))) [
                | inl full ↦
                    rw (can, allocate_full size r k b.0 full)
                      (full_on size c r rs (find_space size (i + 1) i rs) (ground arith)
                        (find_space-Searches size (i + 1) i rs k b.1))
                | inr fits ↦ rw (can, allocate_fits size r k b.0 fits) tt
              ]
      ]

set_same : (rs : List Region) (i : ℕ) (r : Region) → get_elem? rs i ≡ some r → set rs i r ≡ rs
set_same [] i r h = refl
set_same (x ∷ rs) zero r h = cc
set_same (x ∷ rs) (suc i) r h = ap (λ t. x ∷ t) (set_same rs i r h)

pub at_bound :
    (rs : List Region) (i : ℕ) (r : Region) → All InBounds rs → get_elem? rs i ≡ some r → InBounds r
at_bound [] i r b h = cc
at_bound (x ∷ rs) zero r b h = let e : x ≡ r = cc in subst InBounds e b.0
at_bound (x ∷ rs) (suc i) r b h = at_bound rs i r b.1 h

-- The answer of `allocate`: an object, or no region had room and the regions are as they were.
abbrev pub Serves : ℕ → RegionManager → Outcome (Option Place × RegionManager) → Type 0
Serves size m panic = length m.regions ≤ m.current_region
Serves size m (done (some p, m')) = Unit {0}
Serves size m (done (none, m')) = All (IsFull size) m.regions × (m'.regions ≡ m.regions)

served :
    (size : ℕ) (m : RegionManager) (rs : List Region) (o : ℕ × Option Place × List Region)
    → rs ≡ m.regions
    → Searches size rs o
    → Serves size m (done (o.1, record m { regions = o.2; current_region = o.0 }))
served size m rs (c, none, rs') e s = (subst (All (IsFull size)) e s.0, s.1 ∙ e)
served size m rs (c, some p, rs') e s = tt

out_of_range : (rs : List Region) (i : ℕ) → get_elem? rs i ≡ none → length rs ≤ i
out_of_range [] i h = omega arith
out_of_range (x ∷ rs) zero h = cc
out_of_range (x ∷ rs) (suc i) h = omega (arith, out_of_range rs i h)

-- `RegionManager::allocate` for a size below 2 ^ 63 on regions whose bump pointers are in bounds:
-- it panics only where the index of the current region is out of range, and it answers with no
-- object only where not one region has room for the object, and then every region is as it was.
pub allocate-Serves :
    (size : ℕ) (m : RegionManager)
    → size < 2 ^ 63
    → All InBounds m.regions
    → Serves size m (allocate size m)
unfolding allocate
allocate-Serves size m k b =
    elim (Option-cases (get_elem? m.regions m.current_region))
      as (λ _. Serves size m (allocate size m)) [
        | inl e ↦ rw (allocate, e) (out_of_range m.regions m.current_region e)
        | inr (r, e) ↦
            let c = at_bound m.regions m.current_region r b e in
            elim (Bool-cases (ltb region_size (r.bump + rounded size)))
              as (λ _. Serves size m (allocate size m)) [
                | inl full ↦
                    let rs = set m.regions m.current_region r in
                    let same = set_same m.regions m.current_region r e in
                    rw (allocate, e, allocate_full size r k c full)
                      (served size m rs (find_space size 0 m.current_region rs) same (
                        find_space-Searches size 0 m.current_region rs k
                          (subst (All InBounds) (sym same) b)))
                | inr fits ↦ rw (allocate, e, allocate_fits size r k c fits) tt
              ]
      ]
