-- ===== src/Gc/Collector/Sizes.antt =====
-- crates/jdgc/src/heap.rs: the sizes of the regions under an allocation.
use jdruby.Base.{
  ℕ, zero, suc, ◌+◌, ◌*◌, ◌^◌, ◌≤◌, ◌<◌, ◌≡◌, refl, ap, ◌∙◌, Option, some, none, List, [], ◌∷◌, All,
  length, get_elem?, set, ltb, if-either, arith, Bool-cases, inl, inr, done,
}
use jdruby.Gc.Util.{region_size}
use jdruby.Gc.Region.{Region, can_allocate, allocate_object}
use jdruby.Gc.Region.Manager.{RegionManager, Place, find_space, allocate, after_try, after_current}
use jdruby.Gc.Region.Manager.Space.{InBounds, at_bound}
use jdruby.Gc.Region.Laws.{rounded, allocate_full, allocate_fits}

-- Bump pointers in their regions, a current region that is there, and a total size that is the sum
-- of the regions' and fits in 64 bits.
pub record IsSized (m : RegionManager) : Type 0 where
  pub in_bounds : All InBounds m.regions
  pub current : m.current_region < length m.regions
  pub total : m.total_size ≡ length m.regions * region_size
  pub fits : length m.regions * region_size < 2 ^ 64

allocate_object-InBounds :
    (size : ℕ) (r : Region) → size < 2 ^ 63 → InBounds r → InBounds (allocate_object size r).1
allocate_object-InBounds size r k b = elim (Bool-cases (ltb region_size (r.bump + rounded size))) [
  | inl full ↦ rw (allocate_full size r k b full) b
  | inr fits ↦ rw (allocate_fits size r k b fits) (ground arith)
]

-- The search keeps the regions' number and bounds, and ends at one of them.
abbrev Keeps : ℕ → List Region → ℕ × Option Place × List Region → Type 0
Keeps top rs o = (length o.2 ≡ length rs) × All InBounds o.2 × (o.0 < top)

after_try-Keeps :
    (top i : ℕ) (rs : List Region) (t : Option ℕ × Region) (later : ℕ × Option Place × List Region)
    (r : Region)
    → i < top
    → InBounds t.1
    → All InBounds rs
    → Keeps top rs later
    → Keeps top (r ∷ rs) (after_try i rs t later)
after_try-Keeps top i rs (some p, s) later r l b bs h = (refl, (b, bs), l)
after_try-Keeps top i rs (none, s) later r l b bs h = (ap suc h.0, (b, h.1), h.2)

find_space-Keeps :
    (top size i c : ℕ) (rs : List Region)
    → size < 2 ^ 63
    → All InBounds rs
    → c < top
    → i + length rs ≤ top
    → Keeps top rs (find_space size i c rs)
unfolding find_space
find_space-Keeps top size i c [] k b l t = (refl, tt, l)
find_space-Keeps top size i c (r ∷ rs) k b l t =
    let skipped = find_space-Keeps top size (i + 1) c rs k b.1 l (omega (arith, t)) in
    let failed =
      find_space-Keeps top size (i + 1) i rs k b.1 (omega (arith, t)) (omega (arith, t)) in
    if-either (Keeps top (r ∷ rs)) (can_allocate size r)
      (λ _.
        after_try-Keeps top i rs (allocate_object size r) (find_space size (i + 1) i rs) r
          (omega (arith, t)) (allocate_object-InBounds size r k b.0) b.1 failed)
      (λ _. (ap suc skipped.0, (b.0, skipped.1), skipped.2))

length-set : (rs : List Region) (i : ℕ) (r : Region) → length (set rs i r) ≡ length rs
length-set [] i r = refl
length-set (x ∷ rs) zero r = refl
length-set (x ∷ rs) (suc i) r = ap suc (length-set rs i r)

set-InBounds :
    (rs : List Region) (i : ℕ) (r : Region)
    → All InBounds rs
    → InBounds r
    → All InBounds (set rs i r)
set-InBounds [] i r b h = tt
set-InBounds (x ∷ rs) zero r b h = (h, b.1)
set-InBounds (x ∷ rs) (suc i) r b h = (b.0, set-InBounds rs i r b.1 h)

after_current-IsSized :
    (size : ℕ) (m : RegionManager) (t : Option ℕ × Region)
    → size < 2 ^ 63
    → IsSized m
    → InBounds t.1
    → IsSized (after_current size m t).1
after_current-IsSized size m (some p, r) k w b =
    let n = length-set m.regions m.current_region r in
    record {
      in_bounds = set-InBounds m.regions m.current_region r w.in_bounds b;
      current = rw n w.current;
      total = rw n w.total;
      fits = rw n w.fits;
    }
after_current-IsSized size m (none, r) k w b =
    let rs = set m.regions m.current_region r in
    let n = length-set m.regions m.current_region r in
    let found =
      find_space-Keeps (length m.regions) size 0 m.current_region rs k
        (set-InBounds m.regions m.current_region r w.in_bounds b) w.current (omega (arith, n)) in
    let q = found.0 ∙ n in
    record { in_bounds = found.1; current = rw q found.2; total = rw q w.total; fits = rw q w.fits }

get_elem?-some :
    (rs : List Region) (i : ℕ) → i < length rs → (r : Region) × (get_elem? rs i ≡ some r)
get_elem?-some [] i h = absurd (omega (arith, h))
get_elem?-some (x ∷ rs) zero h = (x, refl)
get_elem?-some (x ∷ rs) (suc i) h = get_elem?-some rs i (omega (arith, h))

pub allocate-IsSized :
    (size : ℕ) (m : RegionManager)
    → size < 2 ^ 63
    → IsSized m
    → (o : Option Place × RegionManager) × (allocate size m ≡ done o) × IsSized o.1
unfolding allocate
allocate-IsSized size m k w =
    let (r, e) = get_elem?-some m.regions m.current_region w.current in
    let b = at_bound m.regions m.current_region r w.in_bounds e in
    (
      after_current size m (allocate_object size r),
      rw (allocate, e) refl,
      after_current-IsSized size m (allocate_object size r) k w
          (allocate_object-InBounds size r k b),
    )
