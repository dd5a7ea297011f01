-- ===== src/Gc/Region/Manager/Sweep.antt =====
-- The loop of `sweep_unmarked` over the objects of one region.
use mathlib.Core.Path.{subst}
use jdruby.Base.{
  ℕ, zero, suc, Bool, ◌==◌, ◌+◌, ◌-◌, ◌*◌, ◌%◌, ap, ◌/◌, ◌^◌, ◌≤◌, ◌<◌, ◌≡◌, refl, sym, ◌∙◌, true,
  Option, some, [], ◌∷◌, length, ltb, if◌then◌else◌, arith, Option-cases, Bool-cases, inl, inr, All,
}
use jdruby.Base.Assoc.{lookup, insert, lookup-insert}
use jdruby.Base.Keys.{nat_eq}
use Prim.Native.Nat.{bit_and}
use jdruby.Base.Bits.{bit_and_shift, bit_and_low, bit_or-zero}
use jdruby.Gc.Util.{region_size, color_mask, complement}
use jdruby.Gc.Header.Laws.{is_white-reset_white, color_bits}
use jdruby.Gc.Header.{ObjectHeader, is_white, reset_white}
use jdruby.Gc.Region.{Region}
use jdruby.Gc.Region.Manager.{sweep_header, sweep_region, Freed, note_freed}
use jdruby.Gc.Region.Laws.{Objects, Laid, Laid-le, IsRegion, rounded, next_offset-rounded}

-- The objects after the sweep, and the white ones among them before it.
unfoldable sweep_objects : Objects → Objects
sweep_objects [] = []
sweep_objects ((p, h) ∷ os) = (p, sweep_header h) ∷ sweep_objects os

unfoldable white_objects : Objects → Objects
white_objects [] = []
white_objects ((p, h) ∷ os) =
    let rest = white_objects os in if is_white h.bits then (p, h) ∷ rest else rest

Laid-insert :
    (lo hi k : ℕ) (h : ObjectHeader) (os m : Objects)
    → k < lo
    → Laid lo hi os m
    → Laid lo hi os (insert k h m)
Laid-insert lo hi k h [] m below l = l
Laid-insert lo hi k h ((p, x) ∷ os) m below l = (
  l.0,
  ground (arith, lookup-insert k lo h m),
  l.2,
  Laid-insert (lo + rounded x.payload_size) hi k h os m (omega arith) l.3,
)

sweep_header_size : (h : ObjectHeader) → (sweep_header h).payload_size ≡ h.payload_size
sweep_header_size h = ground arith

swept_rest :
    (lo hi : ℕ) (x : ObjectHeader) (os m : Objects)
    → Laid (lo + rounded x.payload_size) hi os m
    → Laid (lo + rounded (sweep_header x).payload_size) hi os m
swept_rest lo hi x os m l = subst (λ n. Laid (lo + rounded n) hi os m) (sym (sweep_header_size x)) l

at_itself :
    (lo : ℕ) (x : ObjectHeader) (m : Objects)
    → lookup lo (insert lo (sweep_header x) m) ≡ some (sweep_header x)
at_itself lo x m = ground (arith, lookup-insert lo lo (sweep_header x) m)

-- What the sweep of the objects from `lo` on leaves.
abbrev Sweeps : ℕ → ℕ → Objects → Region → Option (Freed × Region) → Type 0
Sweeps lo hi os r out =
    (s : Region) × (out ≡ some (white_objects os, s))
    × Laid lo hi (sweep_objects os) s.memory
    × (s.bump ≡ r.bump)
    × ((j : ℕ) → j < lo → lookup j s.memory ≡ lookup j r.memory)

-- One round of the loop.
sweep_cons :
    (n lo hi : ℕ) (x : ObjectHeader) (r s : Region) (freed : Freed)
    → lookup lo r.memory ≡ some x
    → x.payload_size < 2 ^ 63
    → hi ≤ region_size
    → ltb lo hi ≡ true
    → sweep_region n hi
        (lo + rounded x.payload_size)
        (record r { memory = insert lo (sweep_header x) r.memory })
      ≡ some (freed, s)
    → sweep_region (suc n) hi lo r ≡ note_freed lo x (some (freed, s))
unfolding sweep_region
sweep_cons n lo hi x r s freed at k b below rest =
    let size = sweep_header_size x in
    let step =
      next_offset-rounded lo (sweep_header x) (omega (arith, size, k)) (ground (arith, b)) in
    rw (sweep_region, at, step, size, rest, below) refl

noted :
    (lo p : ℕ) (x : ObjectHeader) (s : Region) (os : Objects)
    → p ≡ lo
    → note_freed lo x (some (white_objects os, s)) ≡ some (white_objects ((p, x) ∷ os), s)
unfolding white_objects
noted lo p x s os e = rw e refl

sweep_from :
    (n lo hi : ℕ) (os : Objects) (r : Region)
    → length os ≤ n
    → hi ≤ region_size
    → Laid lo hi os r.memory
    → Sweeps lo hi os r (sweep_region n hi lo r)
unfolding sweep_objects white_objects sweep_region
sweep_from zero lo hi [] r k b l = (r, ground arith, l, refl, λ j _. refl)
sweep_from zero lo hi (x ∷ os) r k b l = absurd (omega arith)
sweep_from (suc n) lo hi [] r k b l = elim (Option-cases (lookup lo r.memory)) [
  | inl e ↦ (r, rw (sweep_region, e) (ground arith), l, refl, λ j _. refl)
  | inr (x, e) ↦ (r, rw (sweep_region, e) (ground arith), l, refl, λ j _. refl)
]
sweep_from (suc n) lo hi ((p, x) ∷ os) r k b l =
    let room = Laid-le lo hi ((p, x) ∷ os) r.memory l in
    let below : ltb lo hi ≡ true = ground (arith, room) in
    let next = lo + rounded x.payload_size in
    let m = insert lo (sweep_header x) r.memory in
    let small : (sweep_header x).payload_size < 2 ^ 63 = omega (arith, sweep_header_size x, l.2) in
    let (s, e, l', sb, frame) =
      sweep_from n next hi os (record r { memory = m }) (omega arith) b
        (Laid-insert next hi lo (sweep_header x) os r.memory (omega arith) l.3) in
    (
      s,
      sweep_cons n lo hi x r s (white_objects os) l.1 l.2 b below e ∙ noted lo p x s os l.0,
      (
        l.0,
        frame lo (omega arith) ∙ at_itself lo x r.memory,
        small,
        swept_rest lo hi x (sweep_objects os) s.memory l',
      ),
      sb,
      λ j h. frame j (omega arith) ∙ ground (arith, lookup-insert lo j (sweep_header x) r.memory),
    )

-- The two bits of the colour, of which both are clear in a white header, as arithmetic.
abbrev colour_clear : ℕ → Bool
colour_clear w = w % 4 == 0

abbrev clear_colour : ℕ → ℕ
clear_colour w = w / 4 % 2 ^ 62 * 4

-- The white objects of a region, and its objects with every header white.
unfoldable pub all_white : Objects → Objects
all_white [] = []
all_white ((p, h) ∷ os) =
    (p, if colour_clear h.bits then h else record h { bits = clear_colour h.bits }) ∷ all_white os

unfoldable pub dead : Objects → Objects
dead [] = []
dead ((p, h) ∷ os) = let rest = dead os in if colour_clear h.bits then (p, h) ∷ rest else rest

is_white-clear : (w : ℕ) → is_white w ≡ colour_clear w
unfolding is_white
is_white-clear w = rw (color_bits w) refl

reset_white-clear : (w : ℕ) → reset_white w ≡ clear_colour w
unfolding reset_white
reset_white-clear w =
    let masked : bit_and w (complement color_mask) ≡ clear_colour w =
      bit_and_shift 2 w (2 ^ 62 - 1) ∙ ap (λ (t : ℕ). t * 4) (bit_and_low 62 (w / 4)) in
    rw masked (bit_or-zero (clear_colour w))

sweep_objects-white : (os : Objects) → sweep_objects os ≡ all_white os
unfolding sweep_objects all_white
sweep_objects-white [] = refl
sweep_objects-white ((p, h) ∷ os) =
    rw (is_white-clear h.bits, reset_white-clear h.bits, sweep_objects-white os) refl

white_objects-dead : (os : Objects) → white_objects os ≡ dead os
unfolding white_objects dead
white_objects-dead [] = refl
white_objects-dead ((p, h) ∷ os) = rw (is_white-clear h.bits, white_objects-dead os) refl

-- `sweep_unmarked` on a region with the objects `os`: its loop ends, it frees exactly the white
-- objects among them, those with both colour bits clear, in order, and it leaves a region that has
-- the same objects in the same places. The header of a white one is as it was; those of the others
-- have both colour bits cleared, and their other bits are as they were.
pub sweep_region-frees :
    (os : Objects) (r : Region)
    → IsRegion os r
    → (s : Region) × (sweep_region (region_size / 16) r.bump 0 r ≡ some (dead os, s))
      × IsRegion (all_white os) s
sweep_region-frees os r h =
    let room = Laid-le 0 r.bump os r.memory h.0 in
    let (s, e, l, sb, frame) =
      sweep_from (region_size / 16) 0 r.bump os r (omega (arith, room, h.1)) h.1 h.0 in
    (
      s,
      subst (λ (x : Objects). sweep_region (region_size / 16) r.bump 0 r ≡ some (x, s))
          (white_objects-dead os) e,
      subst (λ (x : Objects). IsRegion x s) (sweep_objects-white os) (rw sb (l, h.1, h.2)),
    )

swept_white : (x : ObjectHeader) → x.bits < 2 ^ 64 → is_white (sweep_header x).bits ≡ true
swept_white x h = elim (Bool-cases (is_white x.bits)) [
  | inl e ↦ ground (arith, e)
  | inr e ↦ ground (arith, e, is_white-reset_white x.bits h)
]

-- After a sweep every object of the region is white, so that a second sweep with no marking in
-- between frees all of them, those that the first one freed again.
white_objects-sweep :
    (os : Objects)
    → All (λ o. o.1.bits < 2 ^ 64) os
    → white_objects (sweep_objects os) ≡ sweep_objects os
unfolding white_objects sweep_objects
white_objects-sweep [] h = refl
white_objects-sweep ((p, x) ∷ os) h = rw (white_objects-sweep os h.1, swept_white x h.0) refl
