-- ===== src/Gc/Marker/Emptied.antt =====
-- crates/jdgc/src/marker.rs: what emptying the queue does to the memory, and a whole marking.
use jdruby.Base.{
  ℕ, zero, suc, ◌^◌, ◌<◌, ◌≡◌, refl, sym, ap, ◌∙◌, Bool, true, false, ◌&&◌, ◌||◌, Option, some,
  List, [], ◌∷◌, length, arith, ◌==◌, if◌then◌else◌, Bool-cases, inl, inr,
}
use mathlib.Core.Path.{subst}
use jdruby.Gc.Header.{is_white, is_gray}
use jdruby.Gc.Marker.{
  Memory, pop, Marker, World, seed_from_roots, mark_object, process_from, process_queue, fetch_sub,
  new_marker,
}
use jdruby.Gc.Marker.Words.{with_color, is_gray-with_gray, is_gray-with_black, shade_black-word}
use jdruby.Gc.Marker.Cycle.{Words, mem, recolored_fits, seed_from_roots-memory}

mark_object-memory :
    (o : ℕ) (m : Memory) (k : Marker) (a : ℕ)
    → m o < 2 ^ 64
    → ((mark_object o (m, k)).0 a ≡ (if o == a && is_gray (m a) then with_color 2 (m a) else m a))
      × ((mark_object o (m, k)).1.queue ≡ k.queue)
unfolding mark_object
mark_object-memory o m k a h = elim (Bool-cases (is_gray (m o))) [
  | inl e ↦ rw (e, shade_black-word (m o) h) (ground (arith, e, ap m {x = o} {y = a}), refl)
  | inr e ↦ rw e (ground (arith, e), refl)
]

-- Blackening a word twice is blackening it once.
blackened_twice :
    (s t : Bool) (w x : ℕ)
    → x ≡ (if s && is_gray w then with_color 2 w else w)
    → (if t && is_gray x then with_color 2 x else x)
      ≡ (if (s || t) && is_gray w then with_color 2 w else w)
blackened_twice true t w x e = elim (Bool-cases (is_gray w)) [
  | inl h ↦
      let q : x ≡ with_color 2 w = rw h at e in rw q (rw (h, is_gray-with_black w) (ground arith))
  | inr h ↦ let q : x ≡ w = rw h at e in rw q (rw h (ground arith))
]
blackened_twice false t w x e = rw e refl

-- The run ends with an empty queue, the gray objects of the queue are black and nothing else changed.
abbrev pub Empties : Memory → List ℕ → Option World → Type 0
Empties m xs o =
    (w : World) × (o ≡ some w)
    × (w.1.queue.queue ≡ [])
    × ((a : ℕ) → w.0 a ≡ (if mem a xs && is_gray (m a) then with_color 2 (m a) else m a))

abbrev holding : List ℕ → Marker → Marker
holding xs k = record k { queue = record { queue = xs; len = k.queue.len } }

process_from-Empties :
    (n : ℕ) (xs : List ℕ) (m : Memory) (k : Marker)
    → k.queue.queue ≡ xs
    → length xs < n
    → Words m
    → Empties m xs (process_from n (m, k))
unfolding process_from pop
process_from-Empties zero xs m k e l h = absurd (omega (arith, l))
process_from-Empties (suc n) [] m k e l h =
    let q : k ≡ holding [] k = ap (λ ys. holding ys k) e in
    subst (λ j. Empties m [] (process_from (suc n) (m, j))) (sym q)
      ((m, holding [] k), refl, refl, λ a. refl)
process_from-Empties (suc n) (x ∷ xs) m k e l h =
    let q : k ≡ holding (x ∷ xs) k = ap (λ ys. holding ys k) e in
    let rest = record k { queue = record { queue = xs; len = fetch_sub k.queue.len 1 } } in
    let w = mark_object x (m, rest) in
    let marked = λ (a : ℕ). mark_object-memory x m rest a (h x) in
    let fits =
      recolored_fits m w.0 2 (λ (b : ℕ). x == b && is_gray (m b)) (omega arith) h
        (λ (b : ℕ). (marked b).0) in
    let more =
      process_from-Empties n xs w.0 w.1 (ap (λ r. r.queue) (marked 0).1) (omega (arith, l)) fits in
    subst (λ j. Empties m (x ∷ xs) (process_from (suc n) (m, j))) (sym q)
      (
        more.0,
        more.1,
        more.2,
        λ a. more.3 a ∙ blackened_twice (x == a) (mem a xs) (m a) (w.0 a) (marked a).0,
      )

-- A word that is in the queue exactly when seeding shaded it.
seeded_then_marked :
    (root queued : Bool) (w x : ℕ)
    → x ≡ (if root && is_white w then with_color 1 w else w)
    → queued ≡ root && is_white w
    → (if queued && is_gray x then with_color 2 x else x)
      ≡ (if root && is_white w then with_color 2 w else w)
seeded_then_marked root queued w x e q = elim (Bool-cases (root && is_white w)) [
  | inl h ↦
      let y : x ≡ with_color 1 w = rw h at e in
      rw (q, y) (rw (h, is_gray-with_gray w) (omega arith))
  | inr h ↦ let y : x ≡ w = rw h at e in rw (q, y) (rw h refl)
]

-- `process_queue` ends: it leaves the queue empty, every gray object that was in the queue is black,
-- its other header fields as they were, and no other word has changed.
pub process_queue-Empties :
    (m : Memory) (k : Marker) → Words m → Empties m k.queue.queue (process_queue (m, k))
unfolding process_queue
process_queue-Empties m k h =
    process_from-Empties (suc (length k.queue.queue)) k.queue.queue m k refl (omega arith) h

-- Seeding a new marker from the roots and emptying its queue ends, with the queue empty, and blackens
-- exactly the white objects that are roots. Every other word stays as it is, also those of the
-- objects that the roots point to, since `mark_object` follows no references.
pub process_queue-seed_from_roots :
    (roots : List ℕ) (m : Memory)
    → Words m
    → (w : World) × (process_queue (seed_from_roots roots (m, new_marker)) ≡ some w)
      × (w.1.queue.queue ≡ [])
      × ((a : ℕ) → w.0 a ≡ (if mem a roots && is_white (m a) then with_color 2 (m a) else m a))
process_queue-seed_from_roots roots m h =
    let s = seed_from_roots roots (m, new_marker) in
    let seeded = λ (a : ℕ). seed_from_roots-memory roots m new_marker a h in
    let fits =
      recolored_fits m s.0 1 (λ (b : ℕ). mem b roots && is_white (m b)) (omega arith) h
        (λ (b : ℕ). (seeded b).0) in
    let r = process_queue-Empties s.0 s.1 fits in
    (
      r.0,
      r.1,
      r.2,
      λ a.
          r.3 a
          ∙ seeded_then_marked (mem a roots) (mem a s.1.queue.queue) (m a) (s.0 a) (seeded a).0
              (seeded a).1,
    )
