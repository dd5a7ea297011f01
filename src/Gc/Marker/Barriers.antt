-- ===== src/Gc/Marker/Barriers.antt =====
-- crates/jdgc/src/barrier.rs: the write barrier against the colours of a graph of objects.
use jdruby.Base.{
  ℕ, ◌^◌, ◌<◌, ◌≡◌, ◌≢◌, refl, ap, Bool, true, false, not, ◌&&◌, arith, ◌==◌, if◌then◌else◌,
  Bool-cases, ◌⊎◌, inl, inr,
}
use jdruby.Gc.Header.{is_white, is_gray, is_black}
use jdruby.Gc.Marker.{Memory, store, MarkQueue, push, write_barrier}
use jdruby.Gc.Marker.Words.{with_color, is_white-with_gray, is_black-with_gray, try_shade_gray-word}
use jdruby.Gc.Marker.Cycle.{Words, mem, mem-append}

-- The two sides of the collector's invariant: a black object points to no white one, and the gray
-- objects wait in the queue.
pub record IsMarking (points : ℕ → ℕ → Type 0) (m : Memory) (q : MarkQueue) : Type 0 where
  pub no_white : (a b : ℕ) → points a b → b ≢ 0 → is_black (m a) ≡ true → is_white (m b) ≡ false
  pub gray_queued : (a : ℕ) → is_gray (m a) ≡ true → mem a q.queue ≡ true

-- The graph with one reference more.
abbrev pub WithEdge : ℕ → ℕ → (ℕ → ℕ → Type 0) → ℕ → ℕ → Type 0
WithEdge source target points a b = points a b ⊎ ((a ≡ source) × (b ≡ target))

write_barrier-word :
    (source target : ℕ) (m : Memory) (q : MarkQueue)
    → m target < 2 ^ 64
    → write_barrier source target m q ≡ (
        if is_black (m source) && not (target == 0) && is_white (m target)
        then (store target (with_color 1 (m target)) m, push target q)
        else (m, q))
unfolding write_barrier
write_barrier-word source target m q h = elim (Bool-cases (is_white (m target))) [
  | inl e ↦ rw (try_shade_gray-word (m target) h, e) (ground arith)
  | inr e ↦ rw (try_shade_gray-word (m target) h, e) (ground arith)
]

-- Shading a white target.
shaded-IsMarking :
    (points : ℕ → ℕ → Type 0) (source target : ℕ) (m : Memory) (q : MarkQueue)
    → IsMarking points m q
    → IsMarking
        (WithEdge source target points)
        (store target (with_color 1 (m target)) m)
        (push target q)
unfolding push
shaded-IsMarking points source target m q w = record {
  no_white = λ a b e n h. elim e [
    | inl p ↦
        ground
          (arith, w.no_white a b p n, is_white-with_gray (m target), is_black-with_gray (m target))
    | inr p ↦ ground (arith, is_white-with_gray (m target))
  ];
  gray_queued = λ a h. rw (mem-append a q.queue target) (ground (arith, w.gray_queued a));
}

-- The write barrier keeps the invariant of the marking through the store of a reference: after it no
-- black object points to a white one, with the new reference counted, and every gray object is in
-- the queue.
pub write_barrier-IsMarking :
    (points : ℕ → ℕ → Type 0) (source target : ℕ) (m : Memory) (q : MarkQueue)
    → Words m
    → IsMarking points m q
    → let r = write_barrier source target m q in IsMarking (WithEdge source target points) r.0 r.1
write_barrier-IsMarking points source target m q h w =
    rw (write_barrier-word source target m q (h target))
      (by_test (is_black (m source) && not (target == 0) && is_white (m target)) refl)
  where
    by_test :
        (t : Bool)
        → (is_black (m source) && not (target == 0) && is_white (m target)) ≡ t
        → let shaded : Memory × MarkQueue =
            (store target (with_color 1 (m target)) m, push target q) in
          let r = if t then shaded else (m, q) in IsMarking (WithEdge source target points) r.0 r.1
    by_test true e = shaded-IsMarking points source target m q w
    by_test false e = record {
      no_white = λ a b e' n h'. elim e' [
        | inl p ↦ w.no_white a b p n h'
        | inr p ↦ ground (arith, p.0, p.1, ap m p.0, ap m p.1)
      ];
      gray_queued = w.gray_queued;
    }
