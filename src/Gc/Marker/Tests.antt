-- ===== src/Gc/Marker/Tests.antt =====
-- The marker, the write barrier and the queue on two objects.
use jdruby.Base.{ℕ, ◌≡◌, some, [], ◌∷◌, ◌&&◌, if◌then◌else◌, arith, ◌==◌}
use jdruby.Gc.Header.{is_white, is_gray}
use jdruby.Gc.Marker.{
  Memory, empty_queue, World, seed_from_roots, process_queue, new_marker, write_barrier,
}
use jdruby.Gc.Marker.Words.{with_color}
use jdruby.Gc.Marker.Cycle.{Words, mem}
use jdruby.Gc.Marker.Emptied.{process_queue-seed_from_roots}
use jdruby.Gc.Marker.Barriers.{IsMarking, WithEdge, write_barrier-IsMarking}

-- A black object at 16; every other word is a white one.
abbrev two_objects : Memory
two_objects a = if a == 16 then 18 else 32

two_objects-Words : Words two_objects
two_objects-Words a = ground arith

process_queue-seed_from_roots_example :
    (w : World) × (process_queue (seed_from_roots (16 ∷ 32 ∷ 32 ∷ []) (two_objects, new_marker))
      ≡ some w)
    × (w.1.queue.queue ≡ [])
    × ((a : ℕ)
        → w.0 a ≡ (
            if mem a (16 ∷ 32 ∷ 32 ∷ []) && is_white (two_objects a)
            then with_color 2 (two_objects a)
            else two_objects a))
process_queue-seed_from_roots_example =
    process_queue-seed_from_roots (16 ∷ 32 ∷ 32 ∷ []) two_objects two_objects-Words

-- No references yet.
abbrev Unlinked : ℕ → ℕ → Type 0
Unlinked a b = ⊥

Unlinked-IsMarking : IsMarking Unlinked two_objects empty_queue
unfolding is_gray
Unlinked-IsMarking = record { no_white = λ a b e. absurd e; gray_queued = λ a h. ground arith }

write_barrier-IsMarking_example :
    let r = write_barrier 16 32 two_objects empty_queue in
    IsMarking (WithEdge 16 32 Unlinked) r.0 r.1
write_barrier-IsMarking_example =
    write_barrier-IsMarking Unlinked 16 32 two_objects empty_queue two_objects-Words
      Unlinked-IsMarking
