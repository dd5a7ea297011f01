-- ===== src/Gc/Marker.antt =====
-- crates/jdgc/src/marker.rs: the mark queue and the marker. The memory gives the header word at
-- each address; one thread marks, as `mark_concurrent` does. A counter is a number below 2 ^ 64.
pub mod Queue
pub mod Words
pub mod Cycle
pub mod Emptied
pub mod Barriers
mod Tests
use jdruby.Base.{
  ℕ, zero, suc, ◌+◌, ◌-◌, ◌%◌, ◌^◌, Bool, true, false, not, Option, some, none, List, [], ◌∷◌, ◌++◌,
  ◌==◌, ◌&&◌, length, min, if◌then◌else◌,
}
use jdruby.Gc.Header.{is_white, is_gray, is_black, try_shade_gray, shade_black, forwarding_address}

abbrev pub Memory : Type 0
Memory = ℕ → ℕ

-- Stores the word `w` at the address `a`.
abbrev pub store : ℕ → ℕ → Memory → Memory
store a w m = λ b. if b == a then w else m b

pub record MarkQueue : Type 0 where
  pub queue : List ℕ
  pub len : ℕ

abbrev pub empty_queue : MarkQueue
empty_queue = record { queue = []; len = 0 }

abbrev pub fetch_add : ℕ → ℕ → ℕ
fetch_add x n = (x + n) % 2 ^ 64

abbrev pub fetch_sub : ℕ → ℕ → ℕ
fetch_sub x n = (x + (2 ^ 64 - n % 2 ^ 64)) % 2 ^ 64

unfoldable pub push : ℕ → MarkQueue → MarkQueue
push obj q = record { queue = q.queue ++ (obj ∷ []); len = fetch_add q.len 1 }

abbrev pub pop_front : List ℕ → MarkQueue → Option ℕ × MarkQueue
pop_front [] q = (none, q)
pop_front (x ∷ xs) q = (some x, record { queue = xs; len = fetch_sub q.len 1 })

unfoldable pub pop : MarkQueue → Option ℕ × MarkQueue
pop q = pop_front q.queue q

unfoldable pub is_empty : MarkQueue → Bool
is_empty q = q.len == 0

-- The loop of `drain_batch`: up to so many objects from the front, and the rest.
abbrev pub drain : ℕ → List ℕ → List ℕ × List ℕ
drain zero xs = ([], xs)
drain (suc n) [] = ([], [])
drain (suc n) (x ∷ xs) = (x ∷ (drain n xs).0, (drain n xs).1)

-- The count, the buffer and the queue.
unfoldable pub drain_batch : ℕ → MarkQueue → ℕ × List ℕ × MarkQueue
drain_batch max q =
    let count = min max (length q.queue) in
    let d = drain count q.queue in (count, d.0, record { queue = d.1; len = fetch_sub q.len count })

pub record Marker : Type 0 where
  pub queue : MarkQueue
  pub marked : ℕ
  pub encountered : ℕ

abbrev pub new_marker : Marker
new_marker = record { queue = empty_queue; marked = 0; encountered = 0 }

abbrev pub World : Type 0
World = Memory × Marker

-- The closure of `seed_from_roots`, on one root.
unfoldable pub seed_root : ℕ → World → World
seed_root ptr (m, k) =
    let shaded = try_shade_gray (m ptr) (m ptr) in
    if shaded.1
    then (
      store ptr shaded.0 m,
      record k { queue = push ptr k.queue; encountered = fetch_add k.encountered 1 },
    )
    else (m, k)

unfoldable pub seed_from_roots : List ℕ → World → World
seed_from_roots [] w = w
seed_from_roots (ptr ∷ ptrs) w = seed_from_roots ptrs (seed_root ptr w)

unfoldable pub mark_object : ℕ → World → World
mark_object obj (m, k) =
    if not (is_gray (m obj))
    then (m, k)
    else (store obj (shade_black (m obj)) m, record k { marked = fetch_add k.marked 1 })

-- `while let Some(obj) = self.queue.pop()`; `none`: the fuel ends.
unfoldable pub process_from : ℕ → World → Option World
process_from zero w = none
process_from (suc n) (m, k) =
    let popped = pop k.queue in
    let rest = record k { queue = popped.1 } in
    elim popped.0 [ none ↦ some (m, rest) | some obj ↦ process_from n (mark_object obj (m, rest)) ]

unfoldable pub process_queue : World → Option World
process_queue w = process_from (suc (length w.1.queue.queue)) w

unfoldable pub mark_concurrent : World → Option World
mark_concurrent w = process_queue w

unfoldable pub reset : Marker → Marker
reset k = record k { marked = 0; encountered = 0 }

-- `WriteBarrier::apply` of barrier.rs; a null pointer is 0.
unfoldable pub write_barrier : ℕ → ℕ → Memory → MarkQueue → Memory × MarkQueue
write_barrier source target m q =
    let shaded = try_shade_gray (m target) (m target) in
    if is_black (m source) && not (target == 0)
    then if is_white (m target)
      then if shaded.1 then (store target shaded.0 m, push target q) else (m, q)
      else (m, q)
    else (m, q)

-- `ReadBarrier::apply` of barrier.rs.
unfoldable pub read_barrier : ℕ → Memory → ℕ
read_barrier ptr m =
    if ptr == 0
    then ptr
    else if forwarding_address (m ptr) == ptr
    then ptr
    else forwarding_address (m ptr)
