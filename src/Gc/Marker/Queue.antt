-- ===== src/Gc/Marker/Queue.antt =====
-- crates/jdgc/src/marker.rs: the mark queue and its counter.
use jdruby.Base.{
  ℕ, zero, suc, ◌+◌, ◌%◌, ◌^◌, ◌≤◌, ◌≡◌, refl, ap, List, [], ◌∷◌, ◌++◌, length, length-append, min,
  arith,
}
use jdruby.Gc.Marker.{MarkQueue, push, pop, pop_front, drain, drain_batch, fetch_sub}

-- The counter is the length of the queue, as a 64-bit number.
abbrev pub Counted : MarkQueue → Type 0
Counted q = q.len ≡ length q.queue % 2 ^ 64

drain-split : (n : ℕ) (xs : List ℕ) → (drain n xs).0 ++ (drain n xs).1 ≡ xs
drain-split zero xs = refl
drain-split (suc n) [] = refl
drain-split (suc n) (x ∷ xs) = ap (λ r. x ∷ r) (drain-split n xs)

length-drain : (n : ℕ) (xs : List ℕ) → n ≤ length xs → length (drain n xs).0 ≡ n
length-drain zero xs h = refl
length-drain (suc n) [] h = absurd (omega (arith, h))
length-drain (suc n) (x ∷ xs) h = ap suc (length-drain n xs (omega (arith, h)))

sub_count : (len k r : ℕ) → len ≡ (k + r) % 2 ^ 64 → fetch_sub len k ≡ r % 2 ^ 64
sub_count len k r e = omega (arith, e)

pub push-Counted : (x : ℕ) (q : MarkQueue) → Counted q → Counted (push x q)
unfolding push
push-Counted x q h = omega (arith, h, length-append q.queue (x ∷ []))

pop_front-Counted :
    (xs : List ℕ) (q : MarkQueue) → q.queue ≡ xs → Counted q → Counted (pop_front xs q).1
pop_front-Counted [] q e h = h
pop_front-Counted (x ∷ xs) q e h = sub_count q.len 1 (length xs) (omega (arith, h, ap length e))

pub pop-Counted : (q : MarkQueue) → Counted q → Counted (pop q).1
unfolding pop
pop-Counted q h = pop_front-Counted q.queue q refl h

-- `drain_batch` gives as many objects as it says, at most `max` and all where there are no more;
-- they are the front of the queue, in its order, and the rest stays; the counter stays the length.
pub drain_batch-Drains :
    (max : ℕ) (q : MarkQueue)
    → Counted q
    → let r = drain_batch max q in
      (r.0 ≡ min max (length q.queue))
      × (length r.1 ≡ r.0)
      × (r.1 ++ r.2.queue ≡ q.queue)
      × Counted r.2
unfolding drain_batch
drain_batch-Drains max q h =
    let n = min max (length q.queue) in
    let whole = drain-split n q.queue in
    let front = length-drain n q.queue (omega arith) in
    (
      refl,
      front,
      whole,
      sub_count q.len n (length (drain n q.queue).1) (
          omega (
            arith,
            h,
            front,
            ap length whole,
            length-append (drain n q.queue).0 (drain n q.queue).1,
          )),
    )
