-- ===== src/Gc/Tlab/Laws.antt =====
-- The addresses that the allocation buffer of tlab.rs hands out.
use native.Mathlib.Nat.{one-le-pow, pow-le-pow_right}
use jdruby.Base.{
  ℕ, ◌+◌, ◌-◌, ◌%◌, ◌^◌, ◌<◌, ◌≤◌, ◌≡◌, Option, some, none, List, [], ◌∷◌, arith, All,
}
use jdruby.Gc.Tlab.{Tlab, allocate, init, retire}
use jdruby.Gc.Util.{align_up, align_up_lem, max_tlab_allocation}

-- A buffer that is retired, or one over addresses that end a largest request and a page below the
-- end of the address space.
abbrev pub IsBuffer : Tlab → Type 0
IsBuffer t = (t.bump ≤ t.end) × (t.end + 2 ^ 30 < 2 ^ 64) × (t.remaining ≡ t.end - t.bump)

abbrev pub Allocates : ℕ → ℕ → Tlab → Option ℕ × Tlab → Type 0
Allocates size align t (none, u) = u ≡ t
Allocates size align t (some p, u) =
    (p % align ≡ 0)
    × (t.bump ≤ p)
    × (p < t.bump + align)
    × (p + size ≡ u.bump)
    × (u.bump ≤ t.end)
    × (u.end ≡ t.end)
    × (u.allocated_count ≡ (t.allocated_count + 1) % 2 ^ 64)

-- `allocate` for a well-formed buffer, every size and every alignment 2 ^ k up to 2 ^ 20: the
-- buffer stays well-formed; a request that fails changes nothing; and one that succeeds adds
-- one to the count, which wraps at 2 ^ 64, and gives an aligned address that is not before the old bump pointer and less than one
-- alignment behind it, with the new bump pointer exactly the size behind the address and not
-- behind the buffer's end, which stays.
pub allocate-Allocates :
    (size k : ℕ) (t : Tlab)
    → k ≤ 20
    → IsBuffer t
    → IsBuffer (allocate size (2 ^ k) t).1 × Allocates size (2 ^ k) t (allocate size (2 ^ k) t)
unfolding allocate
allocate-Allocates size k t h b =
    let top : 2 ^ k ≤ 2 ^ 20 = pow-le-pow_right (omega arith) h in
    let pos = one-le-pow k 2 (omega arith) in
    let a = align_up_lem t.bump k (omega arith) (omega (arith, top, pos, b.0, b.1)) in
    ground (arith, top, pos, a)

-- `allocate` for a well-formed, active buffer: it succeeds whenever the size is no more than the
-- largest request and, with the alignment's padding, fits between the bump pointer and the end.
allocate-fits :
    (size k : ℕ) (t : Tlab)
    → k ≤ 20
    → IsBuffer t
    → 1 ≤ t.bump
    → size ≤ max_tlab_allocation
    → t.bump + size + (2 ^ k - 1) ≤ t.end
    → (p : ℕ) × ((allocate size (2 ^ k) t).0 ≡ some p)
unfolding allocate
allocate-fits size k t h b act fit room =
    let top : 2 ^ k ≤ 2 ^ 20 = pow-le-pow_right (omega arith) h in
    let pos = one-le-pow k 2 (omega arith) in
    let a = align_up_lem t.bump k (omega arith) (omega (arith, top, pos, b.0, b.1)) in
    (align_up t.bump (2 ^ k), ground (arith, top, pos, a))

-- A buffer's blocks one behind the other: each begins where the one before it ends, or later.
abbrev Stacked : ℕ → ℕ → List (ℕ × ℕ) → Type 0
Stacked lo hi [] = lo ≤ hi
Stacked lo hi ((p, size) ∷ bs) = (lo ≤ p) × Stacked (p + size) hi bs

abbrev push_block : ℕ → Option ℕ → List (ℕ × ℕ) → List (ℕ × ℕ)
push_block size none bs = bs
push_block size (some p) bs = (p, size) ∷ bs

-- The blocks that a list of requests, each a size and the exponent of its alignment, is given.
unfoldable blocks : List (ℕ × ℕ) → Tlab → List (ℕ × ℕ)
blocks [] t = []
blocks ((size, k) ∷ rs) t = let r = allocate size (2 ^ k) t in push_block size r.0 (blocks rs r.1)

stack_step :
    (size align : ℕ) (t : Tlab) (r : Option ℕ × Tlab) (bs : List (ℕ × ℕ))
    → Allocates size align t r
    → Stacked r.1.bump r.1.end bs
    → Stacked t.bump t.end (push_block size r.0 bs)
stack_step size align t (none, u) bs a s = rw (← a) s
stack_step size align t (some p, u) bs a s = (a.1, rw (a.3, ← a.5) s)

-- Every list of requests with alignments up to 2 ^ 20 on a well-formed buffer: the blocks that are
-- given lie one behind the other, without overlap, from the bump pointer to the buffer's end.
blocks-Stacked :
    (rs : List (ℕ × ℕ)) (t : Tlab)
    → All (λ r. r.1 ≤ 20) rs
    → IsBuffer t
    → Stacked t.bump t.end (blocks rs t)
unfolding blocks
blocks-Stacked [] t h b = b.0
blocks-Stacked ((size, k) ∷ rs) t h b =
    let a = allocate-Allocates size k t h.0 b in
    let u = (allocate size (2 ^ k) t).1 in
    stack_step size (2 ^ k) t (allocate size (2 ^ k) t) (blocks rs u) a.1
      (blocks-Stacked rs u h.1 a.0)

-- `init` makes every buffer well-formed over a range that is in order and ends below the top of
-- the address space, `retire` too, and a retired buffer gives no address.
pub init-IsBuffer :
    (start end : ℕ) (t : Tlab)
    → start ≤ end
    → end + 2 ^ 30 < 2 ^ 64
    → IsBuffer (init start end t)
      × IsBuffer (retire t)
      × ((size align : ℕ) → (allocate size align (retire t)).0 ≡ none)
unfolding init retire allocate
init-IsBuffer start end t h k =
    ((h, k, omega arith), (omega arith, omega arith, omega arith), λ size align. ground arith)
