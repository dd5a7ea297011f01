-- ===== src/Codegen/Registers/Liveness.antt =====
-- crates/jdruby-codegen/src/register/allocator.rs: what `compute_liveness` says of each block.
use jdruby.Base.{
  ℕ, zero, suc, ◌+◌, ◌-◌, ◌==◌, ◌≡◌, ◌∙◌, refl, ap, ◌&&◌, ◌||◌, Bool, true, false, not, Option,
  some, none, List, [], ◌∷◌, ◌++◌, length, any, ltb, leb, Bool-cases, inl, inr, arith,
}
use jdruby.Codegen.Registers.{
  InstIndex, VirtualRegister, VirtualRegisterAllocator, LivenessResult, is_member, push_new,
  mark_block, regs_at, empty_blocks, new_result, mark_live_in, mark_spans_blocks, live_in_of,
  spans_blocks, mark_range, mark_register, mark_registers, compute_liveness,
}

member-append :
    (x reg : ℕ) (regs : List ℕ) → is_member x (regs ++ (reg ∷ [])) ≡ is_member x regs || reg == x
member-append x reg [] = ground arith
member-append x reg (r ∷ regs) = ground (arith, member-append x reg regs)

there :
    (x reg : ℕ) (regs : List ℕ)
    → is_member reg regs ≡ true
    → is_member x (push_new reg regs) ≡ is_member x regs || reg == x
there x reg regs h = rw h (already x reg regs h)
  where
    already :
        (x reg : ℕ) (regs : List ℕ)
        → is_member reg regs ≡ true
        → is_member x regs ≡ is_member x regs || reg == x
    already x reg [] h = cc
    already x reg (r ∷ regs) h = ground (arith, h, already x reg regs)

member-push_new :
    (x reg : ℕ) (regs : List ℕ) → is_member x (push_new reg regs) ≡ is_member x regs || reg == x
member-push_new x reg regs = elim (Bool-cases (is_member reg regs)) [
  | inl h ↦ there x reg regs h
  | inr h ↦ rw h (member-append x reg regs)
]

member-mark_block :
    (x reg block b : ℕ) (bs : List (List ℕ))
    → is_member x (regs_at b (mark_block block reg bs))
      ≡ is_member x (regs_at b bs) || (block == b && ltb b (length bs) && reg == x)
unfolding mark_block regs_at
member-mark_block x reg block b [] = ground arith
member-mark_block x reg zero zero (r ∷ bs) = member-push_new x reg r ∙ ground arith
member-mark_block x reg zero (suc b) (r ∷ bs) = ground arith
member-mark_block x reg (suc block) zero (r ∷ bs) = ground arith
member-mark_block x reg (suc block) (suc b) (r ∷ bs) =
    member-mark_block x reg block b bs ∙ ground arith

length-mark_block :
    (block reg : ℕ) (bs : List (List ℕ)) → length (mark_block block reg bs) ≡ length bs
unfolding mark_block
length-mark_block block reg [] = refl
length-mark_block zero reg (b ∷ bs) = refl
length-mark_block (suc block) reg (b ∷ bs) = ap suc (length-mark_block block reg bs)

length-mark_range :
    (n block reg : ℕ) (l : LivenessResult)
    → length (mark_range n block reg l).live_in ≡ length l.live_in
unfolding mark_range mark_live_in
length-mark_range zero block reg l = refl
length-mark_range (suc n) block reg l =
    length-mark_range n (block + 1) reg (mark_live_in block reg l)
    ∙ length-mark_block block reg l.live_in

-- One block more at the front of a range of blocks.
longer :
    (old in_range at_id : Bool) (block b n : ℕ)
    → (old || (block == b && in_range && at_id))
        || (leb (block + 1) b && ltb b (block + 1 + n) && in_range && at_id)
      ≡ old || (leb block b && ltb b (block + suc n) && in_range && at_id)
longer true in_range at_id block b n = refl
longer false true true block b n = ground arith
longer false true false block b n = ground arith
longer false false at_id block b n = ground arith

member-mark_range :
    (x reg n block b : ℕ) (l : LivenessResult)
    → is_member x (regs_at b (mark_range n block reg l).live_in)
      ≡ is_member x (regs_at b l.live_in)
        || (leb block b && ltb b (block + n) && ltb b (length l.live_in) && reg == x)
unfolding mark_range mark_live_in
member-mark_range x reg zero block b l = ground arith
member-mark_range x reg (suc n) block b l =
    member-mark_range x reg n (block + 1) b (mark_live_in block reg l)
    ∙ rw (member-mark_block x reg block b l.live_in, length-mark_block block reg l.live_in)
        (longer (is_member x (regs_at b l.live_in)) (ltb b (length l.live_in)) (reg == x) block b n)

-- The live range, from the definition to the last use that was recorded, meets the block.
abbrev pub range_covers : ℕ → InstIndex → Option InstIndex → Bool
range_covers b def none = false
range_covers b def (some last) = leb def.block_id b && leb b last.block_id

abbrev pub range_crosses : InstIndex → Option InstIndex → Bool
range_crosses def none = false
range_crosses def (some last) = not (def.block_id == last.block_id)

-- What one register adds.
abbrev Adds : ℕ → ℕ → ℕ → Bool → Bool → LivenessResult → LivenessResult → Type 0
Adds x id b covers crosses l m =
    (length m.live_in ≡ length l.live_in)
    × (is_member x (regs_at b m.live_in)
        ≡ is_member x (regs_at b l.live_in) || (covers && ltb b (length l.live_in) && id == x))
    × (is_member x m.multi_block_regs ≡ is_member x l.multi_block_regs || (crosses && id == x))

multi-mark_range :
    (n block reg : ℕ) (l : LivenessResult)
    → (mark_range n block reg l).multi_block_regs ≡ l.multi_block_regs
unfolding mark_range mark_live_in
multi-mark_range zero block reg l = refl
multi-mark_range (suc n) block reg l = multi-mark_range n (block + 1) reg (mark_live_in block reg l)

mark_register-Adds :
    (x id b : ℕ) (def : InstIndex) (last : Option InstIndex) (l : LivenessResult)
    → Adds x id b (range_covers b def last) (range_crosses def last) l (mark_register id def last l)
unfolding mark_register mark_spans_blocks
mark_register-Adds x id b def none l = (refl, ground arith, ground arith)
mark_register-Adds x id b def (some last) l =
    let n = last.block_id + 1 - def.block_id in
    let size = length-mark_range n def.block_id id l in
    let member = member-mark_range x id n def.block_id b l in
    let multi = multi-mark_range n def.block_id id l in
    elim (Bool-cases (def.block_id == last.block_id)) [
      | inl h ↦ rw h (size, member ∙ ground arith, rw multi (ground arith))
      | inr h ↦ rw h (
        size,
        member ∙ ground arith,
        member-push_new x id (mark_range n def.block_id id l).multi_block_regs
            ∙ rw multi (ground arith),
      )
    ]

joined : (a c i e s : Bool) → (a || (c && i && e)) || (i && s) ≡ a || (i && (c && e || s))
joined true c i e s = refl
joined false c true e s = ground arith
joined false c false e s = ground arith

or_assoc : (a b c : Bool) → (a || b) || c ≡ a || (b || c)
or_assoc true b c = refl
or_assoc false b c = refl

module _ {T : Type 0} where
  abbrev pub covers : ℕ → VirtualRegister T → Bool
  covers b r = range_covers b r.defined_at r.last_used_at

  abbrev pub crosses : VirtualRegister T → Bool
  crosses r = range_crosses r.defined_at r.last_used_at

  -- The registers of this id with a test.
  abbrev pub some_register : (VirtualRegister T → Bool) → ℕ → List (ℕ × VirtualRegister T) → Bool
  some_register p x rs = any (λ e. p e.1 && e.0 == x) rs

  mark_registers-Adds :
      (x b : ℕ) (rs : List (ℕ × VirtualRegister T)) (l : LivenessResult)
      → let m = mark_registers rs l in
        (is_member x (regs_at b m.live_in)
          ≡ is_member x (regs_at b l.live_in)
            || (ltb b (length l.live_in) && some_register (covers b) x rs))
        × (is_member x m.multi_block_regs
            ≡ is_member x l.multi_block_regs || some_register crosses x rs)
  unfolding mark_registers
  mark_registers-Adds x b [] l = (ground arith, ground arith)
  mark_registers-Adds x b ((id, r) ∷ rs) l =
      let one = mark_register-Adds x id b r.defined_at r.last_used_at l in
      let more = mark_registers-Adds x b rs (mark_register id r.defined_at r.last_used_at l) in
      (
        more.0
            ∙ rw (one.0, one.1)
                (joined (is_member x (regs_at b l.live_in)) (covers b r) (ltb b (length l.live_in))
                  (id == x) (some_register (covers b) x rs)),
        more.1
            ∙ rw one.2 (
                or_assoc (is_member x l.multi_block_regs) (crosses r && id == x)
                  (some_register crosses x rs)),
      )

regs_at-empty_blocks : (b n : ℕ) → regs_at b (empty_blocks n) ≡ []
unfolding regs_at
regs_at-empty_blocks b zero = refl
regs_at-empty_blocks zero (suc n) = refl
regs_at-empty_blocks (suc b) (suc n) = regs_at-empty_blocks b n

length-empty_blocks : (n : ℕ) → length (empty_blocks n) ≡ n
length-empty_blocks zero = refl
length-empty_blocks (suc n) = ap suc (length-empty_blocks n)

-- `compute_liveness` says that a register is live in a block exactly where the block is one of the
-- function's and lies between the register's definition and its last use, both included, so also in
-- the block that defines it; and that it spans blocks exactly where the two are in different ones.
pub compute_liveness-covers :
    {T : Type 0} (n : ℕ) (a : VirtualRegisterAllocator T) (x b : ℕ)
    → (is_member x (live_in_of b (compute_liveness n a))
        ≡ ltb b n && some_register (covers b) x a.registers)
      × (spans_blocks x (compute_liveness n a) ≡ some_register crosses x a.registers)
unfolding compute_liveness live_in_of spans_blocks new_result
compute_liveness-covers n a x b =
    let (live, multi) = mark_registers-Adds x b a.registers (new_result n) in
    (live ∙ rw (regs_at-empty_blocks b n, length-empty_blocks n) refl, multi)
