-- ===== src/Codegen/Registers.antt =====
-- crates/jdruby-codegen/src/register: virtual_reg.rs and allocator.rs. The type of a register's
-- value is a parameter, since nothing here looks into it; a `u32` is a number below 2 ^ 32.
pub mod Liveness
pub mod Temps
mod Tests
use jdruby.Base.{
  ℕ, zero, suc, ◌+◌, ◌-◌, ◌%◌, ◌^◌, ◌==◌, ◌&&◌, ◌||◌, Bool, true, false, not, Option, some, none,
  List, [], ◌∷◌, ◌++◌, length, any, ltb, leb, if◌then◌else◌,
}
use jdruby.Base.Assoc.{lookup, insert}
use jdruby.Base.Keys.{nat_eq}

pub record InstIndex : Type 0 where
  pub block_id : ℕ
  pub inst_id : ℕ

pub record VirtualRegister (T : Type 0) : Type 0 where
  pub id : ℕ
  pub value_type : T
  pub defined_at : InstIndex
  pub last_used_at : Option InstIndex
  pub use_count : ℕ
  pub is_parameter : Bool

pub record VirtualRegisterAllocator (T : Type 0) : Type 0 where
  pub registers : List (ℕ × VirtualRegister T)
  pub next_internal_id : ℕ

-- The fields `live_in`, `live_out` and `multi_block_regs`.
pub record LivenessResult : Type 0 where
  pub live_in : List (List ℕ)
  pub live_out : List (List ℕ)
  pub multi_block_regs : List ℕ

abbrev pub is_member : ℕ → List ℕ → Bool
is_member a xs = any (λ b. b == a) xs

-- `if !regs.contains(&reg) { regs.push(reg) }`
abbrev pub push_new : ℕ → List ℕ → List ℕ
push_new reg regs = if is_member reg regs then regs else regs ++ (reg ∷ [])

-- `get_mut` and a push there.
unfoldable pub mark_block : ℕ → ℕ → List (List ℕ) → List (List ℕ)
mark_block block reg [] = []
mark_block zero reg (b ∷ bs) = push_new reg b ∷ bs
mark_block (suc block) reg (b ∷ bs) = b ∷ mark_block block reg bs

-- `get`, with no registers out of range.
unfoldable pub regs_at : ℕ → List (List ℕ) → List ℕ
regs_at block [] = []
regs_at zero (b ∷ bs) = b
regs_at (suc block) (b ∷ bs) = regs_at block bs

abbrev pub empty_blocks : ℕ → List (List ℕ)
empty_blocks zero = []
empty_blocks (suc n) = [] ∷ empty_blocks n

unfoldable pub new_result : ℕ → LivenessResult
new_result block_count = record {
  live_in = empty_blocks block_count;
  live_out = empty_blocks block_count;
  multi_block_regs = [];
}

unfoldable pub mark_live_in : ℕ → ℕ → LivenessResult → LivenessResult
mark_live_in block reg l = record l { live_in = mark_block block reg l.live_in }

unfoldable pub mark_live_out : ℕ → ℕ → LivenessResult → LivenessResult
mark_live_out block reg l = record l { live_out = mark_block block reg l.live_out }

unfoldable pub mark_spans_blocks : ℕ → LivenessResult → LivenessResult
mark_spans_blocks reg l = record l { multi_block_regs = push_new reg l.multi_block_regs }

unfoldable pub live_in_of : ℕ → LivenessResult → List ℕ
live_in_of block l = regs_at block l.live_in

unfoldable pub spans_blocks : ℕ → LivenessResult → Bool
spans_blocks reg l = is_member reg l.multi_block_regs

-- So many blocks from `block` on.
unfoldable pub mark_range : ℕ → ℕ → ℕ → LivenessResult → LivenessResult
mark_range zero block reg l = l
mark_range (suc n) block reg l = mark_range n (block + 1) reg (mark_live_in block reg l)

-- The body of the loop of `compute_liveness` for a live range.
unfoldable pub mark_register : ℕ → InstIndex → Option InstIndex → LivenessResult → LivenessResult
mark_register id def none l = l
mark_register id def (some last) l =
    let marked = mark_range (last.block_id + 1 - def.block_id) def.block_id id l in
    if def.block_id == last.block_id then marked else mark_spans_blocks id marked

module _ {T : Type 0} where
  abbrev pub new_register : ℕ → T → InstIndex → Bool → VirtualRegister T
  new_register id ty at param = record {
    id = id;
    value_type = ty;
    defined_at = at;
    last_used_at = none;
    use_count = 0;
    is_parameter = param;
  }

  unfoldable pub use_register : InstIndex → VirtualRegister T → VirtualRegister T
  use_register at r = record r { use_count = (r.use_count + 1) % 2 ^ 32; last_used_at = some at }

  -- The difference wraps in a release build.
  unfoldable pub is_short_lived : VirtualRegister T → Bool
  is_short_lived r = elim r.last_used_at [
    | none ↦ false
    | some last ↦
        r.defined_at.block_id == last.block_id
        && leb ((last.inst_id + 2 ^ 32 - r.defined_at.inst_id) % 2 ^ 32) 5
  ]

  unfoldable pub is_heavily_used : VirtualRegister T → Bool
  is_heavily_used r = ltb 3 r.use_count

  unfoldable pub new_allocator : VirtualRegisterAllocator T
  new_allocator = record { registers = []; next_internal_id = 1000 }

  unfoldable pub allocate :
      ℕ → T → InstIndex → Bool → VirtualRegisterAllocator T → VirtualRegisterAllocator T
  allocate reg ty at param a = record a {
    registers = insert reg (new_register reg ty at param) a.registers;
  }

  unfoldable pub allocate_temp :
      T → InstIndex → VirtualRegisterAllocator T → ℕ × VirtualRegisterAllocator T
  allocate_temp ty at a =
      let id = a.next_internal_id in
      (id, allocate id ty at false (record a { next_internal_id = (id + 1) % 2 ^ 32 }))

  unfoldable pub get : ℕ → VirtualRegisterAllocator T → Option (VirtualRegister T)
  get id a = lookup id a.registers

  unfoldable pub record_use :
      ℕ → InstIndex → VirtualRegisterAllocator T → VirtualRegisterAllocator T
  record_use id at a = elim (lookup id a.registers) [
    | none ↦ a
    | some r ↦ record a { registers = insert id (use_register at r) a.registers }
  ]

  unfoldable pub mark_registers : List (ℕ × VirtualRegister T) → LivenessResult → LivenessResult
  mark_registers [] l = l
  mark_registers ((id, r) ∷ rs) l =
      mark_registers rs (mark_register id r.defined_at r.last_used_at l)

  unfoldable pub compute_liveness : ℕ → VirtualRegisterAllocator T → LivenessResult
  compute_liveness block_count a = mark_registers a.registers (new_result block_count)

  unfoldable pub priority_registers : List (ℕ × VirtualRegister T) → List ℕ
  priority_registers [] = []
  priority_registers ((id, r) ∷ rs) =
      if is_heavily_used r || is_short_lived r
      then r.id ∷ priority_registers rs
      else priority_registers rs

  unfoldable pub clear : VirtualRegisterAllocator T → VirtualRegisterAllocator T
  clear a = record { registers = []; next_internal_id = 1000 }
