-- ===== src/Codegen/Registers/Temps.antt =====
-- crates/jdruby-codegen/src/register/allocator.rs: the ids of temporary registers.
use jdruby.Base.{ℕ, ◌+◌, ◌%◌, ◌^◌, ◌==◌, ◌≡◌, ◌<◌, false, some, none, All, if◌then◌else◌, arith}
use jdruby.Base.Assoc.{lookup-insert}
use jdruby.Base.Keys.{nat_eq, lookup-fresh, All-next, All-insert}
use jdruby.Codegen.Registers.{
  InstIndex, VirtualRegisterAllocator, new_register, allocate, allocate_temp, get,
}

-- Every id in use is below the next one for a temporary.
abbrev pub IsBounded : {T : Type 0} → VirtualRegisterAllocator T → Type 0
IsBounded a = All (λ e. e.0 < a.next_internal_id) a.registers

-- Where every id in use is below the next one, a temporary gets an id that no register has, the
-- other registers stay as they are, and every id in use is below the next one again.
allocate_temp-get :
    {T : Type 0} (ty : T) (at : InstIndex) (a : VirtualRegisterAllocator T)
    → IsBounded a
    → a.next_internal_id + 1 < 2 ^ 32
    → let (id, b) = allocate_temp ty at a in
      (get id a ≡ none)
      × ((j : ℕ) → get j b ≡ (if id == j then some (new_register id ty at false) else get j a))
      × IsBounded b
unfolding allocate_temp allocate get
allocate_temp-get ty at a h l =
    let id = a.next_internal_id in
    (
      lookup-fresh id a.registers h,
      λ j. lookup-insert id j (new_register id ty at false) a.registers,
      All-insert id ((id + 1) % 2 ^ 32) (new_register id ty at false) a.registers (omega (arith, l))
          (All-next id ((id + 1) % 2 ^ 32) a.registers (omega (arith, l)) h),
    )
