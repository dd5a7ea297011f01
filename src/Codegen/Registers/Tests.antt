-- ===== src/Codegen/Registers/Tests.antt =====
-- Two registers, the second a temporary.
use jdruby.Base.{ℕ, ◌&&◌, ◌≡◌, false, Bool, true, some, [], ◌∷◌, ltb}
use jdruby.Codegen.Registers.{
  InstIndex, VirtualRegister, VirtualRegisterAllocator, new_register, is_member, live_in_of,
  spans_blocks, compute_liveness,
}
use jdruby.Codegen.Registers.Liveness.{covers, crosses, some_register, compute_liveness-covers}

abbrev index : ℕ → ℕ → InstIndex
index block inst = record { block_id = block; inst_id = inst }

abbrev used : VirtualRegister Bool
used = record (new_register 4 true (index 0 1) false) {
  last_used_at = some (index 2 0);
  use_count = 1;
}

abbrev one_register : VirtualRegisterAllocator Bool
one_register = record { registers = (4, used) ∷ []; next_internal_id = 1000 }

compute_liveness-covers_example :
    (is_member 4 (live_in_of 1 (compute_liveness 3 one_register))
      ≡ ltb 1 3 && some_register (covers 1) 4 one_register.registers)
    × (spans_blocks 4 (compute_liveness 3 one_register)
        ≡ some_register crosses 4 one_register.registers)
compute_liveness-covers_example = compute_liveness-covers 3 one_register 4 1
