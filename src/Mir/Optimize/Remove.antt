-- ===== src/Mir/Optimize/Remove.antt =====
-- crates/jdruby-mir/src/optimize.rs: the passes that drop instructions.
use jdruby.Base.{String, Bool, true, false, some, List, [], ◌∷◌, ◌++◌, map, ◌||◌, ◌==◌, retain, any}
use jdruby.Base.Keys.{nat_eq, triple_eq}
use jdruby.Base.Names.{contains, starts_uppercase, starts_at, starts_dollar}
use jdruby.Mir.Nodes.{
  RegId, MirInst, load_const, copy, bin_op, un_op, call, method_call, load, store, alloc, nop,
  def_method, include_module, MirTerminator, return, cond_branch, MirBlock,
}

-- Passes that drop instructions: the blocks keep their labels and terminators.
abbrev pub retain_instructions : (MirInst → Bool) → List MirBlock → List MirBlock
retain_instructions keep =
    map {A = MirBlock} (λ b. record b { instructions = retain keep b.instructions })

-- remove_dead_stores
unfoldable pub loaded_names : List MirInst → List String
loaded_names [] = []
loaded_names (load r name ∷ is) = name ∷ loaded_names is
loaded_names (i ∷ is) = loaded_names is

unfoldable pub loaded_in_blocks : List MirBlock → List String
loaded_in_blocks [] = []
loaded_in_blocks (b ∷ bs) = loaded_names b.instructions ++ loaded_in_blocks bs

unfoldable pub keeps_store : List String → MirInst → Bool
keeps_store loaded (store name r) =
    starts_uppercase name || starts_at name || starts_dollar name || contains loaded name
keeps_store loaded i = true

unfoldable pub remove_dead_stores : List MirBlock → List MirBlock
remove_dead_stores bs = retain_instructions (keeps_store (loaded_in_blocks bs)) bs

-- dead_code_elimination
unfoldable pub used_regs : MirInst → List RegId
used_regs (copy d r) = r ∷ []
used_regs (bin_op d op l r) = l ∷ r ∷ []
used_regs (un_op d op r) = r ∷ []
used_regs (call d name args) = args
used_regs (method_call d recv name args block) = recv ∷ args
used_regs (store name r) = r ∷ []
used_regs (def_method c name f) = c ∷ []
used_regs (include_module c m) = c ∷ []
used_regs i = []

unfoldable pub used_by_terminator : MirTerminator → List RegId
used_by_terminator (return (some r)) = r ∷ []
used_by_terminator (cond_branch r t e) = r ∷ []
used_by_terminator t = []

unfoldable pub used_in : List MirInst → List RegId
used_in [] = []
used_in (i ∷ is) = used_regs i ++ used_in is

unfoldable pub used_in_blocks : List MirBlock → List RegId
used_in_blocks [] = []
used_in_blocks (b ∷ bs) =
    used_in b.instructions ++ (used_by_terminator b.terminator ++ used_in_blocks bs)

abbrev pub uses : List RegId → RegId → Bool
uses used r = any (λ x. x == r) used

unfoldable pub keeps_instruction : List RegId → MirInst → Bool
keeps_instruction used (load_const r c) = uses used r
keeps_instruction used (copy r x) = uses used r
keeps_instruction used (bin_op r op x y) = uses used r
keeps_instruction used (un_op r op x) = uses used r
keeps_instruction used (alloc r name) = uses used r
keeps_instruction used (load r name) = uses used r
keeps_instruction used i = true

unfoldable pub dead_code_elimination : List MirBlock → List MirBlock
dead_code_elimination bs = retain_instructions (keeps_instruction (used_in_blocks bs)) bs

-- remove_nops
unfoldable pub is_no_nop : MirInst → Bool
is_no_nop nop = false
is_no_nop i = true

unfoldable pub remove_nops : List MirBlock → List MirBlock
remove_nops bs = retain_instructions is_no_nop bs
