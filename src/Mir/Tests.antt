-- ===== src/Mir/Tests.antt =====
-- The theorems on the passes of jdruby-mir at concrete functions.
use jdruby.Base.{
  ℕ, suc, ◌+◌, ◌*◌, ◌≡◌, ◌≤◌, refl, sym, ap, String, true, false, ◌↔◌, some, List, [], ◌∷◌, length,
  Outcome, done, done-injective, ◌==◌, ltb,
}
use jdruby.Base.Int.{pos, wrap, ◌+ℤ◌}
use jdruby.Base.Assoc.{lookup, insert}
use jdruby.Base.Keys.{nat_eq}
use jdruby.Base.Names.{contains, starts_at, starts_uppercase}
use jdruby.Jit.Value.{IrValue, FloatOps, value_of, eval_binop, eval_integers}
use jdruby.Jit.Exec.{
  Interp, exec_instruction, exec_all, set_reg, get_reg, store_name, load_name, run_function, run,
  finished,
}
use jdruby.Mir.Nodes.{
  RegId, MirConst, add, MirInst, load_const, copy, bin_op, store, load, MirBlock, return, branch,
  cond_branch,
}
use jdruby.Mir.Fold.{fold_binop, fold_integers}
use jdruby.Mir.Fold.Laws.{fold_binop-Agrees, Agrees, Exceeds}
use jdruby.Mir.Optimize.Constants.{fold_instructions, fold_instruction}
use jdruby.Mir.Optimize.Reach.{reachable_labels, remove_unreachable_blocks}
use jdruby.Mir.Optimize.Reach.Exact.{Reaches, reachable_labels-Reaches}
use jdruby.Mir.Optimize.Reach.Runs.{run_function-remove_unreachable_blocks}
use jdruby.Mir.Optimize.Rounds.{optimize_function, optimize_function-KeepsEntry, KeepsEntry}
use jdruby.Mir.Optimize.Straight.{WritesOnlyDest, dest_of}
use jdruby.Mir.Optimize.FoldSound.{exec_all-fold_instructions}
use jdruby.Mir.Optimize.Known.{Knows}
use jdruby.Mir.Peephole.{
  eliminate_copy_chains, CopyMap, shorten_blocks, chase, copies_in, reuse_stores,
  eliminate_dead_branches_to_fallthrough,
}
use jdruby.Mir.Peephole.Chains.{eliminate_copy_chains-total, IsEnd}
use jdruby.Mir.Peephole.Fallthrough.{run_function-fallthrough}
use jdruby.Mir.Peephole.Loads.{exec_all-reuse_stores}

-- A processor whose floats are compared as bit patterns and whose results are plain sums.
abbrev floats : FloatOps
floats = record {
  add_f = λ a b. 0;
  sub_f = λ a b. 0;
  mul_f = λ a b. 0;
  div_f = λ a b. 0;
  eq_f = λ a b. a == b;
  lt_f = λ a b. ltb a b;
  neg_f = λ a. a;
  to_int = λ a. pos a;
}

abbrev idle : MirInst → Interp ℕ → Outcome (Interp ℕ)
idle i s = done s

idle-WritesOnlyDest : WritesOnlyDest idle
idle-WritesOnlyDest i s s' r h n = ap (λ x. get_reg x r) (sym (done-injective h))

abbrev start : Interp ℕ
start = record { registers = []; variables = []; constants = []; instance_vars = []; world = 0 }

fold_binop-Agrees_example :
    Agrees false floats
      (Exceeds add (MirConst.integer (pos 2)) (MirConst.integer (pos 3)))
      (eval_binop false floats add
        (value_of (MirConst.integer (pos 2)))
        (value_of (MirConst.integer (pos 3))))
      (MirConst.integer (pos 5))
unfolding fold_binop wrap ◌+ℤ◌
fold_binop-Agrees_example =
    fold_binop-Agrees false floats add (MirConst.integer (pos 2)) (MirConst.integer (pos 3)) refl tt

-- A function with a loop and a block that nothing reaches.
abbrev block : String → List MirInst → String → MirBlock
block l is t = record { label = l; instructions = is; terminator = branch t }

abbrev three_blocks : List MirBlock
three_blocks = block "a" [] "c" ∷ block "b" [] "a" ∷ block "c" [] "a" ∷ []

-- A conditional branch, and a block that only reaches itself.
abbrev forked_blocks : List MirBlock
forked_blocks =
    record { label = "a"; instructions = []; terminator = cond_branch 0 "c" "d" }
    ∷ block "b" [] "b"
    ∷ block "c" [] "d"
    ∷ record { label = "d"; instructions = []; terminator = return (some 0) }
    ∷ []

reachable_labels-Reaches_example :
    (r : List String) × (reachable_labels forked_blocks ≡ some r)
    × ((l : String) → (contains r l ≡ true) ↔ Reaches forked_blocks l)
reachable_labels-Reaches_example = reachable_labels-Reaches forked_blocks

abbrev always : MirInst → ℕ → Outcome ℕ
always i s = done (s + 1)

abbrev read_nil : ℕ → RegId → IrValue
read_nil s r = IrValue.nil

run_function-remove_unreachable_blocks_example :
    (bs' : List MirBlock) × (remove_unreachable_blocks three_blocks ≡ some bs')
    × (length bs' ≤ length three_blocks)
    × ((fuel s : ℕ)
        → run_function always read_nil fuel bs' s
          ≡ run_function always read_nil fuel three_blocks s)
run_function-remove_unreachable_blocks_example =
    run_function-remove_unreachable_blocks always read_nil three_blocks

abbrev fold_two_and_three : List MirInst × List (RegId × MirConst)
fold_two_and_three = (
  load_const 0 (MirConst.integer (pos 2))
      ∷ load_const 1 (MirConst.integer (pos 3))
      ∷ load_const 2 (MirConst.integer (pos 5))
      ∷ [],
  (0, MirConst.integer (pos 2))
      ∷ (1, MirConst.integer (pos 3))
      ∷ (2, MirConst.integer (pos 5))
      ∷ [],
)

abbrev two_and_three : List MirInst
two_and_three =
    load_const 0 (MirConst.integer (pos 2))
    ∷ load_const 1 (MirConst.integer (pos 3))
    ∷ bin_op 2 add 0 1
    ∷ []

abbrev after_two_and_three : Interp ℕ
after_two_and_three =
    set_reg 2 (IrValue.integer (pos 5))
      (set_reg 1 (IrValue.integer (pos 3)) (set_reg 0 (IrValue.integer (pos 2)) start))

nothing_known : Knows [] [] start
unfolding lookup
nothing_known r c h = cc

exec_all-fold_instructions_example :
    (exec_all (exec_instruction false floats idle) (fold_two_and_three).0 start
      ≡ done after_two_and_three)
    × ((r : RegId) (c : MirConst)
        → lookup r fold_two_and_three.1 ≡ some c
        → get_reg after_two_and_three r ≡ value_of c)
unfolding exec_all exec_instruction fold_instructions eval_binop fold_binop get_reg set_reg value_of
    lookup insert fold_integers eval_integers dest_of ◌+ℤ◌ wrap fold_instruction
exec_all-fold_instructions_example =
    exec_all-fold_instructions false floats idle idle-WritesOnlyDest [] [] two_and_three
      fold_two_and_three start after_two_and_three nothing_known (refl, (refl, (refl, tt)))
      (tt, (tt, (tt, tt))) refl refl

-- Two registers that are copies of each other.
abbrev copy_cycle : List MirBlock
copy_cycle = block "a" (copy 0 1 ∷ copy 1 0 ∷ copy 2 0 ∷ []) "a" ∷ []

eliminate_copy_chains-total_example :
    (m : CopyMap) × (eliminate_copy_chains copy_cycle ≡ some (shorten_blocks m copy_cycle))
    × ((r : RegId)
        → (t : RegId) × (chase (suc (2 * copies_in copy_cycle)) m r ≡ some t) × IsEnd m t)
eliminate_copy_chains-total_example = eliminate_copy_chains-total copy_cycle

-- The second block returns register 0.
abbrev last_block : MirBlock
last_block = record { label = "b"; instructions = []; terminator = return (some 0) }

abbrev first_block : MirBlock
first_block = block "a" [] "b"

run_function-fallthrough_example :
    (run_function always read_nil 3 (first_block ∷ last_block ∷ []) 0
      ≡ run always read_nil 2 (first_block ∷ last_block ∷ []) "b" 0)
    × (run_function always read_nil 3
          (eliminate_dead_branches_to_fallthrough (first_block ∷ last_block ∷ [])).0
          0
        ≡ finished IrValue.nil 0)
unfolding exec_all
run_function-fallthrough_example =
    run_function-fallthrough always read_nil first_block last_block [] 0 0 2 refl refl

abbrev store_and_load : List MirInst
store_and_load = load_const 0 (MirConst.integer (pos 2)) ∷ store "x" 0 ∷ load 1 "x" ∷ []

exec_all-reuse_stores_example :
    exec_all (exec_instruction false floats idle) (reuse_stores [] store_and_load).0 start
    ≡ done (
        set_reg 1
          (IrValue.integer (pos 2))
          (store_name "x" (IrValue.integer (pos 2)) (set_reg 0 (IrValue.integer (pos 2)) start)))
unfolding exec_all exec_instruction get_reg set_reg load_name store_name value_of lookup insert
    dest_of starts_at starts_uppercase
exec_all-reuse_stores_example =
    exec_all-reuse_stores false floats idle idle-WritesOnlyDest [] store_and_load start
      (set_reg 1 (IrValue.integer (pos 2))
        (store_name "x" (IrValue.integer (pos 2)) (set_reg 0 (IrValue.integer (pos 2)) start)))
      (tt, refl, ((refl, refl), tt, (refl, refl, tt))) refl

-- The three blocks above, without overflow checks.
optimize_function-KeepsEntry_example :
    KeepsEntry three_blocks (optimize_function false floats three_blocks)
optimize_function-KeepsEntry_example = optimize_function-KeepsEntry false floats three_blocks
