-- ===== src/Mir/Peephole/Fallthrough.antt =====
-- `eliminate_dead_branches_to_fallthrough` of opt_peephole.rs against the interpreter's loop, which
-- ends the call with nil at an unreachable terminator and never falls through.
use text.Mathlib.TextEquality.{eq_iff}
use jdruby.Base.{ℕ, suc, ◌≡◌, ◌∙◌, List, ◌∷◌, Outcome, done, arith}
use jdruby.Jit.Value.{IrValue}
use jdruby.Jit.Exec.{
  goto, stop, finished, find_block, exec_all, next, run, entry_label, run_function,
}
use jdruby.Mir.Nodes.{RegId, MirInst, branch, unreachable, MirBlock}
use jdruby.Mir.Peephole.{eliminate_dead_branches_to_fallthrough}

module _ {S : Type 0} (exec : MirInst → S → Outcome S) (read : S → RegId → IrValue) where
  first_step :
      (b : MirBlock) (bs : List MirBlock) (s s' : S) (fuel : ℕ)
      → exec_all exec b.instructions s ≡ done s'
      → run_function exec read (suc fuel) (b ∷ bs) s ≡ elim (next exec read b.terminator s') [
        | stop v ↦ finished v s'
        | goto l' ↦ run exec read fuel (b ∷ bs) l' s'
      ]
  unfolding run_function run entry_label find_block
  first_step b bs s s' fuel e = ground (arith, eq_iff b.label b.label)

  pass_at_first :
      (b c : MirBlock) (bs : List MirBlock)
      → b.terminator ≡ branch c.label
      → (rest : List MirBlock) × ((eliminate_dead_branches_to_fallthrough (b ∷ c ∷ bs)).0
          ≡ record b { terminator = unreachable } ∷ rest)
  unfolding eliminate_dead_branches_to_fallthrough
  pass_at_first b c bs t =
      ((eliminate_dead_branches_to_fallthrough (c ∷ bs)).0, ground (arith, eq_iff c.label c.label))

  -- A function whose first block branches to the second one goes on there before the pass, and
  -- after the pass returns nil at the end of the first block, whatever the second block does.
  pub run_function-fallthrough :
      (b c : MirBlock) (bs : List MirBlock) (s s' : S) (fuel : ℕ)
      → b.terminator ≡ branch c.label
      → exec_all exec b.instructions s ≡ done s'
      → (run_function exec read (suc fuel) (b ∷ c ∷ bs) s
          ≡ run exec read fuel (b ∷ c ∷ bs) c.label s')
        × (run_function exec read
              (suc fuel)
              (eliminate_dead_branches_to_fallthrough (b ∷ c ∷ bs)).0
              s
            ≡ finished IrValue.nil s')
  unfolding next
  run_function-fallthrough b c bs s s' fuel t e =
      let (rest, shape) = pass_at_first b c bs t in
      (
        first_step b (c ∷ bs) s s' fuel e ∙ ground arith,
        rw shape (first_step (record b { terminator = unreachable }) rest s s' fuel e),
      )
