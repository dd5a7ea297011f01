-- ===== src/Mir/Optimize/Reach/Runs.antt =====
-- `remove_unreachable_blocks` of optimize.rs against the loop of the interpreter.
use mathlib.Core.Path.{subst}
use text.Mathlib.Text.{◌==◌ as str_eq}
use text.Mathlib.TextEquality.{eq_iff}
use jdruby.Base.{
  ◌≤◌, length, length-retain-le, sym, Outcome-cases, ℕ, zero, suc, ◌≡◌, refl, ap, String, true,
  some, none, List, [], ◌∷◌, Outcome, retain, Bool-cases, Option-cases, inl, inr, arith,
}
use jdruby.Base.Names.{contains, contains-cons_self}
use jdruby.Jit.Value.{IrValue}
use jdruby.Jit.Exec.{Next-cases, goto, find_block, exec_all, next, run, entry_label, run_function}
use jdruby.Mir.Nodes.{
  RegId, BlockLabel, MirInst, MirTerminator, return, branch, cond_branch, unreachable, MirBlock,
}
use jdruby.Mir.Optimize.Reach.{successors, keep_labels, remove_unreachable_blocks, first_label}
use jdruby.Mir.Optimize.Reach.Closure.{Within, IsClosed, reachable_labels-IsClosed}

abbrev inside : List String → List MirBlock → List MirBlock
inside r = retain (λ b. contains r b.label)

-- A block whose label is in the set is found where it was found before.
find_block-inside :
    (r : List String) (l : String) (bs : List MirBlock)
    → contains r l ≡ true
    → find_block l (inside r bs) ≡ find_block l bs
unfolding find_block
find_block-inside r l [] h = refl
find_block-inside r l (b ∷ bs) h = ground (arith, eq_iff b.label l, find_block-inside r l bs h)

find_block-IsClosed :
    (r : List String) (l : String) (bs : List MirBlock) (b : MirBlock)
    → IsClosed r bs
    → contains r l ≡ true
    → find_block l bs ≡ some b
    → Within (successors b.terminator) r
unfolding find_block
find_block-IsClosed r l [] b c h e = cc
find_block-IsClosed r l (a ∷ bs) b c h e = elim (Bool-cases (str_eq a.label l)) [
  | inl here ↦
      let same : a.label ≡ l = (eq_iff a.label l).0 here in
      let unwrapped : some a ≡ some b = rw here at e in
      let this : a ≡ b = cc in
      subst (λ (x : MirBlock). Within (successors x.terminator) r) this
        (c.0 (subst (λ (x : String). contains r x ≡ true) (sym same) h))
  | inr there ↦ find_block-IsClosed r l bs b c.1 h (rw there at e)
]

module _ {S : Type 0} (exec : MirInst → S → Outcome S) (read : S → RegId → IrValue) where
  next-successors :
      (t : MirTerminator) (s : S) (l : BlockLabel)
      → next exec read t s ≡ goto l
      → contains (successors t) l ≡ true
  unfolding next successors contains
  next-successors (return (some r)) s l h = cc
  next-successors (return none) s l h = cc
  next-successors (branch k) s l h = ground (arith, eq_iff k l)
  next-successors (cond_branch r t e) s l h = ground (arith, eq_iff t l, eq_iff e l)
  next-successors unreachable s l h = cc

  run-inside :
      (fuel : ℕ) (bs : List MirBlock) (r : List String) (l : BlockLabel) (s : S)
      → IsClosed r bs
      → contains r l ≡ true
      → run exec read fuel (inside r bs) l s ≡ run exec read fuel bs l s
  unfolding run
  run-inside zero bs r l s c h = refl
  run-inside (suc fuel) bs r l s c h = elim (Option-cases (find_block l bs)) [
    | inl absent ↦ rw (find_block-inside r l bs h, absent, run)
    | inr (b, found) ↦
        rw (find_block-inside r l bs h, found, run)
          (elim (Outcome-cases (exec_all exec b.instructions s)) [
            | inr stuck ↦ rw (stuck, run)
            | inl (s', ran) ↦ elim (Next-cases (next exec read b.terminator s')) [
              | inr (v, ended) ↦ rw (ran, ended, run)
              | inl (l', on) ↦
                  rw (ran, on, run)
                    (run-inside fuel bs r l' s' c (
                      find_block-IsClosed r l bs b c h found l'
                        (next-successors b.terminator s' l' on)))
            ]
          ])
  ]

  entry-inside :
      (bs : List MirBlock) (r : List String)
      → Within (first_label bs) r
      → entry_label exec read (inside r bs) ≡ entry_label exec read bs
  unfolding entry_label
  entry-inside [] r w = refl
  entry-inside (b ∷ bs) r w = rw (w b.label (contains-cons_self b.label []))

  entry-in_first :
      (b : MirBlock) (bs : List MirBlock) (r : List String)
      → Within (first_label (b ∷ bs)) r
      → contains r (entry_label exec read (b ∷ bs)) ≡ true
  unfolding entry_label
  entry-in_first b bs r w = w b.label (contains-cons_self b.label [])

  run_function-inside :
      (b : MirBlock) (bs : List MirBlock) (r : List String) (fuel : ℕ) (s : S)
      → IsClosed r (b ∷ bs)
      → Within (first_label (b ∷ bs)) r
      → run_function exec read fuel (inside r (b ∷ bs)) s ≡ run_function exec read fuel (b ∷ bs) s
  unfolding run_function
  run_function-inside b bs r fuel s c w =
      rw (entry-inside (b ∷ bs) r w)
        (run-inside fuel (b ∷ bs) r (entry_label exec read (b ∷ bs)) s c (entry-in_first b bs r w))

  -- Removing unreachable blocks ends for every function, leaves no more blocks than there were,
  -- and keeps every run: for all ways to execute an instruction and to read a register, for every
  -- number of steps and every start state, the function ends, panics or goes on as before.
  pub run_function-remove_unreachable_blocks :
      (bs : List MirBlock)
      → (bs' : List MirBlock) × (remove_unreachable_blocks bs ≡ some bs')
        × (length bs' ≤ length bs)
        × ((fuel : ℕ) (s : S)
            → run_function exec read fuel bs' s ≡ run_function exec read fuel bs s)
  unfolding remove_unreachable_blocks
  run_function-remove_unreachable_blocks [] = ([], refl, omega arith, λ fuel s. refl)
  run_function-remove_unreachable_blocks (b ∷ []) = (b ∷ [], refl, omega arith, λ fuel s. refl)
  run_function-remove_unreachable_blocks (b ∷ d ∷ bs) =
      let (r, found, c, w) = reachable_labels-IsClosed (b ∷ d ∷ bs) in
      (
        inside r (b ∷ d ∷ bs),
        ap (keep_labels (b ∷ d ∷ bs)) found,
        length-retain-le (λ x. contains r x.label) (b ∷ d ∷ bs),
        λ fuel s. run_function-inside b (d ∷ bs) r fuel s c w,
      )
