-- ===== src/Mir/Optimize/Rounds.antt =====
-- crates/jdruby-mir/src/optimize.rs: `optimize_function`.
use jdruby.Base.{
  ℕ, zero, suc, ◌≡◌, ◌∙◌, refl, sym, ap, Bool, true, Option, some, none, List, [], ◌∷◌, Outcome,
  done, panic, ◌>>=◌, >>=-eq-done, done-injective, Outcome-cases, ◌⊎◌, inl, inr, retain,
}
use jdruby.Mir.Nodes.{MirBlock, MirInst}
use jdruby.Jit.Value.{FloatOps}
use jdruby.Base.Names.{contains, contains-cons_self}
use jdruby.Mir.Optimize.Constants.{
  constant_folding, fold_blocks, constant_propagation, common_subexpression_elimination,
  constant_branch_folding, walk_blocks, fold_instructions,
}
use jdruby.Mir.Optimize.Remove.{
  retain_instructions, remove_dead_stores, dead_code_elimination, remove_nops,
}
use jdruby.Mir.Optimize.Reach.{remove_unreachable_blocks, first_label}
use jdruby.Mir.Optimize.Reach.Closure.{reachable_labels-IsClosed}

-- The passes of a round behind the folding of constants.
unfoldable pub rest_of_round : List MirBlock → Option (List MirBlock)
rest_of_round bs = remove_unreachable_blocks (
    constant_branch_folding (
      remove_nops (
        dead_code_elimination
          (remove_dead_stores (common_subexpression_elimination (constant_propagation bs))))))

module _ (checks : Bool) (fl : FloatOps) where
  -- So many rounds. The outer outcome is a panic; `none`: the fuel of a pass ends.
  unfoldable pub rounds : ℕ → List MirBlock → Outcome (Option (List MirBlock))
  rounds zero bs = done (some bs)
  rounds (suc n) bs = constant_folding checks fl bs >>= λ folded. elim (rest_of_round folded) [
    | none ↦ done none
    | some cs ↦ rounds n cs
  ]

  unfoldable pub optimize_function : List MirBlock → Outcome (Option (List MirBlock))
  optimize_function bs = rounds 3 bs

-- The blocks of one list begin with the same label as those of another.
walk_blocks-first :
    {M : Type 0} (step : M → MirInst → MirInst × M) (m : M) (bs : List MirBlock)
    → first_label (walk_blocks step m bs) ≡ first_label bs
unfolding walk_blocks
walk_blocks-first step m [] = refl
walk_blocks-first step m (b ∷ bs) = refl

retain_instructions-first :
    (keep : MirInst → Bool) (bs : List MirBlock)
    → first_label (retain_instructions keep bs) ≡ first_label bs
retain_instructions-first keep [] = refl
retain_instructions-first keep (b ∷ bs) = refl

constant_branch_folding-first :
    (bs : List MirBlock) → first_label (constant_branch_folding bs) ≡ first_label bs
unfolding constant_branch_folding
constant_branch_folding-first [] = refl
constant_branch_folding-first (b ∷ bs) = refl

remove_unreachable_blocks-first :
    (bs : List MirBlock)
    → (cs : List MirBlock) × (remove_unreachable_blocks bs ≡ some cs)
      × (first_label cs ≡ first_label bs)
unfolding remove_unreachable_blocks
remove_unreachable_blocks-first [] = ([], refl, refl)
remove_unreachable_blocks-first (b ∷ []) = (b ∷ [], refl, refl)
remove_unreachable_blocks-first (b ∷ c ∷ bs) =
    let (r, e, closed, within) = reachable_labels-IsClosed (b ∷ c ∷ bs) in
    let kept : contains r b.label ≡ true = within b.label (contains-cons_self b.label []) in
    (retain (λ b. contains r b.label) (b ∷ c ∷ bs), rw e refl, rw kept refl)

rest_of_round-first :
    (bs : List MirBlock)
    → (cs : List MirBlock) × (rest_of_round bs ≡ some cs) × (first_label cs ≡ first_label bs)
unfolding rest_of_round constant_propagation common_subexpression_elimination remove_dead_stores
    dead_code_elimination remove_nops
rest_of_round-first bs =
    let b1 = constant_propagation bs in
    let b2 = common_subexpression_elimination b1 in
    let b3 = remove_dead_stores b2 in
    let b4 = dead_code_elimination b3 in
    let b5 = remove_nops b4 in
    let (cs, e, f) = remove_unreachable_blocks-first (constant_branch_folding b5) in
    (
      cs,
      e,
      f
          ∙ constant_branch_folding-first b5
          ∙ retain_instructions-first _ b4
          ∙ retain_instructions-first _ b3
          ∙ retain_instructions-first _ b2
          ∙ walk_blocks-first _ _ b1
          ∙ walk_blocks-first _ _ bs,
    )

constant_folding-first :
    (checks : Bool) (fl : FloatOps) (bs cs : List MirBlock)
    → constant_folding checks fl bs ≡ done cs
    → first_label cs ≡ first_label bs
unfolding constant_folding fold_blocks
constant_folding-first checks fl [] cs h = ap first_label (sym (done-injective h))
constant_folding-first checks fl (b ∷ bs) cs h =
    let (p, e, g) = >>=-eq-done (fold_instructions checks fl [] b.instructions) _ h in
    let (q, e', g') = >>=-eq-done (fold_blocks checks fl p.1 bs) _ g in
    ap first_label (sym (done-injective g'))

-- What a run of the passes comes to: a panic, or blocks with the same entry.
abbrev pub KeepsEntry : List MirBlock → Outcome (Option (List MirBlock)) → Type 0
KeepsEntry bs o =
    (o ≡ panic) ⊎ ((cs : List MirBlock) × (o ≡ done (some cs)) × (first_label cs ≡ first_label bs))

rounds-KeepsEntry :
    (checks : Bool) (fl : FloatOps) (n : ℕ) (bs : List MirBlock)
    → KeepsEntry bs (rounds checks fl n bs)
unfolding rounds
rounds-KeepsEntry checks fl zero bs = inr (bs, refl, refl)
rounds-KeepsEntry checks fl (suc n) bs = elim (Outcome-cases (constant_folding checks fl bs)) [
  | inr e ↦ inl (rw e refl)
  | inl (folded, e) ↦
      let (cs, found, first) = rest_of_round-first folded in
      let entry = first ∙ constant_folding-first checks fl bs folded e in
      elim (rounds-KeepsEntry checks fl n cs) [
        | inl stops ↦ inl (rw (e, ◌>>=◌, found) stops)
        | inr (ds, ends, f) ↦ inr (ds, rw (e, ◌>>=◌, found) ends, f ∙ entry)
      ]
]

-- `optimize_function` ends for every function: either the folding of constants panics, or the three
-- rounds of all eight passes give blocks that begin with the same label as the function's, so that
-- its entry is the same.
pub optimize_function-KeepsEntry :
    (checks : Bool) (fl : FloatOps) (bs : List MirBlock)
    → KeepsEntry bs (optimize_function checks fl bs)
unfolding optimize_function
optimize_function-KeepsEntry checks fl bs = rounds-KeepsEntry checks fl 3 bs
