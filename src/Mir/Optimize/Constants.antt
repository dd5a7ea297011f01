-- ===== src/Mir/Optimize/Constants.antt =====
-- crates/jdruby-mir/src/optimize.rs: the passes that know constants and repeated computations.
-- Each is a walk over all blocks in order with the map that it keeps. Only folding may panic.
use jdruby.Base.{
  ℕ, String, Bool, true, false, Option, some, none, List, [], ◌∷◌, map, Outcome, done, ◌>>=◌,
  if◌then◌else◌,
}
use jdruby.Base.Assoc.{lookup, insert}
use jdruby.Base.Keys.{nat_eq, triple_eq, Triple}
use jdruby.Jit.Value.{FloatOps}
use jdruby.Mir.Fold.{fold_binop, fold_unop}
use jdruby.Mir.Nodes.{
  RegId, MirConst, bool, nil, MirBinOp, add, sub, mul, div, mod_op, pow, eq, not_eq, lt, gt, lt_eq,
  gt_eq, cmp, and_op, or_op, bit_and, bit_or, bit_xor, shl, shr, MirUnOp, MirInst, load_const, copy,
  bin_op, un_op, MirTerminator, branch, cond_branch, MirBlock,
}

abbrev pub Constants : Type 0
Constants = List (RegId × MirConst)

-- A walk over the instructions of all blocks, in order, with a map that goes from one to the next.
module _ {M : Type 0} (step : M → MirInst → MirInst × M) where
  unfoldable pub walk : M → List MirInst → List MirInst × M
  walk m [] = ([], m)
  walk m (i ∷ is) = let (i', m') = step m i in let (is', m'') = walk m' is in (i' ∷ is', m'')

  unfoldable pub walk_blocks : M → List MirBlock → List MirBlock
  walk_blocks m [] = []
  walk_blocks m (b ∷ bs) =
      let (is, m') = walk m b.instructions in record b { instructions = is } ∷ walk_blocks m' bs

module _ (checks : Bool) (fl : FloatOps) where
  -- The result of a folding: the instruction, and the map with its constant.
  abbrev pub settle : Constants → MirInst → RegId → Option MirConst → MirInst × Constants
  settle m i d none = (i, m)
  settle m i d (some c) = (load_const d c, insert d c m)

  abbrev pub fold_pair :
      Constants
      → RegId
      → MirBinOp
      → RegId
      → RegId
      → Option MirConst
      → Option MirConst
      → Outcome (MirInst × Constants)
  fold_pair m d op l r (some a) (some b) = do
    c ← fold_binop checks fl op a b
    done (settle m (bin_op d op l r) d c)
  fold_pair m d op l r _ _ = done (bin_op d op l r, m)

  abbrev pub fold_single :
      Constants → RegId → MirUnOp → RegId → Option MirConst → Outcome (MirInst × Constants)
  fold_single m d op r none = done (un_op d op r, m)
  fold_single m d op r (some a) = do
    c ← fold_unop checks fl op a
    done (settle m (un_op d op r) d c)

  unfoldable pub fold_instruction : Constants → MirInst → Outcome (MirInst × Constants)
  fold_instruction m (load_const r c) = done (load_const r c, insert r c m)
  fold_instruction m (bin_op d op l r) = fold_pair m d op l r (lookup l m) (lookup r m)
  fold_instruction m (un_op d op r) = fold_single m d op r (lookup r m)
  fold_instruction m i = done (i, m)

  unfoldable pub fold_instructions : Constants → List MirInst → Outcome (List MirInst × Constants)
  fold_instructions m [] = done ([], m)
  fold_instructions m (i ∷ is) = do
    (i', m') ← fold_instruction m i
    (is', m'') ← fold_instructions m' is
    done (i' ∷ is', m'')

  unfoldable pub fold_blocks : Constants → List MirBlock → Outcome (List MirBlock)
  fold_blocks m [] = done []
  fold_blocks m (b ∷ bs) = do
    (is, m') ← fold_instructions m b.instructions
    bs' ← fold_blocks m' bs
    done (record b { instructions = is } ∷ bs')

  unfoldable pub constant_folding : List MirBlock → Outcome (List MirBlock)
  constant_folding bs = fold_blocks [] bs

-- constant_propagation
abbrev pub known_copy : Constants → RegId → RegId → Option MirConst → MirInst × Constants
known_copy m d r none = (copy d r, m)
known_copy m d r (some c) = (load_const d c, insert d c m)

unfoldable pub propagate_instruction : Constants → MirInst → MirInst × Constants
propagate_instruction m (load_const r c) = (load_const r c, insert r c m)
propagate_instruction m (copy d r) = known_copy m d r (lookup r m)
propagate_instruction m i = (i, m)

unfoldable pub constant_propagation : List MirBlock → List MirBlock
constant_propagation bs = walk_blocks propagate_instruction [] bs

-- common_subexpression_elimination
unfoldable pub binop_discriminant : MirBinOp → ℕ
binop_discriminant add = 0
binop_discriminant sub = 1
binop_discriminant mul = 2
binop_discriminant div = 3
binop_discriminant mod_op = 4
binop_discriminant pow = 5
binop_discriminant eq = 6
binop_discriminant not_eq = 7
binop_discriminant lt = 8
binop_discriminant gt = 9
binop_discriminant lt_eq = 10
binop_discriminant gt_eq = 11
binop_discriminant cmp = 12
binop_discriminant and_op = 13
binop_discriminant or_op = 14
binop_discriminant bit_and = 15
binop_discriminant bit_or = 16
binop_discriminant bit_xor = 17
binop_discriminant shl = 18
binop_discriminant shr = 19

abbrev pub Seen : Type 0
Seen = List (Triple × RegId)

abbrev pub seen_or_new : Seen → RegId → MirBinOp → RegId → RegId → Option RegId → MirInst × Seen
seen_or_new m d op l r (some old) = (copy d old, m)
seen_or_new m d op l r none = (bin_op d op l r, insert (binop_discriminant op, l, r) d m)

unfoldable pub share_instruction : Seen → MirInst → MirInst × Seen
share_instruction m (bin_op d op l r) =
    seen_or_new m d op l r (lookup (binop_discriminant op, l, r) m)
share_instruction m i = (i, m)

unfoldable pub common_subexpression_elimination : List MirBlock → List MirBlock
common_subexpression_elimination bs = walk_blocks share_instruction [] bs

-- constant_branch_folding
unfoldable pub collect_constants : Constants → List MirInst → Constants
collect_constants m [] = m
collect_constants m (load_const r c ∷ is) = collect_constants (insert r c m) is
collect_constants m (i ∷ is) = collect_constants m is

unfoldable pub collect_in_blocks : Constants → List MirBlock → Constants
collect_in_blocks m [] = m
collect_in_blocks m (b ∷ bs) = collect_in_blocks (collect_constants m b.instructions) bs

unfoldable pub is_truthy_const : MirConst → Bool
is_truthy_const (bool false) = false
is_truthy_const nil = false
is_truthy_const c = true

abbrev pub decide_branch : MirTerminator → String → String → Option MirConst → MirTerminator
decide_branch t then_l else_l none = t
decide_branch t then_l else_l (some c) = branch (if is_truthy_const c then then_l else else_l)

unfoldable pub fold_terminator : Constants → MirTerminator → MirTerminator
fold_terminator m (cond_branch r t e) = decide_branch (cond_branch r t e) t e (lookup r m)
fold_terminator m t = t

unfoldable pub constant_branch_folding : List MirBlock → List MirBlock
constant_branch_folding bs =
    map {A = MirBlock}
      (λ b. record b { terminator = fold_terminator (collect_in_blocks [] bs) b.terminator }) bs
