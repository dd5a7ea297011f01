-- ===== src/Mir/Fusion.antt =====
-- crates/jdruby-mir/src/opt_fusion.rs: `InstructionFusion` under the names of the source. Only the
-- folding of integers may panic.
pub mod Copies
mod Tests
use Prim.Native.Nat.{bit_and as nat_and, bit_or as nat_or, bit_xor as nat_xor}
use Prim.Native.String.{◌++◌ as append}
use jdruby.Base.{
  ℕ, zero, suc, ◌*◌, not, Option, some, none, List, [], ◌∷◌, map, Outcome, done, panic, ◌>>=◌,
  if◌then◌else◌,
}
use jdruby.Base.Assoc.{lookup, insert}
use jdruby.Base.Keys.{nat_eq}
use jdruby.Base.Int
use jdruby.Base.Int.{ℤ, pos, negsuc, ◌+ℤ◌, ◌-ℤ◌, ◌*ℤ◌, ltb_ℤ, leb_ℤ, eqb_ℤ, wrap}
use jdruby.Jit.Value.{divided, modulo, on_bits, exponent, is_zero}
use jdruby.Mir.Nodes.{
  RegId, MirConst, integer, string, MirBinOp, add, sub, mul, div, mod_op, pow, eq, not_eq, lt, gt,
  lt_eq, gt_eq, cmp, and_op, or_op, bit_and, bit_or, bit_xor, shl, shr, MirInst, load_const, copy,
  bin_op, method_call, MirBlock,
}
use jdruby.Mir.Fold.{folded, answered, kept, folded_or_panic}
use jdruby.Mir.Optimize.Constants.{Constants, walk_blocks}

unfoldable pub fold_integer_op : MirBinOp → ℤ → ℤ → Outcome (Option MirConst)
fold_integer_op add a b = folded (wrap (a +ℤ b))
fold_integer_op sub a b = folded (wrap (a -ℤ b))
fold_integer_op mul a b = folded (wrap (a *ℤ b))
fold_integer_op div a b = if is_zero b then kept else folded_or_panic (divided a b)
fold_integer_op mod_op a b = if is_zero b then kept else folded_or_panic (modulo a b)
fold_integer_op pow a b = folded (wrap (Int.pow a (exponent b)))
fold_integer_op bit_and a b = folded (on_bits nat_and a b)
fold_integer_op bit_or a b = folded (on_bits nat_or a b)
fold_integer_op bit_xor a b = folded (on_bits nat_xor a b)
fold_integer_op eq a b = answered (eqb_ℤ a b)
fold_integer_op not_eq a b = answered (not (eqb_ℤ a b))
fold_integer_op lt a b = answered (ltb_ℤ a b)
fold_integer_op gt a b = answered (ltb_ℤ b a)
fold_integer_op lt_eq a b = answered (leb_ℤ a b)
fold_integer_op gt_eq a b = answered (leb_ℤ b a)
fold_integer_op cmp a b =
    folded (if ltb_ℤ a b then negsuc 0 else (if ltb_ℤ b a then pos 1 else pos 0))
fold_integer_op and_op a b = kept
fold_integer_op or_op a b = kept
fold_integer_op shl a b = kept
fold_integer_op shr a b = kept

-- The index of an instruction, its register and its value.
abbrev pub Foldable : Type 0
Foldable = ℕ × RegId × MirConst

abbrev pub fold_known : MirBinOp → Option MirConst → Option MirConst → Outcome (Option MirConst)
fold_known op (some (integer a)) (some (integer b)) = fold_integer_op op a b
fold_known op _ _ = kept

abbrev pub note_foldable : ℕ → RegId → Option MirConst → List Foldable → List Foldable
note_foldable idx d none fs = fs
note_foldable idx d (some c) fs = (idx, d, c) ∷ fs

-- The first pass of `fuse_integer_arithmetic` over a block, from an index on.
unfoldable pub foldable_ops : Constants → ℕ → List MirInst → Outcome (List Foldable × Constants)
foldable_ops m idx [] = done ([], m)
foldable_ops m idx (load_const r c ∷ is) = foldable_ops (insert r c m) (suc idx) is
foldable_ops m idx (bin_op d op l r ∷ is) = do
  c ← fold_known op (lookup l m) (lookup r m)
  rest ← foldable_ops m (suc idx) is
  done (note_foldable idx d c rest.0, rest.1)
foldable_ops m idx (i ∷ is) = foldable_ops m (suc idx) is

unfoldable pub set_at : ℕ → MirInst → List MirInst → List MirInst
set_at idx i [] = []
set_at zero i (j ∷ is) = i ∷ is
set_at (suc idx) i (j ∷ is) = j ∷ set_at idx i is

-- The second pass. The map takes each register that was folded to be the integer 0.
unfoldable pub apply_foldable : List Foldable → List MirInst × Constants → List MirInst × Constants
apply_foldable [] s = s
apply_foldable ((idx, d, c) ∷ fs) (is, m) =
    apply_foldable fs (set_at idx (load_const d c) is, insert d (integer (pos 0)) m)

unfoldable pub fuse_integers : Constants → List MirBlock → Outcome (List MirBlock)
fuse_integers m [] = done []
fuse_integers m (b ∷ bs) = do
  found ← foldable_ops m 0 b.instructions
  let applied = apply_foldable found.0 (b.instructions, found.1)
  rest ← fuse_integers applied.1 bs
  done (record b { instructions = applied.0 } ∷ rest)

unfoldable pub fuse_integer_arithmetic : List MirBlock → Outcome (List MirBlock)
fuse_integer_arithmetic bs = fuse_integers [] bs

-- fuse_string_concatenation
abbrev pub concat_known : RegId → RegId → RegId → Option MirConst → Option MirConst → MirInst
concat_known d l r (some (string a)) (some (string b)) = load_const d (string (append a b))
concat_known d l r _ _ = bin_op d add l r

unfoldable pub fuse_string : Constants → MirInst → MirInst × Constants
fuse_string m (load_const r c) = (load_const r c, insert r c m)
fuse_string m (bin_op d add l r) = (concat_known d l r (lookup l m) (lookup r m), m)
fuse_string m i = (i, m)

unfoldable pub fuse_string_concatenation : List MirBlock → List MirBlock
fuse_string_concatenation bs = walk_blocks fuse_string [] bs
