-- ===== src/Mir/Fold.antt =====
-- crates/jdruby-mir/src/optimize.rs: the compile-time evaluation of operators, `fold_binop` and
-- `fold_unop`. `none` leaves the instruction as it is; a panic stops the compiler.
pub mod Laws
use Prim.Native.Nat.{bit_and as nat_and, bit_or as nat_or, bit_xor as nat_xor}
use Prim.Native.String.{◌++◌ as append}
use text.Mathlib.Text.{◌==◌ as str_eq}
use jdruby.Base.{
  ℕ, String, Bool, true, false, not, Option, some, none, Outcome, done, panic, if◌then◌else◌, ◌&&◌,
  ◌||◌,
}
use jdruby.Base.Int
use jdruby.Base.Int.{ℤ, pos, negsuc, ◌+ℤ◌, ◌-ℤ◌, ◌*ℤ◌, ltb_ℤ, leb_ℤ, eqb_ℤ, wrap}
use jdruby.Jit.Value.{
  FloatOps, exact, divided, modulo, wrapping_shl, wrapping_shr, on_bits, exponent, is_zero,
}
use jdruby.Mir.Nodes.{
  MirConst, integer, float, string, symbol, bool, nil, MirBinOp, add, sub, mul, div, mod_op, pow,
  eq, not_eq, lt, gt, lt_eq, gt_eq, cmp, and_op, or_op, bit_and, bit_or, bit_xor, shl, shr, MirUnOp,
  neg, bit_not,
}

-- `Some(MirConst::Integer(..))` and `Some(MirConst::Bool(..))`
abbrev pub folded : ℤ → Outcome (Option MirConst)
folded a = done (some (integer a))

abbrev pub answered : Bool → Outcome (Option MirConst)
answered b = done (some (bool b))

abbrev pub kept : Outcome (Option MirConst)
kept = done none

abbrev pub folded_or_panic : Outcome ℤ → Outcome (Option MirConst)
folded_or_panic (done a) = folded a
folded_or_panic panic = panic

-- The arms of the match on `op` for a pair of integers.
unfoldable pub fold_integers : MirBinOp → ℤ → ℤ → Outcome (Option MirConst)
fold_integers add a b = folded (wrap (a +ℤ b))
fold_integers sub a b = folded (wrap (a -ℤ b))
fold_integers mul a b = folded (wrap (a *ℤ b))
fold_integers div a b = if is_zero b then kept else folded_or_panic (divided a b)
fold_integers mod_op a b = if is_zero b then kept else folded_or_panic (modulo a b)
fold_integers pow a b = folded (wrap (Int.pow a (exponent b)))
fold_integers eq a b = answered (eqb_ℤ a b)
fold_integers not_eq a b = answered (not (eqb_ℤ a b))
fold_integers lt a b = answered (ltb_ℤ a b)
fold_integers gt a b = answered (ltb_ℤ b a)
fold_integers lt_eq a b = answered (leb_ℤ a b)
fold_integers gt_eq a b = answered (leb_ℤ b a)
fold_integers bit_and a b = folded (on_bits nat_and a b)
fold_integers bit_or a b = folded (on_bits nat_or a b)
fold_integers bit_xor a b = folded (on_bits nat_xor a b)
fold_integers shl a b = folded (wrapping_shl a b)
fold_integers shr a b = folded (wrapping_shr a b)
fold_integers cmp a b = kept
fold_integers and_op a b = kept
fold_integers or_op a b = kept

-- For a pair of booleans.
unfoldable pub fold_bools : MirBinOp → Bool → Bool → Outcome (Option MirConst)
fold_bools and_op a b = answered (a && b)
fold_bools or_op a b = answered (a || b)
fold_bools eq a b = answered (if a then b else not b)
fold_bools not_eq a b = answered (if a then not b else b)
fold_bools _ a b = kept

-- For a pair of strings.
unfoldable pub fold_strings : MirBinOp → String → String → Outcome (Option MirConst)
fold_strings add a b = done (some (string (append a b)))
fold_strings eq a b = answered (str_eq a b)
fold_strings not_eq a b = answered (not (str_eq a b))
fold_strings _ a b = kept

module _ (checks : Bool) (fl : FloatOps) where
  -- For a pair of floats.
  unfoldable pub fold_floats : MirBinOp → ℕ → ℕ → Outcome (Option MirConst)
  fold_floats add a b = done (some (float (fl.add_f a b)))
  fold_floats sub a b = done (some (float (fl.sub_f a b)))
  fold_floats mul a b = done (some (float (fl.mul_f a b)))
  fold_floats div a b = done (some (float (fl.div_f a b)))
  fold_floats eq a b = answered (fl.eq_f a b)
  fold_floats lt a b = answered (fl.lt_f a b)
  fold_floats gt a b = answered (fl.lt_f b a)
  fold_floats _ a b = kept

  unfoldable pub fold_binop : MirBinOp → MirConst → MirConst → Outcome (Option MirConst)
  unfolding fold_integers fold_bools fold_strings
  fold_binop op (integer a) (integer b) = fold_integers op a b
  fold_binop op (float a) (float b) = fold_floats op a b
  fold_binop op (bool a) (bool b) = fold_bools op a b
  fold_binop op (string a) (string b) = fold_strings op a b
  fold_binop op a b = kept

  -- `-v` on an i64 is a checked operation.
  unfoldable pub fold_unop : MirUnOp → MirConst → Outcome (Option MirConst)
  fold_unop neg (integer v) = folded_or_panic (exact checks (Int.neg v))
  fold_unop neg (float v) = done (some (float (fl.neg_f v)))
  fold_unop MirUnOp.not (bool v) = answered (not v)
  fold_unop MirUnOp.not nil = answered true
  fold_unop bit_not (integer v) = folded (negsuc 0 -ℤ v)
  fold_unop _ v = kept
