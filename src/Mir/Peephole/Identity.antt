-- ===== src/Mir/Peephole/Identity.antt =====
-- `simplify_identity_ops` of opt_peephole.rs against the interpreter.
use jdruby.Base.{◌≡◌, Bool, true, some, done, arith}
use jdruby.Base.Int.{ℤ, pos, fits, ◌+ℤ◌, ◌-ℤ◌, eq_of_eqb, mul-one, quotient-one}
use jdruby.Base.Keys.{nat_eq, string_eq}
use jdruby.Jit.Value.{IrValue, FloatOps, value_of, eval_integers, eval_binop}
use jdruby.Mir.Nodes.{MirConst, MirBinOp, add, sub, mul, div}
use jdruby.Mir.Peephole.{is_identity}

module _ (checks : Bool) (fl : FloatOps) where
  -- An operator that the pass takes for the identity leaves every i64 on its left as it is: `x + 0`,
  -- `x - 0`, `x * 1` and `x / 1`, in every build.
  pub eval_binop-identity :
      (op : MirBinOp) (c : MirConst) (a : ℤ)
      → is_identity op (some c) ≡ true
      → fits a ≡ true
      → eval_binop checks fl op (IrValue.integer a) (value_of c) ≡ done (IrValue.integer a)
  unfolding is_identity eval_binop value_of eval_integers ◌+ℤ◌ ◌-ℤ◌
  eval_binop-identity add (MirConst.integer v) a h f = ground arith
  eval_binop-identity sub (MirConst.integer v) a h f = ground arith
  eval_binop-identity mul (MirConst.integer v) a h f = rw (eq_of_eqb v (pos 1) h, mul-one a, f)
  eval_binop-identity div (MirConst.integer v) a h f = rw (eq_of_eqb v (pos 1) h, quotient-one a, f)
  eval_binop-identity op c a h f = cc
