-- ===== src/Mir/Fold/Laws.antt =====
-- Folding an operator of optimize.rs against the interpreter's `eval_binop`.
use jdruby.Base.{ℕ, String, ap, Bool, true, false, some, Outcome, done, panic, ◌≡◌, ◌⊎◌, inl, arith}
use jdruby.Base.Int
use jdruby.Base.Int.{ℤ, pos, negsuc, ◌+ℤ◌, ◌-ℤ◌, ◌*ℤ◌, wrap, fits, wrap_of_fits}
use jdruby.Jit.Value.{
  IrValue, FloatOps, exponent, in_width, value_of, eval_integers, eval_floats, eval_strings,
  eval_mixed, eval_binop, eval_unop, is_truthy, to_i64,
}
use jdruby.Mir.Fold.{fold_integers, fold_bools, fold_strings, fold_floats, fold_binop, fold_unop}
use jdruby.Mir.Nodes.{
  MirConst, integer, float, string, bool, MirBinOp, add, sub, mul, pow, shl, shr, eq, not_eq,
  MirUnOp, neg, bit_not,
}

-- All operators but the two tests of equality.
abbrev pub IsNoEquality : MirBinOp → Type 0
IsNoEquality eq = ⊥
IsNoEquality not_eq = ⊥
IsNoEquality _ = Unit

-- No test of equality with a boolean on the left.
abbrev pub IsNoBoolEquality : MirBinOp → MirConst → Type 0
IsNoBoolEquality op (bool p) = IsNoEquality op
IsNoBoolEquality op _ = Unit

-- No floating constant is negated.
abbrev pub IsNoFloatNegation : MirUnOp → MirConst → Type 0
IsNoFloatNegation neg (float v) = ⊥
IsNoFloatNegation _ _ = Unit

-- What an i64 or the width of a shift is too small for.
abbrev pub Exceeds : MirBinOp → MirConst → MirConst → Type 0
Exceeds add (integer a) (integer b) = fits (a +ℤ b) ≡ false
Exceeds sub (integer a) (integer b) = fits (a -ℤ b) ≡ false
Exceeds mul (integer a) (integer b) = fits (a *ℤ b) ≡ false
Exceeds pow (integer a) (integer b) = fits (Int.pow a (exponent b)) ≡ false
Exceeds shl (integer a) (integer b) = in_width b ≡ false
Exceeds shr (integer a) (integer b) = in_width b ≡ false
Exceeds op a b = ⊥

-- The negation of the least i64.
abbrev pub NegationExceeds : MirConst → Type 0
NegationExceeds (integer v) = fits (Int.neg v) ≡ false
NegationExceeds a = ⊥

module _ (checks : Bool) (fl : FloatOps) where
  -- What the interpreter answers where the compiler folded to `c`: the value of `c`, or, in a build
  -- with overflow checks and only where the result is too large, a panic.
  abbrev pub Agrees : Type 0 → Outcome IrValue → MirConst → Type 0
  Agrees exceeds r c = (r ≡ done (value_of c)) ⊎ ((checks ≡ true) × exceeds × (r ≡ panic))

  integers_agree :
      (op : MirBinOp) (a b : ℤ) {c : MirConst}
      → fold_integers op a b ≡ done (some c)
      → Agrees (Exceeds op (integer a) (integer b)) (eval_integers checks fl op a b) c
  unfolding fold_integers eval_integers value_of
  integers_agree add a b h = ground (arith, wrap_of_fits (a +ℤ b))
  integers_agree sub a b h = ground (arith, wrap_of_fits (a -ℤ b))
  integers_agree mul a b h = ground (arith, wrap_of_fits (a *ℤ b))
  integers_agree pow a b h = ground (arith, wrap_of_fits (Int.pow a (exponent b)))
  integers_agree _ a b h = ground arith

  floats_agree :
      (op : MirBinOp) (a b : ℕ) {c : MirConst}
      → fold_floats checks fl op a b ≡ done (some c)
      → eval_floats checks fl op a b ≡ value_of c
  unfolding fold_floats eval_floats value_of
  floats_agree add a b h = ground arith
  floats_agree _ a b h = ground arith

  bools_agree :
      (op : MirBinOp) (a b : Bool) {c : MirConst}
      → fold_bools op a b ≡ done (some c)
      → IsNoEquality op
      → eval_mixed checks fl op (IrValue.bool a) (IrValue.bool b) ≡ value_of c
  unfolding fold_bools eval_mixed value_of is_truthy
  bools_agree eq a b h n = absurd n
  bools_agree not_eq a b h n = absurd n
  bools_agree _ a b h n = ground arith

  strings_agree :
      (op : MirBinOp) (a b : String) {c : MirConst}
      → fold_strings op a b ≡ done (some c)
      → eval_strings checks fl op a b ≡ value_of c
  unfolding fold_strings eval_strings value_of
  strings_agree add a b h = ground arith
  strings_agree _ a b h = ground arith

  -- Where the compiler folds two constants, and they are not two booleans under `==` or `!=`, the
  -- interpreter computes the same value from them in a build without overflow checks. In a build with
  -- them it does too, or it panics, and then the exact sum, difference, product or power is no i64,
  -- or the distance of a shift is no number below 64; the compiler wraps there.
  pub fold_binop-Agrees :
      (op : MirBinOp) (a b : MirConst) {c : MirConst}
      → fold_binop checks fl op a b ≡ done (some c)
      → IsNoBoolEquality op a
      → Agrees (Exceeds op a b) (eval_binop checks fl op (value_of a) (value_of b)) c
  unfolding fold_binop eval_binop value_of
  fold_binop-Agrees op (integer a) (integer b) h n = integers_agree op a b h
  fold_binop-Agrees op (float a) (float b) h n = inl (ap done (floats_agree op a b h))
  fold_binop-Agrees op (bool a) (bool b) h n = inl (ap done (bools_agree op a b h n))
  fold_binop-Agrees op (string a) (string b) h n = inl (ap done (strings_agree op a b h))
  fold_binop-Agrees op a b h n = cc

  -- For booleans under `==` the two disagree at every pair of equal ones: the compiler folds to
  -- true, and the interpreter answers false; and for `!=` false and true.
  pub bool_equality_differs :
      (p : Bool)
      → (fold_binop checks fl eq (bool p) (bool p) ≡ done (some (bool true)))
        × (eval_binop checks fl eq (value_of (bool p)) (value_of (bool p))
            ≡ done (IrValue.bool false))
        × (fold_binop checks fl not_eq (bool p) (bool p) ≡ done (some (bool false)))
        × (eval_binop checks fl not_eq (value_of (bool p)) (value_of (bool p))
            ≡ done (IrValue.bool true))
  unfolding fold_binop eval_binop value_of eval_mixed
  bool_equality_differs p = ground arith

  -- Folding an operator of one operand, but the negation of a floating constant, gives what the
  -- interpreter computes, or it panics in a build with overflow checks where the negation is no i64.
  pub fold_unop-Agrees :
      (op : MirUnOp) (a : MirConst) {c : MirConst}
      → fold_unop checks fl op a ≡ done (some c)
      → IsNoFloatNegation op a
      → Agrees (NegationExceeds a) (eval_unop checks fl op (value_of a)) c
  unfolding fold_unop eval_unop value_of to_i64 is_truthy
  fold_unop-Agrees neg (float v) h n = absurd n
  fold_unop-Agrees neg a h n = ground arith
  fold_unop-Agrees MirUnOp.not a h n = ground arith
  fold_unop-Agrees bit_not a h n = ground arith
