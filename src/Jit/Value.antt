-- ===== src/Jit/Value.antt =====
-- crates/jdruby-jit/src/interpreter.rs: values, and operators on them. A vector or block behind
-- `Rc<RefCell<..>>` is the number of its shared cell. The f64 operations of the processor are a
-- parameter on bit patterns, and `checks` says whether the build panics on an integer overflow, as
-- a debug build does, or wraps, as a release build does.
use Prim.Native.Nat.{bit_and as nat_and, bit_or as nat_or, bit_xor as nat_xor}
use Prim.Native.String.{◌++◌ as append}
use text.Mathlib.Text.{◌==◌ as str_eq}
use jdruby.Base.{
  ℕ, ◌%◌, ◌^◌, String, Bool, true, false, not, Outcome, done, panic, ltb, if◌then◌else◌,
}
use jdruby.Base.Int
use jdruby.Base.Int.{
  ℤ, pos, negsuc, ◌+ℤ◌, ◌-ℤ◌, ◌*ℤ◌, ltb_ℤ, leb_ℤ, eqb_ℤ, fits, wrap, to_bits, of_bits, quotient,
  remainder, shift_right,
}
use jdruby.Mir.Nodes.{
  MirConst, MirBinOp, add, sub, mul, div, mod_op, pow, eq, not_eq, lt, gt, lt_eq, gt_eq, cmp,
  and_op, or_op, bit_and, bit_or, bit_xor, shl, shr, MirUnOp,
}

mutual
  pub data IrValue : Type 0 where
    integer : ℤ → IrValue
    float : ℕ → IrValue
    string symbol : String → IrValue
    bool : Bool → IrValue
    nil : IrValue
    array : ℕ → IrValue
    hash : Entries → IrValue
    object : String → ℕ → IrValue
    block : String → Values → IrValue
    proc : ℕ → Bool → IrValue
    lambda : ℕ → IrValue

  pub data Values : Type 0 where
    no_values : Values
    value_then : IrValue → Values → Values

  pub data Entries : Type 0 where
    no_entries : Entries
    entry_then : IrValue → IrValue → Entries → Entries

-- The operations of f64, on bit patterns.
pub record FloatOps : Type 0 where
  pub add_f : ℕ → ℕ → ℕ
  pub sub_f : ℕ → ℕ → ℕ
  pub mul_f : ℕ → ℕ → ℕ
  pub div_f : ℕ → ℕ → ℕ
  pub eq_f : ℕ → ℕ → Bool
  pub lt_f : ℕ → ℕ → Bool
  pub neg_f : ℕ → ℕ
  pub to_int : ℕ → ℤ

-- `IrValue::is_truthy`
unfoldable pub is_truthy : IrValue → Bool
is_truthy (IrValue.bool false) = false
is_truthy IrValue.nil = false
is_truthy _ = true

-- The match on the constant in `LoadConst`.
unfoldable pub value_of : MirConst → IrValue
value_of (MirConst.integer v) = IrValue.integer v
value_of (MirConst.float v) = IrValue.float v
value_of (MirConst.string s) = IrValue.string s
value_of (MirConst.symbol s) = IrValue.symbol s
value_of (MirConst.bool b) = IrValue.bool b
value_of MirConst.nil = IrValue.nil

-- An exact result of `+`, `-`, `*`, `pow` or unary `-` as an i64.
abbrev pub exact : Bool → ℤ → Outcome ℤ
exact checks a = if fits a then done a else if checks then panic else done (wrap a)

-- `/` and `%` panic on `i64::MIN / -1` in every build.
abbrev pub divided : ℤ → ℤ → Outcome ℤ
divided a b = if fits (quotient a b) then done (quotient a b) else panic

abbrev pub modulo : ℤ → ℤ → Outcome ℤ
modulo a b = if fits (quotient a b) then done (remainder a b) else panic

-- `wrapping_shl` and `wrapping_shr`
abbrev pub wrapping_shl : ℤ → ℤ → ℤ
wrapping_shl a b = wrap (a *ℤ pos (2 ^ (to_bits b % 64)))

abbrev pub wrapping_shr : ℤ → ℤ → ℤ
wrapping_shr a b = shift_right a (to_bits b % 64)

-- Whether the distance of `<<` or `>>` is below the width.
abbrev pub in_width : ℤ → Bool
in_width (pos n) = ltb n 64
in_width (negsuc n) = false

abbrev pub shifted : Bool → ℤ → ℤ → Outcome ℤ
shifted checks b r = if in_width b then done r else if checks then panic else done r

-- Bitwise operators act on the two's complement pattern.
abbrev pub on_bits : (ℕ → ℕ → ℕ) → ℤ → ℤ → ℤ
on_bits f a b = of_bits (f (to_bits a) (to_bits b))

-- `b as u32`
abbrev pub exponent : ℤ → ℕ
exponent b = to_bits b % 2 ^ 32

abbrev pub compared : ℤ → ℤ → ℤ
compared a b = if ltb_ℤ a b then negsuc 0 else if eqb_ℤ a b then pos 0 else pos 1

abbrev pub is_zero : ℤ → Bool
is_zero b = eqb_ℤ b (pos 0)

abbrev to_integer : Outcome ℤ → Outcome IrValue
to_integer (done a) = done (IrValue.integer a)
to_integer panic = panic

module _ (checks : Bool) (fl : FloatOps) where
  -- `IrValue::to_i64`
  unfoldable pub to_i64 : IrValue → ℤ
  to_i64 (IrValue.integer v) = v
  to_i64 (IrValue.float v) = fl.to_int v
  to_i64 (IrValue.bool true) = pos 1
  to_i64 _ = pos 0

  -- The four groups of arms of `eval_binop`.
  unfoldable pub eval_integers : MirBinOp → ℤ → ℤ → Outcome IrValue
  eval_integers add a b = to_integer (exact checks (a +ℤ b))
  eval_integers sub a b = to_integer (exact checks (a -ℤ b))
  eval_integers mul a b = to_integer (exact checks (a *ℤ b))
  eval_integers div a b =
      if is_zero b then done (IrValue.integer (pos 0)) else to_integer (divided a b)
  eval_integers mod_op a b =
      if is_zero b then done (IrValue.integer (pos 0)) else to_integer (modulo a b)
  eval_integers pow a b = to_integer (exact checks (Int.pow a (exponent b)))
  eval_integers eq a b = done (IrValue.bool (eqb_ℤ a b))
  eval_integers not_eq a b = done (IrValue.bool (not (eqb_ℤ a b)))
  eval_integers lt a b = done (IrValue.bool (ltb_ℤ a b))
  eval_integers gt a b = done (IrValue.bool (ltb_ℤ b a))
  eval_integers lt_eq a b = done (IrValue.bool (leb_ℤ a b))
  eval_integers gt_eq a b = done (IrValue.bool (leb_ℤ b a))
  eval_integers cmp a b = done (IrValue.integer (compared a b))
  eval_integers bit_and a b = done (IrValue.integer (on_bits nat_and a b))
  eval_integers bit_or a b = done (IrValue.integer (on_bits nat_or a b))
  eval_integers bit_xor a b = done (IrValue.integer (on_bits nat_xor a b))
  eval_integers shl a b = to_integer (shifted checks b (wrapping_shl a b))
  eval_integers shr a b = to_integer (shifted checks b (wrapping_shr a b))
  eval_integers and_op a b = done (IrValue.integer b)
  eval_integers or_op a b = done (IrValue.integer a)

  unfoldable pub eval_floats : MirBinOp → ℕ → ℕ → IrValue
  eval_floats add a b = IrValue.float (fl.add_f a b)
  eval_floats sub a b = IrValue.float (fl.sub_f a b)
  eval_floats mul a b = IrValue.float (fl.mul_f a b)
  eval_floats div a b = IrValue.float (fl.div_f a b)
  eval_floats eq a b = IrValue.bool (fl.eq_f a b)
  eval_floats lt a b = IrValue.bool (fl.lt_f a b)
  eval_floats gt a b = IrValue.bool (fl.lt_f b a)
  eval_floats _ a b = IrValue.nil

  unfoldable pub eval_strings : MirBinOp → String → String → IrValue
  eval_strings add a b = IrValue.string (append a b)
  eval_strings eq a b = IrValue.bool (str_eq a b)
  eval_strings not_eq a b = IrValue.bool (not (str_eq a b))
  eval_strings _ a b = IrValue.nil

  unfoldable pub eval_mixed : MirBinOp → IrValue → IrValue → IrValue
  eval_mixed eq a b = IrValue.bool false
  eval_mixed not_eq a b = IrValue.bool true
  eval_mixed and_op a b = if is_truthy a then b else a
  eval_mixed or_op a b = if is_truthy a then a else b
  eval_mixed _ a b = IrValue.nil

  -- `eval_binop`; the arms of its match on the pair of operands, first to last.
  unfoldable pub eval_binop : MirBinOp → IrValue → IrValue → Outcome IrValue
  eval_binop op (IrValue.integer a) (IrValue.integer b) = eval_integers op a b
  eval_binop op (IrValue.float a) (IrValue.float b) = done (eval_floats op a b)
  eval_binop op (IrValue.string a) (IrValue.string b) = done (eval_strings op a b)
  eval_binop op a b = done (eval_mixed op a b)

  -- The match on the operator in `UnOp`.
  unfoldable pub eval_unop : MirUnOp → IrValue → Outcome IrValue
  eval_unop MirUnOp.neg v = to_integer (exact checks (Int.neg (to_i64 v)))
  eval_unop MirUnOp.not v = done (IrValue.bool (not (is_truthy v)))
  eval_unop MirUnOp.bit_not v = done (IrValue.integer (negsuc 0 -ℤ to_i64 v))
