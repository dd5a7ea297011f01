-- ===== src/Mir/Optimize/Known.antt =====
-- The map of constants in constant_folding of optimize.rs against the interpreter's registers, and
-- the instructions that FoldSound is about.
use jdruby.Base.{◌≡◌, true, Option, some, none, List, [], ◌∷◌, arith}
use jdruby.Base.Assoc.{lookup, insert, lookup-insert}
use jdruby.Base.Keys.{nat_eq}
use jdruby.Jit.Value.{value_of}
use jdruby.Jit.Exec.{Interp, get_reg}
use jdruby.Mir.Fold.Laws.{IsNoEquality, IsNoBoolEquality, IsNoFloatNegation}
use jdruby.Mir.Nodes.{RegId, MirConst, MirBinOp, MirUnOp, neg, MirInst, bin_op, un_op}
use jdruby.Mir.Optimize.Constants.{Constants}
use jdruby.Mir.Optimize.Remove.{uses}
use jdruby.Mir.Optimize.Straight.{with_dest}

module _ {W : Type 0} where
  -- The map holds only constants that are in the registers, of registers of `ds`.
  abbrev pub Knows : Constants → List RegId → Interp W → Type 0
  Knows m ds s =
      (r : RegId) (c : MirConst)
      → lookup r m ≡ some c
      → (uses ds r ≡ true) × (get_reg s r ≡ value_of c)

  pub Knows-insert :
      (m : Constants) (ds : List RegId) (s : Interp W) (d : RegId) (c : MirConst)
      → Knows m ds s
      → uses ds d ≡ true
      → get_reg s d ≡ value_of c
      → Knows (insert d c m) ds s
  Knows-insert m ds s d c k u e r x h = ground (arith, lookup-insert d r c m, k r x)

pub uses-with_dest :
    (o : Option RegId) (ds : List RegId) (r : RegId)
    → uses ds r ≡ true
    → uses (with_dest o ds) r ≡ true
uses-with_dest none ds r h = h
uses-with_dest (some d) ds r h = ground arith

-- The operators whose folding the interpreter confirms on all constants.
abbrev pub IsPlain : MirInst → Type 0
IsPlain (bin_op d op l r) = IsNoEquality op
IsPlain (un_op d neg r) = ⊥
IsPlain _ = Unit

abbrev pub ArePlain : List MirInst → Type 0
ArePlain [] = Unit
ArePlain (i ∷ is) = IsPlain i × ArePlain is

pub no_bool_equality : (op : MirBinOp) (a : MirConst) → IsNoEquality op → IsNoBoolEquality op a
no_bool_equality op (MirConst.bool p) h = h
no_bool_equality op (MirConst.integer p) h = tt
no_bool_equality op (MirConst.float p) h = tt
no_bool_equality op (MirConst.string p) h = tt
no_bool_equality op (MirConst.symbol p) h = tt
no_bool_equality op MirConst.nil h = tt

pub no_float_negation :
    (d : RegId) (op : MirUnOp) (r : RegId) (a : MirConst)
    → IsPlain (un_op d op r)
    → IsNoFloatNegation op a
no_float_negation d neg r a h = absurd h
no_float_negation d MirUnOp.not r a h = tt
no_float_negation d MirUnOp.bit_not r a h = tt
