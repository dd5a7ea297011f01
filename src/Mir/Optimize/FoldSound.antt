-- ===== src/Mir/Optimize/FoldSound.antt =====
-- Constant folding of optimize.rs on straight-line code against the interpreter.
use mathlib.Core.Path.{subst}
use jdruby.Base.{
  ◌≡◌, refl, ◌∙◌, Bool, false, Option, some, none, List, [], ◌∷◌, inl, inr, Outcome, done, ◌>>=◌,
  >>=-eq-done, done-injective, arith,
}
use jdruby.Base.Assoc.{lookup, insert}
use jdruby.Base.Keys.{nat_eq}
use jdruby.Jit.Value.{FloatOps, value_of, eval_binop, eval_unop}
use jdruby.Jit.Exec.{Interp, get_reg, set_reg, exec_instruction, exec_all}
use jdruby.Mir.Fold.{fold_binop, fold_unop}
use jdruby.Mir.Fold.Laws.{IsNoEquality, fold_binop-Agrees, fold_unop-Agrees}
use jdruby.Mir.Nodes.{RegId, MirConst, MirBinOp, MirUnOp, MirInst, load_const, bin_op, un_op}
use jdruby.Mir.Optimize.Constants.{
  Constants, settle, fold_pair, fold_single, fold_instruction, fold_instructions,
}
use jdruby.Mir.Optimize.Remove.{uses}
use jdruby.Mir.Optimize.Straight.{
  dest_of, with_dest, IsNew, AssignsOnce, get_reg-set_reg, WritesOnlyDest, exec_instruction-keeps,
}
use jdruby.Mir.Optimize.Known.{
  Knows, Knows-insert, uses-with_dest, IsPlain, ArePlain, no_bool_equality, no_float_negation,
}

module _ {W : Type 0} (checks : Bool) (fl : FloatOps)
    (other : MirInst → Interp W → Outcome (Interp W)) (frame : WritesOnlyDest other) where
  pub Knows-keeps :
      (m : Constants) (ds : List RegId) (i : MirInst) (s s' : Interp W)
      → exec_instruction checks fl other i s ≡ done s'
      → IsNew ds (dest_of i)
      → Knows m ds s
      → Knows m (with_dest (dest_of i) ds) s'
  Knows-keeps m ds i s s' h n k r c e =
      let (u, v) = k r c e in
      (
        uses-with_dest (dest_of i) ds r u,
        exec_instruction-keeps checks fl other frame ds i s s' r h n u ∙ v,
      )

  -- A folded operator of two constants.
  binop_step :
      (d : RegId) (op : MirBinOp) (l r : RegId) (a b c : MirConst) (s s' : Interp W)
      → get_reg s l ≡ value_of a
      → get_reg s r ≡ value_of b
      → IsNoEquality op
      → fold_binop checks fl op a b ≡ done (some c)
      → exec_instruction checks fl other (bin_op d op l r) s ≡ done s'
      → done (set_reg d (value_of c) s) ≡ done s'
  unfolding exec_instruction
  binop_step d op l r a b c s s' hl hr n f h =
      let h' : (eval_binop checks fl op (value_of a) (value_of b) >>= λ v. done (set_reg d v s))
          ≡ done s' =
        rw (← hl, ← hr) h in
      elim (fold_binop-Agrees checks fl op a b f (no_bool_equality op a n)) [
        | inl e ↦ rw e at h'
        | inr (_, x, e) ↦ cc
      ]

  unop_step :
      (d : RegId) (op : MirUnOp) (r : RegId) (a c : MirConst) (s s' : Interp W)
      → get_reg s r ≡ value_of a
      → IsPlain (un_op d op r)
      → fold_unop checks fl op a ≡ done (some c)
      → exec_instruction checks fl other (un_op d op r) s ≡ done s'
      → done (set_reg d (value_of c) s) ≡ done s'
  unfolding exec_instruction
  unop_step d op r a c s s' hr n f h =
      let h' : (eval_unop checks fl op (value_of a) >>= λ v. done (set_reg d v s)) ≡ done s' =
        rw (← hr) h in
      elim (fold_unop-Agrees checks fl op a f (no_float_negation d op r a n)) [
        | inl e ↦ rw e at h'
        | inr (_, x, e) ↦ cc
      ]

  -- What one instruction and its folded form `p` have in common.
  abbrev SameStep : List RegId → MirInst → Interp W → Interp W → MirInst × Constants → Type 0
  SameStep ds i s s' p =
      (exec_instruction checks fl other p.0 s ≡ done s') × Knows p.1 (with_dest (dest_of i) ds) s'

  unfolded_step :
      (m : Constants) (ds : List RegId) (i : MirInst) (s s' : Interp W)
      → Knows m ds s
      → IsNew ds (dest_of i)
      → exec_instruction checks fl other i s ≡ done s'
      → SameStep ds i s s' (i, m)
  unfolded_step m ds i s s' k n h = (h, Knows-keeps m ds i s s' h n k)

  -- An instruction that became the loading of the value that it computed.
  loaded_step :
      (m : Constants) (ds : List RegId) (i : MirInst) (d : RegId) (c : MirConst) (s s' : Interp W)
      → dest_of i ≡ some d
      → Knows m ds s
      → IsNew ds (dest_of i)
      → exec_instruction checks fl other i s ≡ done s'
      → done (set_reg d (value_of c) s) ≡ done s'
      → SameStep ds i s s' (load_const d c, insert d c m)
  unfolding exec_instruction
  loaded_step m ds i d c s s' e k n h same = (
    same,
    Knows-insert m (with_dest (dest_of i) ds) s' d c (Knows-keeps m ds i s s' h n k)
        (rw e (ground arith))
        (rw (← done-injective same) (get_reg-set_reg d d (value_of c) s ∙ ground arith)),
  )

  settled_pair :
      (m : Constants) (ds : List RegId) (d : RegId) (op : MirBinOp) (l r : RegId) (a b : MirConst)
      (s s' : Interp W) (o : Option MirConst)
      → get_reg s l ≡ value_of a
      → get_reg s r ≡ value_of b
      → Knows m ds s
      → uses ds d ≡ false
      → IsNoEquality op
      → fold_binop checks fl op a b ≡ done o
      → exec_instruction checks fl other (bin_op d op l r) s ≡ done s'
      → SameStep ds (bin_op d op l r) s s' (settle checks fl m (bin_op d op l r) d o)
  unfolding dest_of
  settled_pair m ds d op l r a b s s' none el er k n q f h =
      unfolded_step m ds (bin_op d op l r) s s' k n h
  settled_pair m ds d op l r a b s s' (some c) el er k n q f h =
      loaded_step m ds (bin_op d op l r) d c s s' refl k n h
        (binop_step d op l r a b c s s' el er q f h)

  pair_step :
      (m : Constants) (ds : List RegId) (d : RegId) (op : MirBinOp) (l r : RegId)
      (oa ob : Option MirConst) (s s' : Interp W) (p : MirInst × Constants)
      → ((a : MirConst) → oa ≡ some a → get_reg s l ≡ value_of a)
      → ((b : MirConst) → ob ≡ some b → get_reg s r ≡ value_of b)
      → Knows m ds s
      → uses ds d ≡ false
      → IsNoEquality op
      → fold_pair checks fl m d op l r oa ob ≡ done p
      → exec_instruction checks fl other (bin_op d op l r) s ≡ done s'
      → SameStep ds (bin_op d op l r) s s' p
  unfolding dest_of
  pair_step m ds d op l r (some a) (some b) s s' p ka kb k n q f h =
      let (o, found, e) =
        >>=-eq-done (fold_binop checks fl op a b)
          (λ o. done (settle checks fl m (bin_op d op l r) d o)) f in
      subst (λ (x : MirInst × Constants). SameStep ds (bin_op d op l r) s s' x) (done-injective e)
        (settled_pair m ds d op l r a b s s' o (ka a refl) (kb b refl) k n q found h)
  pair_step m ds d op l r _ _ s s' p ka kb k n q f h =
      subst (λ (x : MirInst × Constants). SameStep ds (bin_op d op l r) s s' x) (done-injective f)
        (unfolded_step m ds (bin_op d op l r) s s' k n h)

  settled_single :
      (m : Constants) (ds : List RegId) (d : RegId) (op : MirUnOp) (r : RegId) (a : MirConst)
      (s s' : Interp W) (o : Option MirConst)
      → get_reg s r ≡ value_of a
      → Knows m ds s
      → uses ds d ≡ false
      → IsPlain (un_op d op r)
      → fold_unop checks fl op a ≡ done o
      → exec_instruction checks fl other (un_op d op r) s ≡ done s'
      → SameStep ds (un_op d op r) s s' (settle checks fl m (un_op d op r) d o)
  unfolding dest_of
  settled_single m ds d op r a s s' none er k n q f h = unfolded_step m ds (un_op d op r) s s' k n h
  settled_single m ds d op r a s s' (some c) er k n q f h =
      loaded_step m ds (un_op d op r) d c s s' refl k n h (unop_step d op r a c s s' er q f h)

  single_step :
      (m : Constants) (ds : List RegId) (d : RegId) (op : MirUnOp) (r : RegId)
      (oa : Option MirConst) (s s' : Interp W) (p : MirInst × Constants)
      → ((a : MirConst) → oa ≡ some a → get_reg s r ≡ value_of a)
      → Knows m ds s
      → uses ds d ≡ false
      → IsPlain (un_op d op r)
      → fold_single checks fl m d op r oa ≡ done p
      → exec_instruction checks fl other (un_op d op r) s ≡ done s'
      → SameStep ds (un_op d op r) s s' p
  unfolding dest_of
  single_step m ds d op r none s s' p ka k n q f h =
      subst (λ (x : MirInst × Constants). SameStep ds (un_op d op r) s s' x) (done-injective f)
        (unfolded_step m ds (un_op d op r) s s' k n h)
  single_step m ds d op r (some a) s s' p ka k n q f h =
      let (o, found, e) =
        >>=-eq-done (fold_unop checks fl op a) (λ o. done (settle checks fl m (un_op d op r) d o))
          f in
      subst (λ (x : MirInst × Constants). SameStep ds (un_op d op r) s s' x) (done-injective e)
        (settled_single m ds d op r a s s' o (ka a refl) k n q found h)

  fold_step :
      (m : Constants) (ds : List RegId) (i : MirInst) (s s' : Interp W) (p : MirInst × Constants)
      → Knows m ds s
      → IsNew ds (dest_of i)
      → IsPlain i
      → fold_instruction checks fl m i ≡ done p
      → exec_instruction checks fl other i s ≡ done s'
      → SameStep ds i s s' p
  unfolding fold_instruction dest_of exec_instruction
  fold_step m ds (load_const d c) s s' p k n q f h =
      subst (λ (x : MirInst × Constants). SameStep ds (load_const d c) s s' x) (done-injective f)
        (loaded_step m ds (load_const d c) d c s s' refl k n h h)
  fold_step m ds (bin_op d op l r) s s' p k n q f h =
      pair_step m ds d op l r (lookup l m) (lookup r m) s s' p (λ a e. (k l a e).1)
        (λ b e. (k r b e).1) k n q f h
  fold_step m ds (un_op d op r) s s' p k n q f h =
      single_step m ds d op r (lookup r m) s s' p (λ a e. (k r a e).1) k n q f h
  fold_step m ds i s s' p k n q f h =
      subst (λ (x : MirInst × Constants). SameStep ds i s s' x) (done-injective f)
        (unfolded_step m ds i s s' k n h)

  -- Straight-line code that assigns no register twice, without `==`, `!=` and unary minus: where
  -- folding succeeds and the code runs without a panic, the folded code runs without one to the
  -- same state, and the constants that folding passes on to the next block are in the registers.
  pub exec_all-fold_instructions :
      (m : Constants) (ds : List RegId) (is : List MirInst) (p : List MirInst × Constants)
      (s s' : Interp W)
      → Knows m ds s
      → AssignsOnce ds is
      → ArePlain is
      → fold_instructions checks fl m is ≡ done p
      → exec_all (exec_instruction checks fl other) is s ≡ done s'
      → (exec_all (exec_instruction checks fl other) p.0 s ≡ done s')
        × ((r : RegId) (c : MirConst) → lookup r p.1 ≡ some c → get_reg s' r ≡ value_of c)
  unfolding fold_instructions exec_all
  exec_all-fold_instructions m ds [] p s s' k o q f h =
      subst
        (λ (x : List MirInst × Constants).
          (exec_all (exec_instruction checks fl other) x.0 s ≡ done s')
          × ((r : RegId) (c : MirConst) → lookup r x.1 ≡ some c → get_reg s' r ≡ value_of c))
        (done-injective f) (h, λ r c e. rw (← done-injective h) (k r c e).1)
  exec_all-fold_instructions m ds (i ∷ is) p s s' k o q f h =
      let ((i', m'), folded_first, f') =
        >>=-eq-done (fold_instruction checks fl m i)
          (λ (x : MirInst × Constants).
            fold_instructions checks fl x.1 is >>= λ y. done (x.0 ∷ y.0, y.1))
          f in
      let ((is', m''), folded_rest, f'') =
        >>=-eq-done (fold_instructions checks fl m' is)
          (λ (y : List MirInst × Constants). done (i' ∷ y.0, y.1)) f' in
      let (t, ran, h') =
        >>=-eq-done (exec_instruction checks fl other i s)
          (exec_all (exec_instruction checks fl other) is) h in
      let (same, k') = fold_step m ds i s t (i', m') k o.0 q.0 folded_first ran in
      let (rest, known) =
        exec_all-fold_instructions m' (with_dest (dest_of i) ds) is (is', m'') t s' k' o.1 q.1
          folded_rest h' in
      subst
        (λ (x : List MirInst × Constants).
          (exec_all (exec_instruction checks fl other) x.0 s ≡ done s')
          × ((r : RegId) (c : MirConst) → lookup r x.1 ≡ some c → get_reg s' r ≡ value_of c))
        (done-injective f'') (rw same rest, known)
