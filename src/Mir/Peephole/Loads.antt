-- ===== src/Mir/Peephole/Loads.antt =====
-- `eliminate_redundant_loads` of opt_peephole.rs against the interpreter.
use mathlib.Core.Path.{subst}
use text.Mathlib.Text.{◌==◌ as str_eq}
use text.Mathlib.TextEquality.{eq_iff}
use Prim.Native.String.{String}
use jdruby.Base.{
  ◌≡◌, refl, sym, ◌∙◌, ap, Bool, true, false, Option, some, none, List, [], ◌∷◌, inl, inr, Outcome,
  done, >>=-eq-done, done-injective, arith, if◌then◌else◌, Bool-cases,
}
use jdruby.Base.Assoc.{lookup, insert, lookup-insert}
use jdruby.Base.Keys.{nat_eq, string_eq}
use jdruby.Base.Names.{starts_at}
use jdruby.Jit.Value.{IrValue, FloatOps, value_of, eval_binop, eval_unop}
use jdruby.Jit.Exec.{
  Interp, get_reg, set_reg, self_id, load_name, store_name, exec_instruction, exec_all,
}
use jdruby.Mir.Nodes.{
  RegId, MirInst, copy, load, store, call, method_call, load_const, bin_op, un_op, alloc, nop,
}
use jdruby.Mir.Optimize.Known.{uses-with_dest}
use jdruby.Mir.Optimize.Remove.{uses}
use jdruby.Mir.Optimize.Straight.{
  dest_of, with_dest, store_name-registers, IsNew, WritesOnlyDest, exec_instruction-keeps,
}
use jdruby.Mir.Peephole.{Stores, known_load, reuse_store, reuse_stores}

module _ {W : Type 0} where
  -- The map holds only stores whose register, one of `ds`, has what a load of the name reads.
  abbrev pub Remembers : Stores → List RegId → Interp W → Type 0
  Remembers m ds s =
      (name : String) (r : RegId)
      → lookup name m ≡ some r
      → (starts_at name ≡ false) × (uses ds r ≡ true) × (get_reg s r ≡ load_name s name)

  load_name-set_reg :
      (d : RegId) (v : IrValue) (s : Interp W) (name : String)
      → load_name (set_reg d v s) name ≡ load_name s name
  unfolding load_name set_reg self_id
  load_name-set_reg d v s name = refl

  load_name-store_name :
      (a b : String) (v : IrValue) (s : Interp W)
      → starts_at a ≡ false
      → starts_at b ≡ false
      → load_name (store_name a v s) b ≡ (if str_eq a b then v else load_name s b)
  unfolding load_name store_name
  load_name-store_name a b v s ha hb =
      ground (arith, lookup-insert a b v s.constants, lookup-insert a b v s.variables, eq_iff a b)

  remember_store :
      (m : Stores) (ds : List RegId) (name : String) (r : RegId) (s : Interp W)
      → Remembers m ds s
      → starts_at name ≡ false
      → uses ds r ≡ true
      → Remembers (insert name r m) ds (store_name name (get_reg s r) s)
  remember_store m ds name r s k a u b x e = elim (Bool-cases (str_eq name b)) [
    | inl here ↦
        let same : name ≡ b = (eq_iff name b).0 here in
        let ab : starts_at b ≡ false = rw (← same) a in
        let xr : x ≡ r = ground (arith, lookup-insert name b r m) in
        (
          ab,
          rw xr u,
          rw xr (
              store_name-registers name (get_reg s r) s r
              ∙ sym (load_name-store_name name b (get_reg s r) s a ab ∙ ground arith)),
        )
    | inr there ↦
        let (ab, ux, v) = k b x (ground (arith, lookup-insert name b r m)) in
        (
          ab,
          ux,
          store_name-registers name (get_reg s r) s x
              ∙ v
              ∙ sym (load_name-store_name name b (get_reg s r) s a ab ∙ ground arith),
        )
  ]

  Remembers-nil : (ds : List RegId) (s : Interp W) → Remembers [] ds s
  unfolding lookup
  Remembers-nil ds s name r e = cc

-- Code without instance variables, made of calls and of the instructions that move, compute, load
-- and store values.
abbrev pub IsLocal : MirInst → Type 0
IsLocal (store name r) = starts_at name ≡ false
IsLocal (load d name) = starts_at name ≡ false
IsLocal (load_const d c) = Unit
IsLocal (copy d r) = Unit
IsLocal (bin_op d op l r) = Unit
IsLocal (un_op d op r) = Unit
IsLocal (alloc d name) = Unit
IsLocal nop = Unit
IsLocal (call d name args) = Unit
IsLocal (method_call d r name args b) = Unit
IsLocal _ = ⊥

-- The same, where a stored register is one of `ds`.
abbrev pub IsLocalAt : List RegId → MirInst → Type 0
IsLocalAt ds (store name r) = (starts_at name ≡ false) × (uses ds r ≡ true)
IsLocalAt ds i = IsLocal i

-- Code of such instructions that assigns no register twice and stores only registers that are
-- written before.
abbrev pub AreLocal : List RegId → List MirInst → Type 0
AreLocal ds [] = Unit
AreLocal ds (i ∷ is) =
    IsLocalAt ds i × IsNew ds (dest_of i) × AreLocal (with_dest (dest_of i) ds) is

module _ {W : Type 0} (checks : Bool) (fl : FloatOps)
    (other : MirInst → Interp W → Outcome (Interp W)) (frame : WritesOnlyDest other) where
  abbrev SameLoad : List RegId → MirInst → Interp W → Interp W → MirInst × Stores × Bool → Type 0
  SameLoad ds i s s' p =
      (exec_instruction checks fl other p.0 s ≡ done s')
      × Remembers p.1 (with_dest (dest_of i) ds) s'

  -- An instruction that changes only its own register.
  plain_load :
      (m : Stores) (ds : List RegId) (i : MirInst) (s s' : Interp W)
      → exec_instruction checks fl other i s ≡ done s'
      → IsNew ds (dest_of i)
      → ((name : String) → load_name s' name ≡ load_name s name)
      → Remembers m ds s
      → Remembers m (with_dest (dest_of i) ds) s'
  plain_load m ds i s s' h n same k name r e =
      let (a, u, v) = k name r e in
      (
        a,
        uses-with_dest (dest_of i) ds r u,
        exec_instruction-keeps checks fl other frame ds i s s' r h n u ∙ v ∙ sym (same name),
      )

  set_loads :
      (d : RegId) (v : IrValue) (s s' : Interp W)
      → done (set_reg d v s) ≡ done s'
      → (name : String) → load_name s' name ≡ load_name s name
  set_loads d v s s' h name =
      subst (λ (x : Interp W). load_name x name ≡ load_name s name) (done-injective h)
        (load_name-set_reg d v s name)

  known_step :
      (m : Stores) (ds : List RegId) (d : RegId) (name : String) (s s' : Interp W)
      (o : Option RegId)
      → lookup name m ≡ o
      → Remembers m ds s
      → uses ds d ≡ false
      → exec_instruction checks fl other (load d name) s ≡ done s'
      → SameLoad ds (load d name) s s' (known_load m d name o)
  unfolding exec_instruction dest_of
  known_step m ds d name s s' none e k n h =
      (h, plain_load m ds (load d name) s s' h n (set_loads d (load_name s name) s s' h) k)
  known_step m ds d name s s' (some r) e k n h = (
    rw (k name r e).2 h,
    plain_load m ds (load d name) s s' h n (set_loads d (load_name s name) s s' h) k,
  )

  load_step :
      (m : Stores) (ds : List RegId) (i : MirInst) (s s' : Interp W)
      → Remembers m ds s
      → IsNew ds (dest_of i)
      → IsLocalAt ds i
      → exec_instruction checks fl other i s ≡ done s'
      → SameLoad ds i s s' (reuse_store m i)
  unfolding reuse_store exec_instruction dest_of
  load_step m ds (store name r) s s' k n l h = (
    h,
    subst (λ (x : Interp W). Remembers (insert name r m) ds x) (done-injective h)
        (remember_store m ds name r s k l.0 l.1),
  )
  load_step m ds (load d name) s s' k n l h = known_step m ds d name s s' (lookup name m) refl k n h
  load_step m ds (load_const d c) s s' k n l h =
      (h, plain_load m ds (load_const d c) s s' h n (set_loads d (value_of c) s s' h) k)
  load_step m ds (copy d r) s s' k n l h =
      (h, plain_load m ds (copy d r) s s' h n (set_loads d (get_reg s r) s s' h) k)
  load_step m ds (bin_op d op x y) s s' k n l h =
      let (v, e, h') =
        >>=-eq-done (eval_binop checks fl op (get_reg s x) (get_reg s y))
          (λ v. done (set_reg d v s)) h in
      (h, plain_load m ds (bin_op d op x y) s s' h n (set_loads d v s s' h') k)
  load_step m ds (un_op d op x) s s' k n l h =
      let (v, e, h') =
        >>=-eq-done (eval_unop checks fl op (get_reg s x)) (λ v. done (set_reg d v s)) h in
      (h, plain_load m ds (un_op d op x) s s' h n (set_loads d v s s' h') k)
  load_step m ds (alloc d name) s s' k n l h =
      (h, plain_load m ds (alloc d name) s s' h n (set_loads d IrValue.nil s s' h) k)
  load_step m ds nop s s' k n l h = (
    h,
    plain_load m ds nop s s' h n
        (λ name. ap (λ (x : Interp W). load_name x name) (sym (done-injective h))) k,
  )
  load_step m ds (call d name args) s s' k n l h = (h, Remembers-nil (d ∷ ds) s')
  load_step m ds (method_call d r name args b) s s' k n l h = (h, Remembers-nil (d ∷ ds) s')
  load_step m ds i s s' k n l h = absurd l

  reuse_stores_sound :
      (m : Stores) (ds : List RegId) (is : List MirInst) (s s' : Interp W)
      → Remembers m ds s
      → AreLocal ds is
      → exec_all (exec_instruction checks fl other) is s ≡ done s'
      → exec_all (exec_instruction checks fl other) (reuse_stores m is).0 s ≡ done s'
  unfolding reuse_stores exec_all
  reuse_stores_sound m ds [] s s' k l h = h
  reuse_stores_sound m ds (i ∷ is) s s' k l h =
      let (t, ran, h') =
        >>=-eq-done (exec_instruction checks fl other i s)
          (exec_all (exec_instruction checks fl other) is) h in
      let (same, k') = load_step m ds i s t k l.1 l.0 ran in
      rw same (reuse_stores_sound (reuse_store m i).1 (with_dest (dest_of i) ds) is t s' k' l.2 h')

  -- Taking the stored register in place of a load: local code that assigns no register twice and
  -- stores only registers that are written before, or among `ds` at the start, runs to the same
  -- state, whatever the calls in it do to variables.
  pub exec_all-reuse_stores :
      (ds : List RegId) (is : List MirInst) (s s' : Interp W)
      → AreLocal ds is
      → exec_all (exec_instruction checks fl other) is s ≡ done s'
      → exec_all (exec_instruction checks fl other) (reuse_stores [] is).0 s ≡ done s'
  exec_all-reuse_stores ds is s s' l h = reuse_stores_sound [] ds is s s' (Remembers-nil ds s) l h
