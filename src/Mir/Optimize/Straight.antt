-- ===== src/Mir/Optimize/Straight.antt =====
-- Straight-line code of crates/jdruby-mir/src/nodes.rs run by the interpreter: the register that an
-- instruction writes, code that assigns no register twice, and what stays in the registers.
use mathlib.Core.Path.{subst}
use jdruby.Base.{
  ◌≡◌, ◌≢◌, String, Bool, true, false, Option, some, none, List, [], ◌∷◌, Outcome, done,
  >>=-eq-done, ◌==◌, arith, if◌then◌else◌,
}
use jdruby.Base.Assoc.{lookup-insert}
use jdruby.Base.Keys.{nat_eq}
use jdruby.Jit.Value.{IrValue, FloatOps, value_of, eval_binop, eval_unop}
use jdruby.Jit.Exec.{Interp, get_reg, set_reg, exec_instruction, load_name, store_name}
use jdruby.Mir.Nodes.{RegId, MirInst}
use jdruby.Mir.Optimize.Remove.{uses}

-- The register that an instruction writes, `dest` in the comments of nodes.rs.
unfoldable pub dest_of : MirInst → Option RegId
dest_of (MirInst.store name r) = none
dest_of MirInst.nop = none
dest_of (MirInst.def_method c m f) = none
dest_of (MirInst.def_singleton_method c m f) = none
dest_of (MirInst.include_module c m) = none
dest_of (MirInst.prepend_module c m) = none
dest_of (MirInst.extend_module c m) = none
dest_of (MirInst.ivar_set_dynamic o n v) = none
dest_of (MirInst.cvar_set_dynamic c n v) = none
dest_of (MirInst.const_set_dynamic c n v) = none
dest_of (MirInst.load_const d c) = some d
dest_of (MirInst.copy d r) = some d
dest_of (MirInst.bin_op d op l r) = some d
dest_of (MirInst.un_op d op r) = some d
dest_of (MirInst.call d n a) = some d
dest_of (MirInst.method_call d r m a b) = some d
dest_of (MirInst.load d n) = some d
dest_of (MirInst.alloc d n) = some d
dest_of (MirInst.class_new d n s) = some d
dest_of (MirInst.module_new d n) = some d
dest_of (MirInst.singleton_class_get d o) = some d
dest_of (MirInst.block_create d f c l) = some d
dest_of (MirInst.proc_create d b) = some d
dest_of (MirInst.lambda_create d b) = some d
dest_of (MirInst.block_yield d b a) = some d
dest_of (MirInst.block_invoke d b a s k) = some d
dest_of (MirInst.block_given d) = some d
dest_of (MirInst.current_block d) = some d
dest_of (MirInst.symbol_to_proc d s) = some d
dest_of (MirInst.define_method_dynamic d c n m v b) = some d
dest_of (MirInst.undef_method d c n) = some d
dest_of (MirInst.remove_method d c n) = some d
dest_of (MirInst.alias_method d c n o) = some d
dest_of (MirInst.set_visibility d c v m) = some d
dest_of (MirInst.eval d c b f l) = some d
dest_of (MirInst.instance_eval d o c b) = some d
dest_of (MirInst.class_eval d o c b) = some d
dest_of (MirInst.module_eval d o c b) = some d
dest_of (MirInst.binding_get d) = some d
dest_of (MirInst.send d o n a b) = some d
dest_of (MirInst.public_send d o n a b) = some d
dest_of (MirInst.method_missing d o n a b) = some d
dest_of (MirInst.send_with_ic d o n a b k) = some d
dest_of (MirInst.respond_to d o n p) = some d
dest_of (MirInst.method_get d o n) = some d
dest_of (MirInst.instance_method_get d c n) = some d
dest_of (MirInst.method_object_call d m r a b) = some d
dest_of (MirInst.method_bind d m o) = some d
dest_of (MirInst.ivar_get_dynamic d o n) = some d
dest_of (MirInst.cvar_get_dynamic d c n) = some d
dest_of (MirInst.const_get_dynamic d c n i) = some d

abbrev pub with_dest : Option RegId → List RegId → List RegId
with_dest none ds = ds
with_dest (some d) ds = d ∷ ds

abbrev pub IsNew : List RegId → Option RegId → Type 0
IsNew ds none = Unit
IsNew ds (some d) = uses ds d ≡ false

-- No instruction writes a register of `ds` or one that an instruction before it writes.
abbrev pub AssignsOnce : List RegId → List MirInst → Type 0
AssignsOnce ds [] = Unit
AssignsOnce ds (i ∷ is) = IsNew ds (dest_of i) × AssignsOnce (with_dest (dest_of i) ds) is

module _ {W : Type 0} where
  pub get_reg-set_reg :
      (d r : RegId) (v : IrValue) (s : Interp W)
      → get_reg (set_reg d v s) r ≡ (if d == r then v else get_reg s r)
  unfolding get_reg set_reg
  get_reg-set_reg d r v s = rw lookup-insert (ground arith)

  pub store_name-registers :
      (name : String) (v : IrValue) (s : Interp W) (r : RegId)
      → get_reg (store_name name v s) r ≡ get_reg s r
  unfolding get_reg store_name
  store_name-registers name v s r = ground arith

  -- Instructions outside the modelled ones write no register but their own.
  abbrev pub WritesOnlyDest : (MirInst → Interp W → Outcome (Interp W)) → Type 0
  WritesOnlyDest other =
      (i : MirInst) (s s' : Interp W) (r : RegId)
      → other i s ≡ done s'
      → dest_of i ≢ some r
      → get_reg s' r ≡ get_reg s r

module _ {W : Type 0} (checks : Bool) (fl : FloatOps)
    (other : MirInst → Interp W → Outcome (Interp W)) (frame : WritesOnlyDest other) where
  -- No instruction changes a register other than its own.
  pub exec_instruction-frame :
      (i : MirInst) (s s' : Interp W) (r : RegId)
      → exec_instruction checks fl other i s ≡ done s'
      → dest_of i ≢ some r
      → get_reg s' r ≡ get_reg s r
  unfolding exec_instruction dest_of
  exec_instruction-frame (MirInst.load_const d c) s s' r h n =
      ground (arith, get_reg-set_reg d r (value_of c) s)
  exec_instruction-frame (MirInst.copy d x) s s' r h n =
      ground (arith, get_reg-set_reg d r (get_reg s x) s)
  exec_instruction-frame (MirInst.bin_op d op x y) s s' r h n =
      let (v, a, b) =
        >>=-eq-done (eval_binop checks fl op (get_reg s x) (get_reg s y))
          (λ v. done (set_reg d v s)) h in
      ground (arith, get_reg-set_reg d r v s)
  exec_instruction-frame (MirInst.un_op d op x) s s' r h n =
      let (v, a, b) =
        >>=-eq-done (eval_unop checks fl op (get_reg s x)) (λ v. done (set_reg d v s)) h in
      ground (arith, get_reg-set_reg d r v s)
  exec_instruction-frame (MirInst.load d x) s s' r h n =
      ground (arith, get_reg-set_reg d r (load_name s x) s)
  exec_instruction-frame (MirInst.store name x) s s' r h n =
      ground (arith, store_name-registers name (get_reg s x) s r)
  exec_instruction-frame (MirInst.alloc d x) s s' r h n =
      ground (arith, get_reg-set_reg d r IrValue.nil s)
  exec_instruction-frame MirInst.nop s s' r h n = ground arith
  exec_instruction-frame i s s' r h n = frame i s s' r h n

  -- After an instruction with a new register every register written before has its value.
  pub exec_instruction-keeps :
      (ds : List RegId) (i : MirInst) (s s' : Interp W) (r : RegId)
      → exec_instruction checks fl other i s ≡ done s'
      → IsNew ds (dest_of i)
      → uses ds r ≡ true
      → get_reg s' r ≡ get_reg s r
  exec_instruction-keeps ds i s s' r h n u =
      exec_instruction-frame i s s' r h (λ e. cc (subst (λ (o : Option RegId). IsNew ds o) e n))
