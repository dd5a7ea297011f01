-- ===== src/Mir/Nodes.antt =====
-- crates/jdruby-mir/src/nodes.rs: functions of blocks of instructions over numbered registers.
-- An f64 is its bit pattern; spans are left out, since no pass reads them.
use jdruby.Base.{ℕ, String, Bool, Option, List}
use jdruby.Base.Int.{ℤ}

pub data MirConst : Type 0 where
  integer : ℤ → MirConst
  float : ℕ → MirConst
  string symbol : String → MirConst
  bool : Bool → MirConst
  nil : MirConst

pub data MirBinOp : Type 0 where
  add sub mul div mod_op pow : MirBinOp
  eq not_eq lt gt lt_eq gt_eq cmp : MirBinOp
  and_op or_op : MirBinOp
  bit_and bit_or bit_xor shl shr : MirBinOp

pub data MirUnOp : Type 0 where
  neg not bit_not : MirUnOp

pub data MirVisibility : Type 0 where
  public protected private module_function : MirVisibility

abbrev pub RegId : Type 0
RegId = ℕ

abbrev pub BlockLabel : Type 0
BlockLabel = String

-- The fields stand in the source's order.
pub data MirInst : Type 0 where
  load_const : RegId → MirConst → MirInst
  copy : RegId → RegId → MirInst
  bin_op : RegId → MirBinOp → RegId → RegId → MirInst
  un_op : RegId → MirUnOp → RegId → MirInst
  call : RegId → String → List RegId → MirInst
  method_call : RegId → RegId → String → List RegId → Option RegId → MirInst
  load : RegId → String → MirInst
  store : String → RegId → MirInst
  alloc : RegId → String → MirInst
  nop : MirInst
  class_new : RegId → String → Option String → MirInst
  module_new : RegId → String → MirInst
  singleton_class_get : RegId → RegId → MirInst
  def_method def_singleton_method : RegId → String → String → MirInst
  include_module prepend_module extend_module : RegId → RegId → MirInst
  block_create : RegId → String → List RegId → Bool → MirInst
  proc_create lambda_create : RegId → RegId → MirInst
  block_yield : RegId → RegId → List RegId → MirInst
  block_invoke : RegId → RegId → List RegId → Option RegId → Option RegId → MirInst
  block_given current_block : RegId → MirInst
  symbol_to_proc : RegId → RegId → MirInst
  define_method_dynamic : RegId → RegId → RegId → String → MirVisibility → Option RegId → MirInst
  undef_method remove_method : RegId → RegId → RegId → MirInst
  alias_method : RegId → RegId → RegId → RegId → MirInst
  set_visibility : RegId → RegId → MirVisibility → List RegId → MirInst
  eval : RegId → RegId → Option RegId → Option RegId → Option RegId → MirInst
  instance_eval class_eval module_eval : RegId → RegId → RegId → Option RegId → MirInst
  binding_get : RegId → MirInst
  send public_send method_missing : RegId → RegId → RegId → List RegId → Option RegId → MirInst
  send_with_ic : RegId → RegId → String → List RegId → Option RegId → ℕ → MirInst
  respond_to : RegId → RegId → RegId → Bool → MirInst
  method_get instance_method_get : RegId → RegId → RegId → MirInst
  method_object_call : RegId → RegId → Option RegId → List RegId → Option RegId → MirInst
  method_bind : RegId → RegId → RegId → MirInst
  ivar_get_dynamic cvar_get_dynamic : RegId → RegId → RegId → MirInst
  ivar_set_dynamic cvar_set_dynamic const_set_dynamic : RegId → RegId → RegId → MirInst
  const_get_dynamic : RegId → RegId → RegId → Bool → MirInst

pub data MirTerminator : Type 0 where
  return : Option RegId → MirTerminator
  branch : BlockLabel → MirTerminator
  cond_branch : RegId → BlockLabel → BlockLabel → MirTerminator
  unreachable : MirTerminator

pub record MirBlock : Type 0 where
  pub label : BlockLabel
  pub instructions : List MirInst
  pub terminator : MirTerminator

pub record MirFunction : Type 0 where
  pub name : String
  pub params : List RegId
  pub blocks : List MirBlock
  pub next_reg : RegId
  pub captured_vars : List String

pub record MirModule : Type 0 where
  pub name : String
  pub functions : List MirFunction
