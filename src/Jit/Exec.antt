-- ===== src/Jit/Exec.antt =====
-- crates/jdruby-jit/src/interpreter.rs: the state, `exec_instruction` on the instructions that
-- move, compute, load and store values, and the loop of `call_function` over the blocks. All other
-- instructions are the parameter `other`; what only they use of the state is the field `world`.
use jdruby.Base.{
  ◌≡◌, refl, ◌⊎◌, inl, inr, ℕ, zero, suc, String, Bool, Option, some, none, List, [], ◌∷◌, Outcome,
  done, panic, ◌>>=◌, if◌then◌else◌,
}
use text.Mathlib.Text.{◌==◌ as str_eq}
use jdruby.Base.Assoc.{lookup, insert}
use jdruby.Base.Keys.{nat_eq, string_eq}
use jdruby.Base.Names.{starts_uppercase, starts_at}
use jdruby.Jit.Value.{IrValue, nil, object, FloatOps, value_of, eval_binop, eval_unop, is_truthy}
use jdruby.Mir.Nodes.{
  RegId, BlockLabel, MirInst, load_const, copy, bin_op, un_op, load, store, alloc, nop,
  MirTerminator, return, branch, cond_branch, unreachable, MirBlock,
}

pub record Interp (W : Type 0) : Type 0 where
  pub registers : List (RegId × IrValue)
  pub variables : List (String × IrValue)
  pub constants : List (String × IrValue)
  pub instance_vars : List (ℕ × List (String × IrValue))
  pub world : W

-- `.cloned().unwrap_or(IrValue::Nil)`
abbrev pub or_nil : Option IrValue → IrValue
or_nil none = nil
or_nil (some v) = v

-- `entry(..).or_default()`
abbrev pub or_empty {ℓ} : {A : Type ℓ} → Option (List A) → List A
or_empty none = []
or_empty (some m) = m

-- The object id of `self`, where that is an object.
abbrev self_of : Option IrValue → Option ℕ
self_of (some (object name id)) = some id
self_of _ = none

module _ {W : Type 0} where
  unfoldable pub get_reg : Interp W → RegId → IrValue
  get_reg s r = or_nil (lookup r s.registers)

  unfoldable pub set_reg : RegId → IrValue → Interp W → Interp W
  set_reg r v s = record s { registers = insert r v s.registers }

  unfoldable pub self_id : Interp W → Option ℕ
  self_id s = self_of (lookup "self" s.variables)

  -- What `Load` reads.
  unfoldable pub load_name : Interp W → String → IrValue
  load_name s name =
      if starts_uppercase name
      then or_nil (lookup name s.constants)
      else if starts_at name
      then elim (self_id s) [
        | none ↦ nil
        | some id ↦ or_nil (lookup name (or_empty (lookup id s.instance_vars)))
      ]
      else or_nil (lookup name s.variables)

  -- What `Store` does.
  unfoldable pub store_name : String → IrValue → Interp W → Interp W
  store_name name v s =
      if starts_uppercase name
      then record s { constants = insert name v s.constants }
      else if starts_at name
      then elim (self_id s) [
        | none ↦ s
        | some id ↦ record s {
          instance_vars =
              insert id (insert name v (or_empty (lookup id s.instance_vars))) s.instance_vars;
        }
      ]
      else record s { variables = insert name v s.variables }

  module _ (checks : Bool) (fl : FloatOps) (other : MirInst → Interp W → Outcome (Interp W)) where
    unfoldable pub exec_instruction : MirInst → Interp W → Outcome (Interp W)
    exec_instruction (load_const r c) s = done (set_reg r (value_of c) s)
    exec_instruction (copy d r) s = done (set_reg d (get_reg s r) s)
    exec_instruction (bin_op d op l r) s = do
      v ← eval_binop checks fl op (get_reg s l) (get_reg s r)
      done (set_reg d v s)
    exec_instruction (un_op d op r) s = do
      v ← eval_unop checks fl op (get_reg s r)
      done (set_reg d v s)
    exec_instruction (load r name) s = done (set_reg r (load_name s name) s)
    exec_instruction (store name r) s = done (store_name name (get_reg s r) s)
    exec_instruction (alloc r name) s = done (set_reg r nil s)
    exec_instruction nop s = done s
    exec_instruction inst s = other inst s

-- The loop of `call_function`, over any way to execute an instruction and to read a register.
pub data Run {ℓ} (S : Type ℓ) : Type ℓ where
  out_of_fuel : Run S
  panicked : Run S
  finished : IrValue → S → Run S

pub data Next : Type 0 where
  goto : BlockLabel → Next
  stop : IrValue → Next

-- `func.blocks.iter().find(|b| b.label == current_label)`
unfoldable pub find_block : BlockLabel → List MirBlock → Option MirBlock
find_block l [] = none
find_block l (b ∷ bs) = if str_eq b.label l then some b else find_block l bs

unfoldable pub exec_all {ℓ} :
    {S : Type ℓ} → (MirInst → S → Outcome S) → List MirInst → S → Outcome S
exec_all exec [] s = done s
exec_all exec (i ∷ is) s = exec i s >>= exec_all exec is

module _ {S : Type 0} (exec : MirInst → S → Outcome S) (read : S → RegId → IrValue) where
  unfoldable pub next : MirTerminator → S → Next
  next (return (some r)) s = stop (read s r)
  next (return none) s = stop nil
  next (branch l) s = goto l
  next (cond_branch r t e) s = if is_truthy (read s r) then goto t else goto e
  next unreachable s = stop nil

  unfoldable pub run : ℕ → List MirBlock → BlockLabel → S → Run S
  run zero bs l s = out_of_fuel
  run (suc fuel) bs l s = elim (find_block l bs) [
    | none ↦ finished nil s
    | some b ↦ elim (exec_all exec b.instructions s) [
      | panic ↦ panicked
      | done s' ↦ elim (next b.terminator s') [
        | stop v ↦ finished v s'
        | goto l' ↦ run fuel bs l' s'
      ]
    ]
  ]

  -- The first block's label, or the empty text.
  unfoldable pub entry_label : List MirBlock → BlockLabel
  entry_label [] = ""
  entry_label (b ∷ bs) = b.label

  unfoldable pub run_function : ℕ → List MirBlock → S → Run S
  run_function fuel bs s = run fuel bs (entry_label bs) s

pub Next-cases : (n : Next) → ((l : BlockLabel) × (n ≡ goto l)) ⊎ ((v : IrValue) × (n ≡ stop v))
Next-cases (goto l) = inl (l, refl)
Next-cases (stop v) = inr (v, refl)
