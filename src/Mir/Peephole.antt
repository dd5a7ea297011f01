-- ===== src/Mir/Peephole.antt =====
-- crates/jdruby-mir/src/opt_peephole.rs: the local patterns. Each pass returns the blocks and
-- whether it changed one. The walk up a chain of copies takes fuel.
pub mod Chains
pub mod Fallthrough
pub mod Identity
pub mod Loads
use text.Mathlib.Text.{◌==◌ as str_eq}
use jdruby.Base.{
  ℕ, zero, suc, ◌+◌, ◌*◌, String, Bool, true, false, not, Option, some, none, List, [], ◌∷◌, ◌==◌,
  ◌&&◌, ◌||◌, if◌then◌else◌,
}
use jdruby.Base.Assoc.{lookup, insert}
use jdruby.Base.Keys.{nat_eq, string_eq}
use jdruby.Base.Int.{ℤ, pos, eqb_ℤ}
use jdruby.Mir.Nodes.{
  RegId, MirConst, integer, MirBinOp, add, sub, mul, div, MirInst, load_const, copy, bin_op, call,
  method_call, load, store, MirTerminator, branch, unreachable, MirBlock,
}
use jdruby.Mir.Optimize.Constants.{Constants}

abbrev pub CopyMap : Type 0
CopyMap = List (RegId × RegId)

-- `while let Some(&next) = copy_map.get(&root) { if next == root { break; } root = next; }`
unfoldable pub chase : ℕ → CopyMap → RegId → Option RegId
chase zero m r = none
chase (suc fuel) m r = elim (lookup r m) [
  | none ↦ some r
  | some next ↦ elim (next == r) [ true ↦ some r | false ↦ chase fuel m next ]
]

abbrev pub copied : RegId → CopyMap → Option RegId → Option CopyMap
copied d m none = none
copied d m (some root) = some (insert d root m)

infixl 5 ◌>>=◌
abbrev pub ◌>>=◌ {ℓ κ} : {A : Type ℓ} {B : Type κ} → Option A → (A → Option B) → Option B
none >>= f = none
some a >>= f = f a

-- The first walk of `eliminate_copy_chains`, which builds the map.
unfoldable pub collect_copies : ℕ → CopyMap → List MirInst → Option CopyMap
collect_copies fuel m [] = some m
collect_copies fuel m (copy d r ∷ is) = do
  m' ← copied d m (chase fuel m r)
  collect_copies fuel m' is
collect_copies fuel m (i ∷ is) = collect_copies fuel m is

unfoldable pub collect_all_copies : ℕ → CopyMap → List MirBlock → Option CopyMap
collect_all_copies fuel m [] = some m
collect_all_copies fuel m (b ∷ bs) = do
  m' ← collect_copies fuel m b.instructions
  collect_all_copies fuel m' bs

-- The second walk, which replaces the copies.
abbrev pub shorter : RegId → RegId → Option RegId → MirInst × Bool
shorter d r none = (copy d r, false)
shorter d r (some root) = if root == r then (copy d r, false) else (copy d root, true)

unfoldable pub shorten : CopyMap → MirInst → MirInst × Bool
shorten m (copy d r) = shorter d r (lookup r m)
shorten m i = (i, false)

unfoldable pub shorten_all : CopyMap → List MirInst → List MirInst × Bool
shorten_all m [] = ([], false)
shorten_all m (i ∷ is) =
    let (i', c) = shorten m i in let (is', c') = shorten_all m is in (i' ∷ is', c || c')

unfoldable pub shorten_blocks : CopyMap → List MirBlock → List MirBlock × Bool
shorten_blocks m [] = ([], false)
shorten_blocks m (b ∷ bs) =
    let (is, c) = shorten_all m b.instructions in
    let (bs', c') = shorten_blocks m bs in (record b { instructions = is } ∷ bs', c || c')

unfoldable pub copies : List MirInst → ℕ
copies [] = 0
copies (copy d r ∷ is) = suc (copies is)
copies (i ∷ is) = copies is

unfoldable pub copies_in : List MirBlock → ℕ
copies_in [] = 0
copies_in (b ∷ bs) = copies b.instructions + copies_in bs

unfoldable pub eliminate_copy_chains : List MirBlock → Option (List MirBlock × Bool)
eliminate_copy_chains bs = do
  m ← collect_all_copies (suc (2 * copies_in bs)) [] bs
  some (shorten_blocks m bs)

-- eliminate_redundant_loads
abbrev pub Stores : Type 0
Stores = List (String × RegId)

abbrev pub known_load : Stores → RegId → String → Option RegId → MirInst × Stores × Bool
known_load m d name none = (load d name, m, false)
known_load m d name (some r) = (copy d r, m, true)

unfoldable pub reuse_store : Stores → MirInst → MirInst × Stores × Bool
reuse_store m (store name r) = (store name r, insert name r m, false)
reuse_store m (load d name) = known_load m d name (lookup name m)
reuse_store m (call d name args) = (call d name args, [], false)
reuse_store m (method_call d r name args b) = (method_call d r name args b, [], false)
reuse_store m i = (i, m, false)

unfoldable pub reuse_stores : Stores → List MirInst → List MirInst × Bool
reuse_stores m [] = ([], false)
reuse_stores m (i ∷ is) =
    let (i', m', c) = reuse_store m i in let (is', c') = reuse_stores m' is in (i' ∷ is', c || c')

unfoldable pub eliminate_redundant_loads : List MirBlock → List MirBlock × Bool
eliminate_redundant_loads [] = ([], false)
eliminate_redundant_loads (b ∷ bs) =
    let (is, c) = reuse_stores [] b.instructions in
    let (bs', c') = eliminate_redundant_loads bs in (record b { instructions = is } ∷ bs', c || c')

-- eliminate_dead_branches_to_fallthrough: no pass changes a label, so the label of the next block
-- is read off the next block.
abbrev pub falls_to : MirTerminator → List MirBlock → Bool
falls_to (branch l) (c ∷ bs) = str_eq l c.label
falls_to _ _ = false

unfoldable pub eliminate_dead_branches_to_fallthrough : List MirBlock → List MirBlock × Bool
eliminate_dead_branches_to_fallthrough [] = ([], false)
eliminate_dead_branches_to_fallthrough (b ∷ bs) =
    let (bs', c) = eliminate_dead_branches_to_fallthrough bs in
    if falls_to b.terminator bs
    then (record b { terminator = unreachable } ∷ bs', true)
    else (b ∷ bs', c)

-- simplify_identity_ops
abbrev pub is_integer : ℕ → Option MirConst → Bool
is_integer n (some (integer v)) = eqb_ℤ v (pos n)
is_integer n _ = false

unfoldable pub is_identity : MirBinOp → Option MirConst → Bool
is_identity add c = is_integer 0 c
is_identity sub c = is_integer 0 c
is_identity mul c = is_integer 1 c
is_identity div c = is_integer 1 c
is_identity op c = false

unfoldable pub simplify : Constants → MirInst → MirInst × Constants × Bool
simplify m (load_const r c) = (load_const r c, insert r c m, false)
simplify m (bin_op d op l r) =
    if is_identity op (lookup r m) then (copy d l, m, true) else (bin_op d op l r, m, false)
simplify m i = (i, m, false)

unfoldable pub simplify_all : Constants → List MirInst → List MirInst × Constants × Bool
simplify_all m [] = ([], m, false)
simplify_all m (i ∷ is) =
    let (i', m', c) = simplify m i in
    let (is', m'', c') = simplify_all m' is in (i' ∷ is', m'', c || c')

unfoldable pub simplify_blocks : Constants → List MirBlock → List MirBlock × Bool
simplify_blocks m [] = ([], false)
simplify_blocks m (b ∷ bs) =
    let (is, m', c) = simplify_all m b.instructions in
    let (bs', c') = simplify_blocks m' bs in (record b { instructions = is } ∷ bs', c || c')

unfoldable pub simplify_identity_ops : List MirBlock → List MirBlock × Bool
simplify_identity_ops bs = simplify_blocks [] bs
