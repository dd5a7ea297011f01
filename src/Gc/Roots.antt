-- ===== src/Gc/Roots.antt =====
-- crates/jdgc/src/roots.rs: the registered roots, a thread's own roots, and the conservative scan
-- of a stack. A pointer is its address, 0 where it is null.
pub mod Laws
pub mod Stack
mod Tests
use jdruby.Base.{
  ℕ, zero, suc, ◌+◌, ◌%◌, ◌^◌, Bool, true, false, not, Option, some, none, List, [], ◌∷◌, ◌++◌,
  ◌==◌, ◌&&◌, ltb, leb, ◌-◌, length, any, retain, if◌then◌else◌,
}
use jdruby.Base.Assoc.{insert, remove}
use jdruby.Base.Keys.{nat_eq}

pub data RootError : Type 0 where
  invalid_pointer root_table_full duplicate_root : RootError

-- A handle is its id.
pub data Registered : Type 0 where
  handle : ℕ → Registered
  refused : RootError → Registered

pub record RootSet : Type 0 where
  pub roots : List (ℕ × ℕ)
  pub next_id : ℕ
  pub max_roots : ℕ

unfoldable pub with_capacity : ℕ → RootSet
with_capacity max_roots = record { roots = []; next_id = 1; max_roots = max_roots }

unfoldable pub contains : ℕ → RootSet → Bool
contains ptr r = any (λ e. e.1 == ptr) r.roots

-- The id is taken before the pointer is looked at.
unfoldable pub register : ℕ → RootSet → Registered × RootSet
register ptr r =
    let id = r.next_id in
    let taken = record r { next_id = (id + 1) % 2 ^ 64 } in
    if leb r.max_roots (length r.roots)
    then (refused root_table_full, r)
    else if ptr == 0
    then (refused invalid_pointer, taken)
    else if contains ptr r
    then (refused duplicate_root, taken)
    else (handle id, record taken { roots = insert id ptr r.roots })

unfoldable pub unregister : ℕ → RootSet → RootSet
unregister id r = record r { roots = remove id r.roots }

unfoldable pub clear : RootSet → RootSet
clear r = record r { roots = [] }

unfoldable pub reserve : ℕ → RootSet → RootSet
reserve additional r = record r { max_roots = (r.max_roots + additional) % 2 ^ 64 }

pub record ThreadLocalRoots : Type 0 where
  pub local : List ℕ
  pub max_local : ℕ

-- The error, where there is one.
unfoldable pub add : ℕ → ThreadLocalRoots → Option RootError × ThreadLocalRoots
add ptr t =
    if leb t.max_local (length t.local)
    then (some root_table_full, t)
    else if ptr == 0
    then (some invalid_pointer, t)
    else (none, record t { local = t.local ++ (ptr ∷ []) })

unfoldable pub remove_local : ℕ → ThreadLocalRoots → ThreadLocalRoots
remove_local ptr t = record t { local = retain (λ p. not (p == ptr)) t.local }

unfoldable pub looks_like_heap_pointer : ℕ → Bool
looks_like_heap_pointer addr = if addr == 0 then false else addr % 8 == 0

-- The loop of `scan_stack` from `ptr` on, with the stack's words by their addresses: the pointers
-- that the callback gets, in order. `none`: the fuel ends.
unfoldable pub scan_from : ℕ → (ℕ → ℕ) → ℕ → ℕ → Option (List ℕ)
scan_from zero stack ptr stack_top = none
scan_from (suc n) stack ptr stack_top =
    let rest = scan_from n stack (ptr + 8) stack_top in
    if not (ltb ptr stack_top)
    then some []
    else if looks_like_heap_pointer (stack ptr)
    then prepend (stack ptr) rest
    else rest
  where
    prepend : ℕ → Option (List ℕ) → Option (List ℕ)
    prepend p none = none
    prepend p (some ps) = some (p ∷ ps)

unfoldable pub scan_stack : (ℕ → ℕ) → ℕ → ℕ → Option (List ℕ)
scan_stack stack stack_bottom stack_top =
    scan_from (suc (stack_top - stack_bottom)) stack stack_bottom stack_top
