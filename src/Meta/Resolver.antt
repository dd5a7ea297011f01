-- ===== src/Meta/Resolver.antt =====
-- crates/jdruby-meta/src/resolver.rs: the resolver and its walk up the classes. A pointer is its address, 0 where it is null; a class holds the tables that its pointers lead to.
pub mod Dispatch
pub mod Hierarchy
pub mod Misses
pub mod Calls
mod Tests
use Prim.Native.Nat.{bit_and}
use jdruby.Base.{
  ℕ, zero, suc, ◌+◌, ◌/◌, ◌%◌, ◌^◌, ◌==◌, ◌&&◌, ◌||◌, Bool, true, false, not, Option, some, none,
  List, [], ◌∷◌, length, any, retain, if◌then◌else◌,
}
use jdruby.Base.Assoc.{lookup, insert}
use jdruby.Base.Keys.{nat_eq}
use jdruby.Meta.Table.{MethodTable}
use jdruby.Meta.Cache.{
  CallType, virtual, method_missing, dynamic_send, CacheEntry, InlineCache, new_cache, lookup_entry,
  insert_entry, invalidate_class,
}

-- A module of the include chain is its method table, none where a pointer on the way is null.
pub record RClass : Type 0 where
  pub super_class : ℕ
  pub m_tbl : Option (MethodTable ℕ)
  pub include_classes : List (Option (MethodTable ℕ))

pub record ResolutionResult : Type 0 where
  pub method_entry : ℕ
  pub receiver_class : ℕ
  pub call_type : CallType
  pub needs_guard : Bool
  pub call_site_id : ℕ

pub record MethodResolver : Type 0 where
  pub inline_cache : InlineCache
  pub megamorphic_cache : List (ℕ × List CacheEntry)
  pub global_classes : List (ℕ × Option RClass)
  pub missing_entry : Option ℕ
  pub next_call_site_id : ℕ

abbrev pub new_resolver : MethodResolver
new_resolver = record {
  inline_cache = new_cache;
  megamorphic_cache = [];
  global_classes = [];
  missing_entry = none;
  next_call_site_id = 0;
}

-- The id that `alloc_call_site_id` gives is the one before.
abbrev pub alloc_call_site_id : MethodResolver → MethodResolver
alloc_call_site_id r = record r { next_call_site_id = (r.next_call_site_id + 1) % 2 ^ 64 }

unfoldable pub register_class : ℕ → Option RClass → MethodResolver → MethodResolver
register_class class_id class r = record r {
  global_classes = insert class_id class r.global_classes;
}

unfoldable pub set_method_missing : ℕ → MethodResolver → MethodResolver
set_method_missing entry r = record r { missing_entry = some entry }

-- The loop of `find_in_table` over the whole chain of nodes.
unfoldable pub find_node : List (ℕ × ℕ) → ℕ → Option ℕ
find_node [] name = none
find_node (e ∷ es) name = if e.0 == name then some e.1 else find_node es name

unfoldable pub find_in_table : Option (MethodTable ℕ) → ℕ → Option ℕ
find_in_table none name = none
find_in_table (some t) name = find_node t.entries name

abbrev pub first_of : Option ℕ → Option ℕ → Option ℕ
first_of (some e) o = some e
first_of none o = o

-- The loops over the include chain.
unfoldable pub find_in_modules : List (Option (MethodTable ℕ)) → ℕ → Option ℕ
find_in_modules [] name = none
find_in_modules (m ∷ ms) name = first_of (find_in_table m name) (find_in_modules ms name)

-- The include chain, the class's own table, and the include chain again.
unfoldable pub find_in_class : RClass → ℕ → Option ℕ
find_in_class k name =
    first_of (find_in_modules k.include_classes name)
      (first_of (find_in_table k.m_tbl name) (find_in_modules k.include_classes name))

abbrev pub found : ℕ → ℕ → ResolutionResult
found class_id entry = record {
  method_entry = entry;
  receiver_class = class_id;
  call_type = virtual;
  needs_guard = true;
  call_site_id = 0;
}

abbrev pub not_found : ℕ → ResolutionResult
not_found class_id = record {
  method_entry = 0;
  receiver_class = class_id;
  call_type = method_missing;
  needs_guard = false;
  call_site_id = 0;
}

abbrev pub is_member : ℕ → List ℕ → Bool
is_member a xs = any (λ b. b == a) xs

-- What a class pointer of the table leads to; null and absent end the loop alike.
abbrev pub class_at : Option (Option RClass) → Option RClass
class_at none = none
class_at (some k) = k

-- The loop of `lookup_method`. `none`: the fuel ends.
unfoldable pub lookup_from : ℕ → List (ℕ × Option RClass) → List ℕ → ℕ → ℕ → Option ResolutionResult
lookup_from zero classes visited class_id name = none
lookup_from (suc n) classes visited class_id name =
    if is_member class_id visited
    then some (not_found class_id)
    else elim (class_at (lookup class_id classes)) [
      | none ↦ some (not_found class_id)
      | some k ↦
          let above = lookup_from n classes (class_id ∷ visited) k.super_class name in
          elim (find_in_class k name) [
            | some entry ↦ some (found class_id entry)
            | none ↦ if k.super_class == 0 then some (not_found class_id) else above
          ]
    ]

unfoldable pub lookup_method : MethodResolver → ℕ → ℕ → Option ResolutionResult
lookup_method r class_id name =
    lookup_from (suc (length r.global_classes)) r.global_classes [] class_id name
