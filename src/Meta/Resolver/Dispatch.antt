-- ===== src/Meta/Resolver/Dispatch.antt =====
-- crates/jdruby-meta/src/resolver.rs: the calls of the resolver, with the tests of values in types.rs
-- that they use.
use Prim.Native.Nat.{bit_and}
use jdruby.Base.{
  ℕ, ◌/◌, ◌^◌, ◌==◌, ◌&&◌, ◌||◌, Bool, true, not, Option, some, none, List, [], ◌∷◌, retain,
  if◌then◌else◌,
}
use jdruby.Base.Keys.{nat_eq}
use jdruby.Meta.Cache.{
  method_missing, dynamic_send, CacheEntry, lookup_entry, insert_entry, invalidate_class,
}
use jdruby.Meta.Resolver.{ResolutionResult, MethodResolver, alloc_call_site_id, lookup_method}

abbrev pub Resolved : Type 0
Resolved = ResolutionResult × MethodResolver

abbrev pub cache_hit : ℕ → ℕ → CacheEntry → ResolutionResult
cache_hit id class e = record {
  method_entry = e.method_entry;
  receiver_class = class;
  call_type = e.call_type;
  needs_guard = true;
  call_site_id = id;
}

-- The update of the cache behind a walk.
abbrev pub cache_result : ℕ → ℕ → ResolutionResult → MethodResolver → MethodResolver
cache_result id class res r =
    let entry : CacheEntry = record {
      method_entry = res.method_entry;
      receiver_class = class;
      call_type = res.call_type;
      hit_count = 1;
    } in
    if not (res.method_entry == 0)
    then record r { inline_cache = (insert_entry id class entry r.inline_cache).1 }
    else r

abbrev pub walk : ℕ → ℕ → ℕ → MethodResolver → Option Resolved
walk id class name r = elim (lookup_method r class name) [
  | none ↦ none
  | some res ↦ some (res, cache_result id class res r)
]

unfoldable pub resolve_static : ℕ → ℕ → MethodResolver → Option Resolved
resolve_static class name r =
    let id = r.next_call_site_id in
    let looked = lookup_entry id class r.inline_cache in
    let counted = record (alloc_call_site_id r) { inline_cache = looked.1 } in
    elim looked.0 [
      | some e ↦ some (cache_hit id class e, counted)
      | none ↦ walk id class name counted
    ]

abbrev pub qtrue : ℕ
qtrue = 20

abbrev pub qfalse : ℕ
qfalse = 0

abbrev pub qnil : ℕ
qnil = 8

unfoldable pub immediate_p : ℕ → Bool
immediate_p v = not (bit_and v 7 == 0) || v == qfalse

unfoldable pub fixnum_p : ℕ → Bool
fixnum_p v = bit_and v 1 == 1

unfoldable pub symbol_p : ℕ → Bool
symbol_p v = bit_and v 15 == 14

unfoldable pub value_to_symbol : ℕ → ℕ
value_to_symbol v = if symbol_p v then v / 2 ^ 4 else 0

-- `klass` is the class pointer in the object at an address, as the memory holds it.
unfoldable pub get_class_of : (ℕ → ℕ) → ℕ → ℕ
get_class_of klass obj =
    if immediate_p obj
      && (fixnum_p obj || symbol_p obj || obj == qtrue || obj == qfalse || obj == qnil)
    then 0
    else if obj == 0
    then 0
    else klass obj

unfoldable pub resolve_dynamic : (ℕ → ℕ) → ℕ → ℕ → MethodResolver → Option Resolved
resolve_dynamic klass receiver name_reg r =
    let class = get_class_of klass receiver in
    elim (lookup_method r class (value_to_symbol name_reg)) [
      | none ↦ none
      | some res ↦ some (
        record res {
          receiver_class = class;
          call_type = dynamic_send;
          needs_guard = true;
          call_site_id = r.next_call_site_id;
        },
        alloc_call_site_id r,
      )
    ]

abbrev pub or_null : Option ℕ → ℕ
or_null none = 0
or_null (some e) = e

-- `name` is the id of "method_missing", which is a hash.
unfoldable pub resolve_method_missing : ℕ → ℕ → MethodResolver → Option Resolved
resolve_method_missing name class r = elim (lookup_method r class name) [
  | none ↦ none
  | some res ↦ some (
    record {
      method_entry = if res.method_entry == 0 then or_null r.missing_entry else res.method_entry;
      receiver_class = class;
      call_type = method_missing;
      needs_guard = true;
      call_site_id = r.next_call_site_id;
    },
    alloc_call_site_id r,
  )
]

abbrev pub of_other_class : ℕ → CacheEntry → Bool
of_other_class class e = not (e.receiver_class == class)

unfoldable pub drop_entries : ℕ → List (ℕ × List CacheEntry) → List (ℕ × List CacheEntry)
drop_entries class [] = []
drop_entries class ((site, es) ∷ sites) =
    (site, retain (of_other_class class) es) ∷ drop_entries class sites

unfoldable pub invalidate : ℕ → MethodResolver → MethodResolver
invalidate class r = record r {
  inline_cache = invalidate_class class r.inline_cache;
  megamorphic_cache = drop_entries class r.megamorphic_cache;
}
