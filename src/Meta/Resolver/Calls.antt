-- ===== src/Meta/Resolver/Calls.antt =====
-- crates/jdruby-meta/src/resolver.rs: a resolver after any of its calls, one after the other.
use mathlib.Core.Path.{subst}
use jdruby.Base.{ℕ, ◌+◌, ◌^◌, ◌<◌, ◌≡◌, ◌%◌, refl, Option, some, none}
use jdruby.Meta.Cache.{invalidate_class, lookup_entry}
use jdruby.Meta.Resolver.{
  RClass, ResolutionResult, MethodResolver, new_resolver, register_class, set_method_missing,
  alloc_call_site_id, lookup_method,
}
use jdruby.Meta.Resolver.Dispatch.{
  Resolved, resolve_static, resolve_dynamic, resolve_method_missing, invalidate, get_class_of,
  value_to_symbol,
}
use jdruby.Meta.Resolver.Hierarchy.{lookup_method-Answers}
use jdruby.Meta.Resolver.Misses.{IsCold, after_miss-IsCold, resolve_static-IsCold, All-drop_class}

-- The resolvers that a new one comes to be, with fewer than 2 ^ 64 call sites.
pub data Comes : MethodResolver → Type 0 where
  new : Comes new_resolver
  registered :
      {r : MethodResolver} (c : ℕ) (k : Option RClass) → Comes r → Comes (register_class c k r)
  with_missing : {r : MethodResolver} (entry : ℕ) → Comes r → Comes (set_method_missing entry r)
  static :
      {r s : MethodResolver} (class name : ℕ) (res : ResolutionResult)
      → r.next_call_site_id + 1 < 2 ^ 64
      → resolve_static class name r ≡ some (res, s)
      → Comes r
      → Comes s
  dynamic :
      {r s : MethodResolver} (klass : ℕ → ℕ) (receiver name_reg : ℕ) (res : ResolutionResult)
      → r.next_call_site_id + 1 < 2 ^ 64
      → resolve_dynamic klass receiver name_reg r ≡ some (res, s)
      → Comes r
      → Comes s
  missing :
      {r s : MethodResolver} (name class : ℕ) (res : ResolutionResult)
      → r.next_call_site_id + 1 < 2 ^ 64
      → resolve_method_missing name class r ≡ some (res, s)
      → Comes r
      → Comes s
  invalidated : {r : MethodResolver} (class : ℕ) → Comes r → Comes (invalidate class r)

static-IsCold :
    (class name : ℕ) (r s : MethodResolver) (res : ResolutionResult)
    → r.next_call_site_id + 1 < 2 ^ 64
    → resolve_static class name r ≡ some (res, s)
    → IsCold r
    → IsCold s
static-IsCold class name r s res l h w =
    let o = resolve_static-IsCold class name r w l in
    let q : o.0.1 ≡ s = cc (h, o.1) in subst IsCold q o.6

dynamic-IsCold :
    (klass : ℕ → ℕ) (receiver name_reg : ℕ) (r s : MethodResolver) (res : ResolutionResult)
    → r.next_call_site_id + 1 < 2 ^ 64
    → resolve_dynamic klass receiver name_reg r ≡ some (res, s)
    → IsCold r
    → IsCold s
unfolding resolve_dynamic
dynamic-IsCold klass receiver name_reg r s res l h w =
    let e = (lookup_method-Answers r (get_class_of klass receiver) (value_to_symbol name_reg)).1 in
    let q : alloc_call_site_id r ≡ s = cc (rw (resolve_dynamic, e) at h) in
    subst IsCold q (after_miss-IsCold r r.inline_cache.misses l w)

missing-IsCold :
    (name class : ℕ) (r s : MethodResolver) (res : ResolutionResult)
    → r.next_call_site_id + 1 < 2 ^ 64
    → resolve_method_missing name class r ≡ some (res, s)
    → IsCold r
    → IsCold s
unfolding resolve_method_missing
missing-IsCold name class r s res l h w =
    let e = (lookup_method-Answers r class name).1 in
    let q : alloc_call_site_id r ≡ s = cc (rw (resolve_method_missing, e) at h) in
    subst IsCold q (after_miss-IsCold r r.inline_cache.misses l w)

Comes-IsCold : {r : MethodResolver} → Comes r → IsCold r
unfolding register_class set_method_missing invalidate invalidate_class
Comes-IsCold new = record { sites = tt; no_hits = refl }
Comes-IsCold (registered c k p) =
    let w = Comes-IsCold p in record { sites = w.sites; no_hits = w.no_hits }
Comes-IsCold (with_missing entry p) =
    let w = Comes-IsCold p in record { sites = w.sites; no_hits = w.no_hits }
Comes-IsCold (static {r = r} {s = s} class name res l h p) =
    static-IsCold class name r s res l h (Comes-IsCold p)
Comes-IsCold (dynamic {r = r} {s = s} klass receiver name_reg res l h p) =
    dynamic-IsCold klass receiver name_reg r s res l h (Comes-IsCold p)
Comes-IsCold (missing {r = r} {s = s} name class res l h p) =
    missing-IsCold name class r s res l h (Comes-IsCold p)
Comes-IsCold (invalidated {r = r} class p) =
    let w = Comes-IsCold p in
    record {
      sites = All-drop_class r.next_call_site_id class r.inline_cache.cache w.sites;
      no_hits = w.no_hits;
    }

-- Whatever was called on a resolver, with fewer than 2 ^ 64 call sites, the next `resolve_static` does
-- not use its inline cache: the cache has no entry at the next call site id, under which the call asks
-- it, and the id after the call is one more; the result is that of the whole walk up the classes; and
-- the call counts a miss. The cache was not hit before, and it is not hit by this call.
pub resolve_static-misses :
    (class name : ℕ) (r : MethodResolver)
    → Comes r
    → r.next_call_site_id + 1 < 2 ^ 64
    → (o : Resolved) × (resolve_static class name r ≡ some o)
      × (lookup_method r class name ≡ some o.0)
      × ((lookup_entry r.next_call_site_id class r.inline_cache).0 ≡ none)
      × (o.1.next_call_site_id ≡ r.next_call_site_id + 1)
      × (o.1.inline_cache.misses ≡ (r.inline_cache.misses + 1) % 2 ^ 64)
      × (r.inline_cache.hits ≡ 0)
      × (o.1.inline_cache.hits ≡ 0)
resolve_static-misses class name r p l =
    let cold = Comes-IsCold p in
    let (o, e, walked, absent, next, missed, after) = resolve_static-IsCold class name r cold l in
    (o, e, walked, absent, next, missed, cold.no_hits, after.no_hits)
