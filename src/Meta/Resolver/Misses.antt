-- ===== src/Meta/Resolver/Misses.antt =====
-- crates/jdruby-meta/src/resolver.rs: the inline cache under the calls of the resolver.
use jdruby.Base.{
  ℕ, ◌+◌, ◌%◌, ◌^◌, ◌<◌, ◌==◌, ◌≡◌, ◌∙◌, refl, ap, not, Option, some, none, List, [], ◌∷◌, if-both,
  arith, All,
}
use jdruby.Base.Keys.{nat_eq, lookup-fresh, All-next, All-insert}
use jdruby.Meta.Cache.{
  InlineCache, CacheEntry, Entries, entries_at, find_class, lookup_entry, insert_entry, drop_class,
}
use jdruby.Meta.Resolver.{ResolutionResult, MethodResolver, lookup_method, alloc_call_site_id}
use jdruby.Meta.Resolver.Dispatch.{Resolved, resolve_static, cache_result, walk, cache_hit}
use jdruby.Meta.Resolver.Hierarchy.{lookup_method-Answers}

-- No entries at call sites that are not given out yet, and no hits.
pub record IsCold (r : MethodResolver) : Type 0 where
  pub sites : All (λ e. e.0 < r.next_call_site_id) r.inline_cache.cache
  pub no_hits : r.inline_cache.hits ≡ 0

misses :
    (n class : ℕ) (c : InlineCache)
    → All (λ e. e.0 < n) c.cache
    → lookup_entry n class c ≡ (none, record c { misses = (c.misses + 1) % 2 ^ 64 })
unfolding lookup_entry entries_at find_class
misses n class c h = rw (lookup-fresh n c.cache h) refl

pub All-drop_class :
    (n class : ℕ) (sites : List (ℕ × Entries))
    → All (λ e. e.0 < n) sites
    → All (λ e. e.0 < n) (drop_class class sites)
unfolding drop_class
All-drop_class n class [] h = tt
All-drop_class n class ((site, es) ∷ sites) h = (h.0, All-drop_class n class sites h.1)

cache_result-IsCold :
    (id class : ℕ) (res : ResolutionResult) (r : MethodResolver)
    → id < r.next_call_site_id
    → IsCold r
    → IsCold (cache_result id class res r)
unfolding insert_entry
cache_result-IsCold id class res r l w =
    if-both IsCold (not (res.method_entry == 0))
      (record {
        sites = All-insert id r.next_call_site_id _ r.inline_cache.cache l w.sites;
        no_hits = w.no_hits;
      })
      w

-- The next call site's id is one more, with the same cache or one that counts a miss.
pub after_miss-IsCold :
    (r : MethodResolver) (misses : ℕ)
    → r.next_call_site_id + 1 < 2 ^ 64
    → IsCold r
    → IsCold (record r {
      next_call_site_id = (r.next_call_site_id + 1) % 2 ^ 64;
      inline_cache = record r.inline_cache { misses = misses };
    })
after_miss-IsCold r misses l w = record {
  sites = All-next r.next_call_site_id _ r.inline_cache.cache (omega (arith, l)) w.sites;
  no_hits = w.no_hits;
}

walk_of :
    (id class name : ℕ) (r : MethodResolver) (res : ResolutionResult)
    → lookup_method r class name ≡ some res
    → walk id class name r ≡ some (res, cache_result id class res r)
walk_of id class name r res e = rw (walk, e) refl

-- `resolve_static` behind its lookup in the cache.
after_lookup : ℕ → ℕ → ℕ → MethodResolver → Option CacheEntry × InlineCache → Option Resolved
after_lookup id class name r looked =
    let counted = record (alloc_call_site_id r) { inline_cache = looked.1 } in
    elim looked.0 [
      | some e ↦ some (cache_hit id class e, counted)
      | none ↦ walk id class name counted
    ]

-- A call of `resolve_static` on a resolver whose cache has no entry for the call sites to come: it
-- ends, its result is that of the walk, with the call site id 0 that the walk gives, the next id is
-- one more, and the cache still has no entry for the call sites to come and no hit.
pub resolve_static-IsCold :
    (class name : ℕ) (r : MethodResolver)
    → IsCold r
    → r.next_call_site_id + 1 < 2 ^ 64
    → (o : Resolved) × (resolve_static class name r ≡ some o)
      × (lookup_method r class name ≡ some o.0)
      × ((lookup_entry r.next_call_site_id class r.inline_cache).0 ≡ none)
      × (o.1.next_call_site_id ≡ r.next_call_site_id + 1)
      × (o.1.inline_cache.misses ≡ (r.inline_cache.misses + 1) % 2 ^ 64)
      × IsCold o.1
unfolding resolve_static lookup_method insert_entry after_lookup
resolve_static-IsCold class name r w l =
    let id = r.next_call_site_id in
    let looked = misses id class r.inline_cache w.sites in
    let cold = after_miss-IsCold r ((r.inline_cache.misses + 1) % 2 ^ 64) l w in
    let (res, e, a) = lookup_method-Answers r class name in
    let counted : MethodResolver = record r {
      next_call_site_id = (id + 1) % 2 ^ 64;
      inline_cache = record r.inline_cache { misses = (r.inline_cache.misses + 1) % 2 ^ 64 };
    } in
    (
      (res, cache_result id class res counted),
      ap (after_lookup id class name r) looked ∙ walk_of id class name counted res e,
      e,
      ap (λ (x : Option CacheEntry × InlineCache). x.0) looked,
      if-both (λ (x : MethodResolver). x.next_call_site_id ≡ id + 1) (not (res.method_entry == 0))
          (omega (arith, l)) (omega (arith, l)),
      if-both (λ (x : MethodResolver). x.inline_cache.misses ≡ (r.inline_cache.misses + 1) % 2 ^ 64)
          (not (res.method_entry == 0)) refl refl,
      cache_result-IsCold id class res counted (omega (arith, l)) cold,
    )
