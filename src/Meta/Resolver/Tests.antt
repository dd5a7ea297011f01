-- ===== src/Meta/Resolver/Tests.antt =====
-- A class 7 below a class 9, which has the method 1.
use jdruby.Base.Assoc.{lookup, insert}
use jdruby.Meta.Cache.{virtual, lookup_entry, insert_entry, entries_at, find_class, add_entry}
use jdruby.Meta.Resolver.Dispatch.{Resolved, resolve_static}
use jdruby.Base.{true, arith, refl, ℕ, ◌≡◌, Option, some, none, [], ◌∷◌}
use jdruby.Meta.Table.{MethodTable}
use jdruby.Meta.Resolver.{
  RClass, ResolutionResult, MethodResolver, new_resolver, lookup_method, lookup_from, find_in_class,
  find_in_modules, find_in_table, find_node, register_class,
}
use jdruby.Meta.Resolver.Hierarchy.{Answers, lookup_method-Answers}
use jdruby.Meta.Resolver.Calls.{Comes, new, registered, static, resolve_static-misses}

abbrev methods : Option (MethodTable ℕ)
methods = some (record { num_entries = 1; entries = (1, 4096) ∷ [] })

abbrev above : RClass
above = record { super_class = 0; m_tbl = methods; include_classes = [] }

abbrev below : RClass
below = record { super_class = 9; m_tbl = none; include_classes = [] }

abbrev two_classes : MethodResolver
two_classes = record new_resolver { global_classes = (7, some below) ∷ (9, some above) ∷ [] }

lookup_method-Answers_example :
    (res : ResolutionResult) × (lookup_method two_classes 7 1 ≡ some res)
    × Answers two_classes.global_classes 1 7 res
lookup_method-Answers_example = lookup_method-Answers two_classes 7 1

-- The two classes, and the resolver after a call that finds the method above, which stands in the
-- cache from then on under the call site 0.
abbrev registered_classes : MethodResolver
registered_classes = register_class 9 (some above) (register_class 7 (some below) new_resolver)

abbrev answer : ResolutionResult
answer = record {
  method_entry = 4096;
  receiver_class = 9;
  call_type = virtual;
  needs_guard = true;
  call_site_id = 0;
}

abbrev after_call : MethodResolver
after_call = record two_classes {
  inline_cache = record {
    cache =
        (
          0,
          (
            7,
            record { method_entry = 4096; receiver_class = 7; call_type = virtual; hit_count = 1 },
          )
              ∷ [],
        )
        ∷ [];
    hits = 0;
    misses = 1;
  };
  next_call_site_id = 1;
}

after_call-Comes : Comes after_call
unfolding resolve_static register_class lookup_method lookup_from lookup_entry insert_entry lookup
    insert find_in_class find_in_modules find_in_table find_node entries_at find_class add_entry
after_call-Comes =
    static {r = registered_classes} {s = after_call} 7 1 answer (omega arith) refl
      (registered 9 (some above) (registered 7 (some below) new))

-- The same method is asked for again.
resolve_static-misses_example :
    (o : Resolved) × (resolve_static 7 1 after_call ≡ some o)
    × (lookup_method after_call 7 1 ≡ some o.0)
    × ((lookup_entry 1 7 after_call.inline_cache).0 ≡ none)
    × (o.1.next_call_site_id ≡ 2)
    × (o.1.inline_cache.misses ≡ 2)
    × (after_call.inline_cache.hits ≡ 0)
    × (o.1.inline_cache.hits ≡ 0)
resolve_static-misses_example = resolve_static-misses 7 1 after_call after_call-Comes (omega arith)
