-- ===== src/Meta/Cache/Tests.antt =====
-- The inline cache with one call site.
use jdruby.Base.{ℕ, ◌==◌, ◌&&◌, ◌≡◌, some, none, [], ◌∷◌, length, ltb, if◌then◌else◌}
use jdruby.Meta.Cache.{CacheEntry, InlineCache, virtual, entries_at, insert_entry, invalidate_class}
use jdruby.Meta.Cache.Laws.{
  answer, kept_or_new, lookup_entry-insert_entry, lookup_entry-invalidate_class,
}

abbrev entry : ℕ → CacheEntry
entry at = record { method_entry = at; receiver_class = 3; call_type = virtual; hit_count = 1 }

abbrev one_site : InlineCache
one_site = record { cache = (1, (3, entry 4096) ∷ []) ∷ []; hits = 0; misses = 0 }

lookup_entry-insert_entry_example :
    let r = insert_entry 1 3 (entry 8192) one_site in
    (answer 1 3 r.1 ≡ (
      if 1 == 1 && 3 == 3
      then some (kept_or_new (answer 1 3 one_site) (entry 8192))
      else answer 1 3 one_site))
    × (r.0.polymorphic_count ≡ length (entries_at 1 r.1))
    × (r.0.is_megamorphic ≡ ltb 4 (length (entries_at 1 r.1)))
lookup_entry-insert_entry_example = lookup_entry-insert_entry 1 3 (entry 8192) one_site 1 3

lookup_entry-invalidate_class_example :
    answer 1 3 (invalidate_class 3 one_site) ≡ (if 3 == 3 then none else answer 1 3 one_site)
lookup_entry-invalidate_class_example = lookup_entry-invalidate_class 3 1 3 one_site
