-- ===== src/Meta/Cache.antt =====
-- crates/jdruby-meta/src/inline_cache.rs: the inline cache of the call sites and the cache behind it.
pub mod Laws
mod Tests
use jdruby.Base.{
  ℕ, zero, suc, ◌+◌, ◌%◌, ◌^◌, ◌==◌, Bool, true, false, not, Option, some, none, List, [], ◌∷◌,
  ◌++◌, length, retain, ltb, if◌then◌else◌,
}
use jdruby.Base.Assoc.{lookup, insert, remove}
use jdruby.Base.Keys.{nat_eq}

pub data CallType : Type 0 where
  direct virtual method_missing dynamic_send : CallType

-- The entry of a method is its address.
pub record CacheEntry : Type 0 where
  pub method_entry : ℕ
  pub receiver_class : ℕ
  pub call_type : CallType
  pub hit_count : ℕ

pub record CallSiteInfo : Type 0 where
  pub id : ℕ
  pub polymorphic_count : ℕ
  pub is_megamorphic : Bool

abbrev pub polymorphic_limit : ℕ
polymorphic_limit = 4

abbrev pub Entries : Type 0
Entries = List (ℕ × CacheEntry)

pub record InlineCache : Type 0 where
  pub cache : List (ℕ × Entries)
  pub hits : ℕ
  pub misses : ℕ

abbrev pub new_cache : InlineCache
new_cache = record { cache = []; hits = 0; misses = 0 }

-- `get`, with no entries where the site is not there, as `or_default` has it.
abbrev pub or_default : Option Entries → Entries
or_default none = []
or_default (some es) = es

unfoldable pub entries_at : ℕ → InlineCache → Entries
entries_at site c = or_default (lookup site c.cache)

-- The loop of `lookup`.
unfoldable pub find_class : ℕ → Entries → Option CacheEntry
find_class class [] = none
find_class class (e ∷ es) = if e.0 == class then some e.1 else find_class class es

abbrev pub count_lookup : Option CacheEntry → InlineCache → InlineCache
count_lookup (some e) c = record c { hits = (c.hits + 1) % 2 ^ 64 }
count_lookup none c = record c { misses = (c.misses + 1) % 2 ^ 64 }

unfoldable pub lookup_entry : ℕ → ℕ → InlineCache → Option CacheEntry × InlineCache
lookup_entry site class c =
    let found = find_class class (entries_at site c) in (found, count_lookup found c)

-- The loop of `insert` and the `push` behind it.
unfoldable pub add_entry : ℕ → CacheEntry → Entries → Entries
add_entry class entry [] = (class, entry) ∷ []
add_entry class entry (e ∷ es) =
    if e.0 == class
    then (e.0, record e.1 { hit_count = (e.1.hit_count + 1) % 2 ^ 64 }) ∷ es
    else e ∷ add_entry class entry es

abbrev pub info : ℕ → Entries → CallSiteInfo
info site es = record {
  id = site;
  polymorphic_count = length es;
  is_megamorphic = ltb polymorphic_limit (length es);
}

unfoldable pub insert_entry : ℕ → ℕ → CacheEntry → InlineCache → CallSiteInfo × InlineCache
insert_entry site class entry c =
    let es = add_entry class entry (entries_at site c) in
    (info site es, record c { cache = insert site es c.cache })

abbrev pub other_class : ℕ → ℕ × CacheEntry → Bool
other_class class e = not (e.0 == class)

unfoldable pub drop_class : ℕ → List (ℕ × Entries) → List (ℕ × Entries)
drop_class class [] = []
drop_class class ((site, es) ∷ sites) =
    (site, retain (other_class class) es) ∷ drop_class class sites

unfoldable pub invalidate_class : ℕ → InlineCache → InlineCache
invalidate_class class c = record c { cache = drop_class class c.cache }

unfoldable pub invalidate_site : ℕ → InlineCache → InlineCache
invalidate_site site c = record c { cache = remove site c.cache }

unfoldable pub site_info : ℕ → InlineCache → Option CallSiteInfo
site_info site c = elim (lookup site c.cache) [ none ↦ none | some es ↦ some (info site es) ]

unfoldable pub is_megamorphic : ℕ → InlineCache → Bool
is_megamorphic site c = ltb polymorphic_limit (length (entries_at site c))

unfoldable pub num_entries : List (ℕ × Entries) → ℕ
num_entries [] = 0
num_entries ((site, es) ∷ sites) = length es + num_entries sites

unfoldable pub clear : InlineCache → InlineCache
clear c = record { cache = []; hits = 0; misses = 0 }
