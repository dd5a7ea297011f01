-- ===== src/Meta/Cache/Laws.antt =====
-- crates/jdruby-meta/src/inline_cache.rs: what a lookup finds after the other operations.
use jdruby.Base.{
  ℕ, ◌+◌, ◌%◌, ◌^◌, ◌==◌, ◌≡◌, ◌∙◌, refl, ap, ◌&&◌, Option, some, none, List, [], ◌∷◌, length,
  retain, ltb, if◌then◌else◌, ==_refl, Bool-cases, inl, inr, arith,
}
use jdruby.Base.Assoc.{lookup, insert, lookup-insert}
use jdruby.Base.Keys.{nat_eq}
use jdruby.Meta.Cache.{
  CacheEntry, Entries, InlineCache, or_default, entries_at, find_class, lookup_entry, add_entry,
  insert_entry, other_class, drop_class, invalidate_class,
}

-- What the cache answers for a class at a call site.
abbrev pub answer : ℕ → ℕ → InlineCache → Option CacheEntry
answer site class c = (lookup_entry site class c).0

-- The entry that `insert` leaves for the class: an entry that is there only counts a hit.
abbrev pub kept_or_new : Option CacheEntry → CacheEntry → CacheEntry
kept_or_new none entry = entry
kept_or_new (some old) entry = record old { hit_count = (old.hit_count + 1) % 2 ^ 64 }

find_class-add_entry :
    (class other : ℕ) (entry : CacheEntry) (es : Entries)
    → find_class other (add_entry class entry es) ≡ (
        if class == other
        then some (kept_or_new (find_class class es) entry)
        else find_class other es)
unfolding find_class add_entry
find_class-add_entry class other entry [] = ground arith
find_class-add_entry class other entry (e ∷ es) = elim (Bool-cases (e.0 == class)) [
  | inl h ↦ rw h (ground (arith, h))
  | inr h ↦ rw h (ground (arith, h, find_class-add_entry class other entry es))
]

entries_at-insert :
    (site at : ℕ) (es : Entries) (c : InlineCache)
    → entries_at at (record c { cache = insert site es c.cache })
      ≡ (if site == at then es else entries_at at c)
unfolding entries_at
entries_at-insert site at es c = rw (lookup-insert site at es c.cache) (ground arith)

-- `insert`, then a lookup of any class at any site. At the site and for the class it finds the entry
-- that was there before with one hit more, and the new entry only where there was none: an insert
-- replaces nothing. Every other answer is as it was. The information that `insert` gives counts the
-- classes at the site, and the site is megamorphic where there are more than four. Also the fifth class
-- and those behind it are stored and found at the site, where the type's comment has a global map.
pub lookup_entry-insert_entry :
    (site class : ℕ) (entry : CacheEntry) (c : InlineCache) (at other : ℕ)
    → let r = insert_entry site class entry c in
      (answer at other r.1 ≡ (
        if site == at && class == other
        then some (kept_or_new (answer site class c) entry)
        else answer at other c))
      × (r.0.polymorphic_count ≡ length (entries_at site r.1))
      × (r.0.is_megamorphic ≡ ltb 4 (length (entries_at site r.1)))
unfolding lookup_entry insert_entry
lookup_entry-insert_entry site class entry c at other =
    let es = add_entry class entry (entries_at site c) in
    let there = entries_at-insert site at es c in
    let here : entries_at site (record c { cache = insert site es c.cache }) ≡ es =
      entries_at-insert site site es c ∙ rw (==_refl site) refl in
    (
      rw there (elim (Bool-cases (site == at)) [
        | inl h ↦
            let q : site ≡ at = ground arith in
            rw (h, ← q) (find_class-add_entry class other entry (entries_at site c))
        | inr h ↦ rw h refl
      ]),
      rw here refl,
      rw here refl,
    )

find_class-retain :
    (class other : ℕ) (es : Entries)
    → find_class other (retain (other_class class) es)
      ≡ (if class == other then none else find_class other es)
unfolding find_class
find_class-retain class other [] = ground arith
find_class-retain class other (e ∷ es) = ground (arith, find_class-retain class other es)

lookup-drop_class :
    (class at : ℕ) (sites : List (ℕ × Entries))
    → or_default (lookup at (drop_class class sites))
      ≡ retain (other_class class) (or_default (lookup at sites))
unfolding lookup drop_class
lookup-drop_class class at [] = refl
lookup-drop_class class at ((site, es) ∷ sites) = ground (arith, lookup-drop_class class at sites)

-- After `invalidate_class` no call site has an answer for the class, and every other answer is as it
-- was.
pub lookup_entry-invalidate_class :
    (class at other : ℕ) (c : InlineCache)
    → answer at other (invalidate_class class c)
      ≡ (if class == other then none else answer at other c)
unfolding lookup_entry invalidate_class entries_at
lookup_entry-invalidate_class class at other c =
    ap (find_class other) (lookup-drop_class class at c.cache)
    ∙ find_class-retain class other (or_default (lookup at c.cache))
