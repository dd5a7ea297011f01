-- ===== src/Meta/Table/Tests.antt =====
-- Two small method tables, whose entries are numbers.
use jdruby.Base.{ℕ, ◌≡◌, refl, Option, some, [], ◌∷◌}
use jdruby.Meta.Table.{MethodTable, merge, lookup}
use jdruby.Meta.Table.Laws.{IsTable, or_else, lookup-merge}

abbrev base : Option (MethodTable ℕ)
base = some (record { num_entries = 2; entries = (1, 10) ∷ (2, 20) ∷ [] })

abbrev overlay : Option (MethodTable ℕ)
overlay = some (record { num_entries = 1; entries = (2, 21) ∷ [] })

lookup-merge_example :
    IsTable (some (merge base overlay))
    × ((name : ℕ)
        → lookup (some (merge base overlay)) name
          ≡ or_else (lookup overlay name) (lookup base name))
lookup-merge_example = lookup-merge base overlay (refl, (refl, (refl, tt))) (refl, (refl, tt))
