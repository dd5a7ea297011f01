-- ===== src/Meta/Table.antt =====
-- crates/jdruby-meta/src/method_table.rs: method tables and their builder. The chain of a table's
-- nodes is a list, and a null table none.
pub mod Laws
mod Tests
use jdruby.Base.{
  ℕ, zero, suc, ◌==◌, Bool, not, Option, some, none, List, [], ◌∷◌, ◌++◌, length, retain,
  if◌then◌else◌,
}

pub record MethodTable (E : Type 0) : Type 0 where
  pub num_entries : ℕ
  pub entries : List (ℕ × E)

module _ {E : Type 0} where
  abbrev pub has_other_name : ℕ → ℕ × E → Bool
  has_other_name name e = not (e.0 == name)

  -- The builder is its entries.
  unfoldable pub add : ℕ → E → List (ℕ × E) → List (ℕ × E)
  add name entry es = retain (has_other_name name) es ++ ((name, entry) ∷ [])

  abbrev pub keep_first : ℕ × E → Option E × List (ℕ × E) → Option E × List (ℕ × E)
  keep_first e (o, es) = (o, e ∷ es)

  unfoldable pub remove : ℕ → List (ℕ × E) → Option E × List (ℕ × E)
  remove name [] = (none, [])
  remove name (e ∷ es) =
      let further = remove name es in if e.0 == name then (some e.1, es) else keep_first e further

  unfoldable pub build : List (ℕ × E) → MethodTable E
  build es = record { num_entries = length es; entries = es }

  -- The loop of `lookup`, over as many nodes as the table says.
  unfoldable pub lookup_nodes : ℕ → List (ℕ × E) → ℕ → Option E
  lookup_nodes zero es name = none
  lookup_nodes (suc n) [] name = none
  lookup_nodes (suc n) (e ∷ es) name =
      let further = lookup_nodes n es name in if e.0 == name then some e.1 else further

  abbrev pub lookup_in : MethodTable E → ℕ → Option E
  lookup_in t name = if t.num_entries == 0 then none else lookup_nodes t.num_entries t.entries name

  unfoldable pub lookup : Option (MethodTable E) → ℕ → Option E
  lookup none name = none
  lookup (some t) name = lookup_in t name

  -- What `iter` gives.
  abbrev pub entries_of : Option (MethodTable E) → List (ℕ × E)
  entries_of none = []
  entries_of (some t) = t.entries

  unfoldable pub add_all : List (ℕ × E) → List (ℕ × E) → List (ℕ × E)
  add_all [] es = es
  add_all ((name, entry) ∷ more) es = add_all more (add name entry es)

  unfoldable pub merge : Option (MethodTable E) → Option (MethodTable E) → MethodTable E
  merge base overlay = build (add_all (entries_of overlay) (add_all (entries_of base) []))
