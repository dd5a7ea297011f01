-- ===== src/Meta/Resolver/Hierarchy.antt =====
-- crates/jdruby-meta/src/resolver.rs: the answers of `lookup_method`, against the order in which the
-- language looks for a method.
mod Walk
use jdruby.Base.{
  ℕ, zero, suc, ◌+◌, ◌<◌, ◌≤◌, ◌==◌, ◌≡◌, ◌≢◌, refl, sym, ap, true, false, ◌⊎◌, inl, inr, Option,
  some, none, List, [], ◌∷◌, ◌++◌, ◌∙◌, All, length, if◌then◌else◌, Option-cases, Bool-cases, arith,
}
use mathlib.Core.Path.{subst}
use jdruby.Base.Assoc.{lookup}
use jdruby.Base.Keys.{nat_eq}
use jdruby.Meta.Table.{MethodTable}
use jdruby.Meta.Cache.{method_missing}
use jdruby.Meta.Resolver.{
  RClass, ResolutionResult, MethodResolver, find_in_class, find_in_modules, find_in_table,
  find_node, first_of, found, not_found, is_member, class_at, lookup_from, lookup_method,
}
use jdruby.Meta.Resolver.Hierarchy.Walk.{
  Classes, Resolves, Ends, left, left-length, Passed-nil, lookup_from-Ends,
}

-- The first entry under a name.
abbrev pub First : ℕ → ℕ → List (ℕ × ℕ) → Type 0
First name entry [] = ⊥
First name entry ((m, e) ∷ es) = ((m ≡ name) × (e ≡ entry)) ⊎ ((m ≢ name) × First name entry es)

-- The entries of a table and of the modules of an include chain.
abbrev of_table : Option (MethodTable ℕ) → List (ℕ × ℕ)
of_table none = []
of_table (some t) = t.entries

abbrev of_modules : List (Option (MethodTable ℕ)) → List (ℕ × ℕ)
of_modules [] = []
of_modules (m ∷ ms) = of_table m ++ of_modules ms

-- The methods that a class has of itself: those of the modules of its include chain, one module
-- after the other, and behind them those of its own table.
abbrev pub own_methods : RClass → List (ℕ × ℕ)
own_methods k = of_modules k.include_classes ++ of_table k.m_tbl

-- The walk that the language asks for: the entry is the first under the name among the methods of
-- the class that is so many superclasses above this one, and the classes below it have none.
abbrev pub Inherits : Classes → ℕ → ℕ → ℕ → ResolutionResult → Type 0
Inherits classes name zero c res =
    (k : RClass) × (class_at (lookup c classes) ≡ some k)
    × (entry : ℕ) × First name entry (own_methods k)
    × (res ≡ found c entry)
Inherits classes name (suc n) c res =
    (k : RClass) × (class_at (lookup c classes) ≡ some k)
    × All (λ e. e.0 ≢ name) (own_methods k)
    × (k.super_class ≢ 0)
    × Inherits classes name n k.super_class res

find_node-First : (name x : ℕ) (es : List (ℕ × ℕ)) → find_node es name ≡ some x → First name x es
unfolding find_node
find_node-First name x [] h = absurd cc
find_node-First name x ((m, e) ∷ es) h = elim (Bool-cases (m == name)) [
  | inl here ↦ let same : some e ≡ some x = rw here at h in inl (ground arith, cc)
  | inr there ↦ inr ((λ q. ground arith), find_node-First name x es (rw there at h))
]

find_node-Absent :
    (name : ℕ) (es : List (ℕ × ℕ)) → find_node es name ≡ none → All (λ e. e.0 ≢ name) es
unfolding find_node
find_node-Absent name [] h = tt
find_node-Absent name ((m, e) ∷ es) h = elim (Bool-cases (m == name)) [
  | inl here ↦ absurd (cc (rw here at h))
  | inr there ↦ ((λ q. ground arith), find_node-Absent name es (rw there at h))
]

find_node_of_First : (name x : ℕ) (es : List (ℕ × ℕ)) → First name x es → find_node es name ≡ some x
unfolding find_node
find_node_of_First name x [] h = absurd h
find_node_of_First name x ((m, e) ∷ es) (inl (p, q)) = ground arith
find_node_of_First name x ((m, e) ∷ es) (inr (p, q)) = elim (Bool-cases (m == name)) [
  | inl here ↦ absurd (p (ground arith))
  | inr there ↦ rw there (find_node_of_First name x es q)
]

find_node_of_Absent :
    (name : ℕ) (es : List (ℕ × ℕ)) → All (λ e. e.0 ≢ name) es → find_node es name ≡ none
unfolding find_node
find_node_of_Absent name [] h = refl
find_node_of_Absent name ((m, e) ∷ es) h = elim (Bool-cases (m == name)) [
  | inl here ↦ absurd (h.0 (ground arith))
  | inr there ↦ rw there (find_node_of_Absent name es h.1)
]

find_node-append :
    (name : ℕ) (xs ys : List (ℕ × ℕ))
    → find_node (xs ++ ys) name ≡ first_of (find_node xs name) (find_node ys name)
unfolding find_node
find_node-append name [] ys = refl
find_node-append name ((m, e) ∷ xs) ys = elim (Bool-cases (m == name)) [
  | inl here ↦ rw here refl
  | inr there ↦ rw there (find_node-append name xs ys)
]

find_in_table-node :
    (t : Option (MethodTable ℕ)) (name : ℕ) → find_in_table t name ≡ find_node (of_table t) name
unfolding find_in_table find_node
find_in_table-node none name = refl
find_in_table-node (some t) name = refl

find_in_modules-node :
    (ms : List (Option (MethodTable ℕ))) (name : ℕ)
    → find_in_modules ms name ≡ find_node (of_modules ms) name
unfolding find_in_modules find_node
find_in_modules-node [] name = refl
find_in_modules-node (m ∷ ms) name =
    rw (find_in_table-node m name, find_in_modules-node ms name)
      (sym (find_node-append name (of_table m) (of_modules ms)))

-- The second walk over the include chain finds nothing that the first did not.
first_again : (a b : Option ℕ) → first_of a (first_of b a) ≡ first_of a b
first_again none none = refl
first_again none (some x) = refl
first_again (some x) b = refl

find_in_class-node : (k : RClass) (name : ℕ) → find_in_class k name ≡ find_node (own_methods k) name
unfolding find_in_class
find_in_class-node k name =
    first_again (find_in_modules k.include_classes name) (find_in_table k.m_tbl name)
    ∙ rw (find_in_table-node k.m_tbl name, find_in_modules-node k.include_classes name)
        (sym (find_node-append name (of_modules k.include_classes) (of_table k.m_tbl)))

module _ (classes : Classes) (name : ℕ) where
  Resolves-Inherits :
      (n c : ℕ) (res : ResolutionResult)
      → Resolves classes name n c res
      → Inherits classes name n c res
  Resolves-Inherits zero c res (k, e, x, f, r) =
      (k, e, x, find_node-First name x (own_methods k) (sym (find_in_class-node k name) ∙ f), r)
  Resolves-Inherits (suc n) c res (k, e, f, l, p) = (
    k,
    e,
    find_node-Absent name (own_methods k) (sym (find_in_class-node k name) ∙ f),
    l,
    Resolves-Inherits n k.super_class res p,
  )

  Inherits-Resolves :
      (n c : ℕ) (res : ResolutionResult)
      → Inherits classes name n c res
      → Resolves classes name n c res
  Inherits-Resolves zero c res (k, e, x, f, r) =
      (k, e, x, find_in_class-node k name ∙ find_node_of_First name x (own_methods k) f, r)
  Inherits-Resolves (suc n) c res (k, e, f, l, p) = (
    k,
    e,
    find_in_class-node k name ∙ find_node_of_Absent name (own_methods k) f,
    l,
    Inherits-Resolves n k.super_class res p,
  )

  -- What `lookup_method` promises from a class on.
  abbrev pub Answers : ℕ → ResolutionResult → Type 0
  Answers c res =
      ((n : ℕ) × Inherits classes name n c res)
      ⊎ ((res.call_type ≡ method_missing)
          × (res.method_entry ≡ 0)
          × ((n : ℕ) (other : ResolutionResult) → Inherits classes name n c other → ⊥))

  Ends-Answers : (c : ℕ) (res : ResolutionResult) → Ends classes name c res → Answers c res
  Ends-Answers c res (inl (n, p)) = inl (n, Resolves-Inherits n c res p)
  Ends-Answers c res (inr (m, z, never)) =
      inr (m, z, λ n other p. never n other (Inherits-Resolves n c other p))

-- `lookup_method` ends, also where the superclasses form a cycle. Its answer is the entry of the
-- first class, from the given one up, that has the method: the first one under the name in the tables
-- of the modules of its include chain and, behind them, its own table. It gives the answer for a
-- missing method, with a null entry, only where no class on the way up has it.
pub lookup_method-Answers :
    (r : MethodResolver) (c name : ℕ)
    → (res : ResolutionResult) × (lookup_method r c name ≡ some res)
      × Answers r.global_classes name c res
unfolding lookup_method
lookup_method-Answers r c name =
    let (res, e, ends) =
      lookup_from-Ends r.global_classes name (suc (length r.global_classes)) [] c
        (omega (arith, left-length r.global_classes)) (Passed-nil r.global_classes name c) in
    (res, e, Ends-Answers r.global_classes name c res ends)
