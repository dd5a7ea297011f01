-- ===== src/Meta/Table/Laws.antt =====
-- crates/jdruby-meta/src/method_table.rs: what a lookup finds in a table that was built.
use jdruby.Base.{
  ℕ, suc, ◌==◌, ◌≡◌, ◌∙◌, refl, ap, Bool, true, false, Option, some, none, List, [], ◌∷◌, ◌++◌,
  length, retain, if◌then◌else◌, if-both, arith,
}
use jdruby.Meta.Table.{
  MethodTable, has_other_name, add, build, lookup_nodes, lookup, entries_of, add_all, merge,
}

module _ {E : Type 0} where
  -- The first entry of a name, as a search finds it.
  abbrev pub find : ℕ → List (ℕ × E) → Option E
  find name [] = none
  find name (e ∷ es) = if e.0 == name then some e.1 else find name es

  -- Each name once.
  abbrev pub Distinct : List (ℕ × E) → Type 0
  Distinct [] = Unit
  Distinct (e ∷ es) = (find e.0 es ≡ none) × Distinct es

  abbrev pub or_else : Option E → Option E → Option E
  or_else (some e) o = some e
  or_else none o = o

  or_else-none : (o : Option E) → or_else o none ≡ o
  or_else-none none = refl
  or_else-none (some e) = refl

  lookup_nodes-find :
      (es : List (ℕ × E)) (name : ℕ) → lookup_nodes (length es) es name ≡ find name es
  unfolding lookup_nodes
  lookup_nodes-find [] name = refl
  lookup_nodes-find (e ∷ es) name = rw (lookup_nodes-find es name) refl

  pub lookup-build-find :
      (es : List (ℕ × E)) (name : ℕ) → lookup (some (build es)) name ≡ find name es
  unfolding lookup build
  lookup-build-find [] name = refl
  lookup-build-find (e ∷ es) name =
      let some_entry : (suc (length es) == 0) ≡ false = ground arith in
      rw some_entry (lookup_nodes-find (e ∷ es) name)

  find-append :
      (name n : ℕ) (x : E) (es : List (ℕ × E))
      → find name (es ++ ((n, x) ∷ []))
        ≡ or_else (find name es) (if n == name then some x else none)
  find-append name n x [] = refl
  find-append name n x (e ∷ es) = ground (arith, find-append name n x es)

  find-retain :
      (name n : ℕ) (es : List (ℕ × E))
      → find name (retain (has_other_name n) es) ≡ (if n == name then none else find name es)
  find-retain name n [] = ground arith
  find-retain name n (e ∷ es) = ground (arith, find-retain name n es)

  replaced :
      (b : Bool) (x : E) (o : Option E)
      → or_else (if b then none else o) (if b then some x else none) ≡ (if b then some x else o)
  replaced true x o = refl
  replaced false x none = refl
  replaced false x (some y) = refl

  find-add :
      (n : ℕ) (x : E) (es : List (ℕ × E)) (name : ℕ)
      → find name (add n x es) ≡ (if n == name then some x else find name es)
  unfolding add
  find-add n x es name =
      find-append name n x (retain (has_other_name n) es)
      ∙ rw (find-retain name n es) (replaced (n == name) x (find name es))

  Distinct-retain :
      (n : ℕ) (es : List (ℕ × E)) → Distinct es → Distinct (retain (has_other_name n) es)
  Distinct-retain n [] h = tt
  Distinct-retain n (e ∷ es) h =
      if-both Distinct (has_other_name n e)
        (rw (find-retain e.0 n es) (ground (arith, h.0)), Distinct-retain n es h.1)
        (Distinct-retain n es h.1)

  Distinct-append :
      (n : ℕ) (x : E) (es : List (ℕ × E))
      → Distinct es
      → find n es ≡ none
      → Distinct (es ++ ((n, x) ∷ []))
  Distinct-append n x [] h a = (refl, tt)
  Distinct-append n x (e ∷ es) h a =
      (rw (find-append e.0 n x es, h.0) (ground arith), Distinct-append n x es h.1 (ground arith))

  add-Distinct : (n : ℕ) (x : E) (es : List (ℕ × E)) → Distinct es → Distinct (add n x es)
  unfolding add
  add-Distinct n x es h =
      Distinct-append n x (retain (has_other_name n) es) (Distinct-retain n es h)
        (rw (find-retain n n es) (ground arith))

  add_all-Distinct : (more es : List (ℕ × E)) → Distinct es → Distinct (add_all more es)
  unfolding add_all
  add_all-Distinct [] es h = h
  add_all-Distinct ((n, x) ∷ more) es h = add_all-Distinct more (add n x es) (add-Distinct n x es h)

  overridden :
      (b : Bool) (x : E) (o p : Option E)
      → (b ≡ true → o ≡ none)
      → or_else o (if b then some x else p) ≡ or_else (if b then some x else o) p
  overridden true x o p h = rw (h refl) refl
  overridden false x o p h = refl

  find-add_all :
      (more es : List (ℕ × E)) (name : ℕ)
      → Distinct more
      → find name (add_all more es) ≡ or_else (find name more) (find name es)
  unfolding add_all
  find-add_all [] es name h = refl
  find-add_all ((n, x) ∷ more) es name h =
      find-add_all more (add n x es) name h.1
      ∙ rw (find-add n x es name) (
          overridden (n == name) x (find name more) (find name es)
            (λ e. let q : n ≡ name = ground arith in cc (q, h.0)))

  -- A table counts its entries and has each name once; a null table is one too.
  abbrev pub IsTable : Option (MethodTable E) → Type 0
  IsTable none = Unit
  IsTable (some t) = (t.num_entries ≡ length t.entries) × Distinct t.entries

  lookup-find :
      (t : Option (MethodTable E)) (name : ℕ) → IsTable t → lookup t name ≡ find name (entries_of t)
  unfolding lookup build
  lookup-find none name h = refl
  lookup-find (some t) name h = rw h.0 (lookup-build-find t.entries name)

  entries_of-Distinct : (t : Option (MethodTable E)) → IsTable t → Distinct (entries_of t)
  entries_of-Distinct none h = tt
  entries_of-Distinct (some t) h = h.1

  -- A merged table is one again, and it finds the entry of the overlay where that has one, and the
  -- entry of the base otherwise.
  pub lookup-merge :
      (base overlay : Option (MethodTable E))
      → IsTable base
      → IsTable overlay
      → IsTable (some (merge base overlay))
        × ((name : ℕ)
            → lookup (some (merge base overlay)) name
              ≡ or_else (lookup overlay name) (lookup base name))
  unfolding merge build
  lookup-merge base overlay hb ho =
      let bs = entries_of base in
      let os = entries_of overlay in
      let below = add_all-Distinct bs [] tt in
      (
        (refl, add_all-Distinct os (add_all bs []) below),
        λ name.
            lookup-build-find (add_all os (add_all bs [])) name
            ∙ find-add_all os (add_all bs []) name (entries_of-Distinct overlay ho)
            ∙ rw
                (
                  find-add_all bs [] name (entries_of-Distinct base hb),
                  lookup-find overlay name ho,
                  lookup-find base name hb,
                )
                (ap (or_else (find name os)) (or_else-none (find name bs))),
      )
