-- ===== src/Ffi/Symbols/Laws.antt =====
-- The two maps of symbol_table.rs under interning.
use mathlib.Core.Path.{subst}
use jdruby.Base.{
  ℕ, ◌+◌, ◌^◌, ◌<◌, ◌≤◌, ◌≡◌, ◌↔◌, refl, ap, sym, ◌∙◌, String, Option, some, none, List, [], ◌∷◌,
  Option-cases, inl, inr, arith, length,
}
use jdruby.Base.Assoc.{lookup, lookup-insert}
use jdruby.Base.Keys.{nat_eq, string_eq}
use text.Mathlib.TextEquality.{eq_iff}
use jdruby.Ffi.Symbols.{SymbolTable, found_or_new, intern, id2name, intern_all, new, common_names}

-- The maps from names to ids and back agree, and all ids are below the next one.
pub record IsTable (t : SymbolTable) : Type 0 where
  pub named :
      (name : String) (id : ℕ) → lookup name t.symbols ≡ some id → lookup id t.sym_names ≡ some name
  pub known :
      (id : ℕ) (name : String) → lookup id t.sym_names ≡ some name → lookup name t.symbols ≡ some id
  pub below : (id : ℕ) (name : String) → lookup id t.sym_names ≡ some name → id < t.next_sym_id

fresh_id : (t : SymbolTable) → IsTable t → lookup t.next_sym_id t.sym_names ≡ none
fresh_id t w = elim (Option-cases (lookup t.next_sym_id t.sym_names)) [
  | inl e ↦ e
  | inr (name, e) ↦ absurd (omega (arith, w.below t.next_sym_id name e))
]

some_string : {a b : String} → some a ≡ some b → a ≡ b
some_string h = cc

-- What `intern` does to a table.
abbrev pub Interns : String → SymbolTable → ℕ × SymbolTable → Type 0
Interns name t (id, u) =
    IsTable u
    × (lookup name u.symbols ≡ some id)
    × (id2name id u ≡ some name)
    × ((j : ℕ) (n : String) → id2name j t ≡ some n → id2name j u ≡ some n)

interns :
    (name : String) (t : SymbolTable) (o : Option ℕ)
    → lookup name t.symbols ≡ o
    → IsTable t
    → t.next_sym_id + 1 < 2 ^ 64
    → Interns name t (found_or_new name t o)
unfolding id2name
interns name t (some id) e w k = (w, e, w.named name id e, λ j n h. h)
interns name t none e w k =
    let free = fresh_id t w in
    let id = t.next_sym_id in
    (
      record {
        named = λ n i h. ground (
          arith,
          h,
          lookup-insert name n id t.symbols,
          lookup-insert id i name t.sym_names,
          eq_iff name n,
          w.named n i,
          free,
        );
        known = λ i n h. ground (
          arith,
          h,
          e,
          lookup-insert name n id t.symbols,
          lookup-insert id i name t.sym_names,
          eq_iff name n,
          w.known i n,
        );
        below = λ i n h. ground (arith, h, lookup-insert id i name t.sym_names, w.below i n);
      },
      ground (arith, lookup-insert name name id t.symbols, eq_iff name name),
      ground (arith, lookup-insert id id name t.sym_names),
      λ j n h. ground (arith, lookup-insert id j name t.sym_names, h, free),
    )

next-intern-le :
    (name : String) (t : SymbolTable) (o : Option ℕ)
    → t.next_sym_id + 1 < 2 ^ 64
    → (found_or_new name t o).1.next_sym_id ≤ t.next_sym_id + 1
next-intern-le name t none k = omega arith
next-intern-le name t (some id) k = omega arith

-- `intern` on a table whose maps agree, before the counter's last value: the maps agree afterwards,
-- the name has the id that is answered, the id has the name, and every id that had a name keeps it.
pub intern-Interns :
    (name : String) (t : SymbolTable)
    → IsTable t
    → t.next_sym_id + 1 < 2 ^ 64
    → Interns name t (intern name t)
unfolding intern
intern-Interns name t w k = interns name t (lookup name t.symbols) refl w k

intern_known :
    (name : String) (t : SymbolTable) (id : ℕ)
    → lookup name t.symbols ≡ some id
    → intern name t ≡ (id, t)
unfolding intern
intern_known name t id e = rw e refl

-- Two names interned one after the other have the same id exactly when they are the same name.
pub intern_ids :
    (a b : String) (t : SymbolTable)
    → IsTable t
    → t.next_sym_id + 1 < 2 ^ 64
    → (intern a t).1.next_sym_id + 1 < 2 ^ 64
    → ((intern a t).0 ≡ (intern b (intern a t).1).0) ↔ (a ≡ b)
unfolding id2name
intern_ids a b t w k l =
    let (v, at_a, id_a, keeps_a) = intern-Interns a t w k in
    let u = (intern a t).1 in
    let (x, at_b, id_b, keeps_b) = intern-Interns b u v l in
    (
      λ same. some_string (sym (keeps_b (intern a t).0 a id_a) ∙ (rw same id_b)),
      λ same. sym (
          ap (λ r. r.0)
            (intern_known b u (intern a t).0
              (subst (λ c. lookup c (intern a t).1.symbols ≡ some (intern a t).0) same at_a))),
    )

intern_all-IsTable :
    (ns : List String) (t : SymbolTable)
    → IsTable t
    → t.next_sym_id + length ns < 2 ^ 64
    → IsTable (intern_all ns t)
unfolding intern_all intern
intern_all-IsTable [] t w k = w
intern_all-IsTable (n ∷ ns) t w k =
    intern_all-IsTable ns (intern n t).1 (intern-Interns n t w (omega arith)).0
      (omega (arith, next-intern-le n t (lookup n t.symbols) (omega arith)))

empty_IsTable : IsTable (record { symbols = []; sym_names = []; next_sym_id = 1 })
unfolding lookup
empty_IsTable = record { named = λ n i h. cc; known = λ i n h. cc; below = λ i n h. cc }

-- The table that the program starts with: its two maps agree.
pub new-IsTable : IsTable new
unfolding new
new-IsTable =
    intern_all-IsTable common_names (record { symbols = []; sym_names = []; next_sym_id = 1 })
      empty_IsTable (omega arith)
