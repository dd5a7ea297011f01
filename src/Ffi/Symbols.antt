-- ===== src/Ffi/Symbols.antt =====
-- crates/jdruby-ffi/src/storage/symbol_table.rs: interning names as ids. An id is a `usize`, and the
-- counter wraps as in a release build. The lock around the global table is left out: each call
-- holds it from its start to its end.
pub mod Laws
mod Tests
use jdruby.Base.{ℕ, ◌+◌, ◌%◌, ◌^◌, String, Bool, true, false, Option, some, none, List, [], ◌∷◌}
use jdruby.Base.Assoc.{lookup, insert}
use jdruby.Base.Keys.{nat_eq, string_eq}

pub record SymbolTable : Type 0 where
  pub symbols : List (String × ℕ)
  pub sym_names : List (ℕ × String)
  pub next_sym_id : ℕ

-- `intern` after the lookup.
abbrev pub found_or_new : String → SymbolTable → Option ℕ → ℕ × SymbolTable
found_or_new name t (some id) = (id, t)
found_or_new name t none = (
  t.next_sym_id,
  record {
    symbols = insert name t.next_sym_id t.symbols;
    sym_names = insert t.next_sym_id name t.sym_names;
    next_sym_id = (t.next_sym_id + 1) % 2 ^ 64;
  },
)

unfoldable pub intern : String → SymbolTable → ℕ × SymbolTable
intern name t = found_or_new name t (lookup name t.symbols)

unfoldable pub id2name : ℕ → SymbolTable → Option String
id2name id t = lookup id t.sym_names

unfoldable pub is_interned : String → SymbolTable → Bool
is_interned name t = elim (lookup name t.symbols) [ none ↦ false | some id ↦ true ]

abbrev pub common_names : List String
common_names =
    "initialize" ∷ "new" ∷ "to_s" ∷ "inspect" ∷ "class" ∷ "puts" ∷ "print" ∷ "p" ∷ "raise"
    ∷ "require" ∷ "==" ∷ "!=" ∷ "<" ∷ ">" ∷ "<=" ∷ ">=" ∷ "<=>" ∷ "+" ∷ "-" ∷ "*" ∷ "/" ∷ "%" ∷ "**"
    ∷ "[]" ∷ "[]=" ∷ "<<" ∷ "each" ∷ "map" ∷ "select" ∷ "length" ∷ "size" ∷ "freeze" ∷ "frozen?"
    ∷ "nil?" ∷ "respond_to?" ∷ "send" ∷ "method_missing" ∷ []

unfoldable pub intern_all : List String → SymbolTable → SymbolTable
intern_all [] t = t
intern_all (n ∷ ns) t = intern_all ns (intern n t).1

unfoldable pub new : SymbolTable
new = intern_all common_names (record { symbols = []; sym_names = []; next_sym_id = 1 })
