-- ===== src/Semantic/Scope.antt =====
-- crates/jdruby-semantic/src/scope.rs: symbols, scopes and the stack of scopes, whose top is the
-- head of the list here. A `u32` count is a number; no function of the file changes it.
pub mod Laws
use jdruby.Base.{
  ℕ, String, Bool, true, false, ◌||◌, Option, some, none, List, [], ◌∷◌, length, any, Outcome, done,
  panic,
}
use jdruby.Base.Assoc.{lookup, insert}
use jdruby.Base.Keys.{string_eq}
use jdruby.Semantic.Types.{RubyType, MethodSignature, Visibility, public}

pub data ScopeKind : Type 0 where
  top_level class_scope module_scope method_scope block_scope lambda_scope rescue_scope : ScopeKind

pub data SymbolKind : Type 0 where
  local_var instance_var class_var global_var constant : SymbolKind
  method : MethodSignature → SymbolKind
  class_of : Option String → SymbolKind
  module_symbol param block_param : SymbolKind

pub record Symbol : Type 0 where
  pub name : String
  pub kind : SymbolKind
  pub ty : RubyType
  pub initialized : Bool
  pub ref_count : ℕ
  pub visibility : Visibility

pub record Scope : Type 0 where
  pub kind : ScopeKind
  pub name : Option String
  pub symbols : List (String × Symbol)
  pub current_visibility : Visibility

abbrev pub new_scope : ScopeKind → Option String → Scope
new_scope kind name = record { kind = kind; name = name; symbols = []; current_visibility = public }

unfoldable pub define_in : Symbol → Scope → Scope
define_in sym s = record s { symbols = insert sym.name sym s.symbols }

unfoldable pub lookup_in : String → Scope → Option Symbol
lookup_in name s = lookup name s.symbols

abbrev pub ScopeStack : Type 0
ScopeStack = List Scope

abbrev pub new_stack : ScopeStack
new_stack = new_scope top_level none ∷ []

unfoldable pub push : ScopeKind → Option String → ScopeStack → ScopeStack
push kind name st = new_scope kind name ∷ st

unfoldable pub pop : ScopeStack → Option Scope × ScopeStack
pop (s ∷ t ∷ st) = (some s, t ∷ st)
pop st = (none, st)

-- `self.current_mut().define(sym)`: `unwrap` panics on an empty stack.
unfoldable pub define : Symbol → ScopeStack → Outcome ScopeStack
define sym [] = panic
define sym (s ∷ st) = done (define_in sym s ∷ st)

abbrev pub or_else : Option Symbol → Option Symbol → Option Symbol
or_else (some s) o = some s
or_else none o = o

unfoldable pub lookup_chain : String → ScopeStack → Option Symbol
lookup_chain name [] = none
lookup_chain name (s ∷ st) = or_else (lookup_in name s) (lookup_chain name st)

abbrev pub updated :
    Option Symbol → (Symbol → Symbol) → String → Scope → ScopeStack → ScopeStack → ScopeStack
updated (some sym) f name s st rest = record s { symbols = insert name (f sym) s.symbols } ∷ st
updated none f name s st rest = s ∷ rest

-- A change `f` of the symbol that `lookup_mut` gives, in the nearest scope that has it.
unfoldable pub update_nearest : (Symbol → Symbol) → String → ScopeStack → ScopeStack
update_nearest f name [] = []
update_nearest f name (s ∷ st) = updated (lookup_in name s) f name s st (update_nearest f name st)

abbrev pub is_method : ScopeKind → Bool
is_method method_scope = true
is_method _ = false

abbrev pub is_class : ScopeKind → Bool
is_class class_scope = true
is_class _ = false

unfoldable pub in_method : ScopeStack → Bool
in_method st = any (λ s. is_method s.kind) st

unfoldable pub in_class : ScopeStack → Bool
in_class st = any (λ s. is_class s.kind) st

abbrev pub first_name : Bool → Option String → Option String → Option String
first_name true name rest = name
first_name false name rest = rest

unfoldable pub enclosing_class : ScopeStack → Option String
enclosing_class [] = none
enclosing_class (s ∷ st) = first_name (is_class s.kind) s.name (enclosing_class st)

unfoldable pub enclosing_method : ScopeStack → Option String
enclosing_method [] = none
enclosing_method (s ∷ st) = first_name (is_method s.kind) s.name (enclosing_method st)
