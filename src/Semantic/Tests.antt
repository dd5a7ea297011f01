-- ===== src/Semantic/Tests.antt =====
-- The theorems on types and scopes at concrete ones.
use jdruby.Base.{◌≡◌, String, true, false, none, some, [], ◌∷◌, if◌then◌else◌, done}
use text.Mathlib.Text.{◌==◌ as str_eq}
use jdruby.Semantic.Types.{RubyType, integer, float, nil, union_of, no_types, type_then, public}
use jdruby.Semantic.Scope.{
  Symbol, local_var, method_scope, ScopeStack, new_stack, push, pop, define, lookup_chain,
}
use jdruby.Semantic.Scope.Laws.{
  at_start, by_push, define_of_Reaches, pop-push, define_all, named_by,
}

abbrev number : RubyType
number = union_of (type_then integer (type_then float no_types))

abbrev number_or_nil : RubyType
number_or_nil = union_of (type_then nil (type_then float no_types))

abbrev symbol_named : String → Symbol
symbol_named name = record {
  name = name;
  kind = local_var;
  ty = integer;
  initialized = true;
  ref_count = 0;
  visibility = public;
}

abbrev in_a_method : ScopeStack
in_a_method = push method_scope (some "run") new_stack

define_of_Reaches_example :
    (st' : ScopeStack) × (define (symbol_named "x") in_a_method ≡ done st')
    × ((name : String)
        → lookup_chain name st'
          ≡ (if str_eq "x" name then some (symbol_named "x") else lookup_chain name in_a_method))
define_of_Reaches_example =
    define_of_Reaches in_a_method (symbol_named "x") (by_push method_scope (some "run") at_start)

pop-push_example :
    (inner : ScopeStack) × (define_all (symbol_named "x" ∷ []) (push method_scope none in_a_method)
      ≡ done inner)
    × ((pop inner).1 ≡ in_a_method)
    × ((name : String)
        → named_by name (symbol_named "x" ∷ []) ≡ false
        → lookup_chain name inner ≡ lookup_chain name in_a_method)
pop-push_example =
    pop-push in_a_method method_scope none (symbol_named "x" ∷ [])
      (by_push method_scope (some "run") at_start)
