-- ===== src/Semantic/Scope/Laws.antt =====
-- The states that the scope stack of scope.rs reaches, and what is visible in them.
use mathlib.Core.Path.{subst}
use text.Mathlib.Text.{◌==◌ as str_eq}
use jdruby.Base.{
  ◌≡◌, ◌≤◌, refl, String, Bool, false, Option, some, List, [], ◌∷◌, length, if◌then◌else◌, arith,
  Outcome, done, done-injective, ◌∙◌, ◌>>=◌, ◌||◌,
}
use jdruby.Base.Assoc.{lookup, lookup-insert}
use jdruby.Base.Keys.{string_eq}
use jdruby.Semantic.Scope.{
  ScopeKind, Symbol, Scope, ScopeStack, new_stack, new_scope, push, pop, define, define_in,
  lookup_in, lookup_chain, update_nearest,
}

-- The operations of the stack as steps from the start.
pub data Reaches : ScopeStack → Type 0 where
  at_start : Reaches new_stack
  by_push :
      {st : ScopeStack} (k : ScopeKind) (n : Option String) → Reaches st → Reaches (push k n st)
  by_pop : {st : ScopeStack} → Reaches st → Reaches (pop st).1
  by_define :
      {st st' : ScopeStack} (sym : Symbol) → define sym st ≡ done st' → Reaches st → Reaches st'
  by_update :
      {st : ScopeStack} (f : Symbol → Symbol) (n : String)
      → Reaches st
      → Reaches (update_nearest f n st)

pop-length : (st : ScopeStack) → 1 ≤ length st → 1 ≤ length (pop st).1
unfolding pop
pop-length [] h = h
pop-length (s ∷ []) h = h
pop-length (s ∷ t ∷ st) h = omega arith

define-length : (sym : Symbol) (st st' : ScopeStack) → define sym st ≡ done st' → 1 ≤ length st'
unfolding define
define-length sym [] st' h = cc
define-length sym (s ∷ st) st' h = subst (λ x. 1 ≤ length x) (done-injective h) (omega arith)

update_length :
    (f : Symbol → Symbol) (n : String) (st : ScopeStack)
    → length (update_nearest f n st) ≡ length st
unfolding update_nearest
update_length f n [] = refl
update_length f n (s ∷ st) = ground (arith, update_length f n st)

defines :
    (st : ScopeStack) (sym : Symbol)
    → 1 ≤ length st
    → (st' : ScopeStack) × (define sym st ≡ done st')
      × ((name : String)
          → lookup_chain name st'
            ≡ (if str_eq sym.name name then some sym else lookup_chain name st))
unfolding define lookup_chain lookup_in define_in
defines [] sym h = absurd (omega arith)
defines (s ∷ st) sym h =
    (define_in sym s ∷ st, refl, λ name. ground (arith, lookup-insert sym.name name sym s.symbols))

-- Definitions one after the other.
unfoldable pub define_all : List Symbol → ScopeStack → Outcome ScopeStack
define_all [] st = done st
define_all (sym ∷ syms) st = define sym st >>= define_all syms

unfoldable pub named_by : String → List Symbol → Bool
named_by name [] = false
named_by name (sym ∷ syms) = str_eq sym.name name || named_by name syms

-- Definitions change only the top scope.
defines_all :
    (s : Scope) (st : ScopeStack) (syms : List Symbol)
    → (s' : Scope) × (define_all syms (s ∷ st) ≡ done (s' ∷ st))
      × ((name : String) → named_by name syms ≡ false → lookup_in name s' ≡ lookup_in name s)
unfolding define_all named_by define lookup_in define_in
defines_all s st [] = (s, refl, λ name h. refl)
defines_all s st (sym ∷ syms) =
    let (s', e, same) = defines_all (define_in sym s) st syms in
    (
      s',
      e,
      λ name h.
          same name (ground (arith, h))
          ∙ ground (arith, h, lookup-insert sym.name name sym s.symbols),
    )

pop_of_some : (s : Scope) (st : ScopeStack) → 1 ≤ length st → (pop (s ∷ st)).1 ≡ st
unfolding pop
pop_of_some s [] h = absurd (omega arith)
pop_of_some s (t ∷ st) h = refl

never_empty : (st : ScopeStack) → Reaches st → 1 ≤ length st
unfolding push
never_empty _ at_start = omega arith
never_empty _ (by_push k n r) = omega arith
never_empty _ (by_pop {st = st} r) = pop-length st (never_empty st r)
never_empty st' (by_define {st = st} sym e r) = define-length sym st st' e
never_empty _ (by_update {st = st} f n r) = omega (arith, update_length f n st, never_empty st r)

-- In every state that the operations reach from a new stack `define` does not panic, and it gives
-- a stack on which the symbol is found under its own name and every other name is found as before.
pub define_of_Reaches :
    (st : ScopeStack) (sym : Symbol)
    → Reaches st
    → (st' : ScopeStack) × (define sym st ≡ done st')
      × ((name : String)
          → lookup_chain name st'
            ≡ (if str_eq sym.name name then some sym else lookup_chain name st))
define_of_Reaches st sym r = defines st sym (never_empty st r)

-- Leaving a scope in which nothing but definitions happened gives back the stack from before it.
pub pop-push :
    (st : ScopeStack) (k : ScopeKind) (n : Option String) (syms : List Symbol)
    → Reaches st
    → (inner : ScopeStack) × (define_all syms (push k n st) ≡ done inner)
      × ((pop inner).1 ≡ st)
      × ((name : String)
          → named_by name syms ≡ false
          → lookup_chain name inner ≡ lookup_chain name st)
unfolding push lookup_chain lookup_in lookup
pop-push st k n syms r =
    let (s', e, same) = defines_all (new_scope k n) st syms in
    (s' ∷ st, e, pop_of_some s' st (never_empty st r), λ name h. rw (same name h) refl)
