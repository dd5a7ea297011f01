-- ===== src/Semantic/Types/Laws.antt =====
-- `union` of types.rs on the members of its arguments.
use mathlib.Core.Path.{subst}
use jdruby.Base.{
  Option, some, none, ◌≡◌, refl, Bool, true, false, not, ◌&&◌, ◌||◌, Bool-cases, inl, inr, arith,
  if◌then◌else◌,
}
use jdruby.Semantic.Types.{
  RubyType, RubyTypes, no_types, type_then, same_type, contains, push, push_new, as_union, union_by,
  union,
}
use jdruby.Semantic.Types.Equality.{same_type_sym, eq_of_same_type}

-- The members of a type: those of a union, or the type itself.
abbrev pub members_by : Option RubyTypes → RubyType → RubyTypes
members_by (some ts) t = ts
members_by none t = type_then t no_types

abbrev pub members : RubyType → RubyTypes
members t = members_by (as_union t) t

-- No member stands twice.
unfoldable pub all_distinct : RubyTypes → Bool
all_distinct no_types = true
all_distinct (type_then t ts) = not (contains ts t) && all_distinct ts

contains-push :
    (x t : RubyType) (ts : RubyTypes) → contains (push x ts) t ≡ (contains ts t || same_type x t)
unfolding contains push
contains-push x t no_types = ground arith
contains-push x t (type_then a ts) = ground (arith, contains-push x t ts)

-- A member that is there already adds nothing.
contains-same :
    (x t : RubyType) (ts : RubyTypes)
    → contains ts x ≡ true
    → same_type x t ≡ true
    → contains ts t ≡ true
contains-same x t ts h e = subst (λ y. contains ts y ≡ true) (eq_of_same_type x t e) h

contains-add :
    (x t : RubyType) (ts : RubyTypes)
    → contains (if contains ts x then ts else push x ts) t ≡ (contains ts t || same_type x t)
contains-add x t ts = ground (arith, contains-push x t ts, contains-same x t ts)

distinct-push :
    (x : RubyType) (ts : RubyTypes)
    → contains ts x ≡ false
    → all_distinct ts ≡ true
    → all_distinct (push x ts) ≡ true
unfolding all_distinct push contains
distinct-push x no_types h d = refl
distinct-push x (type_then a ts) h d =
    ground (arith, distinct-push x ts, contains-push x a ts, same_type_sym x a, same_type_sym a x)

contains-push_new :
    (b a : RubyTypes) (t : RubyType) → contains (push_new b a) t ≡ (contains a t || contains b t)
unfolding push_new contains
contains-push_new no_types a t = ground arith
contains-push_new (type_then x b) a t =
    ground (arith, contains-push_new b (if contains a x then a else push x a) t, contains-add x t a)

same_as : (a b t : RubyType) → same_type a b ≡ true → same_type b t ≡ same_type a t
same_as a b t h = subst (λ x. same_type x t ≡ same_type a t) (eq_of_same_type a b h) refl

distinct-add :
    (x : RubyType) (ts : RubyTypes)
    → all_distinct ts ≡ true
    → all_distinct (if contains ts x then ts else push x ts) ≡ true
distinct-add x ts d = ground (arith, distinct-push x ts)

distinct-push_new : (b a : RubyTypes) → all_distinct a ≡ true → all_distinct (push_new b a) ≡ true
unfolding push_new
distinct-push_new no_types a d = d
distinct-push_new (type_then x b) a d =
    distinct-push_new b (if contains a x then a else push x a) (distinct-add x a d)

-- What a union has of the members `xs` and `ys`.
abbrev pub Unites : RubyTypes → RubyTypes → RubyTypes → Type 0
Unites xs ys zs =
    ((t : RubyType) → contains zs t ≡ (contains xs t || contains ys t))
    × (all_distinct xs ≡ true → all_distinct ys ≡ true → all_distinct zs ≡ true)

union_by-Unites :
    (o p : Option RubyTypes) (a b : RubyType)
    → as_union a ≡ o
    → Unites (members_by o a) (members_by p b) (members (union_by o p a b))
unfolding contains all_distinct
union_by-Unites (some ts) (some us) a b e =
    (λ t. contains-push_new us ts t, λ d f. distinct-push_new us ts d)
union_by-Unites (some ts) none a b e =
    (λ t. ground (arith, contains-add b t ts), λ d f. distinct-add b ts d)
union_by-Unites none (some us) a b e =
    (λ t. ground (arith, contains-same a t us), λ d f. ground (arith, d, f))
union_by-Unites none none a b e = elim (Bool-cases (same_type a b)) [
  | inl same ↦ rw (same, e) (λ t. ground (arith, same_as a b t same), λ d f. refl)
  | inr other ↦ rw other (λ t. ground arith, λ d f. ground (arith, other, same_type_sym b a))
]

-- The members of a union of two types are those of the one and of the other, whichever of the two
-- are unions themselves; and where neither has a member twice, the union has none twice.
union-members : (a b : RubyType) → Unites (members a) (members b) (members (union a b))
unfolding union
union-members a b = union_by-Unites (as_union a) (as_union b) a b refl
