-- ===== src/Semantic/Types/Equality.antt =====
-- The derived equality test of types.rs.
use mathlib.Core.Path.{subst}
use text.Mathlib.TextEquality.{eq_iff}
use jdruby.Base.{◌≡◌, refl, ap, Bool, true, ◌&&◌, arith}
use jdruby.Semantic.Types.{
  RubyType, integer, float, string, symbol, bool, nil, array, hash, range, regexp, proc,
  instance_of, class, module_of, union_of, optional_of, void, self_type, any, unknown, RubyTypes,
  no_types, type_then, same_type, same_types,
}

mutual
  unfolding same_type same_types

  pub same_type_refl : (a : RubyType) → same_type a a ≡ true
  same_type_refl (array a) = same_type_refl a
  same_type_refl (hash a b) = ground (arith, same_type_refl a, same_type_refl b)
  same_type_refl (instance_of a) = (eq_iff a a).1 refl
  same_type_refl (class a) = (eq_iff a a).1 refl
  same_type_refl (module_of a) = (eq_iff a a).1 refl
  same_type_refl (union_of a) = same_types_refl a
  same_type_refl (optional_of a) = same_type_refl a
  same_type_refl _ = refl

  pub same_types_refl : (a : RubyTypes) → same_types a a ≡ true
  same_types_refl no_types = refl
  same_types_refl (type_then a ts) = ground (arith, same_type_refl a, same_types_refl ts)

and_left : (a b : Bool) → (a && b) ≡ true → a ≡ true
and_left a b h = ground arith

and_right : (a b : Bool) → (a && b) ≡ true → b ≡ true
and_right a b h = ground arith

mutual
  unfolding same_type same_types

  pub eq_of_same_type : (a b : RubyType) → same_type a b ≡ true → a ≡ b
  eq_of_same_type (array a) (array b) h = ap array (eq_of_same_type a b h)
  eq_of_same_type (hash a b) (hash c d) h =
      let e = eq_of_same_type a c (and_left (same_type a c) (same_type b d) h) in
      let f = eq_of_same_type b d (and_right (same_type a c) (same_type b d) h) in cc
  eq_of_same_type (instance_of a) (instance_of b) h = ap instance_of ((eq_iff a b).0 h)
  eq_of_same_type (class a) (class b) h = ap class ((eq_iff a b).0 h)
  eq_of_same_type (module_of a) (module_of b) h = ap module_of ((eq_iff a b).0 h)
  eq_of_same_type (union_of a) (union_of b) h = ap union_of (eq_of_same_types a b h)
  eq_of_same_type (optional_of a) (optional_of b) h = ap optional_of (eq_of_same_type a b h)
  eq_of_same_type integer integer h = refl
  eq_of_same_type float float h = refl
  eq_of_same_type string string h = refl
  eq_of_same_type symbol symbol h = refl
  eq_of_same_type bool bool h = refl
  eq_of_same_type nil nil h = refl
  eq_of_same_type range range h = refl
  eq_of_same_type regexp regexp h = refl
  eq_of_same_type proc proc h = refl
  eq_of_same_type void void h = refl
  eq_of_same_type self_type self_type h = refl
  eq_of_same_type any any h = refl
  eq_of_same_type unknown unknown h = refl
  eq_of_same_type _ _ h = cc

  pub eq_of_same_types : (a b : RubyTypes) → same_types a b ≡ true → a ≡ b
  eq_of_same_types no_types no_types h = refl
  eq_of_same_types (type_then a ts) (type_then b us) h =
      let e = eq_of_same_type a b (and_left (same_type a b) (same_types ts us) h) in
      let f = eq_of_same_types ts us (and_right (same_type a b) (same_types ts us) h) in cc
  eq_of_same_types _ _ h = cc

pub same_type_sym : (a b : RubyType) → same_type a b ≡ true → same_type b a ≡ true
same_type_sym a b h = subst (λ x. same_type x a ≡ true) (eq_of_same_type a b h) (same_type_refl a)
