-- ===== src/Semantic/Types.antt =====
-- crates/jdruby-semantic/src/types.rs: types, `is_compatible_with`, `optional` and `union`.
pub mod Equality
pub mod Laws
use text.Mathlib.Text.{◌==◌ as str_eq}
use jdruby.Base.{String, Bool, true, false, ◌&&◌, ◌||◌, List, Option, some, none, if◌then◌else◌}

mutual
  pub data RubyType : Type 0 where
    integer float string symbol bool nil : RubyType
    array : RubyType → RubyType
    hash : RubyType → RubyType → RubyType
    range regexp proc : RubyType
    instance_of class module_of : String → RubyType
    union_of : RubyTypes → RubyType
    optional_of : RubyType → RubyType
    void self_type any unknown : RubyType

  pub data RubyTypes : Type 0 where
    no_types : RubyTypes
    type_then : RubyType → RubyTypes → RubyTypes

pub data Visibility : Type 0 where
  public private protected : Visibility

pub record ParamSig : Type 0 where
  pub name : String
  pub ty : RubyType
  pub has_default : Bool
  pub is_rest : Bool
  pub is_keyword : Bool
  pub is_block : Bool

pub record MethodSignature : Type 0 where
  pub name : String
  pub params : List ParamSig
  pub return_type : RubyType
  pub visibility : Visibility
  pub is_class_method : Bool

-- The derived `==`.
unfoldable mutual
  pub same_type : RubyType → RubyType → Bool
  same_type integer integer = true
  same_type float float = true
  same_type string string = true
  same_type symbol symbol = true
  same_type bool bool = true
  same_type nil nil = true
  same_type (array a) (array b) = same_type a b
  same_type (hash a b) (hash c d) = same_type a c && same_type b d
  same_type range range = true
  same_type regexp regexp = true
  same_type proc proc = true
  same_type (instance_of a) (instance_of b) = str_eq a b
  same_type (class a) (class b) = str_eq a b
  same_type (module_of a) (module_of b) = str_eq a b
  same_type (union_of a) (union_of b) = same_types a b
  same_type (optional_of a) (optional_of b) = same_type a b
  same_type void void = true
  same_type self_type self_type = true
  same_type any any = true
  same_type unknown unknown = true
  same_type _ _ = false

  pub same_types : RubyTypes → RubyTypes → Bool
  same_types no_types no_types = true
  same_types (type_then a ts) (type_then b us) = same_type a b && same_types ts us
  same_types _ _ = false

-- `a.contains(&t)`
unfoldable pub contains : RubyTypes → RubyType → Bool
contains no_types t = false
contains (type_then a ts) t = same_type a t || contains ts t

-- `a.push(t)`
unfoldable pub push : RubyType → RubyTypes → RubyTypes
push t no_types = type_then t no_types
push t (type_then a ts) = type_then a (push t ts)

-- The loop `for t in b { if !a.contains(&t) { a.push(t); } }`
unfoldable pub push_new : RubyTypes → RubyTypes → RubyTypes
push_new no_types a = a
push_new (type_then t b) a = push_new b (if contains a t then a else push t a)

unfoldable pub optional : RubyType → RubyType
optional (optional_of t) = optional_of t
optional nil = nil
optional t = optional_of t

-- `RubyType::Union(ts)`, as the patterns of `union` take it apart.
abbrev pub as_union : RubyType → Option RubyTypes
as_union (union_of ts) = some ts
as_union _ = none

abbrev pub union_by : Option RubyTypes → Option RubyTypes → RubyType → RubyType → RubyType
union_by (some ts) (some us) a b = union_of (push_new us ts)
union_by (some ts) none a b = union_of (if contains ts b then ts else push b ts)
union_by none (some us) a b = union_of (if contains us a then us else type_then a us)
union_by none none a b = if same_type a b then a else union_of (type_then a (type_then b no_types))

unfoldable pub union : RubyType → RubyType → RubyType
union a b = union_by (as_union a) (as_union b) a b

abbrev is_dynamic : RubyType → Bool
is_dynamic any = true
is_dynamic unknown = true
is_dynamic _ = false

abbrev is_nil : RubyType → Bool
is_nil nil = true
is_nil _ = false

abbrev is_integer : RubyType → Bool
is_integer integer = true
is_integer _ = false

abbrev is_instance : String → RubyType → Bool
is_instance b (instance_of a) = str_eq a b
is_instance b _ = false

-- `matches` is the match of `is_compatible_with`, after the test of equality; the calls of
-- `is_compatible_with` in it are written out.
unfoldable mutual
  pub matches : RubyType → RubyType → Bool
  matches t any = true
  matches t unknown = true
  matches t (optional_of inner) =
      is_dynamic t || (is_nil t || (same_type t inner || matches t inner))
  matches t float = is_dynamic t || is_integer t
  matches t (union_of ts) = is_dynamic t || any_compatible t ts
  matches t (instance_of b) = is_dynamic t || is_instance b t
  matches t _ = is_dynamic t

  pub any_compatible : RubyType → RubyTypes → Bool
  any_compatible t no_types = false
  any_compatible t (type_then u ts) = (same_type t u || matches t u) || any_compatible t ts

unfoldable pub is_compatible_with : RubyType → RubyType → Bool
is_compatible_with t o = same_type t o || matches t o
