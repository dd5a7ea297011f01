-- ===== src/Base/Names.antt =====
-- Sets of texts as lists, and the tests on a text's first character that the compiler and the
-- interpreter make.
use Prim.Native.Char.{code}
use Prim.Native.String.{String}
use text.Mathlib.Text.{◌==◌ as str_eq}
use text.Mathlib.TextEquality.{eq_iff}
use mathlib.Core.Path.{◌≡◌, refl}
use mathlib.Core.Bool.{Bool, true, false, ◌&&◌, ◌||◌}
use mathlib.Core.List.{List, [], ◌∷◌, ◌++◌}
use native.Mathlib.Omega.{arith}
use jdruby.Base.Tests.{leb, ◌==◌}

-- `HashSet::contains`
unfoldable pub contains : List String → String → Bool
contains [] t = false
contains (x ∷ xs) t = str_eq x t || contains xs t

-- `name.starts_with(|c: char| c.is_ascii_uppercase())`
unfoldable pub starts_uppercase : String → Bool
starts_uppercase String.[] = false
starts_uppercase (String.◌∷◌ c s) = leb b'A' (code c) && leb (code c) b'Z'

-- `name.starts_with('@')` and `name.starts_with('$')`
unfoldable pub starts_at : String → Bool
starts_at String.[] = false
starts_at (String.◌∷◌ c s) = code c == b'@'

unfoldable pub starts_dollar : String → Bool
starts_dollar String.[] = false
starts_dollar (String.◌∷◌ c s) = code c == b'$'

pub contains-cons_self : (t : String) (xs : List String) → contains (t ∷ xs) t ≡ true
unfolding contains
contains-cons_self t xs = ground (arith, eq_iff t t)

pub contains-append :
    (xs ys : List String) (t : String) → contains (xs ++ ys) t ≡ (contains xs t || contains ys t)
unfolding contains
contains-append [] ys t = refl
contains-append (x ∷ xs) ys t = ground (arith, contains-append xs ys t)
