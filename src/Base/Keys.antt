-- ===== src/Base/Keys.antt =====
-- The keys of the program's hash maps: numbers, texts and triples of numbers.
use Prim.Native.String.{String}
use text.Mathlib.Text.{◌==◌ as str_eq}
use text.Mathlib.TextEquality.{eq_iff}
use Prim.Native.Nat.{ℕ, ◌<◌, ◌≤◌}
use mathlib.Core.Path.{◌≡◌, refl}
use mathlib.Core.List.{List, [], ◌∷◌}
use mathlib.Core.Option.{none}
use mathlib.Core.Logic.{◌↔◌}
use mathlib.Core.Bool.{Bool, true, ◌&&◌}
use native.Mathlib.Omega.{arith}
use jdruby.Base.Tests.{◌==◌, ==_iff, if-both}
use jdruby.Base.Lists.{All}
use jdruby.Base.Assoc.{Eq, lookup, insert}

abbrev pub nat_beq : ℕ → ℕ → Bool
nat_beq a b = a == b

instance abbrev pub nat_eq : Eq ℕ
nat_eq = record { beq = nat_beq; beq_iff = ==_iff }

instance abbrev pub string_eq : Eq String
string_eq = record { beq = str_eq; beq_iff = eq_iff }

abbrev pub Triple : Type 0
Triple = ℕ × ℕ × ℕ

abbrev pub triple_beq : Triple → Triple → Bool
triple_beq a b = a.0 == b.0 && a.1 == b.1 && a.2 == b.2

pub triple_beq_iff : (a b : Triple) → (triple_beq a b ≡ true) ↔ (a ≡ b)
triple_beq_iff a b = ground arith

instance abbrev pub triple_eq : Eq Triple
triple_eq = record { beq = triple_beq; beq_iff = triple_beq_iff }

-- Maps with numbers for keys, all below a bound.
module _ {ℓ} {V : Type ℓ} where
  pub lookup-fresh : (n : ℕ) (m : List (ℕ × V)) → All (λ e. e.0 < n) m → lookup n m ≡ none
  unfolding lookup
  lookup-fresh n [] h = refl
  lookup-fresh n ((i, v) ∷ m) h = ground (arith, h.0, lookup-fresh n m h.1)

  pub All-next : (n k : ℕ) (m : List (ℕ × V)) → n ≤ k → All (λ e. e.0 < n) m → All (λ e. e.0 < k) m
  All-next n k [] l h = tt
  All-next n k (e ∷ m) l h = (omega (arith, l, h.0), All-next n k m l h.1)

  pub All-insert :
      (n k : ℕ) (v : V) (m : List (ℕ × V))
      → n < k
      → All (λ e. e.0 < k) m
      → All (λ e. e.0 < k) (insert n v m)
  unfolding insert
  All-insert n k v [] l h = (l, tt)
  All-insert n k v ((i, w) ∷ m) l h =
      if-both (All (λ (e : ℕ × V). e.0 < k)) (i == n) (l, h.1) (h.0, All-insert n k v m l h.1)
