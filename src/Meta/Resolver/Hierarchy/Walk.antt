-- ===== src/Meta/Resolver/Hierarchy/Walk.antt =====
-- crates/jdruby-meta/src/resolver.rs: the walk of `lookup_method` from class to class.
use jdruby.Base.{
  ℕ, zero, suc, ◌+◌, ◌<◌, ◌≤◌, ◌==◌, ◌≡◌, ◌≢◌, refl, sym, ap, true, false, ◌⊎◌, inl, inr, Option,
  some, none, List, [], ◌∷◌, length, if◌then◌else◌, Option-cases, Bool-cases, arith,
}
use mathlib.Core.Path.{subst}
use jdruby.Base.Assoc.{lookup}
use jdruby.Base.Keys.{nat_eq}
use jdruby.Meta.Cache.{method_missing}
use jdruby.Meta.Resolver.{
  RClass, ResolutionResult, find_in_class, found, not_found, is_member, class_at, lookup_from,
}

abbrev pub Classes : Type 0
Classes = List (ℕ × Option RClass)

-- The first class that has the method is so many superclasses above this one, and the result is its
-- entry.
abbrev pub Resolves : Classes → ℕ → ℕ → ℕ → ResolutionResult → Type 0
Resolves classes name zero c res =
    (k : RClass) × (class_at (lookup c classes) ≡ some k)
    × (entry : ℕ) × (find_in_class k name ≡ some entry)
    × (res ≡ found c entry)
Resolves classes name (suc n) c res =
    (k : RClass) × (class_at (lookup c classes) ≡ some k)
    × (find_in_class k name ≡ none)
    × (k.super_class ≢ 0)
    × Resolves classes name n k.super_class res

-- The registered classes that were not visited.
abbrev pub left : Classes → List ℕ → ℕ
left [] visited = 0
left ((c, k) ∷ classes) visited = (if is_member c visited then 0 else 1) + left classes visited

left-le :
    (classes : Classes) (c : ℕ) (visited : List ℕ)
    → left classes (c ∷ visited) ≤ left classes visited
left-le [] c visited = omega arith
left-le ((d, k) ∷ classes) c visited = ground (arith, left-le classes c visited)

left-less :
    (classes : Classes) (c : ℕ) (visited : List ℕ) (k : RClass)
    → class_at (lookup c classes) ≡ some k
    → is_member c visited ≡ false
    → left classes (c ∷ visited) < left classes visited
unfolding lookup
left-less [] c visited k e h = absurd cc
left-less ((d, j) ∷ classes) c visited k e h =
    ground (arith, left-le classes c visited, left-less classes c visited k)

pub left-length : (classes : Classes) → left classes [] ≤ length classes
left-length [] = omega arith
left-length (c ∷ classes) = omega (arith, left-length classes)

module _ (classes : Classes) (name : ℕ) where
  same_depth :
      (n m c : ℕ) (r s : ResolutionResult)
      → Resolves classes name n c r
      → Resolves classes name m c s
      → n ≡ m
  same_depth zero zero c r s p q = refl
  same_depth zero (suc m) c r s (k, e, x, f, g) (j, d, h, l, t) =
      let same : k ≡ j = cc in absurd (cc (same, f, h))
  same_depth (suc n) zero c r s (k, e, f, l, t) (j, d, x, h, g) =
      let same : k ≡ j = cc in absurd (cc (same, f, h))
  same_depth (suc n) (suc m) c r s (k, e, f, l, t) (j, d, h, l', t') =
      let same : k ≡ j = cc in
      ap suc (
        same_depth n m k.super_class r s t
          (subst (λ (x : RClass). Resolves classes name m x.super_class s) (sym same) t'))

  -- The walk has passed the visited classes on its way to this one.
  pub Passed : List ℕ → ℕ → Type 0
  Passed visited c =
      (v : ℕ)
      → is_member v visited ≡ true
      → (n : ℕ) (res : ResolutionResult) → Resolves classes name n c res
      → (m : ℕ) × (n < m) × Resolves classes name m v res

  pub Passed-nil : (c : ℕ) → Passed [] c
  unfolding Passed
  Passed-nil c v h = absurd cc

  -- What the walk from a class promises.
  abbrev pub Ends : ℕ → ResolutionResult → Type 0
  Ends c res =
      ((n : ℕ) × Resolves classes name n c res)
      ⊎ ((res.call_type ≡ method_missing)
          × (res.method_entry ≡ 0)
          × ((n : ℕ) (other : ResolutionResult) → Resolves classes name n c other → ⊥))

  unresolved :
      (c : ℕ)
      → ((n : ℕ) (other : ResolutionResult) → Resolves classes name n c other → ⊥)
      → Ends c (not_found c)
  unresolved c never = inr (refl, refl, never)

  no_class :
      (c : ℕ)
      → class_at (lookup c classes) ≡ none
      → (n : ℕ) (other : ResolutionResult) → Resolves classes name n c other
      → ⊥
  no_class c e zero other p = cc (e, p.1)
  no_class c e (suc n) other p = cc (e, p.1)

  no_superclass :
      (c : ℕ) (k : RClass)
      → class_at (lookup c classes) ≡ some k
      → find_in_class k name ≡ none
      → k.super_class ≡ 0
      → (n : ℕ) (other : ResolutionResult) → Resolves classes name n c other
      → ⊥
  no_superclass c k e f z zero other (j, d, x, h, g) = let same : k ≡ j = cc in cc (same, f, h)
  no_superclass c k e f z (suc n) other (j, d, h, l, t) = let same : k ≡ j = cc in l (cc (same, z))

  climbs :
      (c : ℕ) (k : RClass)
      → class_at (lookup c classes) ≡ some k
      → find_in_class k name ≡ none
      → (n : ℕ) (other : ResolutionResult) → Resolves classes name n c other
      → (m : ℕ) × (n ≡ suc m) × Resolves classes name m k.super_class other
  climbs c k e f zero other (j, d, x, h, g) = let same : k ≡ j = cc in absurd (cc (same, f, h))
  climbs c k e f (suc n) other (j, d, h, l, t) =
      let same : k ≡ j = cc in
      (n, refl, subst (λ (x : RClass). Resolves classes name n x.super_class other) (sym same) t)

  Passed-cons :
      (visited : List ℕ) (c : ℕ) (k : RClass)
      → class_at (lookup c classes) ≡ some k
      → find_in_class k name ≡ none
      → k.super_class ≢ 0
      → Passed visited c
      → Passed (c ∷ visited) k.super_class
  unfolding Passed
  Passed-cons visited c k e f l h v i n res p = elim (Bool-cases (c == v)) [
    | inl same ↦
        let q : c ≡ v = ground arith in
        (suc n, omega arith, subst (λ x. Resolves classes name (suc n) x res) q (k, e, f, l, p))
    | inr other ↦
        let further = h v (ground arith) (suc n) res (k, e, f, l, p) in
        (further.0, omega (arith, further.1), further.2)
  ]

  -- The answer of a walk from the class above.
  above-Ends :
      (c : ℕ) (k : RClass) (res : ResolutionResult)
      → class_at (lookup c classes) ≡ some k
      → find_in_class k name ≡ none
      → k.super_class ≢ 0
      → Ends k.super_class res
      → Ends c res
  above-Ends c k res e f l (inl (n, p)) = inl (suc n, (k, e, f, l, p))
  above-Ends c k res e f l (inr (m, z, never)) =
      inr (m, z, λ n other p. let up = climbs c k e f n other p in never up.0 other up.2)

  pub lookup_from-Ends :
      (n : ℕ) (visited : List ℕ) (c : ℕ)
      → left classes visited < n
      → Passed visited c
      → (res : ResolutionResult) × (lookup_from n classes visited c name ≡ some res) × Ends c res
  unfolding lookup_from Passed
  lookup_from-Ends zero visited c l h = absurd (omega (arith, l))
  lookup_from-Ends (suc n) visited c l h = elim (Bool-cases (is_member c visited)) [
    | inl seen ↦ (
      not_found c,
      rw seen refl,
      unresolved c (λ m other p.
          let again = h c seen m other p in
          absurd (omega (arith, again.1, same_depth m again.0 c other other p again.2))),
    )
    | inr fresh ↦ elim (Option-cases (class_at (lookup c classes))) [
      | inl e ↦ (not_found c, rw (fresh, e) refl, unresolved c (no_class c e))
      | inr (k, e) ↦ elim (Option-cases (find_in_class k name)) [
        | inr (x, f) ↦ (found c x, rw (fresh, e, f) refl, inl (0, (k, e, x, f, refl)))
        | inl f ↦ elim (Bool-cases (k.super_class == 0)) [
          | inl z ↦ (
            not_found c,
            rw (fresh, e, f, z) refl,
            unresolved c (no_superclass c k e f (ground arith)),
          )
          | inr z ↦
              let nonzero : k.super_class ≢ 0 = λ q. ground arith in
              let more =
                lookup_from-Ends n (c ∷ visited) k.super_class
                  (omega (arith, l, left-less classes c visited k e fresh))
                  (Passed-cons visited c k e f nonzero h) in
              (more.0, rw (fresh, e, f, z) more.1, above-Ends c k more.0 e f nonzero more.2)
        ]
      ]
    ]
  ]
