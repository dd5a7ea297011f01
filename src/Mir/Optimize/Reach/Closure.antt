-- ===== src/Mir/Optimize/Reach/Closure.antt =====
-- The rounds of the loop of `remove_unreachable_blocks` in optimize.rs, and the labels it collects.
use text.Mathlib.TextEquality.{eq_iff}
use mathlib.Core.Path.{subst}
use jdruby.Base.{
  ap, ℕ, zero, suc, ◌+◌, ◌≤◌, ◌<◌, ◌≡◌, refl, ◌∙◌, String, Bool, true, false, some, List, [], ◌∷◌,
  ◌++◌, inl, inr, length, Bool-cases, arith, if◌then◌else◌,
}
use jdruby.Base.Names.{contains, contains-append, contains-cons_self}
use jdruby.Mir.Nodes.{MirBlock}
use jdruby.Mir.Optimize.Reach.{
  Progress, successors, insert_label, insert_labels, visit_block, round, reach_loop, all_targets,
  first_label, reachable_labels,
}

abbrev pub Within : List String → List String → Type 0
Within xs ys = (l : String) → contains xs l ≡ true → contains ys l ≡ true

-- The targets that are not in the set yet, with repetitions.
missing : List String → List String → ℕ
missing r [] = 0
missing r (t ∷ ts) = (if contains r t then 0 else 1) + missing r ts

missing-cons-le : (l : String) (r ts : List String) → missing (l ∷ r) ts ≤ missing r ts
unfolding missing contains
missing-cons-le l r [] = omega arith
missing-cons-le l r (t ∷ ts) = ground (arith, missing-cons-le l r ts)

missing-cons-lt :
    (l : String) (r ts : List String)
    → contains r l ≡ false
    → contains ts l ≡ true
    → missing (l ∷ r) ts < missing r ts
unfolding missing contains
missing-cons-lt l r [] a h = cc
missing-cons-lt l r (t ∷ ts) a h =
    ground (arith, eq_iff t l, eq_iff l t, missing-cons-lt l r ts, missing-cons-le l r ts)

abbrev bit : Bool → ℕ
bit true = 1
bit false = 0

bit_bound : (b : Bool) → bit b ≤ 1
bit_bound true = omega arith
bit_bound false = omega arith

missing-le-length : (r ts : List String) → missing r ts ≤ length ts
unfolding missing
missing-le-length r [] = omega arith
missing-le-length r (t ∷ ts) = ground (arith, missing-le-length r ts)

-- What a part of a round does: the set only grows, the first change uses up a target, and without
-- a change the set is the same.
record Grows (ts : List String) (p q : Progress) : Type 0 where
  larger : Within p.0 q.0
  spends : missing q.0 ts + bit q.1 ≤ missing p.0 ts + bit p.1
  same : q.1 ≡ false → (p.1 ≡ false) × (q.0 ≡ p.0)

Grows-refl : (ts : List String) (p : Progress) → Grows ts p p
Grows-refl ts p = record { larger = λ l h. h; spends = omega arith; same = λ h. (h, refl) }

Grows-trans : {ts : List String} {p q r : Progress} → Grows ts p q → Grows ts q r → Grows ts p r
Grows-trans f g = record {
  larger = λ l h. g.larger l (f.larger l h);
  spends = omega (arith, f.spends, g.spends);
  same = λ h. let (a, b) = g.same h in let (c, d) = f.same a in (c, b ∙ d);
}

-- What a part of a round leaves when it changed nothing.
abbrev Settled : List String → Progress → Progress → Type 0
Settled ls p q = q.1 ≡ false → Within ls p.0

insert_label-Grows :
    (ts : List String) (l : String) (p : Progress)
    → contains ts l ≡ true
    → Grows ts p (insert_label l p)
unfolding insert_label contains
insert_label-Grows ts l (r, c) h = elim (Bool-cases (contains r l)) [
  | inl old ↦ rw old (Grows-refl ts (r, c))
  | inr new ↦ rw new (record {
    larger = λ k hk. ground arith;
    spends = omega (arith, missing-cons-lt l r ts new h, bit_bound c);
    same = λ e. cc;
  })
]

insert_label-settled :
    (l : String) (p : Progress) → (insert_label l p).1 ≡ false → contains p.0 l ≡ true
unfolding insert_label
insert_label-settled l (r, c) e = ground arith

Within-cons :
    (l : String) (ls r : List String) → contains r l ≡ true → Within ls r → Within (l ∷ ls) r
unfolding contains
Within-cons l ls r h w k hk = ground (arith, eq_iff l k, w k)

Within-tail : (l : String) (ls r : List String) → Within (l ∷ ls) r → Within ls r
unfolding contains
Within-tail l ls r w k hk = w k (ground arith)

insert_labels-Grows :
    (ts ls : List String) (p : Progress)
    → Within ls ts
    → Grows ts p (insert_labels ls p) × Settled ls p (insert_labels ls p)
unfolding insert_labels contains
insert_labels-Grows ts [] p h = (Grows-refl ts p, λ e k hk. cc)
insert_labels-Grows ts (l ∷ ls) p h =
    let q = insert_label l p in
    let first = insert_label-Grows ts l p (h l (contains-cons_self l ls)) in
    let (later, settled) = insert_labels-Grows ts ls q (Within-tail l ls ts h) in
    (
      Grows-trans first later,
      λ e.
          let (unchanged, _) = later.same e in
          let (_, whole) = first.same unchanged in
          Within-cons l ls p.0 (insert_label-settled l p unchanged)
            (subst (λ (r : List String). Within ls r) whole (settled e)),
    )

-- One block: if its label is in the set and nothing changed, its targets were in the set.
visit_block-Grows :
    (ts : List String) (b : MirBlock) (p : Progress)
    → Within (successors b.terminator) ts
    → Grows ts p (visit_block b p)
      × ((visit_block b p).1 ≡ false
          → contains p.0 b.label ≡ true
          → Within (successors b.terminator) p.0)
unfolding visit_block
visit_block-Grows ts b (r, c) h = elim (Bool-cases (contains r b.label)) [
  | inl here ↦
      let (grows, settled) = insert_labels-Grows ts (successors b.terminator) (r, c) h in
      rw here (grows, λ e _. settled e)
  | inr absent ↦ rw absent (Grows-refl ts (r, c), λ e k. cc)
]

-- The branches of every block whose label is in the set lead into the set.
abbrev pub IsClosed : List String → List MirBlock → Type 0
IsClosed r [] = Unit
IsClosed r (b ∷ bs) =
    (contains r b.label ≡ true → Within (successors b.terminator) r) × IsClosed r bs

Within-append : (xs ys zs : List String) → Within (xs ++ ys) zs → Within xs zs × Within ys zs
Within-append xs ys zs w = (
  λ k h. w k (contains-append xs ys k ∙ ground arith),
  λ k h. w k (contains-append xs ys k ∙ ground arith),
)

round-Grows :
    (ts : List String) (bs : List MirBlock) (p : Progress)
    → Within (all_targets bs) ts
    → Grows ts p (round bs p) × ((round bs p).1 ≡ false → IsClosed p.0 bs)
unfolding round all_targets
round-Grows ts [] p h = (Grows-refl ts p, λ e. tt)
round-Grows ts (b ∷ bs) p h =
    let (own, others) = Within-append (successors b.terminator) (all_targets bs) ts h in
    let q = visit_block b p in
    let (first, settled) = visit_block-Grows ts b p own in
    let (later, closed) = round-Grows ts bs q others in
    (
      Grows-trans first later,
      λ e.
          let (unchanged, _) = later.same e in
          let (_, whole) = first.same unchanged in
          (settled unchanged, subst (λ (r : List String). IsClosed r bs) whole (closed e)),
    )

-- With more fuel than targets outside the set the loop ends, with a closed set that holds the set
-- it began with.
reach_loop-IsClosed :
    (bs : List MirBlock) (fuel : ℕ) (r : List String)
    → missing r (all_targets bs) < fuel
    → (r' : List String) × (reach_loop fuel bs r ≡ some r') × IsClosed r' bs × Within r r'
unfolding reach_loop
reach_loop-IsClosed bs zero r h = absurd (omega arith)
reach_loop-IsClosed bs (suc fuel) r h =
    let (grows, closed) = round-Grows (all_targets bs) bs (r, false) (λ l k. k) in
    elim (Bool-cases (round bs (r, false)).1) [
      | inl more ↦
          let (r', found, c, w) =
            reach_loop-IsClosed bs fuel (round bs (r, false)).0 (ground (arith, grows.spends)) in
          (r', rw (more, reach_loop) found, c, λ l k. w l (grows.larger l k))
      | inr finished ↦
          let (_, whole) = grows.same finished in
          (r, rw (finished, reach_loop) (ap some whole), closed finished, λ l k. k)
    ]

-- The rounds of `remove_unreachable_blocks` end within their fuel, with a set that has the first
-- block's label and, with a block's label, the labels that the block branches to.
pub reachable_labels-IsClosed :
    (bs : List MirBlock)
    → (r : List String) × (reachable_labels bs ≡ some r) × IsClosed r bs × Within (first_label bs) r
unfolding reachable_labels
reachable_labels-IsClosed bs =
    reach_loop-IsClosed bs (suc (length (all_targets bs))) (first_label bs)
      (omega (arith, missing-le-length (first_label bs) (all_targets bs)))
