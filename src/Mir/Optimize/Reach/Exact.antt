-- ===== src/Mir/Optimize/Reach/Exact.antt =====
-- The labels that `remove_unreachable_blocks` in optimize.rs collects, against the paths through the
-- blocks of the function.
use text.Mathlib.TextEquality.{eq_iff}
use text.Mathlib.Text.{◌==◌ as str_eq}
use mathlib.Core.Path.{subst}
use jdruby.Base.{
  ℕ, zero, suc, ◌≡◌, ◌↔◌, refl, String, true, false, some, List, [], ◌∷◌, inl, inr, Bool-cases,
  arith,
}
use jdruby.Base.Names.{contains, contains-cons_self}
use jdruby.Mir.Nodes.{RegId, MirTerminator, return, branch, cond_branch, unreachable, MirBlock}
use jdruby.Mir.Optimize.Reach.{
  Progress, successors, insert_label, insert_labels, visit_block, round, reach_loop, first_label,
  reachable_labels,
}
use jdruby.Mir.Optimize.Reach.Closure.{Within, IsClosed, reachable_labels-IsClosed}

-- A terminator leads to the target of a branch and to both targets of a conditional one.
pub data Leads : MirTerminator → String → Type 0 where
  jump : {l : String} → Leads (branch l) l
  when_true : {c : RegId} {t e : String} → Leads (cond_branch c t e) t
  when_false : {c : RegId} {t e : String} → Leads (cond_branch c t e) e

pub data Among (b : MirBlock) : List MirBlock → Type 0 where
  here : {bs : List MirBlock} → Among b (b ∷ bs)
  there : {c : MirBlock} {bs : List MirBlock} → Among b bs → Among b (c ∷ bs)

-- A path from the first block of a function to a label.
pub data Reaches (bs : List MirBlock) : String → Type 0 where
  entry : (b : MirBlock) (cs : List MirBlock) → bs ≡ b ∷ cs → Reaches bs b.label
  onward :
      {l : String} (b : MirBlock)
      → Among b bs
      → Reaches bs b.label
      → Leads b.terminator l
      → Reaches bs l

Leads-successors : {t : MirTerminator} {l : String} → Leads t l → contains (successors t) l ≡ true
unfolding successors contains
Leads-successors (jump {l = l}) = ground (arith, eq_iff l l)
Leads-successors (when_true {t = t}) = ground (arith, eq_iff t t)
Leads-successors (when_false {e = e}) = ground (arith, eq_iff e e)

successors-Leads : (t : MirTerminator) (l : String) → contains (successors t) l ≡ true → Leads t l
unfolding successors contains
successors-Leads (return r) l h = absurd cc
successors-Leads unreachable l h = absurd cc
successors-Leads (branch k) l h =
    subst (λ (x : String). Leads (branch k) x) ((eq_iff k l).0 (ground arith)) jump
successors-Leads (cond_branch c t e) l h = elim (Bool-cases (str_eq t l)) [
  | inl first ↦ subst (λ (x : String). Leads (cond_branch c t e) x) ((eq_iff t l).0 first) when_true
  | inr second ↦
      subst (λ (x : String). Leads (cond_branch c t e) x) ((eq_iff e l).0 (ground arith)) when_false
]

closed_at :
    (r : List String) (b : MirBlock) (bs : List MirBlock)
    → Among b bs
    → IsClosed r bs
    → contains r b.label ≡ true
    → Within (successors b.terminator) r
closed_at r b [] a closed h = elim a [ ]
closed_at r b (c ∷ bs) here closed h = closed.0 h
closed_at r b (c ∷ bs) (there a) closed h = closed_at r b bs a closed.1 h

module _ (bs : List MirBlock) where
  Reaches-Within :
      (r : List String) (l : String)
      → IsClosed r bs
      → Within (first_label bs) r
      → Reaches bs l
      → contains r l ≡ true
  Reaches-Within r l closed w (entry b cs e) = w b.label (rw e (contains-cons_self b.label []))
  Reaches-Within r l closed w (onward b a p leads) =
      closed_at r b bs a closed (Reaches-Within r b.label closed w p) l (Leads-successors leads)

  -- Every label of a set is reached.
  AllReached : List String → Type 0
  AllReached r = (l : String) → contains r l ≡ true → Reaches bs l

  insert_label-AllReached :
      (l : String) (p : Progress) → Reaches bs l → AllReached p.0 → AllReached (insert_label l p).0
  unfolding insert_label contains AllReached
  insert_label-AllReached l (r, c) h s = elim (Bool-cases (contains r l)) [
    | inl old ↦ rw old s
    | inr new ↦ rw new (λ k hk. elim (Bool-cases (contains r k)) [
      | inl among ↦ s k among
      | inr other ↦ subst (λ (x : String). Reaches bs x) ((eq_iff l k).0 (ground arith)) h
    ])
  ]

  insert_labels-AllReached :
      (ls : List String) (p : Progress)
      → AllReached ls
      → AllReached p.0
      → AllReached (insert_labels ls p).0
  unfolding insert_labels AllReached contains
  insert_labels-AllReached [] p h s = s
  insert_labels-AllReached (l ∷ ls) p h s =
      insert_labels-AllReached ls (insert_label l p) (λ k hk. h k (ground arith))
        (insert_label-AllReached l p (h l (contains-cons_self l ls)) s)

  visit_block-AllReached :
      (b : MirBlock) (p : Progress) → Among b bs → AllReached p.0 → AllReached (visit_block b p).0
  unfolding visit_block AllReached
  visit_block-AllReached b (r, c) a s = elim (Bool-cases (contains r b.label)) [
    | inr absent ↦ rw absent s
    | inl known ↦ rw known (
        insert_labels-AllReached (successors b.terminator) (r, c)
          (λ k hk. onward b a (s b.label known) (successors-Leads b.terminator k hk)) s)
  ]

  round-AllReached :
      (cs : List MirBlock) (p : Progress)
      → ((b : MirBlock) → Among b cs → Among b bs)
      → AllReached p.0
      → AllReached (round cs p).0
  unfolding round
  round-AllReached [] p w s = s
  round-AllReached (c ∷ cs) p w s =
      round-AllReached cs (visit_block c p) (λ b a. w b (there a))
        (visit_block-AllReached c p (w c here) s)

  reach_loop-AllReached :
      (fuel : ℕ) (r r' : List String)
      → AllReached r
      → reach_loop fuel bs r ≡ some r'
      → AllReached r'
  unfolding reach_loop
  reach_loop-AllReached zero r r' s e = absurd cc
  reach_loop-AllReached (suc fuel) r r' s e =
      let after = round-AllReached bs (r, false) (λ b a. a) s in
      elim (Bool-cases (round bs (r, false)).1) [
        | inl more ↦
            reach_loop-AllReached fuel (round bs (r, false)).0 r' after (rw (more, reach_loop) at e)
        | inr finished ↦
            let last : some (round bs (r, false)).0 ≡ some r' = rw (finished, reach_loop) at e in
            let same : (round bs (r, false)).0 ≡ r' = cc in subst AllReached same after
      ]

first_label-AllReached : (bs : List MirBlock) → AllReached bs (first_label bs)
unfolding contains AllReached
first_label-AllReached [] l h = absurd cc
first_label-AllReached (b ∷ bs) l h =
    subst (λ (x : String). Reaches (b ∷ bs) x) ((eq_iff b.label l).0 (ground arith))
      (entry b bs refl)

-- For every function the rounds of `remove_unreachable_blocks` end within their fuel, with exactly the
-- labels to which there is a path from the first block: by a branch to its target, and by a
-- conditional one to each of its two.
pub reachable_labels-Reaches :
    (bs : List MirBlock)
    → (r : List String) × (reachable_labels bs ≡ some r)
      × ((l : String) → (contains r l ≡ true) ↔ Reaches bs l)
unfolding reachable_labels AllReached
reachable_labels-Reaches bs =
    let (r, e, closed, w) = reachable_labels-IsClosed bs in
    (
      r,
      e,
      λ l. (
        reach_loop-AllReached bs _ (first_label bs) r (first_label-AllReached bs) e l,
        Reaches-Within bs r l closed w,
      ),
    )
