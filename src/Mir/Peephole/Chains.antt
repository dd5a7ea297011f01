-- ===== src/Mir/Peephole/Chains.antt =====
-- The walks up the chains of copies in `eliminate_copy_chains` of opt_peephole.rs.
use Prim.Native.Nat.add
use jdruby.Base.{
  ℕ, zero, suc, ◌+◌, ◌-◌, sym, ◌*◌, ◌≤◌, ◌≡◌, refl, some, none, List, [], ◌∷◌, Bool-cases,
  Option-cases, ◌⊎◌, inl, inr, ◌==◌, arith,
}
use jdruby.Base.Assoc.{lookup, insert, lookup-insert}
use jdruby.Base.Keys.{nat_eq}
use jdruby.Mir.Nodes.{RegId, MirInst, MirBlock}
use jdruby.Mir.Peephole.{
  CopyMap, chase, ◌>>=◌, collect_copies, collect_all_copies, shorten_blocks, copies, copies_in,
  eliminate_copy_chains,
}

-- More fuel changes no answer.
chase-suc : (k : ℕ) (m : CopyMap) (r t : RegId) → chase k m r ≡ some t → chase (suc k) m r ≡ some t
unfolding chase
chase-suc zero m r t h = cc
chase-suc (suc k) m r t h = elim (Option-cases (lookup r m)) [
  | inl e ↦ ground arith
  | inr (n, e) ↦ ground (arith, chase-suc k m n t)
]

chase-add :
    (j k : ℕ) (m : CopyMap) (r t : RegId) → chase k m r ≡ some t → chase (j + k) m r ≡ some t
chase-add zero k m r t h = rw (add.zero k) h
chase-add (suc j) k m r t h = rw (add.suc j k) (chase-suc (j + k) m r t (chase-add j k m r t h))

-- A register with no copy, or with a copy of itself, ends a walk.
abbrev pub IsEnd : CopyMap → RegId → Type 0
IsEnd m r = (lookup r m ≡ none) ⊎ (lookup r m ≡ some r)

chase-IsEnd : (k : ℕ) (m : CopyMap) (r t : RegId) → chase k m r ≡ some t → IsEnd m t
unfolding chase
chase-IsEnd zero m r t h = cc
chase-IsEnd (suc k) m r t h = elim (Option-cases (lookup r m)) [
  | inl e ↦ ground arith
  | inr (n, e) ↦ ground (arith, chase-IsEnd k m n t)
]

chase_of_IsEnd : (k : ℕ) (m : CopyMap) (r : RegId) → IsEnd m r → chase (suc k) m r ≡ some r
unfolding chase
chase_of_IsEnd k m r (inl e) = ground arith
chase_of_IsEnd k m r (inr e) = ground arith

insert-IsEnd : (m : CopyMap) (d root : RegId) → IsEnd m root → IsEnd (insert d root m) root
insert-IsEnd m d root (inl e) = ground (arith, lookup-insert d root root m)
insert-IsEnd m d root (inr e) = ground (arith, lookup-insert d root root m)

-- After a new copy of the end of a chain every walk takes at most two steps more.
chase-insert :
    (k : ℕ) (m : CopyMap) (d root r t : RegId)
    → IsEnd m root
    → chase k m r ≡ some t
    → (u : RegId) × (chase (suc (suc k)) (insert d root m) r ≡ some u)
unfolding chase
chase-insert zero m d root r t end h = absurd (cc)
chase-insert (suc k) m d root r t end h = elim (Bool-cases (d == r)) [
  | inl here ↦ elim (Bool-cases (root == r)) [
    | inl loop ↦ (r, ground (arith, lookup-insert d r root m))
    | inr on ↦ (
      root,
      ground (
        arith,
        lookup-insert d r root m,
        chase_of_IsEnd (suc k) (insert d root m) root (insert-IsEnd m d root end),
      ),
    )
  ]
  | inr there ↦ elim (Option-cases (lookup r m)) [
    | inl e ↦ (r, ground (arith, lookup-insert d r root m))
    | inr (n, e) ↦ elim (Bool-cases (n == r)) [
      | inl loop ↦ (r, ground (arith, lookup-insert d r root m))
      | inr on ↦
          let (u, found) = chase-insert k m d root n t end (ground arith) in
          (u, ground (arith, lookup-insert d r root m))
    ]
  ]
]

-- Every walk ends within `k` steps.
abbrev pub EndsIn : ℕ → CopyMap → Type 0
EndsIn k m = (r : RegId) → (t : RegId) × (chase k m r ≡ some t)

plus_zero : (k : ℕ) → k + 2 * 0 ≡ k
plus_zero k = omega arith

minus_plus : (a b : ℕ) → b ≤ a → a - b + b ≡ a
minus_plus a b h = omega arith

two_more : (k n : ℕ) → k + 2 * suc n ≡ suc (suc k) + 2 * n
two_more k n = omega arith

-- With fuel for two steps a copy the map is built, and walks in it end.
collect_copies-total :
    (is : List MirInst) (fuel k : ℕ) (m : CopyMap)
    → EndsIn k m
    → k + 2 * copies is ≤ fuel
    → (m' : CopyMap) × (collect_copies fuel m is ≡ some m') × EndsIn (k + 2 * copies is) m'
unfolding collect_copies copies
collect_copies-total [] fuel k m e h = (m, refl, rw (sym (plus_zero k)) at e)
collect_copies-total (MirInst.copy d r ∷ is) fuel k m e h =
    let (root, found) = e r in
    let enough : chase fuel m r ≡ some root =
      rw (sym (minus_plus fuel k (omega arith))) (chase-add (fuel - k) k m r root found) in
    let next : EndsIn (suc (suc k)) (insert d root m) =
      λ x. let (t, f) = e x in chase-insert k m d root x t (chase-IsEnd k m r root found) f in
    let (m', built, ends) =
      collect_copies-total is fuel (suc (suc k)) (insert d root m) next (omega arith) in
    (m', rw (enough, ◌>>=◌) built, rw (two_more k (copies is)) ends)
collect_copies-total (i ∷ is) fuel k m e h = collect_copies-total is fuel k m e h

regroup : (k a b : ℕ) → k + 2 * a + 2 * b ≡ k + 2 * (a + b)
regroup k a b = omega arith

pub collect_all_copies-total :
    (bs : List MirBlock) (fuel k : ℕ) (m : CopyMap)
    → EndsIn k m
    → k + 2 * copies_in bs ≤ fuel
    → (m' : CopyMap) × (collect_all_copies fuel m bs ≡ some m') × EndsIn (k + 2 * copies_in bs) m'
unfolding collect_all_copies copies_in
collect_all_copies-total [] fuel k m e h = (m, refl, rw (sym (plus_zero k)) at e)
collect_all_copies-total (b ∷ bs) fuel k m e h =
    let (m', built, e') = collect_copies-total b.instructions fuel k m e (omega arith) in
    let (m'', rest, e'') =
      collect_all_copies-total bs fuel (k + 2 * copies b.instructions) m' e' (omega arith) in
    (m'', rw (built, ◌>>=◌) rest, rw (regroup k (copies b.instructions) (copies_in bs)) at e'')

pub empty_EndsIn : EndsIn 1 []
unfolding chase lookup
empty_EndsIn r = (r, refl)

-- The pass ends for every function, also where copies overwrite registers or form a cycle: the map
-- of copies is built, each walk up a chain in it ends within two steps a copy and one, and the
-- result is the blocks with the copies shortened by that map.
pub eliminate_copy_chains-total :
    (bs : List MirBlock)
    → (m : CopyMap) × (eliminate_copy_chains bs ≡ some (shorten_blocks m bs))
      × ((r : RegId) → (t : RegId) × (chase (suc (2 * copies_in bs)) m r ≡ some t) × IsEnd m t)
unfolding eliminate_copy_chains
eliminate_copy_chains-total bs =
    let (m, built, ends) =
      collect_all_copies-total bs (suc (2 * copies_in bs)) 1 [] empty_EndsIn (omega arith) in
    let e : 1 + 2 * copies_in bs ≡ suc (2 * copies_in bs) = omega arith in
    (
      m,
      rw (built, ◌>>=◌) refl,
      λ r.
          let (t, found) = ends r in
          let found' : chase (suc (2 * copies_in bs)) m r ≡ some t = rw e at found in
          (t, found', chase-IsEnd (suc (2 * copies_in bs)) m r t found'),
    )
