-- ===== src/Mir/Fusion/Copies.antt =====
-- `fuse_copy_chains` and `fuse_function` of opt_fusion.rs. The walk up a chain of copies is that of the
-- peephole optimiser, with its fuel; `none`: the fuel ends.
use jdruby.Base.{
  Outcome-cases, ◌⊎◌, ℕ, suc, ◌*◌, ◌≡◌, refl, Option, some, none, List, [], ◌∷◌, map, Option-cases,
  inl, inr, Outcome, done, panic, arith,
}
use jdruby.Base.Assoc.{lookup, insert}
use jdruby.Base.Keys.{nat_eq}
use jdruby.Mir.Nodes.{RegId, MirInst, copy, bin_op, method_call, MirBlock}
use jdruby.Mir.Peephole.{CopyMap, chase, ◌>>=◌, collect_copies, collect_all_copies, copies_in}
use jdruby.Mir.Peephole.Chains.{collect_all_copies-total, empty_EndsIn}
use jdruby.Mir.Fusion.{fuse_integer_arithmetic, fuse_string_concatenation}

-- The same walk as in the peephole optimiser.
abbrev pub find_copy_root : ℕ → RegId → CopyMap → Option RegId
find_copy_root fuel reg chain = chase fuel chain reg

abbrev pub root_or : RegId → Option RegId → RegId
root_or r none = r
root_or r (some root) = root

-- `if let Some(&root) = copy_chain.get(left) { *left = root; }`
abbrev pub root_of : CopyMap → RegId → RegId
root_of m r = root_or r (lookup r m)

abbrev pub copied_root : CopyMap → RegId → Option RegId → Option (MirInst × CopyMap)
copied_root m d none = none
copied_root m d (some root) = some (copy d root, insert d root m)

unfoldable pub fuse_copy : ℕ → CopyMap → MirInst → Option (MirInst × CopyMap)
fuse_copy fuel m (copy d r) = copied_root m d (find_copy_root fuel r m)
fuse_copy fuel m (bin_op d op l r) = some (bin_op d op (root_of m l) (root_of m r), m)
fuse_copy fuel m (method_call d r name args b) =
    some (method_call d (root_of m r) name (map (root_of m) args) b, m)
fuse_copy fuel m i = some (i, m)

unfoldable pub fuse_copies : ℕ → CopyMap → List MirInst → Option (List MirInst × CopyMap)
fuse_copies fuel m [] = some ([], m)
fuse_copies fuel m (i ∷ is) = do
  first ← fuse_copy fuel m i
  rest ← fuse_copies fuel first.1 is
  some (first.0 ∷ rest.0, rest.1)

unfoldable pub fuse_copy_blocks : ℕ → CopyMap → List MirBlock → Option (List MirBlock)
fuse_copy_blocks fuel m [] = some []
fuse_copy_blocks fuel m (b ∷ bs) = do
  first ← fuse_copies fuel m b.instructions
  rest ← fuse_copy_blocks fuel first.1 bs
  some (record b { instructions = first.0 } ∷ rest)

unfoldable pub fuse_copy_chains : List MirBlock → Option (List MirBlock)
fuse_copy_chains bs = fuse_copy_blocks (suc (2 * copies_in bs)) [] bs

abbrev pub after_integers : Outcome (List MirBlock) → Outcome (Option (List MirBlock))
after_integers panic = panic
after_integers (done bs) = done (fuse_copy_chains (fuse_string_concatenation bs))

-- `fuse_known_type_calls` does nothing.
unfoldable pub fuse_function : List MirBlock → Outcome (Option (List MirBlock))
fuse_function bs = after_integers (fuse_integer_arithmetic bs)

fuse_copies-collect :
    (fuel : ℕ) (m m' : CopyMap) (is : List MirInst)
    → collect_copies fuel m is ≡ some m'
    → (js : List MirInst) × (fuse_copies fuel m is ≡ some (js, m'))
unfolding fuse_copies fuse_copy collect_copies
fuse_copies-collect fuel m m' [] h = ([], cc)
fuse_copies-collect fuel m m' (copy d r ∷ is) h = elim (Option-cases (chase fuel m r)) [
  | inl e ↦ absurd (cc)
  | inr (root, e) ↦
      let h' : collect_copies fuel (insert d root m) is ≡ some m' = rw e at h in
      let (js, f) = fuse_copies-collect fuel (insert d root m) m' is h' in
      (copy d root ∷ js, rw e (rw f refl))
]
fuse_copies-collect fuel m m' (bin_op d op l r ∷ is) h =
    let (js, f) = fuse_copies-collect fuel m m' is h in
    (bin_op d op (root_of m l) (root_of m r) ∷ js, rw f refl)
fuse_copies-collect fuel m m' (method_call d r name args b ∷ is) h =
    let (js, f) = fuse_copies-collect fuel m m' is h in
    (method_call d (root_of m r) name (map (root_of m) args) b ∷ js, rw f refl)
fuse_copies-collect fuel m m' (i ∷ is) h =
    let (js, f) = fuse_copies-collect fuel m m' is h in (i ∷ js, rw f refl)

fuse_copy_blocks-collect :
    (fuel : ℕ) (m m' : CopyMap) (bs : List MirBlock)
    → collect_all_copies fuel m bs ≡ some m'
    → (cs : List MirBlock) × (fuse_copy_blocks fuel m bs ≡ some cs)
unfolding fuse_copy_blocks collect_all_copies
fuse_copy_blocks-collect fuel m m' [] h = ([], refl)
fuse_copy_blocks-collect fuel m m' (b ∷ bs) h =
    elim (Option-cases (collect_copies fuel m b.instructions)) [
      | inl e ↦ absurd (cc)
      | inr (m1, e) ↦
          let (js, f) = fuse_copies-collect fuel m m1 b.instructions e in
          let h' : collect_all_copies fuel m1 bs ≡ some m' = rw e at h in
          let (cs, g) = fuse_copy_blocks-collect fuel m1 m' bs h' in
          (record b { instructions = js } ∷ cs, rw f (rw g refl))
    ]

-- The chains of copies of every function are fused: each walk up a chain ends, since the pass keeps
-- the map that `eliminate_copy_chains` builds.
fuse_copy_chains-total :
    (bs : List MirBlock) → (cs : List MirBlock) × (fuse_copy_chains bs ≡ some cs)
unfolding fuse_copy_chains
fuse_copy_chains-total bs =
    let (m, built, ends) =
      collect_all_copies-total bs (suc (2 * copies_in bs)) 1 [] empty_EndsIn (omega arith) in
    fuse_copy_blocks-collect (suc (2 * copies_in bs)) [] m bs built

-- Fusion ends with the blocks of the function, or with the panic of a division of constants.
fuse_function-total :
    (bs : List MirBlock)
    → (fuse_integer_arithmetic bs ≡ panic) × (fuse_function bs ≡ panic)
      ⊎ (cs : List MirBlock) × (fuse_function bs ≡ done (some cs))
unfolding fuse_function
fuse_function-total bs = elim (Outcome-cases (fuse_integer_arithmetic bs)) [
  | inl (cs, e) ↦
      let (ds, f) = fuse_copy_chains-total (fuse_string_concatenation cs) in
      inr (ds, rw e (rw f refl))
  | inr e ↦ inl (e, rw e refl)
]
