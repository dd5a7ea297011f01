-- ===== src/Mir/Optimize/Reach.antt =====
-- crates/jdruby-mir/src/optimize.rs: `remove_unreachable_blocks`. The set of reachable labels grows
-- in rounds over all blocks until a round adds nothing. The fuel of the loop is one more than the
-- number of branch targets.
pub mod Closure
pub mod Exact
pub mod Runs
use jdruby.Base.{
  ℕ, zero, suc, String, Bool, true, false, Option, some, none, List, [], ◌∷◌, ◌++◌, length, retain,
  if◌then◌else◌,
}
use jdruby.Base.Names.{contains}
use jdruby.Mir.Nodes.{MirTerminator, branch, cond_branch, MirBlock}

-- The set, and `changed`.
abbrev pub Progress : Type 0
Progress = List String × Bool

unfoldable pub successors : MirTerminator → List String
successors (branch l) = l ∷ []
successors (cond_branch r t e) = t ∷ e ∷ []
successors t = []

-- `if reachable.insert(target) { changed = true; }`
unfoldable pub insert_label : String → Progress → Progress
insert_label l (r, changed) = if contains r l then (r, changed) else (l ∷ r, true)

unfoldable pub insert_labels : List String → Progress → Progress
insert_labels [] p = p
insert_labels (l ∷ ls) p = insert_labels ls (insert_label l p)

unfoldable pub visit_block : MirBlock → Progress → Progress
visit_block b (r, changed) =
    if contains r b.label
    then insert_labels (successors b.terminator) (r, changed)
    else (r, changed)

unfoldable pub round : List MirBlock → Progress → Progress
round [] p = p
round (b ∷ bs) p = round bs (visit_block b p)

unfoldable pub reach_loop : ℕ → List MirBlock → List String → Option (List String)
reach_loop zero bs r = none
reach_loop (suc fuel) bs r =
    let (r', changed) = round bs (r, false) in
    elim changed [ true ↦ reach_loop fuel bs r' | false ↦ some r' ]

unfoldable pub all_targets : List MirBlock → List String
all_targets [] = []
all_targets (b ∷ bs) = successors b.terminator ++ all_targets bs

-- `reachable` with the first label in it, when there is one.
abbrev pub first_label : List MirBlock → List String
first_label [] = []
first_label (b ∷ bs) = b.label ∷ []

unfoldable pub reachable_labels : List MirBlock → Option (List String)
reachable_labels bs = reach_loop (suc (length (all_targets bs))) bs (first_label bs)

abbrev pub keep_labels : List MirBlock → Option (List String) → Option (List MirBlock)
keep_labels bs none = none
keep_labels bs (some r) = some (retain (λ b. contains r b.label) bs)

unfoldable pub remove_unreachable_blocks : List MirBlock → Option (List MirBlock)
remove_unreachable_blocks [] = some []
remove_unreachable_blocks (b ∷ []) = some (b ∷ [])
remove_unreachable_blocks (b ∷ c ∷ bs) = keep_labels (b ∷ c ∷ bs) (reachable_labels (b ∷ c ∷ bs))
