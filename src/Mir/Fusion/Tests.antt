-- ===== src/Mir/Fusion/Tests.antt =====
-- Runs of the passes of opt_fusion.rs.
use jdruby.Base.{◌≡◌, refl, some, [], ◌∷◌, List, done}
use jdruby.Base.Int.{pos, wrap, ◌+ℤ◌}
use jdruby.Base.Assoc.{lookup, insert}
use jdruby.Mir.Nodes.{integer, add, load_const, bin_op, return, branch, MirBlock}
use jdruby.Mir.Fusion.{
  fuse_integer_arithmetic, fuse_integers, foldable_ops, fold_integer_op, apply_foldable, set_at,
}

-- 1 + 2 in a first block, and 1 more in a second.
abbrev two_sums : List MirBlock
two_sums =
    record {
      label = "a";
      instructions =
          load_const 1 (integer (pos 1)) ∷ load_const 2 (integer (pos 2)) ∷ bin_op 3 add 1 2 ∷ [];
      terminator = branch "b";
    }
    ∷ record { label = "b"; instructions = bin_op 4 add 3 1 ∷ []; terminator = return (some 4) }
    ∷ []

-- The sum of the second block is folded to 1, with 0 for the register that holds 3.
fuse_two_sums :
    fuse_integer_arithmetic two_sums
    ≡ done (
        record {
          label = "a";
          instructions =
              load_const 1 (integer (pos 1))
              ∷ load_const 2 (integer (pos 2))
              ∷ load_const 3 (integer (pos 3))
              ∷ [];
          terminator = branch "b";
        }
        ∷ record {
          label = "b";
          instructions = load_const 4 (integer (pos 1)) ∷ [];
          terminator = return (some 4);
        }
        ∷ [])
unfolding fuse_integer_arithmetic fuse_integers foldable_ops lookup insert fold_integer_op
    apply_foldable set_at wrap ◌+ℤ◌
fuse_two_sums = refl
