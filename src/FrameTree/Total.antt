-- ===== src/FrameTree/Total.antt =====
-- The gas of a frame tree in one transaction (crates/core/src/nested.rs, `frame_tree_total`).
use gas_analyzer.FrameTree.{NestingCostModel, add_frames, frame_tree_total}
use gas_analyzer.Prelude.{
  ℕ, ◌+◌, ◌-◌, ◌≤◌, min, ◌≡◌, ◌∙◌, List, [], ◌∷◌, arith, u64_max, saturating_add,
}

-- The root's gas, and for each child its gas without the base transaction cost, plus the overhead
-- of its nesting.
abbrev pub children_total : NestingCostModel → List ℕ → ℕ
children_total cost [] = 0
children_total cost (gas ∷ frame_gas) =
    (gas - 21000) + cost.frame_overhead_gas + children_total cost frame_gas

abbrev pub exact_total : NestingCostModel → List ℕ → ℕ
exact_total cost [] = 0
exact_total cost (root_gas ∷ frame_gas) = root_gas + children_total cost frame_gas

add_frames-children_total :
    (cost : NestingCostModel) (total : ℕ) (frame_gas : List ℕ)
    → total ≤ u64_max
    → add_frames cost total frame_gas ≡ min u64_max (total + children_total cost frame_gas)
unfolding add_frames
add_frames-children_total cost total [] h = omega arith
add_frames-children_total cost total (gas ∷ frame_gas) h =
    add_frames-children_total cost
      (saturating_add total (saturating_add (gas - 21000) cost.frame_overhead_gas)) frame_gas
      (omega arith)
    ∙ omega arith

-- The total of a tree is the sum of the root's gas and, for each child, its gas less the base
-- transaction cost plus the nesting overhead, cut to the greatest `u64`.
pub frame_tree_total-exact_total :
    (frame_gas : List ℕ) (cost : NestingCostModel)
    → frame_tree_total frame_gas cost ≡ min u64_max (exact_total cost frame_gas)
unfolding frame_tree_total
frame_tree_total-exact_total [] cost = omega arith
frame_tree_total-exact_total (root_gas ∷ frame_gas) cost =
    add_frames-children_total cost (saturating_add 0 root_gas) frame_gas (omega arith) ∙ omega arith
