-- ===== src/Settlement/Children.antt =====
-- The leaves that a program names (crates/core/src/nested.rs, `encode_frame_tree`).
use gas_analyzer.Settlement.{item, fill_children, outside_pre_order, bad_index}
use gas_analyzer.Prelude.Results.{
  IfOk, IfOk-bind, IfOk-after, IfOk-ok, ok_or-ok, IfOk-refuse_if, ok,
}
use gas_analyzer.Prelude.{
  ℕ, ◌<◌, ◌≡◌, refl, ap, ◌||◌, some, List, [], ◌∷◌, map, arith, leb, get_elem?,
}
use gas_analyzer.Types.{StateUpdate, nested}

abbrev pub named_leaves : List StateUpdate → List ℕ
named_leaves [] = []
named_leaves (nested x ∷ updates) = x.child_leaf ∷ named_leaves updates
named_leaves (_ ∷ updates) = named_leaves updates

-- The op without the leaf that it names.
abbrev pub blank_leaf : StateUpdate → StateUpdate
blank_leaf (nested x) = nested (record x { child_leaf = 0 })
blank_leaf u = u

-- One leaf for each child, in order, the child standing behind the frame and among the frames.
abbrev pub LeavesOf : ℕ → ℕ → List ℕ → List ℕ → List ℕ → Type 0
LeavesOf i n frame_leaves [] [] = Unit
LeavesOf i n frame_leaves [] (leaf ∷ leaves) = ⊥
LeavesOf i n frame_leaves (child ∷ children) [] = ⊥
LeavesOf i n frame_leaves (child ∷ children) (leaf ∷ leaves) =
    (i < child)
    × (child < n)
    × (get_elem? frame_leaves child ≡ some leaf)
    × LeavesOf i n frame_leaves children leaves

module _ (i n : ℕ) (frame_leaves : List ℕ) where
  abbrev Filled : List StateUpdate → List ℕ → List StateUpdate → Type 0
  Filled updates children filled =
      LeavesOf i n frame_leaves children (named_leaves filled)
      × (map blank_leaf filled ≡ map blank_leaf updates)

  fill_children-Filled :
      (updates : List StateUpdate) (children : List ℕ)
      → IfOk (Filled updates children) (fill_children i n frame_leaves updates children)
  unfolding fill_children
  fill_children-Filled [] [] = (tt, refl)
  fill_children-Filled [] (child ∷ children) = tt
  fill_children-Filled (nested x ∷ updates) [] = tt
  fill_children-Filled (nested x ∷ updates) (child ∷ children) =
      let Goal = Filled (nested x ∷ updates) (child ∷ children) in
      IfOk-refuse_if Goal (leb child i || leb n child) (outside_pre_order i child) _ λ e.
        IfOk-after Goal (item frame_leaves child) _ λ leaf f.
          IfOk-bind (Filled updates children) Goal (fill_children i n frame_leaves updates children)
            _ (fill_children-Filled updates children)
            λ rest h. (
              (
                ground (arith, e),
                ground (arith, e),
                ok_or-ok (get_elem? frame_leaves child) bad_index f,
                h.0,
              ),
              ap (◌∷◌ (blank_leaf (nested x))) h.1,
            )
  fill_children-Filled (u ∷ updates) children =
      IfOk-bind (Filled updates children) (Filled (u ∷ updates) children)
        (fill_children i n frame_leaves updates children) _ (fill_children-Filled updates children)
        (λ rest h. (h.0, ap (◌∷◌ (blank_leaf u)) h.1))

-- Where the ops of a frame are filled, they name in order the leaves of its children, each of which
-- stands behind the frame and among the frames, and but for these leaves the program is as it was,
-- update for update.
pub fill_children-LeavesOf :
    (i n : ℕ) (frame_leaves : List ℕ) (updates : List StateUpdate) (children : List ℕ)
    {filled : List StateUpdate}
    → fill_children i n frame_leaves updates children ≡ ok filled
    → LeavesOf i n frame_leaves children (named_leaves filled)
      × (map blank_leaf filled ≡ map blank_leaf updates)
fill_children-LeavesOf i n frame_leaves updates children h =
    IfOk-ok (Filled i n frame_leaves updates children)
      (fill_children i n frame_leaves updates children)
      (fill_children-Filled i n frame_leaves updates children) h
