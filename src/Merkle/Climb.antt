-- ===== src/Merkle/Climb.antt =====
-- The climb from the leaves to the root ends within the fuel that it is given.
use gas_analyzer.Prelude.Results.{ok}
use gas_analyzer.Merkle.{flip_low_bit, hash_pair, up, climb, merkle_root, push_sibling, siblings}
use gas_analyzer.Prelude.{
  ℕ, zero, suc, ◌+◌, ◌/◌, ◌≤◌, ◌<◌, ◌≡◌, refl, List, [], ◌∷◌, arith, length, get_elem?,
}
use gas_analyzer.Prelude.Bytes.{Bytes}

module _ (keccak256 : Bytes → ℕ) where
  pub length-up : (level : List ℕ) → length (up keccak256 level) ≡ (length level + 1) / 2
  unfolding up
  length-up [] = omega arith
  length-up (a ∷ []) = omega arith
  length-up (a ∷ b ∷ level) = omega (arith, length-up level)

  pub climb_total :
      (fuel : ℕ) (a : ℕ) (level : List ℕ)
      → length level ≤ fuel
      → (root : ℕ) × (climb keccak256 fuel (a ∷ level) ≡ ok root)
  unfolding climb up
  climb_total zero a [] h = (a, refl)
  climb_total (suc fuel) a [] h = (a, refl)
  climb_total zero a (b ∷ level) h = absurd (omega arith)
  climb_total (suc fuel) a (b ∷ level) h =
      climb_total fuel (hash_pair keccak256 a b) (up keccak256 level)
        (omega (arith, length-up level))

  -- Every tree with a leaf has a root: the loop never runs out of fuel.
  pub merkle_root-total :
      (leaves : List ℕ) → 0 < length leaves → (root : ℕ) × (merkle_root keccak256 leaves ≡ ok root)
  unfolding merkle_root
  merkle_root-total [] h = elim h [ ]
  merkle_root-total (a ∷ leaves) h = climb_total (length (a ∷ leaves)) a leaves (omega arith)

  pub siblings_total :
      (fuel : ℕ) (a : ℕ) (level : List ℕ) (index : ℕ)
      → length level ≤ fuel
      → (proof : List ℕ) × (siblings keccak256 fuel (a ∷ level) index ≡ ok proof)
  unfolding siblings up
  siblings_total zero a [] index h = ([], refl)
  siblings_total (suc fuel) a [] index h = ([], refl)
  siblings_total zero a (b ∷ level) index h = absurd (omega arith)
  siblings_total (suc fuel) a (b ∷ level) index h =
      let (above, e) =
        siblings_total fuel (hash_pair keccak256 a b) (up keccak256 level) (index / 2)
          (omega (arith, length-up level)) in
      (push_sibling keccak256 (get_elem? (a ∷ b ∷ level) (flip_low_bit index)) above, rw e)
