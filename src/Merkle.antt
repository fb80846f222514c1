-- ===== src/Merkle.antt =====
-- The Merkle tree over a nested settlement's leaves (crates/core/src/nested.rs, `hash_pair` to
-- `merkle_proof`). `keccak256` is a parameter; a `B256` is a number, and numbers compare as the
-- big-endian bytes do.
pub mod Climb
pub mod Proof
pub mod Tests
use gas_analyzer.Prelude.Results.{◌>>=◌, ◌>>◌, refuse_if, Result, ok, err}
use gas_analyzer.Prelude.{
  ℕ, zero, suc, ◌+◌, ◌-◌, ◌/◌, ◌%◌, Option, none, some, List, [], ◌∷◌, ◌++◌, ltb, leb, ◌==◌,
  if◌then◌else◌, length, get_elem?, is_nil,
}
use gas_analyzer.Prelude.Bytes.{Bytes, be_bytes}

pub data TreeError : Type 0 where
  empty_tree : TreeError
  leaf_outside : ℕ → ℕ → TreeError
  out_of_fuel : TreeError

-- `index ^ 1`
abbrev pub flip_low_bit : ℕ → ℕ
flip_low_bit index = if index % 2 == 0 then index + 1 else index - 1

module _ (keccak256 : Bytes → ℕ) where
  unfoldable pub hash_pair : ℕ → ℕ → ℕ
  hash_pair a b =
      if ltb a b
      then keccak256 (be_bytes 32 a ++ be_bytes 32 b)
      else keccak256 (be_bytes 32 b ++ be_bytes 32 a)

  -- `level.chunks(2)`: an odd last node moves up unchanged.
  unfoldable pub up : List ℕ → List ℕ
  up [] = []
  up (a ∷ []) = a ∷ []
  up (a ∷ b ∷ level) = hash_pair a b ∷ up level

  -- `while level.len() > 1 { level = up(&level) }`, on fuel, and then `level[0]`.
  unfoldable pub climb : ℕ → List ℕ → Result TreeError ℕ
  climb fuel [] = err empty_tree
  climb fuel (a ∷ []) = ok a
  climb zero (a ∷ b ∷ level) = err out_of_fuel
  climb (suc fuel) (a ∷ b ∷ level) = climb fuel (up (a ∷ b ∷ level))

  unfoldable pub merkle_root : List ℕ → Result TreeError ℕ
  merkle_root leaves = do refuse_if (is_nil leaves) empty_tree; climb (length leaves) leaves

  abbrev pub push_sibling : Option ℕ → List ℕ → List ℕ
  push_sibling none proof = proof
  push_sibling (some sibling) proof = sibling ∷ proof

  -- The loop of `merkle_proof`, on fuel: the siblings from this level up.
  unfoldable pub siblings : ℕ → List ℕ → ℕ → Result TreeError (List ℕ)
  siblings fuel [] index = ok []
  siblings fuel (a ∷ []) index = ok []
  siblings zero (a ∷ b ∷ level) index = err out_of_fuel
  siblings (suc fuel) (a ∷ b ∷ level) index = do
    above ← siblings fuel (up (a ∷ b ∷ level)) (index / 2)
    ok (push_sibling (get_elem? (a ∷ b ∷ level) (flip_low_bit index)) above)

  unfoldable pub merkle_proof : List ℕ → ℕ → Result TreeError (List ℕ)
  merkle_proof leaves index = do
    refuse_if (leb (length leaves) index) (leaf_outside index (length leaves))
    siblings (length leaves) leaves index
