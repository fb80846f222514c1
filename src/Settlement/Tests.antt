-- ===== src/Settlement/Tests.antt =====
-- An example of a settlement: a root with one child.
use gas_analyzer.Settlement.{
  Codec, EncodedTree, root_leaf, nested_leaf, expiry_leaf, fill_children, children_witnesses,
  hash_frames, build_witnesses, encode_frame_tree,
}
use gas_analyzer.Settlement.Children.{named_leaves, blank_leaf, LeavesOf, fill_children-LeavesOf}
use gas_analyzer.FrameTree.{FrameProgram}
use gas_analyzer.Encoding.{encode_state_updates_to_abi}
use gas_analyzer.Encoding.Tests.{alloy}
use gas_analyzer.Prelude.{ℕ, ◌+◌, ◌≡◌, refl, some, List, [], ◌∷◌, map}
use gas_analyzer.Prelude.Bytes.{Bytes, be_bytes}
use gas_analyzer.Types.{StateUpdate, nested}
use gas_analyzer.Prelude.Results.{ok}
use gas_analyzer.Merkle.{hash_pair, up, climb, merkle_root, siblings, merkle_proof}
use gas_analyzer.Settlement.Proofs.{IsProvable, encode_frame_tree-IsProvable}

-- A hash that is easy to follow.
abbrev sum_bytes : Bytes → ℕ
sum_bytes [] = 1
sum_bytes (b ∷ bytes) = b + sum_bytes bytes

abbrev codec : Codec
codec = record {
  sha256 = sum_bytes;
  keccak256 = sum_bytes;
  updates = alloy;
  root_params = λ leaf. leaf.transition_index ∷ leaf.target ∷ [];
  root_value_params = λ leaf value. leaf.transition_index ∷ leaf.target ∷ value ∷ [];
  nested_params = λ leaf. leaf.target ∷ leaf.caller ∷ [];
  expiry_params = λ chain_id target block. chain_id ∷ target ∷ block ∷ [];
  witness = λ w. w.storage_updates;
}

abbrev frame_with : ℕ → List StateUpdate → List ℕ → FrameProgram
frame_with target updates children = record {
  target = target;
  caller = 9;
  value = 0;
  calldata_hash = 0;
  transition_index = some 4;
  updates = updates;
  children = children;
}

abbrev op : StateUpdate
op = nested (record { target = 51; value = 0; child_leaf = 0 })

fill_children-LeavesOf_example :
    LeavesOf 0 2
      (7 ∷ 8 ∷ [])
      (1 ∷ [])
      (named_leaves (nested (record { target = 51; value = 0; child_leaf = 8 }) ∷ []))
    × (map blank_leaf (nested (record { target = 51; value = 0; child_leaf = 8 }) ∷ [])
        ≡ map blank_leaf (op ∷ []))
unfolding fill_children
fill_children-LeavesOf_example = fill_children-LeavesOf 0 2 (7 ∷ 8 ∷ []) (op ∷ []) (1 ∷ []) refl

abbrev two_frames : List FrameProgram
two_frames = frame_with 50 (op ∷ []) (1 ∷ []) ∷ frame_with 51 [] [] ∷ []

abbrev child_program : Bytes
child_program = encode_state_updates_to_abi alloy []

abbrev encoded : EncodedTree
encoded = record {
  root = 269;
  leaves = 151 ∷ 55 ∷ 61 ∷ [];
  frame_leaves = 55 ∷ 61 ∷ [];
  programs =
      encode_state_updates_to_abi alloy
        (nested (record { target = 51; value = 0; child_leaf = 61 }) ∷ [])
      ∷ child_program
      ∷ [];
  witnesses = [] ∷ child_program ∷ [];
  root_children = child_program ∷ [];
  root_proof = 151 ∷ 61 ∷ [];
  expiry_proof = 55 ∷ 61 ∷ [];
}

encodes : encode_frame_tree codec 0 0 1 99 two_frames ≡ ok encoded
unfolding encode_frame_tree hash_frames fill_children root_leaf nested_leaf expiry_leaf merkle_root
    climb up hash_pair merkle_proof siblings build_witnesses children_witnesses be_bytes
encodes = refl

encode_frame_tree-IsProvable_example : IsProvable sum_bytes (expiry_leaf codec 1 50 99) encoded
encode_frame_tree-IsProvable_example =
    encode_frame_tree-IsProvable codec 0 0 1 99 (frame_with 50 (op ∷ []) (1 ∷ []))
      (frame_with 51 [] [] ∷ []) encodes
