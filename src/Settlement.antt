-- ===== src/Settlement.antt =====
-- The leaves of a settlement and the encoding of a frame tree (crates/core/src/nested.rs,
-- `root_leaf` to `expiry_leaf` and `encode_frame_tree`). sha256, keccak256 and alloy's encodings of
-- the preimages and of a witness are parameters, as is the constant tag in each preimage.
pub mod Children
pub mod Proofs
pub mod Tests
use gas_analyzer.FrameTree.{FrameProgram}
use gas_analyzer.Encoding.{AbiSequence, encode_state_updates_to_abi}
use gas_analyzer.Merkle.{merkle_root, merkle_proof, TreeError}
use gas_analyzer.Prelude.Results.{◌>>=◌, ◌>>◌, ok_or, refuse_if, Result, ok, err}
use gas_analyzer.Prelude.{
  ℕ, zero, suc, ◌+◌, ◌-◌, ◌||◌, List, [], ◌∷◌, leb, ◌==◌, if◌then◌else◌, length, get_elem?, set,
  replicate, is_nil,
}
use gas_analyzer.Prelude.Bytes.{Bytes}
use gas_analyzer.Types.{StateUpdate, nested}

pub record RootLeaf : Type 0 where
  pub transition_index : ℕ
  pub target : ℕ
  pub selector : ℕ
  pub program : Bytes

pub record NestedLeafPreimage : Type 0 where
  pub chain_id : ℕ
  pub target : ℕ
  pub transition_index : ℕ
  pub caller : ℕ
  pub value : ℕ
  pub calldata_hash : ℕ
  pub mode : ℕ
  pub storage_updates : Bytes

pub record Witness : Type 0 where
  pub calldata_hash : ℕ
  pub storage_updates : Bytes
  pub proof : List ℕ
  pub children : List Bytes

-- What the crates compute: the hashes and the encodings.
pub record Codec : Type 0 where
  pub sha256 : Bytes → ℕ
  pub keccak256 : Bytes → ℕ
  pub updates : AbiSequence
  pub root_params : RootLeaf → Bytes
  pub root_value_params : RootLeaf → ℕ → Bytes
  pub nested_params : NestedLeafPreimage → Bytes
  pub expiry_params : ℕ → ℕ → ℕ → Bytes
  pub witness : Witness → Bytes

abbrev pub frame_mode : ℕ
frame_mode = 0

module _ (codec : Codec) where
  unfoldable pub root_leaf : RootLeaf → ℕ → ℕ
  root_leaf leaf value =
      if value == 0
      then codec.sha256 (codec.root_params leaf)
      else codec.sha256 (codec.root_value_params leaf value)

  unfoldable pub nested_leaf : ℕ → ℕ → FrameProgram → Bytes → ℕ
  nested_leaf chain_id index frame program = codec.sha256 (
      codec.nested_params (record {
        chain_id = chain_id;
        target = frame.target;
        transition_index = index;
        caller = frame.caller;
        value = frame.value;
        calldata_hash = frame.calldata_hash;
        mode = frame_mode;
        storage_updates = program;
      }))

  unfoldable pub expiry_leaf : ℕ → ℕ → ℕ → ℕ
  expiry_leaf chain_id root_contract expiry_block =
      codec.sha256 (codec.expiry_params chain_id root_contract expiry_block)

pub data EncodeFailure : Type 0 where
  no_root_frame : EncodeFailure
  more_ops : ℕ → EncodeFailure
  outside_pre_order : ℕ → ℕ → EncodeFailure
  more_children : ℕ → EncodeFailure
  no_transition_index : ℕ → EncodeFailure
  tree_error : TreeError → EncodeFailure
  bad_index : EncodeFailure

abbrev pub of_tree {ℓ} : {A : Type ℓ} → Result TreeError A → Result EncodeFailure A
of_tree (ok a) = ok a
of_tree (err e) = err (tree_error e)

-- `v[i]`, which panics out of bounds.
abbrev pub item {ℓ} : {A : Type ℓ} → List A → ℕ → Result EncodeFailure A
item xs i = ok_or (get_elem? xs i) bad_index

-- Each `NESTED` op of a frame takes the leaf of the next child.
unfoldable pub fill_children :
    ℕ → ℕ → List ℕ → List StateUpdate → List ℕ → Result EncodeFailure (List StateUpdate)
fill_children i n frame_leaves [] [] = ok []
fill_children i n frame_leaves [] (child ∷ children) = err (more_children i)
fill_children i n frame_leaves (nested x ∷ updates) [] = err (more_ops i)
fill_children i n frame_leaves (nested x ∷ updates) (child ∷ children) = do
  refuse_if (leb child i || leb n child) (outside_pre_order i child)
  leaf ← item frame_leaves child
  rest ← fill_children i n frame_leaves updates children
  ok (nested (record x { child_leaf = leaf }) ∷ rest)
fill_children i n frame_leaves (u ∷ updates) children = do
  rest ← fill_children i n frame_leaves updates children
  ok (u ∷ rest)

pub record EncodedTree : Type 0 where
  pub root : ℕ
  pub leaves : List ℕ
  pub frame_leaves : List ℕ
  pub programs : List Bytes
  pub witnesses : List Bytes
  pub root_children : List Bytes
  pub root_proof : List ℕ
  pub expiry_proof : List ℕ

-- `children.iter().map(|c| witnesses[*c].clone()).collect()`
unfoldable pub children_witnesses : List Bytes → List ℕ → Result EncodeFailure (List Bytes)
children_witnesses witnesses [] = ok []
children_witnesses witnesses (c ∷ children) = do
  w ← item witnesses c
  rest ← children_witnesses witnesses children
  ok (w ∷ rest)

module _ (codec : Codec) (root_selector root_value chain_id expiry_block : ℕ)
    (frames : List FrameProgram) where
  abbrev pub frame_leaf : ℕ → FrameProgram → ℕ → Bytes → ℕ
  frame_leaf i frame index program =
      if i == 0
      then root_leaf codec
          (record {
            transition_index = index;
            target = frame.target;
            selector = root_selector;
            program = program;
          })
          root_value
      else nested_leaf codec chain_id index frame program

  -- `for i in (0..n).rev()`: so many frames are left, from the last. The leaves and the programs.
  unfoldable pub hash_frames : ℕ → List ℕ → List Bytes → Result EncodeFailure (List ℕ × List Bytes)
  hash_frames zero frame_leaves programs = ok (frame_leaves, programs)
  hash_frames (suc i) frame_leaves programs = do
    frame ← item frames i
    updates ← fill_children i (length frames) frame_leaves frame.updates frame.children
    let program = encode_state_updates_to_abi codec.updates updates
    index ← ok_or frame.transition_index (no_transition_index i)
    hash_frames i (set frame_leaves i (frame_leaf i frame index program)) (set programs i program)

  -- `for i in (1..n).rev()`
  unfoldable pub build_witnesses :
      List ℕ → List Bytes → ℕ → List Bytes → Result EncodeFailure (List Bytes)
  build_witnesses leaves programs zero witnesses = ok witnesses
  build_witnesses leaves programs (suc i) witnesses = do
    frame ← item frames (i + 1)
    program ← item programs (i + 1)
    proof ← of_tree (merkle_proof codec.keccak256 leaves (i + 2))
    children ← children_witnesses witnesses frame.children
    let witness = codec.witness (record {
      calldata_hash = frame.calldata_hash;
      storage_updates = program;
      proof = proof;
      children = children;
    })
    build_witnesses leaves programs i (set witnesses (i + 1) witness)

  abbrev pub pack_tree :
      FrameProgram → List ℕ → List Bytes → List ℕ → ℕ → Result EncodeFailure EncodedTree
  pack_tree root_frame frame_leaves programs leaves root = do
    witnesses ← build_witnesses leaves programs (length frames - 1) (replicate (length frames) [])
    root_children ← children_witnesses witnesses root_frame.children
    root_proof ← of_tree (merkle_proof codec.keccak256 leaves 1)
    expiry_proof ← of_tree (merkle_proof codec.keccak256 leaves 0)
    ok (record {
      root = root;
      leaves = leaves;
      frame_leaves = frame_leaves;
      programs = programs;
      witnesses = witnesses;
      root_children = root_children;
      root_proof = root_proof;
      expiry_proof = expiry_proof;
    })

  unfoldable pub encode_frame_tree : Result EncodeFailure EncodedTree
  encode_frame_tree = do
    refuse_if (is_nil frames) no_root_frame
    hashed ←
        hash_frames (length frames) (replicate (length frames) 0) (replicate (length frames) [])
    root_frame ← item frames 0
    let leaves = expiry_leaf codec chain_id root_frame.target expiry_block ∷ hashed.0
    root ← of_tree (merkle_root codec.keccak256 leaves)
    pack_tree root_frame hashed.0 hashed.1 leaves root
