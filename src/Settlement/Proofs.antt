-- ===== src/Settlement/Proofs.antt =====
-- The proofs that a settlement carries (crates/core/src/nested.rs, `encode_frame_tree`).
use gas_analyzer.Settlement.{
  Codec, EncodedTree, expiry_leaf, of_tree, children_witnesses, hash_frames, build_witnesses,
  pack_tree, encode_frame_tree,
}
use gas_analyzer.Merkle.{merkle_root, merkle_proof, TreeError}
use gas_analyzer.Merkle.Proof.{process_proof, merkle_proof_leads_to_root}
use gas_analyzer.FrameTree.{FrameProgram}
use gas_analyzer.Prelude.Results.{ok-injective, IfOk, IfOk-after, IfOk-ok, Result, ok, err}
use gas_analyzer.Prelude.{
  ℕ, ◌-◌, ◌≡◌, refl, sym, ap, ◌∙◌, some, List, [], ◌∷◌, length, get_elem?, replicate,
}
use gas_analyzer.Prelude.Bytes.{Bytes}

of_tree-ok {ℓ} : {A : Type ℓ} (m : Result TreeError A) {a : A} → of_tree m ≡ ok a → m ≡ ok a
of_tree-ok (ok b) h = cc
of_tree-ok (err e) h = cc

-- A proof that is given leads from its leaf to the root that is given.
proof_leads :
    (keccak256 : Bytes → ℕ) (leaves : List ℕ) (index leaf : ℕ) {proof : List ℕ} {root : ℕ}
    → get_elem? leaves index ≡ some leaf
    → of_tree (merkle_proof keccak256 leaves index) ≡ ok proof
    → of_tree (merkle_root keccak256 leaves) ≡ ok root
    → process_proof keccak256 proof leaf ≡ root
proof_leads keccak256 leaves index leaf here p r =
    let (proof', root', e, f, leads) =
      merkle_proof_leads_to_root keccak256 leaves index leaf here in
    let same_proof = ok-injective (sym e ∙ of_tree-ok (merkle_proof keccak256 leaves index) p) in
    let same_root = ok-injective (sym f ∙ of_tree-ok (merkle_root keccak256 leaves) r) in
    ap (λ q. process_proof keccak256 q leaf) (sym same_proof) ∙ (leads ∙ same_root)

-- The leaves of a tree are that of its expiry and those of the frames, and the proofs of the expiry
-- and of the root's frame lead to its root.
pub record IsProvable (keccak256 : Bytes → ℕ) (expiry : ℕ) (tree : EncodedTree) : Type 0 where
  pub shape : tree.leaves ≡ expiry ∷ tree.frame_leaves
  pub expiry_leads : process_proof keccak256 tree.expiry_proof expiry ≡ tree.root
  pub root_leads :
      (leaf : ℕ)
      → get_elem? tree.frame_leaves 0 ≡ some leaf
      → process_proof keccak256 tree.root_proof leaf ≡ tree.root

module _ (codec : Codec) (root_selector root_value chain_id expiry_block : ℕ)
    (frames : List FrameProgram) where
  pack_tree-IsProvable :
      (root_frame : FrameProgram) (frame_leaves : List ℕ) (programs : List Bytes) (expiry root : ℕ)
      → of_tree (merkle_root codec.keccak256 (expiry ∷ frame_leaves)) ≡ ok root
      → IfOk (IsProvable codec.keccak256 expiry) (
          pack_tree codec root_selector root_value chain_id expiry_block frames root_frame
            frame_leaves programs
            (expiry ∷ frame_leaves)
            root)
  pack_tree-IsProvable root_frame frame_leaves programs expiry root r =
      let Goal = IsProvable codec.keccak256 expiry in
      let leaves = expiry ∷ frame_leaves in
      IfOk-after Goal
        (build_witnesses codec root_selector root_value chain_id expiry_block frames leaves programs
          (length frames - 1) (replicate (length frames) []))
        _
        λ witnesses e.
          IfOk-after Goal (children_witnesses witnesses root_frame.children) _ λ children f.
            IfOk-after Goal (of_tree (merkle_proof codec.keccak256 leaves 1)) _ λ root_proof g.
              IfOk-after Goal (of_tree (merkle_proof codec.keccak256 leaves 0)) _ λ expiry_proof i.
                record {
                  shape = refl;
                  expiry_leads = proof_leads codec.keccak256 leaves 0 expiry refl i r;
                  root_leads = λ leaf here. proof_leads codec.keccak256 leaves 1 leaf here g r;
                }

-- When a tree of frames is encoded, its leaves are the expiry's and the frames', and the proofs that
-- it carries for the expiry and for the root's frame lead from their leaves to its root.
pub encode_frame_tree-IsProvable :
    (codec : Codec) (root_selector root_value chain_id expiry_block : ℕ) (root_frame : FrameProgram)
    (frames : List FrameProgram) {tree : EncodedTree}
    → encode_frame_tree codec root_selector root_value chain_id expiry_block (root_frame ∷ frames)
      ≡ ok tree
    → IsProvable codec.keccak256 (expiry_leaf codec chain_id root_frame.target expiry_block) tree
unfolding encode_frame_tree
encode_frame_tree-IsProvable codec root_selector root_value chain_id expiry_block root_frame frames
      h =
    let every = root_frame ∷ frames in
    let expiry = expiry_leaf codec chain_id root_frame.target expiry_block in
    let Goal = IsProvable codec.keccak256 expiry in
    let held =
      IfOk-after Goal
        (hash_frames codec root_selector root_value chain_id expiry_block every (length every)
          (replicate (length every) 0) (replicate (length every) []))
        _
        λ hashed e.
          IfOk-after Goal (of_tree (merkle_root codec.keccak256 (expiry ∷ hashed.0))) _ λ root f.
            pack_tree-IsProvable codec root_selector root_value chain_id expiry_block every
              root_frame hashed.0 hashed.1 expiry root f in
    IfOk-ok Goal _ held h
