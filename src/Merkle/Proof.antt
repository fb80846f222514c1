-- ===== src/Merkle/Proof.antt =====
-- A proof leads from its leaf to the root by OpenZeppelin's `processProof`.
use gas_analyzer.Merkle.{
  flip_low_bit, hash_pair, up, climb, merkle_root, push_sibling, siblings, merkle_proof,
  leaf_outside,
}
use gas_analyzer.Prelude.{
  ℕ, zero, suc, ◌/◌, ◌^◌, ◌≤◌, ◌<◌, ◌≡◌, refl, false, Option, none, some, List, [], ◌∷◌, arith, leb,
  length, get_elem?,
}
use gas_analyzer.Prelude.Bytes.{Bytes}
use native.Mathlib.Nat.{pow-suc}
use gas_analyzer.Merkle.Climb.{length-up, climb_total, siblings_total}
use gas_analyzer.Prelude.Results.{refuse_if, >>=-eq-ok, ok}

module _ (keccak256 : Bytes → ℕ) where
  -- `MerkleProof.processProof`: hash the leaf with each proof word in turn.
  unfoldable pub process_proof : List ℕ → ℕ → ℕ
  process_proof [] computed = computed
  process_proof (word ∷ proof) computed = process_proof proof (hash_pair keccak256 computed word)

  -- The order of the two nodes does not matter.
  pub hash_pair_comm : (a b : ℕ) → hash_pair keccak256 a b ≡ hash_pair keccak256 b a
  unfolding hash_pair
  hash_pair_comm a b = ground arith

  -- A node hashed with its sibling, if it has one.
  abbrev pub join : Option ℕ → ℕ → ℕ
  join none node = node
  join (some sibling) node = hash_pair keccak256 node sibling

  flip_low_bit_two : (i : ℕ) → flip_low_bit (suc (suc i)) ≡ suc (suc (flip_low_bit i))
  flip_low_bit_two i = ground arith

  -- One level up, a node's place holds the node joined with its sibling.
  get_elem?-up :
      (level : List ℕ) (index node : ℕ)
      → get_elem? level index ≡ some node
      → get_elem? (up keccak256 level) (index / 2)
        ≡ some (join (get_elem? level (flip_low_bit index)) node)
  unfolding up
  get_elem?-up [] index node e = cc
  get_elem?-up (a ∷ []) zero node e = e
  get_elem?-up (a ∷ []) (suc index) node e = cc
  get_elem?-up (a ∷ b ∷ level) zero node e = cc
  get_elem?-up (a ∷ b ∷ level) (suc zero) node e = cc (hash_pair_comm a b)
  get_elem?-up (a ∷ b ∷ level) (suc (suc index)) node e =
      let half : suc (suc index) / 2 ≡ suc (index / 2) = omega arith in
      rw (half, flip_low_bit_two index) (get_elem?-up level index node e)

  process_proof-nil : (node : ℕ) → process_proof [] node ≡ node
  unfolding process_proof
  process_proof-nil node = refl

  process_proof-push_sibling :
      (sibling : Option ℕ) (above : List ℕ) (node : ℕ)
      → process_proof (push_sibling keccak256 sibling above) node
        ≡ process_proof above (join sibling node)
  unfolding process_proof
  process_proof-push_sibling none above node = refl
  process_proof-push_sibling (some sibling) above node = refl

  process_proof-siblings :
      (fuel : ℕ) (level : List ℕ) (index node : ℕ) {proof : List ℕ} {root : ℕ}
      → get_elem? level index ≡ some node
      → siblings keccak256 fuel level index ≡ ok proof
      → climb keccak256 fuel level ≡ ok root
      → process_proof proof node ≡ root
  unfolding siblings climb
  process_proof-siblings fuel [] index node g s c = cc
  process_proof-siblings zero (a ∷ []) zero node g s c = cc (process_proof-nil node)
  process_proof-siblings (suc fuel) (a ∷ []) zero node g s c = cc (process_proof-nil node)
  process_proof-siblings fuel (a ∷ []) (suc index) node g s c = cc
  process_proof-siblings zero (a ∷ b ∷ level) index node g s c = cc
  process_proof-siblings (suc fuel) (a ∷ b ∷ level) index node g s c =
      let (above, e, f) =
        >>=-eq-ok (siblings keccak256 fuel (up keccak256 nodes) (index / 2)) _ s in
      let ih = process_proof-siblings fuel (up keccak256 nodes) (index / 2) _ (lifted g) e c in
      cc (ih, process_proof-push_sibling (get_elem? nodes (flip_low_bit index)) above node)
    where
      nodes : List ℕ
      nodes = a ∷ b ∷ level

      lifted :
          get_elem? nodes index ≡ some node
          → get_elem? (up keccak256 nodes) (index / 2)
            ≡ some (join (get_elem? nodes (flip_low_bit index)) node)
      lifted = get_elem?-up nodes index node

  length-push_sibling :
      (sibling : Option ℕ) (above : List ℕ)
      → length (push_sibling keccak256 sibling above) ≤ suc (length above)
  length-push_sibling none above = omega arith
  length-push_sibling (some sibling) above = omega arith

  length-siblings :
      (fuel k : ℕ) (level : List ℕ) (index : ℕ) {proof : List ℕ}
      → length level ≤ 2 ^ k
      → siblings keccak256 fuel level index ≡ ok proof
      → length proof ≤ k
  unfolding siblings
  length-siblings fuel k [] index h s = ground arith
  length-siblings zero k (a ∷ []) index h s = ground arith
  length-siblings (suc fuel) k (a ∷ []) index h s = ground arith
  length-siblings zero k (a ∷ b ∷ level) index h s = cc
  length-siblings (suc fuel) zero (a ∷ b ∷ level) index h s = absurd (omega arith)
  length-siblings (suc fuel) (suc k) (a ∷ b ∷ level) index {proof} h s =
      let (above, e, f) =
        >>=-eq-ok (siblings keccak256 fuel (up keccak256 nodes) (index / 2)) _ s in
      ground (
        arith,
        length-push_sibling (get_elem? nodes (flip_low_bit index)) above,
        length-siblings fuel k (up keccak256 nodes) (index / 2) halved e,
      )
    where
      nodes : List ℕ
      nodes = a ∷ b ∷ level

      halved : length (up keccak256 nodes) ≤ 2 ^ k
      halved = omega (arith, length-up keccak256 nodes, pow-suc 2 k)

  leaf_bound :
      (leaves : List ℕ) (index leaf : ℕ)
      → get_elem? leaves index ≡ some leaf
      → index < length leaves
  leaf_bound [] index leaf e = cc
  leaf_bound (a ∷ leaves) zero leaf e = omega arith
  leaf_bound (a ∷ leaves) (suc index) leaf e = omega (arith, leaf_bound leaves index leaf e)

  -- For every leaf of a tree there are a proof and a root, and hashing the leaf with the proof's
  -- words, one after the other, gives the root.
  pub merkle_proof_leads_to_root :
      (leaves : List ℕ) (index leaf : ℕ)
      → get_elem? leaves index ≡ some leaf
      → (proof : List ℕ) × (root : ℕ) × (merkle_proof keccak256 leaves index ≡ ok proof)
        × (merkle_root keccak256 leaves ≡ ok root)
        × (process_proof proof leaf ≡ root)
  unfolding merkle_proof merkle_root
  merkle_proof_leads_to_root [] index leaf e = cc
  merkle_proof_leads_to_root (a ∷ leaves) index leaf e =
      let (proof, s) = siblings_total keccak256 (length nodes) a leaves index (omega arith) in
      let (root, c) = climb_total keccak256 (length nodes) a leaves (omega arith) in
      (proof, root, rw inside s, c, process_proof-siblings (length nodes) nodes index leaf e s c)
    where
      nodes : List ℕ
      nodes = a ∷ leaves

      inside : leb (length nodes) index ≡ false
      inside = ground (arith, leaf_bound nodes index leaf e)

  -- In a tree of at most `2 ^ k` leaves a proof has at most `k` words.
  pub length-merkle_proof :
      (k : ℕ) (leaves : List ℕ) (index : ℕ) {proof : List ℕ}
      → length leaves ≤ 2 ^ k
      → merkle_proof keccak256 leaves index ≡ ok proof
      → length proof ≤ k
  unfolding merkle_proof
  length-merkle_proof k leaves index h s =
      let (_, e, f) =
        >>=-eq-ok (refuse_if (leb (length leaves) index) (leaf_outside index (length leaves))) _
          s in
      length-siblings (length leaves) k leaves index h f
