-- ===== src/Merkle/Tests.antt =====
-- Examples of the Merkle tree, with a checksum for the hash.
use gas_analyzer.Merkle.{hash_pair, up, merkle_root, siblings, merkle_proof}
use gas_analyzer.Merkle.Climb.{merkle_root-total}
use gas_analyzer.Merkle.Proof.{process_proof, merkle_proof_leads_to_root, length-merkle_proof}
use gas_analyzer.Prelude.{ℕ, ◌%◌, ◌≤◌, ◌≡◌, refl, List, [], ◌∷◌, arith, length}
use gas_analyzer.Prelude.Bytes.{Bytes, read_be}
use gas_analyzer.Prelude.Results.{ok}

abbrev checksum : Bytes → ℕ
checksum bytes = read_be 0 bytes % 2305843009213693951

abbrev three_leaves : List ℕ
three_leaves = 11 ∷ 5 ∷ 8 ∷ []

merkle_proof_leads_to_root_example :
    (proof : List ℕ) × (root : ℕ) × (merkle_proof checksum three_leaves 1 ≡ ok proof)
    × (merkle_root checksum three_leaves ≡ ok root)
    × (process_proof checksum proof 5 ≡ root)
merkle_proof_leads_to_root_example = merkle_proof_leads_to_root checksum three_leaves 1 5 refl

merkle_root-total_example : (root : ℕ) × (merkle_root checksum three_leaves ≡ ok root)
merkle_root-total_example = merkle_root-total checksum three_leaves (omega arith)

abbrev first_proof : List ℕ
first_proof = 5 ∷ 8 ∷ []

first_proof_lem : merkle_proof checksum three_leaves 0 ≡ ok first_proof
unfolding merkle_proof siblings up hash_pair
first_proof_lem = refl

length-merkle_proof_example : length first_proof ≤ 2
length-merkle_proof_example =
    length-merkle_proof checksum 2 three_leaves 0 (omega arith) first_proof_lem
