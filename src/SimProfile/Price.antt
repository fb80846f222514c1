-- ===== src/SimProfile/Price.antt =====
-- The price of a payload without saturation.
use gas_analyzer.Encoding.{AbiSequence, encode_state_updates_to_abi}
use gas_analyzer.Heuristic.Exact.{zero_bytes, exact_update_gas}
use gas_analyzer.SimProfile.{
  update_cost, add_update_costs, count_zero_bytes, price_payload, estimate_applied_payload_gas,
}
use gas_analyzer.Prelude.{
  ℕ, ◌+◌, ◌-◌, ◌*◌, ◌≤◌, ◌<◌, max, ◌≡◌, refl, ◌∙◌, List, [], ◌∷◌, arith, length, All, u64_mod,
  u64_max, saturating_add,
}
use gas_analyzer.Prelude.Bytes.{Bytes}
use gas_analyzer.Types.{StateUpdate, store, log0, log1, log2, log3, log4}

count_zero_bytes_lem : (payload : Bytes) → count_zero_bytes payload ≡ zero_bytes payload
unfolding count_zero_bytes
count_zero_bytes_lem [] = refl
count_zero_bytes_lem (b ∷ payload) = ground (arith, count_zero_bytes_lem payload)

abbrev pub transport_gas : Bytes → ℕ
transport_gas payload = 4 * zero_bytes payload + 16 * (length payload - zero_bytes payload)

-- EIP-7623: ten gas for each token, of which a byte that is not zero counts four.
abbrev pub floor_gas : Bytes → ℕ
floor_gas payload = 21000 + 10 * (zero_bytes payload + 4 * (length payload - zero_bytes payload))

price_payload-exact :
    (gas : ℕ) (payload : Bytes)
    → price_payload gas payload < u64_max
    → price_payload gas payload
      ≡ max (gas + 14 * length payload + transport_gas payload) (floor_gas payload)
unfolding price_payload
price_payload-exact gas payload h = omega (arith, count_zero_bytes_lem payload)

-- The log's data is a byte vector in memory.
abbrev pub FitsMemory : StateUpdate → Type 0
FitsMemory u = exact_update_gas u < u64_mod

-- What an update costs to apply.
abbrev pub exact_cost : StateUpdate → ℕ
exact_cost (store x) = 22100
exact_cost u = exact_update_gas u

update_cost-exact : (u : StateUpdate) → FitsMemory u → update_cost u ≡ exact_cost u
update_cost-exact (store x) h = refl
update_cost-exact (log0 l) h = omega arith
update_cost-exact (log1 l) h = omega arith
update_cost-exact (log2 l) h = omega arith
update_cost-exact (log3 l) h = omega arith
update_cost-exact (log4 l) h = omega arith
update_cost-exact _ h = refl

abbrev pub exact_costs : List StateUpdate → ℕ
exact_costs [] = 0
exact_costs (u ∷ us) = exact_cost u + exact_costs us

add_update_costs-ge :
    (gas : ℕ) (us : List StateUpdate) → gas ≤ u64_max → gas ≤ add_update_costs gas us
unfolding add_update_costs
add_update_costs-ge gas [] h = omega arith
add_update_costs-ge gas (u ∷ us) h =
    omega (arith, add_update_costs-ge (saturating_add gas (update_cost u)) us (omega arith))

add_update_costs-exact :
    (gas : ℕ) (us : List StateUpdate)
    → All FitsMemory us
    → add_update_costs gas us < u64_max
    → add_update_costs gas us ≡ gas + exact_costs us
unfolding add_update_costs
add_update_costs-exact gas [] fits h = omega arith
add_update_costs-exact gas (u ∷ us) (f, fits) h =
    add_update_costs-exact next us fits h
    ∙ omega (arith, update_cost-exact u f, add_update_costs-ge next us (omega arith))
  where
    next : ℕ
    next = saturating_add gas (update_cost u)

-- The price of a payload below the greatest `u64` is exact: the larger of its execution, dispatch
-- and transport, and the floor price of its bytes.
pub estimate_applied_payload_gas-exact :
    (abi : AbiSequence) (us : List StateUpdate) (external floor : ℕ)
    → All FitsMemory us
    → estimate_applied_payload_gas abi us external floor < u64_max
    → let payload = encode_state_updates_to_abi abi us in
      estimate_applied_payload_gas abi us external floor
      ≡ max
          (23000 + floor + external + exact_costs us + 14 * length payload + transport_gas payload)
          (floor_gas payload)
unfolding estimate_applied_payload_gas
estimate_applied_payload_gas-exact abi us external floor fits h =
    price_payload-exact (add_update_costs fixed us) payload h ∙ omega (arith, summed, unsaturated)
  where
    fixed : ℕ
    fixed = saturating_add (saturating_add (saturating_add 21000 floor) external) 2000

    payload : Bytes
    payload = encode_state_updates_to_abi abi us

    under : add_update_costs fixed us < u64_max
    under = omega (arith, price_payload-exact (add_update_costs fixed us) payload h, h)

    summed : add_update_costs fixed us ≡ fixed + exact_costs us
    summed = add_update_costs-exact fixed us fits under

    unsaturated : fixed ≡ 23000 + floor + external
    unsaturated = omega (arith, summed, under)
