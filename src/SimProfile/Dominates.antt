-- ===== src/SimProfile/Dominates.antt =====
-- The gate against the reported estimate.
use gas_analyzer.Encoding.{AbiSequence, encode_state_updates_to_abi}
use gas_analyzer.Extract.{TraceExtract}
use gas_analyzer.Heuristic.{apply_refund, estimate_gas_from_state_updates}
use gas_analyzer.Heuristic.Exact.{
  apply_refund_bounds, exact_program_gas, exact_gross, estimate_gas_from_state_updates-exact,
}
use gas_analyzer.SimProfile.{estimate_applied_payload_gas}
use gas_analyzer.SimProfile.Price.{FitsMemory, exact_costs, estimate_applied_payload_gas-exact}
use gas_analyzer.Prelude.{
  ℕ, suc, ◌+◌, ◌*◌, ◌≤◌, ◌<◌, ◌≡◌, refl, List, [], ◌∷◌, arith, length, All, u64_mod, u64_max,
}
use gas_analyzer.Types.{
  StateUpdate, store, call, log0, log1, log2, log3, log4, create, create2, nested,
}

abbrev pub store_count : List StateUpdate → ℕ
store_count [] = 0
store_count (store x ∷ us) = suc (store_count us)
store_count (u ∷ us) = store_count us

exact_costs-split :
    (us : List StateUpdate) → exact_costs us ≡ 22100 * store_count us + exact_program_gas us
exact_costs-split [] = refl
exact_costs-split (store x ∷ us) = omega (arith, exact_costs-split us)
exact_costs-split (call x ∷ us) = omega (arith, exact_costs-split us)
exact_costs-split (nested x ∷ us) = omega (arith, exact_costs-split us)
exact_costs-split (log0 x ∷ us) = omega (arith, exact_costs-split us)
exact_costs-split (log1 x ∷ us) = omega (arith, exact_costs-split us)
exact_costs-split (log2 x ∷ us) = omega (arith, exact_costs-split us)
exact_costs-split (log3 x ∷ us) = omega (arith, exact_costs-split us)
exact_costs-split (log4 x ∷ us) = omega (arith, exact_costs-split us)
exact_costs-split (create x ∷ us) = omega (arith, exact_costs-split us)
exact_costs-split (create2 x ∷ us) = omega (arith, exact_costs-split us)

-- The gate never prices a program below the reported estimate, when four things hold: its stores
-- were charged 22100 each at most, the measured gas of calls and creates is passed on, the payload
-- and the logs' data fit in memory, and the price is below the greatest `u64`.
pub estimate-le-gate :
    (abi : AbiSequence) (e : TraceExtract) (external floor : ℕ)
    → e.call_gas_total + e.create_gas_total ≤ external
    → e.sstore_gas_total ≤ 22100 * store_count e.state_updates
    → 16 * length (encode_state_updates_to_abi abi e.state_updates) < u64_mod
    → All FitsMemory e.state_updates
    → estimate_applied_payload_gas abi e.state_updates external floor < u64_max
    → estimate_gas_from_state_updates abi e
      ≤ estimate_applied_payload_gas abi e.state_updates external floor
unfolding apply_refund
estimate-le-gate abi e external floor measured stores small fits h =
    omega
      (arith, estimated, apply_refund_bounds gross gross e.refund_counter (omega arith), gross_le)
  where
    gross : ℕ
    gross = exact_gross abi e

    gross_le : gross ≤ estimate_applied_payload_gas abi e.state_updates external floor
    gross_le = omega (
      arith,
      estimate_applied_payload_gas-exact abi e.state_updates external floor fits h,
      exact_costs-split e.state_updates,
      measured,
      stores,
    )

    estimated : estimate_gas_from_state_updates abi e ≡ apply_refund gross e.refund_counter
    estimated = estimate_gas_from_state_updates-exact abi e small (omega (arith, gross_le, h))
