-- ===== src/SimProfile/Tests.antt =====
-- Examples of the gate.
use gas_analyzer.SimProfile.{
  UnboundedCost, unbounded_payload_gas_budget, add_update_costs, count_zero_bytes, price_payload,
  estimate_applied_payload_gas, validate,
}
use gas_analyzer.SimProfile.Verdict.{blocking_create, answer, validate-answer, validate_sound}
use gas_analyzer.Extract.{TraceExtract}
use gas_analyzer.Encoding.Tests.{tail_bytes, alloy, one_store_one_log, small_program}
use gas_analyzer.Prelude.{
  ◌+◌, ◌*◌, ◌≤◌, ◌<◌, max, ◌≡◌, refl, ◌∙◌, ◌⊎◌, true, false, List, [], ◌∷◌, arith, length, u64_max,
}
use gas_analyzer.Types.{StateUpdate, store, create}
use gas_analyzer.Prelude.Bytes.{be_bytes}
use gas_analyzer.Encoding.{
  encode_state_updates_to_sol, write_u256_word, encode_bytes, write_offsets, encode_bytes_array,
  write_types, encode_types, encode_state_updates_to_abi,
}
use gas_analyzer.Heuristic.{estimate_gas_from_state_updates}
use mathlib.Core.List.{flatten}
use gas_analyzer.Prelude.Results.{ok}
use gas_analyzer.SimProfile.Dominates.{estimate-le-gate}
use gas_analyzer.SimProfile.Price.{
  transport_gas, floor_gas, exact_costs, estimate_applied_payload_gas-exact,
}

abbrev pub measured : TraceExtract
measured = record {
  state_updates = one_store_one_log;
  skipped_opcodes = [];
  call_gas_total = 0;
  callee_gas_total = 0;
  create_gas_total = 0;
  sstore_gas_total = 22100;
  refund_counter = 4800;
  reentered = false;
}

abbrev two_creates : List StateUpdate
two_creates =
    store (record { slot = 1; value = 2 }) ∷ create (record { value = 0; initcode = 96 ∷ [] }) ∷ []

validate-answer_example :
    validate alloy two_creates 5000 false 50000 unbounded_payload_gas_budget
    ≡ answer
        (estimate_applied_payload_gas alloy two_creates 5000 50000)
        unbounded_payload_gas_budget
        two_creates
        (blocking_create false two_creates)
validate-answer_example =
    validate-answer alloy two_creates 5000 false 50000 unbounded_payload_gas_budget

price : estimate_applied_payload_gas alloy one_store_one_log 0 50000 ≡ 105262
unfolding estimate_applied_payload_gas add_update_costs price_payload count_zero_bytes
    encode_state_updates_to_abi encode_state_updates_to_sol encode_types write_types
    encode_bytes_array write_offsets encode_bytes write_u256_word tail_bytes be_bytes flatten
price = refl

affordable : estimate_applied_payload_gas alloy one_store_one_log 0 50000 < u64_max
affordable = omega (arith, price)

estimate_applied_payload_gas-exact_example :
    let payload = encode_state_updates_to_abi alloy one_store_one_log in
    estimate_applied_payload_gas alloy one_store_one_log 0 50000
    ≡ max
        (23000
          + 50000
          + 0
          + exact_costs one_store_one_log
          + 14 * length payload
          + transport_gas payload)
        (floor_gas payload)
estimate_applied_payload_gas-exact_example =
    estimate_applied_payload_gas-exact alloy one_store_one_log 0 50000
      (omega arith, (omega arith, tt)) affordable

estimate-le-gate_example :
    estimate_gas_from_state_updates alloy measured
    ≤ estimate_applied_payload_gas alloy measured.state_updates 0 50000
estimate-le-gate_example =
    estimate-le-gate alloy measured 0 50000 (omega arith) (omega arith) small_program
      (omega arith, (omega arith, tt)) affordable

abbrev accepted : UnboundedCost
accepted = record {
  stores = 1;
  tracker_stores = 0;
  calls = 0;
  logs = 1;
  creates = 0;
  applied_gas_upper_bound = 105262;
}

accepted_lem :
    validate alloy one_store_one_log 0 false 50000 unbounded_payload_gas_budget ≡ ok accepted
accepted_lem =
    validate-answer alloy one_store_one_log 0 false 50000 unbounded_payload_gas_budget
    ∙ rw price refl

validate_sound_example :
    (estimate_applied_payload_gas alloy one_store_one_log 0 50000 ≤ unbounded_payload_gas_budget)
    × (accepted.stores + accepted.tracker_stores + accepted.calls + accepted.logs + accepted.creates
        ≡ length one_store_one_log)
    × ((false ≡ true) ⊎ (accepted.creates ≡ 0))
validate_sound_example =
    validate_sound alloy one_store_one_log 0 false 50000 unbounded_payload_gas_budget accepted_lem
