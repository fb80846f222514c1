-- ===== src/Heuristic/Tests.antt =====
-- Examples of the heuristic estimate.
use gas_analyzer.Heuristic.{calldata_gas, apply_refund, estimate_gas_from_state_updates}
use gas_analyzer.Heuristic.Exact.{
  apply_refund_bounds, zero_bytes, zero_bytes-le-length, calldata_gas-exact, exact_gross,
  estimate_gas_from_state_updates-exact,
}
use gas_analyzer.Heuristic.Operations.{
  scan_log, scan_logs, refund_of, fresh_scan, extract_operation_counts_from_trace,
}
use gas_analyzer.Encoding.{encode_state_updates_to_abi}
use gas_analyzer.Encoding.Tests.{alloy, encoded_length, small_program}
use gas_analyzer.SimProfile.Tests.{measured}
use gas_analyzer.Heuristic.Rounds.{
  logs_of, IsCalls, count_rounds, extract_operation_counts_from_trace-count_rounds, Rounds, done,
  plain, external,
}
use gas_analyzer.Evm.{StructLog, DefaultFrame, Op}
use gas_analyzer.Prelude.Assoc.{lookup, insert, remove}
use gas_analyzer.Prelude.{
  ℕ, ◌+◌, ◌-◌, ◌*◌, ◌/◌, ◌≤◌, ◌<◌, min, ◌≡◌, refl, false, none, some, [], ◌∷◌, arith, length, last?,
  u64_mod,
}
use gas_analyzer.Prelude.Bytes.{Bytes}

apply_refund_bounds_example :
    (apply_refund 30000 9000 ≤ 30000)
    × (4 * 30000 ≤ 5 * apply_refund 30000 9000)
    × (30000 ≤ apply_refund 30000 9000 + 9000)
    × (apply_refund 30000 9000 ≤ apply_refund 40000 9000)
apply_refund_bounds_example = apply_refund_bounds 30000 40000 9000 (omega arith)

abbrev some_bytes : Bytes
some_bytes = 0 ∷ 7 ∷ 0 ∷ []

calldata_gas-exact_example :
    calldata_gas some_bytes
    ≡ 4 * zero_bytes some_bytes + 16 * (length some_bytes - zero_bytes some_bytes)
calldata_gas-exact_example = calldata_gas-exact some_bytes (omega arith)

gross_fits : exact_gross alloy measured < u64_mod
gross_fits =
    let encoded : length (encode_state_updates_to_abi alloy measured.state_updates) ≡ 512 =
      encoded_length in
    omega (
      arith,
      zero_bytes-le-length (encode_state_updates_to_abi alloy measured.state_updates),
      encoded,
    )

estimate_gas_from_state_updates-exact_example :
    estimate_gas_from_state_updates alloy measured
    ≡ exact_gross alloy measured - min measured.refund_counter (exact_gross alloy measured / 5)
estimate_gas_from_state_updates-exact_example =
    estimate_gas_from_state_updates-exact alloy measured small_program gross_fits

abbrev at_depth : ℕ → Op → ℕ → StructLog
at_depth depth op gas = record {
  depth = depth;
  op = op;
  gas = gas;
  gas_cost = 100;
  stack = some [];
  memory = none;
  refund_counter = none;
  has_error = false;
}

abbrev one_call : DefaultFrame
one_call = record {
  failed = false;
  return_value = [];
  struct_logs =
      at_depth 1 Op.sstore 90000
      ∷ at_depth 1 Op.call 80000
      ∷ at_depth 2 Op.sstore 70000
      ∷ at_depth 1 Op.log1 60000
      ∷ [];
}

-- The callee's store is in the call's gas and is not charged again.
one_call_gas : (extract_operation_counts_from_trace one_call).external_call_gas ≡ 20000
unfolding extract_operation_counts_from_trace scan_logs scan_log lookup insert remove
one_call_gas = refl

one_call_stores : (extract_operation_counts_from_trace one_call).sstore_gas_total ≡ 100
unfolding extract_operation_counts_from_trace scan_logs scan_log lookup insert remove
one_call_stores = refl

abbrev one_call_rounds : Rounds
one_call_rounds = plain (at_depth 1 Op.sstore 90000) (
    external (at_depth 1 Op.call 80000) (at_depth 2 Op.sstore 70000) []
      (plain (at_depth 1 Op.log1 60000) done))

one_call-IsCalls : IsCalls one_call_rounds
one_call-IsCalls = (refl, (refl, tt, refl, refl, (refl, tt)))

one_call_logs : one_call.struct_logs ≡ logs_of one_call_rounds
unfolding logs_of
one_call_logs = refl

extract_operation_counts_from_trace-count_rounds_example :
    extract_operation_counts_from_trace one_call
    ≡ count_rounds one_call_rounds (fresh_scan (refund_of (last? one_call.struct_logs))).operations
extract_operation_counts_from_trace-count_rounds_example =
    extract_operation_counts_from_trace-count_rounds one_call one_call_rounds one_call_logs
      one_call-IsCalls

-- A call that opened no frame is charged when a later static call returns.
abbrev stale_call : DefaultFrame
stale_call = record {
  failed = false;
  return_value = [];
  struct_logs =
      at_depth 1 Op.call 80000
      ∷ at_depth 1 Op.sstore 50000
      ∷ at_depth 1 Op.staticcall 40000
      ∷ at_depth 2 (Op.other 0) 39000
      ∷ at_depth 1 (Op.other 0) 30000
      ∷ [];
}

stale_call_gas : (extract_operation_counts_from_trace stale_call).external_call_gas ≡ 50000
unfolding extract_operation_counts_from_trace scan_logs scan_log lookup insert remove
stale_call_gas = refl
