-- ===== src/Heuristic.antt =====
-- The heuristic gas estimate (crates/core/src/heuristic.rs).
pub mod Exact
pub mod Operations
pub mod Rounds
pub mod Tests
use gas_analyzer.Encoding.{AbiSequence, encode_state_updates_to_abi}
use gas_analyzer.Extract.{TraceExtract}
use gas_analyzer.Prelude.{
  ℕ, ◌+◌, ◌-◌, ◌*◌, ◌/◌, ◌%◌, min, List, [], ◌∷◌, ◌==◌, if◌then◌else◌, length, u64_mod, ◌+64◌,
}
use gas_analyzer.Prelude.Bytes.{Bytes}
use gas_analyzer.Types.{
  StateUpdate, store, call, log0, log1, log2, log3, log4, create, create2, nested,
}

abbrev pub base_tx_cost : ℕ
base_tx_cost = 21000

abbrev pub max_refund_quotient : ℕ
max_refund_quotient = 5

abbrev pub calldata_zero_byte_cost : ℕ
calldata_zero_byte_cost = 4

abbrev pub calldata_nonzero_byte_cost : ℕ
calldata_nonzero_byte_cost = 16

abbrev pub log_base_cost : ℕ
log_base_cost = 375

abbrev pub log_topic_cost : ℕ
log_topic_cost = 375

abbrev pub log_data_cost_per_byte : ℕ
log_data_cost_per_byte = 8

unfoldable pub calldata_gas : Bytes → ℕ
calldata_gas [] = 0
calldata_gas (b ∷ payload) =
    (if b == 0 then calldata_zero_byte_cost else calldata_nonzero_byte_cost)
    +64 calldata_gas payload

unfoldable pub apply_refund : ℕ → ℕ → ℕ
apply_refund gross refund_counter = gross - min refund_counter (gross / max_refund_quotient)

abbrev pub log_gas : ℕ → Bytes → ℕ
log_gas topics payload =
    (log_base_cost + log_topic_cost * topics + length payload * log_data_cost_per_byte) % u64_mod

-- Stores, calls and creates are charged through the totals of the trace.
abbrev pub update_gas : StateUpdate → ℕ
update_gas (store x) = 0
update_gas (call x) = 0
update_gas (nested x) = 0
update_gas (log0 log) = log_gas 0 log.log_data
update_gas (log1 log) = log_gas 1 log.log_data
update_gas (log2 log) = log_gas 2 log.log_data
update_gas (log3 log) = log_gas 3 log.log_data
update_gas (log4 log) = log_gas 4 log.log_data
update_gas (create x) = 0
update_gas (create2 x) = 0

unfoldable pub add_update_gas : ℕ → List StateUpdate → ℕ
add_update_gas gas [] = gas
add_update_gas gas (update ∷ updates) = add_update_gas (gas +64 update_gas update) updates

unfoldable pub estimate_gas_from_state_updates : AbiSequence → TraceExtract → ℕ
estimate_gas_from_state_updates abi extract =
    let calldata = calldata_gas (encode_state_updates_to_abi abi extract.state_updates) in
    let gas =
      base_tx_cost +64 calldata +64 extract.call_gas_total +64 extract.create_gas_total
      +64 extract.sstore_gas_total in
    apply_refund (add_update_gas gas extract.state_updates) extract.refund_counter

-- `log_counts` has five entries, of LOG0 to LOG4.
pub record TraceOperations : Type 0 where
  pub sstore_gas_total : ℕ
  pub log0_count : ℕ
  pub log1_count : ℕ
  pub log2_count : ℕ
  pub log3_count : ℕ
  pub log4_count : ℕ
  pub external_call_gas : ℕ
  pub refund_counter : ℕ

abbrev pub log_count_gas : ℕ → ℕ → ℕ
log_count_gas count topics = count * (log_base_cost + log_topic_cost * topics) % u64_mod

unfoldable pub estimate_gas_from_operations : TraceOperations → ℕ
estimate_gas_from_operations operations =
    let gas =
      base_tx_cost
      +64 operations.sstore_gas_total
      +64 log_count_gas operations.log0_count 0
      +64 log_count_gas operations.log1_count 1
      +64 log_count_gas operations.log2_count 2
      +64 log_count_gas operations.log3_count 3
      +64 log_count_gas operations.log4_count 4
      +64 operations.external_call_gas in
    apply_refund gas operations.refund_counter
