-- ===== src/SimProfile/Gas.antt =====
-- The gas schedule of the gate (crates/core/src/sim_profile.rs).
use gas_analyzer.Prelude.{ℕ, ◌+◌}

abbrev pub unbounded_cold_sstore_cost : ℕ
unbounded_cold_sstore_cost = 2100 + 20000

abbrev pub log_base : ℕ
log_base = 375

abbrev pub log_topic : ℕ
log_topic = 375

abbrev pub log_byte : ℕ
log_byte = 8

abbrev pub tx_base : ℕ
tx_base = 21000

abbrev pub calldata_zero_byte : ℕ
calldata_zero_byte = 4

abbrev pub calldata_nonzero_byte : ℕ
calldata_nonzero_byte = 16

abbrev pub calldata_floor_token : ℕ
calldata_floor_token = 10

abbrev pub calldata_floor_nonzero_tokens : ℕ
calldata_floor_nonzero_tokens = 4

abbrev pub unbounded_apply_base_gas : ℕ
unbounded_apply_base_gas = 2000

abbrev pub unbounded_apply_gas_per_payload_byte : ℕ
unbounded_apply_gas_per_payload_byte = 14
