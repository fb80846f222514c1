-- ===== src/SimProfile.antt =====
-- The simulation profiles and the gate on the payload's cost (crates/core/src/sim_profile.rs).
pub mod Gas
pub mod Price
pub mod Verdict
pub mod Dominates
pub mod Tests
use gas_analyzer.Prelude.Results.{◌>>=◌, ◌>>◌, refuse_if, Result, ok, err}
use gas_analyzer.Encoding.{AbiSequence, encode_state_updates_to_abi}
use gas_analyzer.Prelude.{
  ℕ, suc, ◌+◌, ◌-◌, ◌*◌, ◌%◌, ◌^◌, max, Bool, true, false, Option, none, some, List, [], ◌∷◌, ltb,
  ◌==◌, if◌then◌else◌, length, u64_mod, saturating_add, saturating_mul,
}
use gas_analyzer.Prelude.Bytes.{Bytes}
use gas_analyzer.Types.{
  StateUpdate, store, call, log0, log1, log2, log3, log4, create, create2, nested,
}

abbrev pub state_tracker_slot : ℕ
state_tracker_slot = 0xdebfdfd5a50ad117c10898d68b5ccf0893c6b40d4f443f902e2e7646601bdeaf

-- 1 << 40
abbrev pub unbounded_block_gas_limit : ℕ
unbounded_block_gas_limit = 2 ^ 40

abbrev pub unbounded_tx_gas_limit : ℕ
unbounded_tx_gas_limit = unbounded_block_gas_limit

-- 1 << 24
abbrev pub unbounded_payload_gas_budget : ℕ
unbounded_payload_gas_budget = 2 ^ 24

pub data Profile : Type 0 where
  chain unbounded : Profile

unfoldable pub tx_gas_limit_override : Profile → Option ℕ
tx_gas_limit_override chain = none
tx_gas_limit_override unbounded = some unbounded_tx_gas_limit

unfoldable pub block_gas_limit_override : Profile → Option ℕ
block_gas_limit_override chain = none
block_gas_limit_override unbounded = some unbounded_block_gas_limit

unfoldable pub payload_gas_budget : Profile → Option ℕ
payload_gas_budget chain = none
payload_gas_budget unbounded = some unbounded_payload_gas_budget

abbrev pub log_cost : ℕ → Bytes → ℕ
log_cost topics payload =
    (Gas.log_base + Gas.log_topic * topics + length payload * Gas.log_byte) % u64_mod

-- The arms of the `match` in the loop over the updates.
abbrev pub update_cost : StateUpdate → ℕ
update_cost (store x) = Gas.unbounded_cold_sstore_cost
update_cost (call x) = 0
update_cost (nested x) = 0
update_cost (log0 l) = log_cost 0 l.log_data
update_cost (log1 l) = log_cost 1 l.log_data
update_cost (log2 l) = log_cost 2 l.log_data
update_cost (log3 l) = log_cost 3 l.log_data
update_cost (log4 l) = log_cost 4 l.log_data
update_cost (create x) = 0
update_cost (create2 x) = 0

unfoldable pub add_update_costs : ℕ → List StateUpdate → ℕ
add_update_costs gas [] = gas
add_update_costs gas (update ∷ updates) =
    add_update_costs (saturating_add gas (update_cost update)) updates

-- `payload.iter().filter(|byte| **byte == 0).count()`
unfoldable pub count_zero_bytes : Bytes → ℕ
count_zero_bytes [] = 0
count_zero_bytes (byte ∷ payload) =
    let rest = count_zero_bytes payload in if byte == 0 then suc rest else rest

-- The price of an encoded payload on top of what applying its operations costs.
unfoldable pub price_payload : ℕ → Bytes → ℕ
price_payload gas payload =
    let dispatched =
      saturating_add gas
        (saturating_mul (length payload) Gas.unbounded_apply_gas_per_payload_byte) in
    let zero_bytes = count_zero_bytes payload in
    let nonzero_bytes = length payload - zero_bytes in
    let transport =
      saturating_add (saturating_mul zero_bytes Gas.calldata_zero_byte)
        (saturating_mul nonzero_bytes Gas.calldata_nonzero_byte) in
    let tokens =
      saturating_add zero_bytes (saturating_mul nonzero_bytes Gas.calldata_floor_nonzero_tokens) in
    let floor = saturating_add Gas.tx_base (saturating_mul tokens Gas.calldata_floor_token) in
    max (saturating_add dispatched transport) floor

unfoldable pub estimate_applied_payload_gas : AbiSequence → List StateUpdate → ℕ → ℕ → ℕ
estimate_applied_payload_gas abi updates external_call_gas signature_floor =
    let gas =
      saturating_add (saturating_add (saturating_add Gas.tx_base signature_floor) external_call_gas)
        Gas.unbounded_apply_base_gas in
    price_payload (add_update_costs gas updates) (encode_state_updates_to_abi abi updates)

pub record UnboundedCost : Type 0 where
  pub stores : ℕ
  pub tracker_stores : ℕ
  pub calls : ℕ
  pub logs : ℕ
  pub creates : ℕ
  pub applied_gas_upper_bound : ℕ

pub data UnboundedCostViolation : Type 0 where
  payload_too_expensive : ℕ → ℕ → ℕ → UnboundedCostViolation
  create_not_allowed : ℕ → UnboundedCostViolation

-- The arms of the `match` in `validate`: the counter that an update raises.
abbrev pub count_update :
    Bool → ℕ → StateUpdate → UnboundedCost → Result UnboundedCostViolation UnboundedCost
count_update creates_replayable index (store s) cost = ok (
    if s.slot == state_tracker_slot
    then record cost { tracker_stores = cost.tracker_stores + 1 }
    else record cost { stores = cost.stores + 1 })
count_update creates_replayable index (call x) cost = ok (record cost { calls = cost.calls + 1 })
count_update creates_replayable index (nested x) cost = ok (record cost { calls = cost.calls + 1 })
count_update creates_replayable index (log0 x) cost = ok (record cost { logs = cost.logs + 1 })
count_update creates_replayable index (log1 x) cost = ok (record cost { logs = cost.logs + 1 })
count_update creates_replayable index (log2 x) cost = ok (record cost { logs = cost.logs + 1 })
count_update creates_replayable index (log3 x) cost = ok (record cost { logs = cost.logs + 1 })
count_update creates_replayable index (log4 x) cost = ok (record cost { logs = cost.logs + 1 })
count_update creates_replayable index (create x) cost =
    if creates_replayable
    then ok (record cost { creates = cost.creates + 1 })
    else err (create_not_allowed index)
count_update creates_replayable index (create2 x) cost =
    if creates_replayable
    then ok (record cost { creates = cost.creates + 1 })
    else err (create_not_allowed index)

-- The loop of `validate`, `enumerate`d from an index. The counts are below the number of updates.
unfoldable pub count_updates :
    Bool → ℕ → List StateUpdate → UnboundedCost → Result UnboundedCostViolation UnboundedCost
count_updates creates_replayable index [] cost = ok cost
count_updates creates_replayable index (update ∷ updates) cost = do
  cost' ← count_update creates_replayable index update cost
  count_updates creates_replayable (index + 1) updates cost'

abbrev pub no_cost : UnboundedCost
no_cost = record {
  stores = 0;
  tracker_stores = 0;
  calls = 0;
  logs = 0;
  creates = 0;
  applied_gas_upper_bound = 0;
}

unfoldable pub validate :
    AbiSequence → List StateUpdate → ℕ → Bool → ℕ → ℕ → Result UnboundedCostViolation UnboundedCost
validate abi updates replayed_gas creates_replayable signature_floor budget = do
  counted ← count_updates creates_replayable 0 updates no_cost
  let bound = estimate_applied_payload_gas abi updates replayed_gas signature_floor
  refuse_if (ltb budget bound) (payload_too_expensive bound budget counted.stores)
  ok (record counted { applied_gas_upper_bound = bound })

unfoldable pub validate_unbounded_cost :
    AbiSequence → List StateUpdate → ℕ → ℕ → ℕ → Result UnboundedCostViolation UnboundedCost
validate_unbounded_cost abi updates external_call_gas signature_floor budget =
    validate abi updates external_call_gas false signature_floor budget

unfoldable pub validate_unbounded_tree_cost :
    AbiSequence → List StateUpdate → ℕ → ℕ → ℕ → ℕ → Result UnboundedCostViolation UnboundedCost
validate_unbounded_tree_cost abi updates external_call_gas create_gas signature_floor budget =
    validate abi updates (saturating_add external_call_gas create_gas) true signature_floor budget
