-- ===== src/Wasm/Tests.antt =====
-- Examples of what a prestate diff costs and starts from.
use gas_analyzer.Wasm.{add_slot_costs, net_sstore_costs, original_storage}
use gas_analyzer.Wasm.Costs.{store_costs, store_refunds, net_sstore_costs-store_costs}
use gas_analyzer.Wasm.Originals.{starting_value, lookup-original_storage}
use gas_analyzer.Split.Flush.{last_store}
use gas_analyzer.Prestate.{storage_of, extend_keys, union_keys, build_state_updates_from_prestate}
use gas_analyzer.CallTracer.{DiffMode, FrameType, CallFrame, frame, no_frames}
use gas_analyzer.Prelude.Sort.{insert_key}
use gas_analyzer.Prelude.Assoc.{lookup}
use gas_analyzer.Prelude.{◌*◌, ◌<◌, ◌≡◌, refl, none, [], ◌∷◌, arith, length, u64_mod}
use gas_analyzer.Types.{store}

abbrev quiet_call : CallFrame
quiet_call =
    frame
      (record { typ = FrameType.call; to = none; error = none; revert_reason = none; logs = [] })
      no_frames

abbrev changes : DiffMode
changes = record { pre = (170, (1, 5) ∷ (3, 7) ∷ []) ∷ []; post = (170, (1, 6) ∷ (2, 9) ∷ []) ∷ [] }

costs : net_sstore_costs changes 170 ≡ (32100, 4800)
unfolding net_sstore_costs add_slot_costs extend_keys insert_key lookup
costs = refl

few_slots :
    22100 * length (union_keys (storage_of 170 changes.pre) (storage_of 170 changes.post)) < u64_mod
unfolding extend_keys insert_key lookup
few_slots = omega arith

net_sstore_costs-store_costs_example : net_sstore_costs changes 170 ≡ (
  store_costs
      (storage_of 170 changes.pre)
      (build_state_updates_from_prestate 170 changes quiet_call),
  store_refunds
      (storage_of 170 changes.pre)
      (build_state_updates_from_prestate 170 changes quiet_call),
)
net_sstore_costs-store_costs_example = net_sstore_costs-store_costs 170 changes quiet_call few_slots

lookup-original_storage_example :
    lookup 2 (original_storage changes 170 (store (record { slot = 2; value = 9 }) ∷ []))
    ≡ starting_value
        (lookup 2 (storage_of 170 changes.pre))
        (lookup 2 (storage_of 170 changes.post))
        (last_store 2 (store (record { slot = 2; value = 9 }) ∷ []))
lookup-original_storage_example =
    lookup-original_storage changes 170 2 (store (record { slot = 2; value = 9 }) ∷ [])
