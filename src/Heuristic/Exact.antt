-- ===== src/Heuristic/Exact.antt =====
-- The estimate without wrap-around, and the bounds on the refund.
use gas_analyzer.Encoding.{AbiSequence, encode_state_updates_to_abi}
use gas_analyzer.Extract.{TraceExtract}
use gas_analyzer.Heuristic.{
  calldata_gas, apply_refund, update_gas, add_update_gas, estimate_gas_from_state_updates,
}
use gas_analyzer.Prelude.{
  ℕ, ◌+◌, ◌-◌, ◌*◌, ◌/◌, ◌≤◌, ◌<◌, min, ◌≡◌, refl, ap, ◌∙◌, List, [], ◌∷◌, arith, ◌==◌,
  if◌then◌else◌, length, u64_mod, ◌+64◌,
}
use gas_analyzer.Prelude.Bytes.{Bytes}
use gas_analyzer.Types.{StateUpdate, log0, log1, log2, log3, log4}

-- The refund takes at most a fifth of the gross estimate, and never more than was refunded; a
-- larger gross estimate never gives a smaller net one.
pub apply_refund_bounds :
    (gross gross' refund : ℕ)
    → gross ≤ gross'
    → (apply_refund gross refund ≤ gross)
      × (4 * gross ≤ 5 * apply_refund gross refund)
      × (gross ≤ apply_refund gross refund + refund)
      × (apply_refund gross refund ≤ apply_refund gross' refund)
unfolding apply_refund
apply_refund_bounds gross gross' refund h = omega arith

abbrev pub zero_bytes : Bytes → ℕ
zero_bytes [] = 0
zero_bytes (b ∷ payload) = (if b == 0 then 1 else 0) + zero_bytes payload

pub zero_bytes-le-length : (payload : Bytes) → zero_bytes payload ≤ length payload
zero_bytes-le-length [] = omega arith
zero_bytes-le-length (b ∷ payload) = ground (arith, zero_bytes-le-length payload)

-- The price of a payload that fits in memory is exact.
pub calldata_gas-exact :
    (payload : Bytes)
    → 16 * length payload < u64_mod
    → calldata_gas payload ≡ 4 * zero_bytes payload + 16 * (length payload - zero_bytes payload)
unfolding calldata_gas
calldata_gas-exact [] h = refl
calldata_gas-exact (b ∷ payload) h =
    ground (arith, calldata_gas-exact payload, zero_bytes-le-length payload)

abbrev pub exact_log_gas : ℕ → Bytes → ℕ
exact_log_gas topics payload = 375 + 375 * topics + length payload * 8

abbrev pub exact_update_gas : StateUpdate → ℕ
exact_update_gas (log0 log) = exact_log_gas 0 log.log_data
exact_update_gas (log1 log) = exact_log_gas 1 log.log_data
exact_update_gas (log2 log) = exact_log_gas 2 log.log_data
exact_update_gas (log3 log) = exact_log_gas 3 log.log_data
exact_update_gas (log4 log) = exact_log_gas 4 log.log_data
exact_update_gas _ = 0

-- What the logs of a program cost.
abbrev pub exact_program_gas : List StateUpdate → ℕ
exact_program_gas [] = 0
exact_program_gas (u ∷ us) = exact_update_gas u + exact_program_gas us

update_gas-exact :
    (u : StateUpdate) → exact_update_gas u < u64_mod → update_gas u ≡ exact_update_gas u
update_gas-exact (log0 log) h = omega arith
update_gas-exact (log1 log) h = omega arith
update_gas-exact (log2 log) h = omega arith
update_gas-exact (log3 log) h = omega arith
update_gas-exact (log4 log) h = omega arith
update_gas-exact _ h = refl

add_update_gas-exact :
    (gas : ℕ) (us : List StateUpdate)
    → gas + exact_program_gas us < u64_mod
    → add_update_gas gas us ≡ gas + exact_program_gas us
unfolding add_update_gas
add_update_gas-exact gas [] h = omega arith
add_update_gas-exact gas (u ∷ us) h =
    let e : gas +64 update_gas u ≡ gas + exact_update_gas u =
      omega (arith, update_gas-exact u (omega arith)) in
    rw e (add_update_gas-exact (gas + exact_update_gas u) us (omega arith) ∙ omega arith)

-- The gross estimate: the transaction, its calldata, the measured gas and the logs.
abbrev pub exact_gross : AbiSequence → TraceExtract → ℕ
exact_gross abi extract =
    let payload = encode_state_updates_to_abi abi extract.state_updates in
    21000
    + (4 * zero_bytes payload + 16 * (length payload - zero_bytes payload))
    + extract.call_gas_total
    + extract.create_gas_total
    + extract.sstore_gas_total
    + exact_program_gas extract.state_updates

-- Where the gross estimate fits a `u64`, the estimate is that, less the refund counter or a fifth of
-- the gross estimate, whichever is smaller.
pub estimate_gas_from_state_updates-exact :
    (abi : AbiSequence) (extract : TraceExtract)
    → 16 * length (encode_state_updates_to_abi abi extract.state_updates) < u64_mod
    → exact_gross abi extract < u64_mod
    → estimate_gas_from_state_updates abi extract
      ≡ exact_gross abi extract - min extract.refund_counter (exact_gross abi extract / 5)
unfolding estimate_gas_from_state_updates apply_refund
estimate_gas_from_state_updates-exact abi extract small h =
    ap (λ g. apply_refund g extract.refund_counter) gross
  where
    us : List StateUpdate
    us = extract.state_updates

    payload : Bytes
    payload = encode_state_updates_to_abi abi us

    before : ℕ
    before =
        21000
        +64 calldata_gas payload
        +64 extract.call_gas_total
        +64 extract.create_gas_total
        +64 extract.sstore_gas_total

    measured :
        before
        ≡ 21000
          + (4 * zero_bytes payload + 16 * (length payload - zero_bytes payload))
          + extract.call_gas_total
          + extract.create_gas_total
          + extract.sstore_gas_total
    measured = omega (arith, calldata_gas-exact payload small)

    gross : add_update_gas before us ≡ exact_gross abi extract
    gross = ap (λ g. add_update_gas g us) measured ∙ add_update_gas-exact _ us h
