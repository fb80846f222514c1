-- ===== src/Extract/Tests.antt =====
-- An example of extraction: a frame that stores, delegates to a library that stores and logs, calls
-- an account whose own store and nested delegate are left to the call, and stores again.
use gas_analyzer.Extract.{
  TraceExtract, callee_gas, start, pop_calls, step, run, finish, compute_state_updates,
}
use gas_analyzer.Extract.Tree.{logs_of, IsLabelled, scope_updates, Body, done, delegate, own}
use gas_analyzer.Extract.Scope.{compute_state_updates-scope_updates}
use gas_analyzer.Extract.Lean.{lean_frame, compute_state_updates-lean_frame}
use gas_analyzer.Trace.Tests.{hex_decode, step_at, sample_memory}
use gas_analyzer.Trace.{
  copy_memory, strip_0x, requires_memory, decode_op, parse_trace_memory,
  append_state_update_from_struct_log,
}
use gas_analyzer.Evm.{StructLog, DefaultFrame, Op}
use gas_analyzer.Prelude.Results.{ok}
use gas_analyzer.Prelude.Assoc.{lookup, insert, remove}
use gas_analyzer.Prelude.{ℕ, ◌≡◌, refl, false, none, [], ◌∷◌, arith}
use gas_analyzer.Types.{store, call, log0}

abbrev store_at : ℕ → ℕ → ℕ → StructLog
store_at gas slot value = step_at 0 Op.sstore gas (value ∷ slot ∷ [])

abbrev stop_at : ℕ → StructLog
stop_at gas = step_at 0 (Op.other 0) gas []

abbrev leaf : StructLog → Body → Body
leaf log rest = own log done rest

abbrev library : Body
library =
    leaf (store_at 88000 2 20)
      (leaf (step_at 0 Op.log0 87000 (1 ∷ 0 ∷ [])) (leaf (stop_at 86000) done))

abbrev callee : Body
callee = leaf (store_at 59000 1 77) (
    delegate (step_at 0 Op.delegatecall 58000 (3 ∷ 50000 ∷ [])) (leaf (store_at 49000 1 78) done)
      (leaf (stop_at 45000) done))

abbrev root : Body
root = leaf (store_at 99000 1 10) (
    delegate (step_at 0 Op.delegatecall 90000 (3 ∷ 89000 ∷ [])) library (
      own (step_at 0 Op.call 80000 (0 ∷ 0 ∷ 1 ∷ 0 ∷ 5 ∷ 51 ∷ 60000 ∷ [])) callee
        (leaf (store_at 40000 1 11) (leaf (stop_at 30000) done))))

abbrev root_trace : DefaultFrame
root_trace = record { failed = false; return_value = []; struct_logs = logs_of 1 root }

abbrev extracted : TraceExtract
extracted = record {
  state_updates =
      store (record { slot = 1; value = 10 })
      ∷ store (record { slot = 2; value = 20 })
      ∷ log0 (record { log_data = 42 ∷ [] })
      ∷ call (record { target = 51; value = 5; callargs = 42 ∷ [] })
      ∷ store (record { slot = 1; value = 11 })
      ∷ [];
  skipped_opcodes = [];
  call_gas_total = 40000;
  callee_gas_total = 40000;
  create_gas_total = 0;
  sstore_gas_total = 300;
  refund_counter = 0;
  reentered = false;
}

root-IsLabelled : IsLabelled root
root-IsLabelled = (refl, (refl, (refl, (refl, (refl, tt))), (refl, (refl, (refl, tt)))))

extracted_lem : compute_state_updates hex_decode root_trace none ≡ ok extracted
unfolding compute_state_updates run step start finish append_state_update_from_struct_log
    parse_trace_memory strip_0x decode_op copy_memory logs_of lookup insert remove pop_calls
    callee_gas requires_memory
extracted_lem = refl

compute_state_updates-scope_updates_example :
    scope_updates hex_decode 1 [] root ≡ ok extracted.state_updates
compute_state_updates-scope_updates_example =
    compute_state_updates-scope_updates hex_decode root_trace none root refl (omega arith)
      root-IsLabelled extracted_lem

abbrev short_trace : DefaultFrame
short_trace = record {
  failed = false;
  return_value = [];
  struct_logs = step_at 1 Op.sstore 900 (7 ∷ 1 ∷ []) ∷ step_at 1 Op.log0 800 (1 ∷ 0 ∷ []) ∷ [];
}

compute_state_updates-lean_frame_example :
    compute_state_updates hex_decode (lean_frame short_trace) none
    ≡ compute_state_updates hex_decode short_trace none
compute_state_updates-lean_frame_example =
    compute_state_updates-lean_frame hex_decode short_trace none
      (((42 ∷ []), sample_memory), (((42 ∷ []), sample_memory), tt))
