-- ===== src/Heuristic/Operations.antt =====
-- Counting a whole trace's operations and the gas of its external calls
-- (crates/core/src/heuristic.rs, `extract_operation_counts_from_trace`): the local variables of the
-- loop are the record `Scan`, and the parts of the loop's body are one function each, in their
-- order.
use gas_analyzer.Heuristic.{TraceOperations}
use gas_analyzer.Evm.{StructLog, DefaultFrame, Op}
use gas_analyzer.Prelude.Assoc.{lookup, insert, remove}
use gas_analyzer.Prelude.{
  ℕ, ◌-◌, Bool, true, false, ◌&&◌, ◌||◌, Option, none, some, List, [], ◌∷◌, ◌==◌, if◌then◌else◌,
  last?, ◌+64◌,
}

-- `call_type_at_depth` and `current_call_type` hold `CALL` or `DELEGATECALL`.
pub record Scan : Type 0 where
  pub operations : TraceOperations
  pub gas_after_call_opcode : Option ℕ
  pub previous_depth : ℕ
  pub in_external_call : Bool
  pub call_type_at_depth : List (ℕ × Op)
  pub current_call_type : Option Op

abbrev pub is_call : Op → Bool
is_call Op.call = true
is_call _ = false

abbrev pub is_delegatecall : Op → Bool
is_delegatecall Op.delegatecall = true
is_delegatecall _ = false

-- The test on `call_type_at_depth.get(&2)`.
abbrev pub is_tracked : Option Op → Bool
is_tracked none = false
is_tracked (some op) = is_call op || is_delegatecall op

abbrev pub in_delegate : Option Op → Bool
in_delegate none = false
in_delegate (some op) = is_delegatecall op

abbrev pub add_external : ℕ → TraceOperations → TraceOperations
add_external gas_used operations = record operations {
  external_call_gas = operations.external_call_gas +64 gas_used;
}

abbrev pub charge_external : Option ℕ → Option Op → StructLog → TraceOperations → TraceOperations
charge_external none call_type log operations = operations
charge_external (some gas_after_opcode) call_type log operations =
    if is_tracked call_type
    then add_external (gas_after_opcode - log.gas) operations
    else operations

abbrev pub record_type : Option Op → List (ℕ × Op) → List (ℕ × Op)
record_type none types = types
record_type (some call_type) types = insert 2 call_type types

-- A change of depth between 1 and 2.
abbrev pub cross : StructLog → Scan → Scan
cross log s =
    if (log.depth == 1) && (s.previous_depth == 2)
    then (if s.in_external_call
        then record s {
          operations =
              charge_external s.gas_after_call_opcode (lookup 2 s.call_type_at_depth) log
                s.operations;
          in_external_call = false;
          gas_after_call_opcode = none;
          call_type_at_depth = remove 2 s.call_type_at_depth;
          current_call_type = none;
        }
        else s)
    else (if (log.depth == 2) && (s.previous_depth == 1)
        then record s {
          call_type_at_depth = record_type s.current_call_type s.call_type_at_depth;
          in_external_call = true;
        }
        else s)

abbrev pub is_delegate_family : Op → Bool
is_delegate_family Op.delegatecall = true
is_delegate_family Op.callcode = true
is_delegate_family _ = false

abbrev pub track_call : StructLog → Scan → Scan
track_call log s =
    if is_call log.op && (log.depth == 1)
    then record s { gas_after_call_opcode = some log.gas; current_call_type = some Op.call }
    else s

abbrev pub track_delegate : StructLog → Scan → Scan
track_delegate log s =
    if is_delegate_family log.op && (log.depth == 1)
    then record s { current_call_type = some Op.delegatecall }
    else s

abbrev pub track_inner_call : StructLog → Scan → Scan
track_inner_call log s =
    if is_call log.op && (log.depth == 2) && in_delegate (lookup 2 s.call_type_at_depth)
    then record s { gas_after_call_opcode = some log.gas }
    else s

abbrev pub count_op : Op → StructLog → TraceOperations → TraceOperations
count_op Op.sstore log ops = record ops { sstore_gas_total = ops.sstore_gas_total +64 log.gas_cost }
count_op Op.log0 log ops = record ops { log0_count = ops.log0_count +64 1 }
count_op Op.log1 log ops = record ops { log1_count = ops.log1_count +64 1 }
count_op Op.log2 log ops = record ops { log2_count = ops.log2_count +64 1 }
count_op Op.log3 log ops = record ops { log3_count = ops.log3_count +64 1 }
count_op Op.log4 log ops = record ops { log4_count = ops.log4_count +64 1 }
count_op _ log ops = ops

abbrev pub is_counted : StructLog → Scan → Bool
is_counted log s =
    (log.depth == 1) || ((log.depth == 2) && in_delegate (lookup 2 s.call_type_at_depth))

abbrev pub count_counted : StructLog → Scan → Scan
count_counted log s =
    if is_counted log s then record s { operations = count_op log.op log s.operations } else s

unfoldable pub scan_log : StructLog → Scan → Scan
scan_log log s =
    let tracked = track_inner_call log (track_delegate log (track_call log (cross log s))) in
    record (count_counted log tracked) { previous_depth = log.depth }

unfoldable pub scan_logs : List StructLog → Scan → Scan
scan_logs [] s = s
scan_logs (log ∷ logs) s = scan_logs logs (scan_log log s)

abbrev pub refund_of : Option StructLog → ℕ
refund_of none = 0
refund_of (some log) = elim log.refund_counter [ none ↦ 0 | some n ↦ n ]

abbrev pub fresh_scan : ℕ → Scan
fresh_scan refund_counter = record {
  operations = record {
    sstore_gas_total = 0;
    log0_count = 0;
    log1_count = 0;
    log2_count = 0;
    log3_count = 0;
    log4_count = 0;
    external_call_gas = 0;
    refund_counter = refund_counter;
  };
  gas_after_call_opcode = none;
  previous_depth = 0;
  in_external_call = false;
  call_type_at_depth = [];
  current_call_type = none;
}

-- A trace that ends inside an external call.
abbrev pub close_scan : Option StructLog → Scan → TraceOperations
close_scan none s = s.operations
close_scan (some last_log) s =
    if s.in_external_call
    then charge_external s.gas_after_call_opcode (lookup 2 s.call_type_at_depth) last_log
        s.operations
    else s.operations

unfoldable pub extract_operation_counts_from_trace : DefaultFrame → TraceOperations
extract_operation_counts_from_trace trace =
    let last_log = last? trace.struct_logs in
    close_scan last_log (scan_logs trace.struct_logs (fresh_scan (refund_of last_log)))
