-- ===== src/Extract.antt =====
-- Extracting the state updates of a whole trace (crates/core/src/trace.rs, `TraceExtract` to
-- `compute_state_updates`): the local variables of the loop are the record `Walk`, and the parts
-- of the loop's body are one function each, in their order.
pub mod Tree
pub mod Step
pub mod Scope
pub mod Lean
pub mod Tests
use gas_analyzer.Evm.{StructLog, DefaultFrame, address_from_word, Op}
use gas_analyzer.Failure.{Failure, panic, failed_create}
use gas_analyzer.Prelude.Results.{◌>>=◌, ◌>>◌, refuse_if, Result, ok, err}
use gas_analyzer.Prelude.Assoc.{lookup, insert, remove}
use gas_analyzer.Trace.{append_state_update_from_struct_log}
use gas_analyzer.Prelude.{
  ℕ, ◌-◌, Bool, true, false, not, ◌&&◌, Option, none, some, List, [], ◌∷◌, ltb, leb, ◌==◌,
  if◌then◌else◌, length, get_elem?, last?, is_nil, ◌+64◌,
}
use gas_analyzer.Prelude.Bytes.{Bytes}
use gas_analyzer.Types.{StateUpdate}

pub record TraceExtract : Type 0 where
  pub state_updates : List StateUpdate
  pub skipped_opcodes : List Op
  pub call_gas_total : ℕ
  pub callee_gas_total : ℕ
  pub create_gas_total : ℕ
  pub sstore_gas_total : ℕ
  pub refund_counter : ℕ
  pub reentered : Bool

unfoldable pub callee_gas : ℕ → ℕ → Option ℕ → ℕ
callee_gas gas_used gas_cost none = 0
callee_gas gas_used gas_cost (some entry) = gas_used - (gas_cost - entry)

pub record CallGas : Type 0 where
  pub gas : ℕ
  pub gas_cost : ℕ
  pub entry_gas : Option ℕ

-- `call_stack` has its top first: a `CALL`'s depth and its index. `awaiting_entry` and
-- `pending_create` hold a depth and an index, and a depth and the gas at the opcode.
pub record Walk : Type 0 where
  pub state_updates : List StateUpdate
  pub target_depth : ℕ
  pub skipped_opcodes : List Op
  pub call_stack : List (ℕ × ℕ)
  pub call_type_at_depth : List (ℕ × Op)
  pub call_gas_tracking : List (ℕ × CallGas)
  pub awaiting_entry : Option (ℕ × ℕ)
  pub pending_create : Option (ℕ × ℕ)
  pub total_call_gas : ℕ
  pub callee_gas_total : ℕ
  pub create_gas_total : ℕ
  pub sstore_gas_total : ℕ
  pub reentered : Bool

unfoldable pub start : Walk
start = record {
  state_updates = [];
  target_depth = 1;
  skipped_opcodes = [];
  call_stack = [];
  call_type_at_depth = [];
  call_gas_tracking = [];
  awaiting_entry = none;
  pending_create = none;
  total_call_gas = 0;
  callee_gas_total = 0;
  create_gas_total = 0;
  sstore_gas_total = 0;
  reentered = false;
}

abbrev pub set_entry : StructLog → ℕ → Option CallGas → List (ℕ × CallGas) → List (ℕ × CallGas)
set_entry log idx none tracking = tracking
set_entry log idx (some c) tracking = insert idx (record c { entry_gas = some log.gas }) tracking

-- The log after an extracted `CALL` is its callee's first step if it is one level deeper.
abbrev pub enter_callee : StructLog → Option (ℕ × ℕ) → Walk → Walk
enter_callee log none w = w
enter_callee log (some (call_depth, idx)) w = record w {
  awaiting_entry = none;
  call_gas_tracking =
      if log.depth == call_depth +64 1
      then set_entry log idx (lookup idx w.call_gas_tracking) w.call_gas_tracking
      else w.call_gas_tracking;
}

-- The address that a create left on top of the stack, when execution resumes at its depth.
abbrev pub deployed : StructLog → ℕ → Option ℕ
deployed log create_depth =
    if log.depth == create_depth then elim log.stack [ none ↦ none | some s ↦ last? s ] else none

-- `is_none_or(is_zero)`
abbrev pub is_none_or_zero : Option ℕ → Bool
is_none_or_zero none = true
is_none_or_zero (some n) = n == 0

abbrev pub resume_create : StructLog → Option (ℕ × ℕ) → Walk → Result Failure Walk
resume_create log none w = ok w
resume_create log (some (create_depth, gas_at_opcode)) w =
    if leb log.depth create_depth
    then (if is_none_or_zero (deployed log create_depth)
        then err (failed_create create_depth)
        else ok (record w {
          pending_create = none;
          create_gas_total = w.create_gas_total +64 (gas_at_opcode - log.gas);
        }))
    else ok w

abbrev pub is_call_family : Op → Bool
is_call_family Op.call = true
is_call_family Op.staticcall = true
is_call_family Op.delegatecall = true
is_call_family Op.callcode = true
is_call_family _ = false

-- The second stack item from the top is the target of every call.
abbrev pub calls_origin : ℕ → Option (List ℕ) → Bool
calls_origin origin none = false
calls_origin origin (some stack) =
    if leb 2 (length stack)
    then elim (get_elem? stack (length stack - 2)) [
      | none ↦ false
      | some word ↦ address_from_word word == origin
    ]
    else false

abbrev pub detect_reentry : Option ℕ → StructLog → Walk → Walk
detect_reentry none log w = w
detect_reentry (some origin) log w =
    if not w.reentered
      && (leb 2 log.depth && is_call_family log.op)
      && calls_origin origin log.stack
    then record w { reentered = true }
    else w

abbrev pub charge_call : StructLog → Option CallGas → ℕ × ℕ → ℕ × ℕ
charge_call log none totals = totals
charge_call log (some c) (total, callee) =
    let gas_used = c.gas - log.gas in
    (total +64 gas_used, callee +64 callee_gas gas_used c.gas_cost c.entry_gas)

-- `while let Some(&(d, idx)) = call_stack.last()`: what is left of the stack and of the tracking,
-- and the two totals.
unfoldable pub pop_calls :
    StructLog
    → List (ℕ × ℕ)
    → List (ℕ × CallGas)
    → ℕ × ℕ
    → List (ℕ × ℕ) × List (ℕ × CallGas) × (ℕ × ℕ)
pop_calls log [] tracking totals = ([], tracking, totals)
pop_calls log ((d, idx) ∷ call_stack) tracking totals =
    let popped =
      pop_calls log call_stack (remove idx tracking)
        (charge_call log (lookup idx tracking) totals) in
    if leb log.depth d then popped else ((d, idx) ∷ call_stack, tracking, totals)

-- Stepping up resets the target depth.
abbrev pub leave_calls : StructLog → Walk → Walk
leave_calls log w =
    let popped =
      pop_calls log w.call_stack w.call_gas_tracking (w.total_call_gas, w.callee_gas_total) in
    if ltb log.depth w.target_depth
    then record w {
      call_stack = popped.0;
      call_gas_tracking = popped.1;
      total_call_gas = popped.2.0;
      callee_gas_total = popped.2.1;
      call_type_at_depth = remove w.target_depth w.call_type_at_depth;
      target_depth = log.depth;
    }
    else w

abbrev pub is_delegate : Op → Bool
is_delegate Op.delegatecall = true
is_delegate Op.callcode = true
is_delegate _ = false

abbrev pub is_extracted : Op → Bool
is_extracted Op.call = true
is_extracted Op.sstore = true
is_extracted Op.log0 = true
is_extracted Op.log1 = true
is_extracted Op.log2 = true
is_extracted Op.log3 = true
is_extracted Op.log4 = true
is_extracted Op.create = true
is_extracted Op.create2 = true
is_extracted _ = false

-- What follows a state update that was added, by its opcode.
abbrev pub note_added : StructLog → Op → Walk → Walk
note_added log Op.sstore w = record w { sstore_gas_total = w.sstore_gas_total +64 log.gas_cost }
note_added log Op.create w = record w { pending_create = some (log.depth, log.gas) }
note_added log Op.create2 w = record w { pending_create = some (log.depth, log.gas) }
note_added log Op.call w =
    let call_index = length w.state_updates in
    record w {
      call_stack = (log.depth, call_index) ∷ w.call_stack;
      call_gas_tracking =
          insert call_index (record { gas = log.gas; gas_cost = log.gas_cost; entry_gas = none })
            w.call_gas_tracking;
      awaiting_entry = some (log.depth, call_index);
      target_depth = log.depth +64 1;
    }
note_added log _ w = w

abbrev pub note_appended : StructLog → ℕ → List StateUpdate × Option Op → Walk → Walk
note_appended log count_before (us, some skipped) w = record w {
  state_updates = us;
  skipped_opcodes = skipped ∷ w.skipped_opcodes;
}
note_appended log count_before (us, none) w =
    let w' = record w { state_updates = us } in
    if ltb count_before (length us) then note_added log log.op w' else w'

module _ (decode_to_slice : List ℕ → Option Bytes) where
  abbrev pub extract_op : StructLog → Walk → Result Failure Walk
  extract_op log w =
      if log.depth == w.target_depth
      then (if is_delegate log.op
          then ok (record w {
            target_depth = log.depth +64 1;
            call_type_at_depth = insert (log.depth +64 1) Op.delegatecall w.call_type_at_depth;
          })
          else (if is_extracted log.op && is_nil w.call_stack
              then (do
                appended ← append_state_update_from_struct_log decode_to_slice w.state_updates log
                ok (note_appended log (length w.state_updates) appended w))
              else ok w))
      else ok w

  unfoldable pub step : Option ℕ → StructLog → Walk → Result Failure Walk
  step origin log w = do
    let entered = enter_callee log w.awaiting_entry w
    resumed ← resume_create log entered.pending_create entered
    extract_op log (leave_calls log (detect_reentry origin log resumed))

  unfoldable pub run : Option ℕ → List StructLog → Walk → Result Failure Walk
  run origin [] w = ok w
  run origin (log ∷ logs) w = do w' ← step origin log w; run origin logs w'

  abbrev pub last_refund : Option StructLog → ℕ
  last_refund none = 0
  last_refund (some log) = elim log.refund_counter [ none ↦ 0 | some n ↦ n ]

  -- A create still pending at the end failed; a call that never returned is a panic.
  unfoldable pub finish : ℕ → Walk → Result Failure TraceExtract
  finish refund_counter w = do
    elim w.pending_create [ none ↦ ok tt | some (depth, gas) ↦ err (failed_create depth) ]
    refuse_if (not (is_nil w.call_gas_tracking)) panic
    ok (record {
      state_updates = w.state_updates;
      skipped_opcodes = w.skipped_opcodes;
      call_gas_total = w.total_call_gas;
      callee_gas_total = w.callee_gas_total;
      create_gas_total = w.create_gas_total;
      sstore_gas_total = w.sstore_gas_total;
      refund_counter = refund_counter;
      reentered = w.reentered;
    })

  unfoldable pub compute_state_updates : DefaultFrame → Option ℕ → Result Failure TraceExtract
  compute_state_updates trace origin = do
    w ← run origin trace.struct_logs start
    finish (last_refund (last? trace.struct_logs)) w
