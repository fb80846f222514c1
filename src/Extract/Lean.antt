-- ===== src/Extract/Lean.antt =====
-- Extraction from a trace that the lean parser read (crates/wasm/src/lean_trace.rs).
use mathlib.Core.Path.{fun_ext}
use gas_analyzer.Evm.{StructLog, DefaultFrame, Op}
use gas_analyzer.Prelude.Assoc.{lookup, remove}
use gas_analyzer.Trace.Append.{lean_struct_log, MemoryParses, append-lean_struct_log}
use gas_analyzer.Extract.{
  CallGas, Walk, start, enter_callee, resume_create, detect_reentry, charge_call, pop_calls,
  leave_calls, note_added, note_appended, extract_op, step, run, last_refund, compute_state_updates,
}
use gas_analyzer.Prelude.{
  ℕ, ◌≡◌, refl, ap, ◌∙◌, Option, none, some, List, [], ◌∷◌, map, arith, ltb, if◌then◌else◌, length,
  last?, All,
}
use gas_analyzer.Types.{StateUpdate}
use gas_analyzer.Prelude.Bytes.{Bytes}
use gas_analyzer.Prelude.Results.{◌>>=◌, ok}
use gas_analyzer.Trace.{append_state_update_from_struct_log}

-- The trace with memory only where an opcode reads it.
unfoldable pub lean_frame : DefaultFrame → DefaultFrame
lean_frame trace = record trace { struct_logs = map lean_struct_log trace.struct_logs }

-- Two logs that differ in their memory only.
pub record SameButMemory (l m : StructLog) : Type 0 where
  depth : l.depth ≡ m.depth
  op : l.op ≡ m.op
  gas : l.gas ≡ m.gas
  gas_cost : l.gas_cost ≡ m.gas_cost
  stack : l.stack ≡ m.stack
  refund_counter : l.refund_counter ≡ m.refund_counter

lean-SameButMemory : (log : StructLog) → SameButMemory (lean_struct_log log) log
unfolding lean_struct_log
lean-SameButMemory log = ground arith

pop_calls-cong :
    (l m : StructLog) (call_stack : List (ℕ × ℕ)) (tracking : List (ℕ × CallGas)) (totals : ℕ × ℕ)
    → SameButMemory l m
    → pop_calls l call_stack tracking totals ≡ pop_calls m call_stack tracking totals
unfolding pop_calls
pop_calls-cong l m [] tracking totals s = refl
pop_calls-cong l m ((d, idx) ∷ call_stack) tracking totals s = ground (
  arith,
  pop_calls-cong l m call_stack (remove idx tracking) (charge_call m (lookup idx tracking) totals)
      s,
)

module _ (l m : StructLog) (s : SameButMemory l m) where
  enter_callee-cong :
      (awaiting : Option (ℕ × ℕ)) (w : Walk) → enter_callee l awaiting w ≡ enter_callee m awaiting w
  enter_callee-cong none w = refl
  enter_callee-cong (some (d, idx)) w = ground arith

  resume_create-cong :
      (pending : Option (ℕ × ℕ)) (w : Walk) → resume_create l pending w ≡ resume_create m pending w
  resume_create-cong none w = refl
  resume_create-cong (some (d, gas)) w = ground arith

  detect_reentry-cong :
      (origin : Option ℕ) (w : Walk) → detect_reentry origin l w ≡ detect_reentry origin m w
  detect_reentry-cong none w = refl
  detect_reentry-cong (some o) w = ground arith

  leave_calls-cong : (w : Walk) → leave_calls l w ≡ leave_calls m w
  leave_calls-cong w = ground (
    arith,
    pop_calls-cong l m w.call_stack w.call_gas_tracking (w.total_call_gas, w.callee_gas_total) s,
  )

  note_added-cong : (op : Op) (w : Walk) → note_added l op w ≡ note_added m op w
  note_added-cong Op.sstore w = ground arith
  note_added-cong Op.create w = ground arith
  note_added-cong Op.create2 w = ground arith
  note_added-cong Op.call w = ground arith
  note_added-cong _ w = refl

  note_appended-cong :
      (n : ℕ) (appended : List StateUpdate × Option Op) (w : Walk)
      → note_appended l n appended w ≡ note_appended m n appended w
  note_appended-cong n (us, none) w =
      ap (λ w'. if ltb n (length us) then w' else record w { state_updates = us })
        (ap (λ op. note_added l op (record w { state_updates = us })) s.op
          ∙ note_added-cong m.op (record w { state_updates = us }))
  note_appended-cong n (us, some op) w = refl

module _ (decode_to_slice : List ℕ → Option Bytes) where
  -- What both logs are asked for agrees, so they extract the same if they append the same.
  extract_op-cong :
      (l m : StructLog) (w : Walk)
      → SameButMemory l m
      → append_state_update_from_struct_log decode_to_slice w.state_updates l
        ≡ append_state_update_from_struct_log decode_to_slice w.state_updates m
      → extract_op decode_to_slice l w ≡ extract_op decode_to_slice m w
  extract_op-cong l m w s e = ground (arith, appended)
    where
      appended :
          (append_state_update_from_struct_log decode_to_slice w.state_updates l >>= λ a.
          ok (note_appended l (length w.state_updates) a w))
          ≡ (append_state_update_from_struct_log decode_to_slice w.state_updates m >>= λ a.
              ok (note_appended m (length w.state_updates) a w))
      appended = rw e (
          ap (λ f. append_state_update_from_struct_log decode_to_slice w.state_updates m >>= f)
            (fun_ext λ a. ap ok (note_appended-cong l m s (length w.state_updates) a w)))

  step-cong :
      (origin : Option ℕ) (l m : StructLog) (w : Walk)
      → SameButMemory l m
      → ((us : List StateUpdate)
          → append_state_update_from_struct_log decode_to_slice us l
            ≡ append_state_update_from_struct_log decode_to_slice us m)
      → step decode_to_slice origin l w ≡ step decode_to_slice origin m w
  unfolding step
  step-cong origin l m w s e =
      rw
        (
          enter_callee-cong l m s w.awaiting_entry w,
          resume_create-cong l m s entered.pending_create entered,
        )
        (ap (λ f. resume_create m entered.pending_create entered >>= f) (fun_ext rest))
    where
      entered : Walk
      entered = enter_callee m w.awaiting_entry w

      rest :
          (r : Walk)
          → extract_op decode_to_slice l (leave_calls l (detect_reentry origin l r))
            ≡ extract_op decode_to_slice m (leave_calls m (detect_reentry origin m r))
      rest r =
          let left : Walk = leave_calls m (detect_reentry origin m r) in
          ap (λ v. extract_op decode_to_slice l (leave_calls l v))
            (detect_reentry-cong l m s origin r)
          ∙ (ap (extract_op decode_to_slice l) (leave_calls-cong l m s (detect_reentry origin m r))
              ∙ extract_op-cong l m left s (e left.state_updates))

  run-lean :
      (origin : Option ℕ) (logs : List StructLog) (w : Walk)
      → All (λ log. MemoryParses decode_to_slice log.memory) logs
      → run decode_to_slice origin (map lean_struct_log logs) w ≡ run decode_to_slice origin logs w
  unfolding run
  run-lean origin [] w parses = refl
  run-lean origin (log ∷ logs) w (p, parses) =
      rw
        (step-cong origin (lean_struct_log log) log w (lean-SameButMemory log)
          (λ us. append-lean_struct_log decode_to_slice us log p))
        (ap (λ f. step decode_to_slice origin log w >>= f)
          (fun_ext λ w'. run-lean origin logs w' parses))

  last_refund-lean :
      (logs : List StructLog)
      → last_refund decode_to_slice (last? (map lean_struct_log logs))
        ≡ last_refund decode_to_slice (last? logs)
  last_refund-lean [] = refl
  last_refund-lean (log ∷ []) = ground (arith, lean-SameButMemory log)
  last_refund-lean (log ∷ next ∷ logs) = last_refund-lean (next ∷ logs)

  -- On a trace whose memory texts are well formed, extraction gives the same result, error or
  -- not, when memory is kept only for the opcodes that `reads_memory` names.
  pub compute_state_updates-lean_frame :
      (trace : DefaultFrame) (origin : Option ℕ)
      → All (λ log. MemoryParses decode_to_slice log.memory) trace.struct_logs
      → compute_state_updates decode_to_slice (lean_frame trace) origin
        ≡ compute_state_updates decode_to_slice trace origin
  unfolding compute_state_updates lean_frame
  compute_state_updates-lean_frame trace origin parses =
      rw (run-lean origin trace.struct_logs start parses, last_refund-lean trace.struct_logs)
