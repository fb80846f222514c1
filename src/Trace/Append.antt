-- ===== src/Trace/Append.antt =====
-- Which steps need their memory: extraction gives the same from a trace that keeps memory only
-- where `reads_memory` says so (crates/wasm/src/lean_trace.rs).
use mathlib.Core.List.{reverse}
use gas_analyzer.Evm.{StructLog, Op}
use gas_analyzer.Prelude.Results.{◌>>=◌, ok_or, Result, ok}
use gas_analyzer.Trace.{
  reads_memory, decode_op, apply_decoded, parse_trace_memory, decode_at,
  append_state_update_from_struct_log, skip,
}
use gas_analyzer.Prelude.{
  ℕ, ◌≡◌, refl, ◌⊎◌, inl, inr, false, Option, none, some, List, [], arith, if◌then◌else◌,
  Bool-cases,
}
use gas_analyzer.Prelude.Bytes.{Bytes}
use gas_analyzer.Types.{StateUpdate}
use gas_analyzer.Failure.{Failure, panic}

abbrev emptied : Option (List (List ℕ)) → Option (List (List ℕ))
emptied none = none
emptied (some memory) = some []

-- The step that the lean parser keeps: an empty snapshot where the opcode reads no memory.
unfoldable pub lean_struct_log : StructLog → StructLog
lean_struct_log log =
    if reads_memory log.op then log else record log { memory = emptied log.memory }

decode_op-ignores_memory :
    (op : Op) (stack : List ℕ) (m n : Bytes)
    → reads_memory op ≡ false
    → decode_op op stack m ≡ decode_op op stack n
unfolding reads_memory decode_op
decode_op-ignores_memory Op.call stack m n h = cc
decode_op-ignores_memory Op.create stack m n h = cc
decode_op-ignores_memory Op.create2 stack m n h = cc
decode_op-ignores_memory Op.log0 stack m n h = cc
decode_op-ignores_memory Op.log1 stack m n h = cc
decode_op-ignores_memory Op.log2 stack m n h = cc
decode_op-ignores_memory Op.log3 stack m n h = cc
decode_op-ignores_memory Op.log4 stack m n h = cc
decode_op-ignores_memory _ stack m n h = refl

-- Only transient storage and selfdestruct are skipped.
pub skip_only :
    (op : Op) (stack : List ℕ) (m : Bytes) (skipped : Op)
    → decode_op op stack m ≡ ok (skip skipped)
    → (skipped ≡ op) × ((op ≡ Op.tstore) ⊎ (op ≡ Op.selfdestruct))
unfolding decode_op
skip_only Op.tstore stack m skipped h = ground arith
skip_only Op.selfdestruct stack m skipped h = ground arith
skip_only _ stack m skipped h = ground arith

module _ (decode_to_slice : List ℕ → Option Bytes) where
  -- The hexadecimal text of the step's memory is well formed.
  abbrev pub MemoryParses : Option (List (List ℕ)) → Type 0
  MemoryParses none = Unit
  MemoryParses (some memory) =
      (bytes : Bytes) × (parse_trace_memory decode_to_slice memory ≡ some bytes)

  decode_at-emptied :
      (log : StructLog) (stack : List ℕ) (memory : Option (List (List ℕ)))
      → MemoryParses memory
      → reads_memory log.op ≡ false
      → decode_at decode_to_slice
          (record log { memory = emptied log.memory })
          stack
          (emptied memory)
        ≡ decode_at decode_to_slice log stack memory
  unfolding parse_trace_memory
  decode_at-emptied log stack none parses h = refl
  decode_at-emptied log stack (some memory) (bytes, e) h =
      rw e (decode_op-ignores_memory log.op stack [] bytes h)

  -- The step from its stack on.
  abbrev from_stack :
      List StateUpdate
      → StructLog
      → Option (List (List ℕ))
      → Option (List ℕ)
      → Result Failure (List StateUpdate × Option Op)
  from_stack us log memory stack = do
    items ← ok_or stack panic
    decoded ← decode_at decode_to_slice log (reverse items) memory
    ok (apply_decoded us decoded)

  from_stack-emptied :
      (us : List StateUpdate) (log : StructLog) (stack : Option (List ℕ))
      → MemoryParses log.memory
      → reads_memory log.op ≡ false
      → from_stack us (record log { memory = emptied log.memory }) (emptied log.memory) stack
        ≡ from_stack us log log.memory stack
  from_stack-emptied us log none parses h = refl
  from_stack-emptied us log (some items) parses h =
      rw (decode_at-emptied log (reverse items) log.memory parses h)

  -- Dropping the memory of the steps that read none does not change what a step adds.
  pub append-lean_struct_log :
      (us : List StateUpdate) (log : StructLog)
      → MemoryParses log.memory
      → append_state_update_from_struct_log decode_to_slice us (lean_struct_log log)
        ≡ append_state_update_from_struct_log decode_to_slice us log
  unfolding lean_struct_log append_state_update_from_struct_log
  append-lean_struct_log us log parses = elim (Bool-cases (reads_memory log.op)) [
    | inl reads ↦ rw reads
    | inr not_read ↦ rw not_read (from_stack-emptied us log log.stack parses not_read)
  ]
