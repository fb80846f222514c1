-- ===== src/Split/Tests.antt =====
-- An example of a split: a root that bumps its counter and calls a consumer, which bumps its own and
-- stores before it returns.
use gas_analyzer.Split.{WalkFrame, frame_index, first, Eligibility, consumers}
use gas_analyzer.Split.Scan.{
  from_top, start_scan, scan_leave, scan_op, scan_pending, scan_step, scan_from, scan_candidates,
}
use gas_analyzer.Split.Scannable.{first_fault, failure_of, scan_candidates-first_fault}
use gas_analyzer.Split.Images.{
  visible_image, emit_slots, flush_slice, forget_slots, forget_overwritten, commit_journal,
}
use gas_analyzer.Split.Flush.{slice, flush_slice-slice}
use gas_analyzer.Split.Determines.{IsSettled, walk_trace-IsSettled}
use gas_analyzer.Split.Dispatch.{choose_call, walk_call, walk_create, walk_log, walk_op}
use gas_analyzer.Trace.{
  copy_memory, strip_0x, requires_memory, decode_op, parse_trace_memory,
  append_state_update_from_struct_log,
}
use gas_analyzer.Extract.{callee_gas}
use gas_analyzer.Split.Fuel.{IsClosed, close_frames-enough}
use gas_analyzer.Split.Ends.{Ends}
use gas_analyzer.Split.Walk.{
  root_program, root_frame, start_walk, close_root, walk_step, walk_from, walk_trace,
}
use gas_analyzer.Encoding.Tests.{alloy}
use gas_analyzer.Trace.Tests.{hex_decode, step_at}
use gas_analyzer.SimProfile.{state_tracker_slot}
use gas_analyzer.Evm.{StructLog, Op}
use gas_analyzer.Prelude.Results.{ok}
use gas_analyzer.Prelude.Assoc.{lookup, insert, remove}
use gas_analyzer.Prelude.Maps.{or_else, put, extend, modify}
use gas_analyzer.Prelude.{
  ℕ, ◌+◌, ◌≡◌, refl, false, none, some, List, [], ◌∷◌, ◌++◌, arith, ◌==◌, length,
}
use gas_analyzer.Prelude.Bytes.{Bytes}
use gas_analyzer.FrameTree.{ProgramState}
use gas_analyzer.Types.{StateUpdate, store, nested}
use gas_analyzer.Split.Close.{amend, drop_since, merge_into, close_popped, close_frames}

abbrev at_depth : ℕ → StructLog → StructLog
at_depth depth log = record log { depth = depth }

abbrev trace : List StructLog
trace =
    at_depth 1 (step_at 0 Op.sstore 99000 (5 ∷ state_tracker_slot ∷ []))
    ∷ at_depth 1 (step_at 0 Op.call 90000 (0 ∷ 0 ∷ 1 ∷ 0 ∷ 0 ∷ 51 ∷ 60000 ∷ []))
    ∷ at_depth 2 (step_at 0 Op.sstore 59000 (8 ∷ state_tracker_slot ∷ []))
    ∷ at_depth 2 (step_at 0 Op.sstore 50000 (77 ∷ 1 ∷ []))
    ∷ at_depth 1 (step_at 0 (Op.other 0) 30000 (1 ∷ []))
    ∷ []

scan_candidates-first_fault_example :
    failure_of (scan_candidates (step_at 1 Op.sstore 9 (3 ∷ []) ∷ []) 50)
    ≡ first_fault 0 (step_at 1 Op.sstore 9 (3 ∷ []) ∷ [])
scan_candidates-first_fault_example =
    scan_candidates-first_fault (step_at 1 Op.sstore 9 (3 ∷ []) ∷ []) 50

scanned :
    scan_candidates trace 50
    ≡ ok ((1, record { bump = first 7; unsupported_op = false }) ∷ [], some 4)
unfolding scan_candidates start_scan scan_from scan_step scan_leave scan_op scan_pending from_top
    lookup insert remove modify
scanned = refl

abbrev writing : WalkFrame
writing = record (root_frame 50) {
  journal = (50, (1, 10) ∷ (2, 20) ∷ []) ∷ [];
  emitted_view = (1, 10) ∷ [];
}

flush_slice-slice_example :
    (after : WalkFrame) × (flush_slice (writing ∷ []) (root_program 50 none ∷ []) ≡ ok (after ∷ []))
    × (after.out ≡ writing.out ++ slice (visible_image (writing ∷ []) 50) writing.emitted_view)
    × ((slot : ℕ)
        → lookup slot after.emitted_view
          ≡ or_else
              (lookup slot (visible_image (writing ∷ []) 50))
              (lookup slot writing.emitted_view))
flush_slice-slice_example =
    flush_slice-slice writing [] (root_program 50 none ∷ []) 0 (root_program 50 none) refl refl

abbrev keccak : Bytes → ℕ
keccak bytes = length bytes

abbrev eligible : Eligibility
eligible = consumers (λ a. a == 51)

abbrev root_out : List StateUpdate
root_out =
    store (record { slot = state_tracker_slot; value = 5 })
    ∷ nested (record { target = 51; value = 0; child_leaf = 0 })
    ∷ []

abbrev root_end : WalkFrame
root_end = record (root_frame 50) {
  journal = (50, (state_tracker_slot, 5) ∷ []) ∷ (51, (1, 77) ∷ (state_tracker_slot, 8) ∷ []) ∷ [];
  out = root_out;
  emitted_view = (state_tracker_slot, 5) ∷ [];
}

abbrev callee_out : List StateUpdate
callee_out =
    store (record { slot = 1; value = 77 })
    ∷ store (record { slot = state_tracker_slot; value = 8 })
    ∷ []

abbrev programs_end : List ProgramState
programs_end =
    record (root_program 50 (some 4)) {
      updates = some root_out;
      children = 1 ∷ [];
      effect_gas = 100;
      child_call_gas = 60000;
    }
    ∷ record (root_program 51 (some 7)) {
      caller = 50;
      calldata_hash = 1;
      parent = some 0;
      updates = some callee_out;
      fallback = some (record { target = 51; value = 0; callargs = 42 ∷ [] });
      native_gas = 60000;
      effect_gas = 200;
      native_callee_gas = 60000;
    }
    ∷ []

walked : walk_trace keccak hex_decode alloy eligible trace 50 ≡ ok (root_end, programs_end, [])
unfolding walk_trace scan_candidates start_scan scan_from scan_step scan_leave scan_op scan_pending
    from_top lookup insert remove modify start_walk walk_from walk_step walk_op walk_call
    walk_create walk_log flush_slice forget_slots forget_overwritten visible_image emit_slots
    commit_journal choose_call amend close_frames close_popped close_root put extend frame_index
    drop_since append_state_update_from_struct_log parse_trace_memory decode_op copy_memory strip_0x
    requires_memory callee_gas
walked = refl

walk_trace-IsSettled_example : IsSettled 50 root_end programs_end
walk_trace-IsSettled_example = walk_trace-IsSettled keccak hex_decode alloy eligible trace 50 walked

-- A delegate's frame that returns to the root.
abbrev delegated : WalkFrame
delegated = record (root_frame 50) {
  depth = 2;
  journal = (50, (3, 9) ∷ []) ∷ [];
  out = store (record { slot = 3; value = 9 }) ∷ [];
}

abbrev resumed : StructLog
resumed = at_depth 1 (step_at 0 (Op.other 0) 30000 (1 ∷ []))

closes :
    close_frames 3 resumed (delegated ∷ root_end ∷ []) programs_end
    ≡ ok (merge_into delegated root_end ∷ [], programs_end)
unfolding close_frames close_popped
closes = refl

close_frames-enough_example :
    Ends (IsClosed resumed) (close_frames 3 resumed (delegated ∷ root_end ∷ []) programs_end)
    × (close_frames (3 + 5) resumed (delegated ∷ root_end ∷ []) programs_end
        ≡ close_frames 3 resumed (delegated ∷ root_end ∷ []) programs_end)
close_frames-enough_example =
    close_frames-enough 3 5 resumed (delegated ∷ root_end ∷ []) programs_end (omega arith)
