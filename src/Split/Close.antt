-- ===== src/Split/Close.antt =====
-- Entering a frame, and leaving those that a log has stepped out of
-- (crates/core/src/nested.rs, the first part of the loop's body in `split_frame_tree`).
use gas_analyzer.Split.{WalkFrame, PendingFrame, SplitWalk}
use gas_analyzer.Split.Images.{flush_slice, forget_overwritten, commit_journal}
use gas_analyzer.FrameTree.{ProgramState, is_nested, program_at}
use gas_analyzer.Extract.{callee_gas, is_none_or_zero}
use gas_analyzer.Failure.{
  Failure, panic, failed_create, out_of_fuel, no_frame_opened, depth_jumped, no_resume_stack,
  empty_resume_stack, no_nested_op,
}
use gas_analyzer.Evm.{StructLog}
use gas_analyzer.Prelude.Results.{◌>>=◌, ◌>>◌, ok_or, refuse_if, Result, ok, err}
use gas_analyzer.Prelude.{
  ℕ, zero, suc, ◌-◌, Bool, true, false, not, ◌&&◌, Option, none, some, List, [], ◌∷◌, ◌++◌, ltb,
  ◌==◌, if◌then◌else◌, is_some, length, set, last?, ◌+64◌,
}
use gas_analyzer.Types.{StateUpdate}

-- `programs[id]`, changed in place.
unfoldable pub amend :
    List ProgramState → ℕ → (ProgramState → ProgramState) → Result Failure (List ProgramState)
amend programs id change = do p ← program_at programs id; ok (set programs id (change p))

abbrev pub add_child_call_gas : ℕ → ProgramState → ProgramState
add_child_call_gas gas p = record p { child_call_gas = p.child_call_gas +64 gas }

abbrev pub charge_program : List ProgramState → Option ℕ → ℕ → Result Failure (List ProgramState)
charge_program programs none gas = ok programs
charge_program programs (some parent) gas = amend programs parent (add_child_call_gas gas)

abbrev pub first_program_of : PendingFrame → List ProgramState → ℕ
first_program_of p programs = elim p.nested_start_gas [
  | none ↦ length programs
  | some gas ↦ elim p.program [ none ↦ length programs | some id ↦ id ]
]

abbrev pub entered_frame : StructLog → PendingFrame → List ProgramState → WalkFrame
entered_frame log p programs = record {
  depth = log.depth;
  storage_ctx = p.storage_ctx;
  program = p.program;
  journal = [];
  out = [];
  call_gas = 0;
  callee_gas = 0;
  create_gas = 0;
  entry_gas = log.gas;
  call_gas_cost = p.call_gas_cost;
  emitted_view = p.emitted_view;
  emitted_call_gas = p.emitted_call_gas;
  emitted_create = p.emitted_create;
  nested_start_gas = p.nested_start_gas;
  first_program = first_program_of p programs;
}

abbrev pub top_of_stack : StructLog → Option ℕ
top_of_stack log = elim log.stack [ none ↦ none | some stack ↦ last? stack ]

-- The gas of an emitted operation that opened no frame.
abbrev pub add_inline_gas : Bool → ℕ → WalkFrame → WalkFrame
add_inline_gas is_create gas caller =
    if is_create
    then record caller { create_gas = caller.create_gas +64 gas }
    else record caller { call_gas = caller.call_gas +64 gas }

abbrev pub charge_inline :
    StructLog → Bool → Option ℕ → List WalkFrame → SplitWalk → Result Failure SplitWalk
charge_inline log is_create none frames w = ok w
charge_inline log is_create (some gas_after_opcode) [] w = err panic
charge_inline log is_create (some gas_after_opcode) (caller ∷ frames) w = do
  let gas = gas_after_opcode - log.gas
  programs ← charge_program w.programs caller.program gas
  ok (record w { programs = programs; frames = add_inline_gas is_create gas caller ∷ frames })

-- `pending.take()`
abbrev pub enter_frame : StructLog → Option PendingFrame → SplitWalk → Result Failure SplitWalk
enter_frame log none w = ok w
enter_frame log (some p) w =
    if log.depth == p.parent_depth +64 1
    then ok (record w { frames = entered_frame log p w.programs ∷ w.frames; pending = none })
    else (do
      refuse_if (is_some p.nested_start_gas) (no_frame_opened p.parent_depth)
      refuse_if (p.emitted_create && is_none_or_zero (top_of_stack log))
          (failed_create p.parent_depth)
      charge_inline log p.emitted_create p.emitted_call_gas w.frames (record w { pending = none }))

-- Each program from an index on is dropped, with the frame that opened them.
abbrev pub drop_all : List ProgramState → List ProgramState
drop_all [] = []
drop_all (p ∷ programs) = record p { dropped = true } ∷ drop_all programs

unfoldable pub drop_since : ℕ → List ProgramState → Result Failure (List ProgramState)
drop_since zero programs = ok (drop_all programs)
drop_since (suc n) [] = err panic
drop_since (suc n) (p ∷ programs) = do rest ← drop_since n programs; ok (p ∷ rest)

-- The gas of an emitted operation whose frame closes.
abbrev pub add_closed_gas : WalkFrame → ℕ → WalkFrame → WalkFrame
add_closed_gas frame gas caller =
    if frame.emitted_create
    then record caller { create_gas = caller.create_gas +64 gas }
    else record caller {
      call_gas = caller.call_gas +64 gas;
      callee_gas = caller.callee_gas +64 callee_gas gas frame.call_gas_cost (some frame.entry_gas);
    }

abbrev pub charge_closed :
    StructLog
    → WalkFrame
    → Option ℕ
    → WalkFrame
    → List ProgramState
    → Result Failure (WalkFrame × List ProgramState)
charge_closed log frame none caller programs = ok (caller, programs)
charge_closed log frame (some gas_after_opcode) caller programs = do
  let gas = gas_after_opcode - log.gas
  programs' ← charge_program programs caller.program gas
  ok (add_closed_gas frame gas caller, programs')

-- A nested program that returned.
abbrev pub settled_program : WalkFrame → ℕ → ProgramState → ProgramState
settled_program frame native p = record p {
  native_gas = native;
  native_callee_gas = callee_gas native frame.call_gas_cost (some frame.entry_gas);
  updates = some frame.out;
  direct_call_gas = frame.call_gas;
  direct_callee_gas = frame.callee_gas;
  direct_create_gas = frame.create_gas;
}

abbrev pub commit_into : WalkFrame → WalkFrame → WalkFrame
commit_into frame parent = record parent { journal = commit_journal parent.journal frame.journal }

abbrev pub merge_into : WalkFrame → WalkFrame → WalkFrame
merge_into frame parent = record parent {
  journal = commit_journal parent.journal frame.journal;
  out = parent.out ++ frame.out;
  call_gas = parent.call_gas +64 frame.call_gas;
  callee_gas = parent.callee_gas +64 frame.callee_gas;
  create_gas = parent.create_gas +64 frame.create_gas;
  emitted_view = if is_some frame.program then frame.emitted_view else parent.emitted_view;
}

abbrev pub on_top :
    (WalkFrame → WalkFrame)
    → List ProgramState
    → List WalkFrame
    → Result Failure (List WalkFrame × List ProgramState)
on_top change programs [] = err panic
on_top change programs (parent ∷ frames) = ok (change parent ∷ frames, programs)

abbrev pub close_nested :
    StructLog
    → WalkFrame
    → ℕ
    → WalkFrame
    → List WalkFrame
    → List ProgramState
    → Result Failure (List WalkFrame × List ProgramState)
close_nested log frame start_gas parent frames programs = do
  id ← ok_or frame.program panic
  let native = start_gas - log.gas
  settled ← amend programs id (settled_program frame native)
  charged ← charge_program settled parent.program native
  forgotten ← forget_overwritten (parent ∷ frames) charged frame.journal
  on_top (commit_into frame) charged forgotten

-- `parent.out.pop()`, which must give back the `NESTED` op.
abbrev pub without_last : List StateUpdate → List StateUpdate
without_last [] = []
without_last (u ∷ []) = []
without_last (u ∷ v ∷ us) = u ∷ without_last (v ∷ us)

abbrev pub ends_nested : Option StateUpdate → Bool
ends_nested none = false
ends_nested (some u) = is_nested u

abbrev pub revert_nested :
    WalkFrame
    → WalkFrame
    → List WalkFrame
    → List ProgramState
    → Result Failure (List WalkFrame × List ProgramState)
revert_nested frame parent frames programs = do
  id ← ok_or frame.program panic
  refuse_if (not (ends_nested (last? parent.out))) (no_nested_op (last? parent.out))
  ok (record parent { out = without_last parent.out } ∷ frames, programs)

abbrev pub close_plain :
    WalkFrame
    → WalkFrame
    → List WalkFrame
    → List ProgramState
    → Result Failure (List WalkFrame × List ProgramState)
close_plain frame parent frames programs =
    if is_some frame.program then ok (merge_into frame parent ∷ frames, programs) else (do
      forgotten ← forget_overwritten (parent ∷ frames) programs frame.journal
      on_top (merge_into frame) programs forgotten)

-- What is done with the frame, once the gas is charged.
abbrev pub close_as :
    StructLog
    → Bool
    → WalkFrame
    → Option ℕ
    → WalkFrame
    → List WalkFrame
    → List ProgramState
    → Result Failure (List WalkFrame × List ProgramState)
close_as log true frame (some start_gas) parent frames programs =
    close_nested log frame start_gas parent frames programs
close_as log false frame (some start_gas) parent frames programs =
    revert_nested frame parent frames programs
close_as log true frame none parent frames programs = close_plain frame parent frames programs
close_as log false frame none parent frames programs = ok (parent ∷ frames, programs)

-- The frame that closes is popped; the one below it is its parent. The root has none below, and
-- does not close, since it is at depth 1 and no log is at depth 0.
unfoldable pub close_popped :
    StructLog
    → Bool
    → List WalkFrame
    → List ProgramState
    → Result Failure (List WalkFrame × List ProgramState)
close_popped log success [] programs = err panic
close_popped log success (frame ∷ []) programs = err panic
close_popped log success (frame ∷ parent ∷ frames) programs = do
  refuse_if (frame.emitted_create && not success) (failed_create log.depth)
  kept ← if success then ok programs else drop_since frame.first_program programs
  (charged, programs') ← charge_closed log frame frame.emitted_call_gas parent kept
  close_as log success frame frame.nested_start_gas charged frames programs'

abbrev pub success_of : StructLog → Result Failure Bool
success_of log = do
  stack ← ok_or log.stack (no_resume_stack log.depth)
  flag ← ok_or (last? stack) (empty_resume_stack log.depth)
  ok (not (flag == 0))

-- A nested frame that returns gets its final slice.
abbrev pub final_slice : Bool → List WalkFrame → List ProgramState → Result Failure (List WalkFrame)
final_slice success [] programs = err panic
final_slice success (frame ∷ frames) programs =
    if success && is_some frame.nested_start_gas
    then flush_slice (frame ∷ frames) programs
    else ok (frame ∷ frames)

-- `frames.last().map(|f| f.depth).unwrap_or(1)`
abbrev pub top_depth : List WalkFrame → ℕ
top_depth [] = 1
top_depth (f ∷ frames) = f.depth

abbrev pub close_one :
    StructLog
    → List WalkFrame
    → List ProgramState
    → Result Failure (List WalkFrame × List ProgramState)
close_one log frames programs = do
  refuse_if (not (top_depth frames == log.depth +64 1)) (depth_jumped (top_depth frames) log.depth)
  success ← success_of log
  frames' ← final_slice success frames programs
  close_popped log success frames' programs

-- The loop, on fuel.
unfoldable pub close_frames :
    ℕ
    → StructLog
    → List WalkFrame
    → List ProgramState
    → Result Failure (List WalkFrame × List ProgramState)
close_frames zero log frames programs = err out_of_fuel
close_frames (suc fuel) log frames programs = elim (ltb log.depth (top_depth frames)) [
  | false ↦ ok (frames, programs)
  | true ↦ do
    (frames', programs') ← close_one log frames programs
    close_frames fuel log frames' programs'
]
