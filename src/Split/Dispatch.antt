-- ===== src/Split/Dispatch.antt =====
-- What one opcode does to the walk (crates/core/src/nested.rs, the `match` on the opcode in
-- `split_frame_tree`). The crates `hex` and keccak256 are the parameters `decode_to_slice` and
-- `keccak256`.
use mathlib.Core.List.{reverse}
use gas_analyzer.Split.{Candidate, WalkFrame, PendingFrame, SplitWalk, frame_index, Eligibility}
use gas_analyzer.Split.Images.{slots_of, flush_slice}
use gas_analyzer.Split.Close.{amend}
use gas_analyzer.Split.Scan.{from_top, address_of}
use gas_analyzer.FrameTree.{ProgramState, program_at}
use gas_analyzer.Trace.{stack_item, append_state_update_from_struct_log}
use gas_analyzer.Failure.{Failure, panic, no_stack, no_update}
use gas_analyzer.Evm.{StructLog, Op}
use gas_analyzer.Prelude.Results.{◌>>=◌, ◌>>◌, ok_or, refuse_if, Result, ok, err}
use gas_analyzer.Prelude.Maps.{put}
use gas_analyzer.Prelude.{
  ℕ, Bool, true, false, not, ◌&&◌, Option, none, some, List, [], ◌∷◌, ◌++◌, ◌==◌, if◌then◌else◌,
  is_some, length, last?, ◌+64◌,
}
use gas_analyzer.Prelude.Bytes.{Bytes}
use gas_analyzer.Types.{Call, StateUpdate, call, nested}

abbrev pub write_slot : ℕ → ℕ → ℕ → WalkFrame → WalkFrame
write_slot ctx slot value f = record f {
  journal = put ctx (put slot value (slots_of f.journal ctx)) f.journal;
}

abbrev pub add_effect_gas : ℕ → ProgramState → ProgramState
add_effect_gas gas p = record p { effect_gas = p.effect_gas +64 gas }

-- A store counts as the program's effect where it is in the target's storage.
abbrev pub charge_store :
    StructLog → ℕ → Option ℕ → List ProgramState → Result Failure (List ProgramState)
charge_store log ctx none programs = ok programs
charge_store log ctx (some id) programs = do
  p ← program_at programs id
  if p.target == ctx then amend programs id (add_effect_gas log.gas_cost) else ok programs

abbrev pub walk_store :
    StructLog → Option ℕ → WalkFrame → List WalkFrame → SplitWalk → Result Failure SplitWalk
walk_store log none cur below w = ok w
walk_store log (some ctx) cur below w = if log.has_error then ok w else (do
  stack ← ok_or log.stack (no_stack Op.sstore)
  slot ← stack_item (reverse stack) 0
  value ← stack_item (reverse stack) 1
  programs ← charge_store log ctx cur.program w.programs
  ok (record w { frames = write_slot ctx slot value cur ∷ below; programs = programs }))

abbrev pub walk_skipped : Op → WalkFrame → SplitWalk → SplitWalk
walk_skipped op cur w =
    if is_some cur.program then record w { skipped_opcodes = op ∷ w.skipped_opcodes } else w

-- A frame that shares its caller's storage and program.
abbrev pub delegate_frame : StructLog → WalkFrame → PendingFrame
delegate_frame log cur = record {
  parent_depth = log.depth;
  storage_ctx = cur.storage_ctx;
  program = cur.program;
  emitted_view = if is_some cur.program then cur.emitted_view else [];
  emitted_call_gas = none;
  emitted_create = false;
  nested_start_gas = none;
  call_gas_cost = 0;
}

-- A frame that replays natively.
abbrev pub native_frame : StructLog → Option ℕ → PendingFrame
native_frame log callee = record {
  parent_depth = log.depth;
  storage_ctx = callee;
  program = none;
  emitted_view = [];
  emitted_call_gas = none;
  emitted_create = false;
  nested_start_gas = none;
  call_gas_cost = 0;
}

abbrev pub walk_delegate : StructLog → WalkFrame → SplitWalk → SplitWalk
walk_delegate log cur w =
    if log.has_error then w else record w { pending = some (delegate_frame log cur) }

-- `stack.get(stack.len().wrapping_sub(2))`
abbrev pub callee_of : List ℕ → Option ℕ
callee_of stack = address_of (from_top 1 stack)

abbrev pub walk_static : StructLog → SplitWalk → Result Failure SplitWalk
walk_static log w = if log.has_error then ok w else (do
  stack ← ok_or log.stack (no_stack Op.staticcall)
  ok (record w { pending = some (native_frame log (callee_of stack)) }))

abbrev pub add_update : StateUpdate → WalkFrame → WalkFrame
add_update update f = record f { out = f.out ++ (update ∷ []) }

abbrev pub fill_top : List WalkFrame → (WalkFrame → WalkFrame) → List WalkFrame
fill_top [] change = []
fill_top (f ∷ frames) change = change f ∷ frames

module _ (keccak256 : Bytes → ℕ) where
  abbrev pub nested_program : ℕ → ℕ → WalkFrame → Call → ProgramState
  nested_program index parent cur c = record {
    target = c.target;
    caller = elim cur.storage_ctx [ none ↦ 0 | some ctx ↦ ctx ];
    value = c.value;
    calldata_hash = keccak256 c.callargs;
    transition_index = some index;
    parent = some parent;
    updates = none;
    children = [];
    fallback = some c;
    dropped = false;
    native_gas = 0;
    effect_gas = 0;
    child_call_gas = 0;
    direct_call_gas = 0;
    native_callee_gas = 0;
    direct_callee_gas = 0;
    direct_create_gas = 0;
    pruned = false;
  }

  abbrev pub add_child : ℕ → ProgramState → ProgramState
  add_child id p = record p { children = p.children ++ (id ∷ []) }

  abbrev pub nested_op : Call → StateUpdate
  nested_op c = nested (record { target = c.target; value = c.value; child_leaf = 0 })

  abbrev pub open_nested :
      StructLog
      → PendingFrame
      → ℕ
      → Call
      → WalkFrame
      → List WalkFrame
      → SplitWalk
      → Result Failure SplitWalk
  open_nested log next index c cur below w = do
    parent ← ok_or cur.program panic
    let id = length w.programs
    programs ← amend (w.programs ++ (nested_program index parent cur c ∷ [])) parent (add_child id)
    ok (record w {
      programs = programs;
      frames = add_update (nested_op c) cur ∷ below;
      pending = some (record next { program = some id; nested_start_gas = some log.gas });
    })

  abbrev pub emit_call :
      StructLog → PendingFrame → StateUpdate → WalkFrame → List WalkFrame → SplitWalk → SplitWalk
  emit_call log next update cur below w = record w {
    frames = add_update update cur ∷ below;
    pending = some (record next { emitted_call_gas = some log.gas });
  }

  -- The `match` on the index of the callee's frame and on the decoded update.
  unfoldable pub choose_call :
      StructLog
      → PendingFrame
      → Option ℕ
      → Option StateUpdate
      → List WalkFrame
      → SplitWalk
      → Result Failure SplitWalk
  choose_call log next index update [] w = err panic
  choose_call log next index none (cur ∷ below) w = err no_update
  choose_call log next (some index) (some (call c)) (cur ∷ below) w =
      open_nested log next index c cur below w
  choose_call log next index (some update) (cur ∷ below) w =
      ok (emit_call log next update cur below w)

  module _ (decode_to_slice : List ℕ → Option Bytes) (eligibility : Eligibility) where
    -- An extracted opcode is never a skipped one: `unreachable!`.
    abbrev pub appended : List StateUpdate → StructLog → Result Failure (List StateUpdate)
    appended updates log = do
      (updates', skipped) ← append_state_update_from_struct_log decode_to_slice updates log
      refuse_if (is_some skipped) panic
      ok updates'

    abbrev pub call_frame : StructLog → List ℕ → PendingFrame
    call_frame log stack = record (native_frame log (callee_of stack)) {
      call_gas_cost = log.gas_cost;
    }

    unfoldable pub walk_call :
        StructLog
        → Option Candidate
        → WalkFrame
        → List WalkFrame
        → SplitWalk
        → Result Failure SplitWalk
    walk_call log candidate cur below w = do
      stack ← ok_or log.stack (no_stack Op.call)
      if log.has_error
          then ok w
          else (if is_some cur.program
              then (do
                frames ← flush_slice (cur ∷ below) w.programs
                decoded ← appended [] log
                choose_call log (call_frame log stack)
                    (frame_index eligibility candidate (callee_of stack)) (last? decoded) frames w)
              else ok (record w { pending = some (call_frame log stack) }))

    abbrev pub create_frame : StructLog → Bool → PendingFrame
    create_frame log emitted = record (native_frame log none) {
      emitted_call_gas = if emitted then some log.gas else none;
      emitted_create = emitted;
    }

    -- The top frame's `out` after the step is appended to it.
    abbrev pub append_to_top : StructLog → List WalkFrame → Result Failure (List WalkFrame)
    append_to_top log [] = err panic
    append_to_top log (cur ∷ below) = do
      out ← appended cur.out log
      ok (record cur { out = out } ∷ below)

    unfoldable pub walk_create :
        StructLog → WalkFrame → List WalkFrame → SplitWalk → Result Failure SplitWalk
    walk_create log cur below w =
        if log.has_error
        then ok w
        else (if is_some cur.program
            then (do
              frames ← flush_slice (cur ∷ below) w.programs
              frames' ← append_to_top log frames
              ok (record w { frames = frames'; pending = some (create_frame log true) }))
            else ok (record w { pending = some (create_frame log false) }))

    -- A log is never a skipped opcode, which only a debug build asserts.
    unfoldable pub walk_log :
        StructLog → WalkFrame → List WalkFrame → SplitWalk → Result Failure SplitWalk
    walk_log log cur below w =
        if is_some cur.program && not log.has_error
        then (do
          (out, skipped) ← append_state_update_from_struct_log decode_to_slice cur.out log
          id ← ok_or cur.program panic
          programs ← amend w.programs id (add_effect_gas log.gas_cost)
          ok (record w { frames = record cur { out = out } ∷ below; programs = programs }))
        else ok w

    unfoldable pub walk_op :
        Op
        → StructLog
        → Option Candidate
        → WalkFrame
        → List WalkFrame
        → SplitWalk
        → Result Failure SplitWalk
    walk_op Op.sstore log candidate cur below w = walk_store log cur.storage_ctx cur below w
    walk_op Op.tstore log candidate cur below w = ok (walk_skipped Op.tstore cur w)
    walk_op Op.selfdestruct log candidate cur below w = ok (walk_skipped Op.selfdestruct cur w)
    walk_op Op.delegatecall log candidate cur below w = ok (walk_delegate log cur w)
    walk_op Op.callcode log candidate cur below w = ok (walk_delegate log cur w)
    walk_op Op.staticcall log candidate cur below w = walk_static log w
    walk_op Op.call log candidate cur below w = walk_call log candidate cur below w
    walk_op Op.create log candidate cur below w = walk_create log cur below w
    walk_op Op.create2 log candidate cur below w = walk_create log cur below w
    walk_op Op.log0 log candidate cur below w = walk_log log cur below w
    walk_op Op.log1 log candidate cur below w = walk_log log cur below w
    walk_op Op.log2 log candidate cur below w = walk_log log cur below w
    walk_op Op.log3 log candidate cur below w = walk_log log cur below w
    walk_op Op.log4 log candidate cur below w = walk_log log cur below w
    walk_op (Op.other n) log candidate cur below w = ok w
