-- ===== src/Split/Walk.antt =====
-- The walk over a trace that splits it into frame programs, and its end
-- (crates/core/src/nested.rs, `split_frame_tree`, `compute_frame_tree_canonical` and
-- `compute_frame_tree_hypothetical`; crates/core/src/trace.rs, `compute_state_updates_canonical`).
-- `prune_unprofitable` is that of Split/Prune.
use gas_analyzer.Split.{
  Candidate, WalkFrame, SplitWalk, Slots, Journal, Eligibility, consumers, hypothetical,
}
use gas_analyzer.Split.Images.{flush_slice}
use gas_analyzer.Split.Close.{amend, enter_frame, close_frames}
use gas_analyzer.Split.Scan.{scan_candidates}
use gas_analyzer.Split.Dispatch.{walk_op}
use gas_analyzer.Split.Prune.{prune_unprofitable}
use gas_analyzer.Encoding.{AbiSequence}
use gas_analyzer.FrameTree.{
  FrameProgram, NestingCostModel, ProgramState, nesting_cost_model_v1, program_at,
  drop_descendants_of_dropped, native_call_gas, compact,
}
use gas_analyzer.SimProfile.{state_tracker_slot}
use gas_analyzer.Failure.{Failure, panic, unclosed_frames}
use gas_analyzer.Evm.{StructLog, DefaultFrame, Op}
use gas_analyzer.Prelude.Results.{◌>>=◌, ◌>>◌, ok_or, refuse_if, Result, ok, err}
use gas_analyzer.Prelude.Assoc.{lookup}
use gas_analyzer.Prelude.{
  ℕ, ◌+◌, ◌-◌, Bool, false, not, Option, none, some, List, [], ◌∷◌, ◌==◌, if◌then◌else◌, is_some,
  length, get_elem?,
}
use gas_analyzer.Prelude.Bytes.{Bytes}
use gas_analyzer.Types.{StateUpdate}

pub record FrameTreeExtract : Type 0 where
  pub frames : List FrameProgram
  pub skipped_opcodes : List Op
  pub call_gas_total : ℕ
  pub callee_gas_total : ℕ
  pub create_gas_total : ℕ
  pub counter_moves : List ℕ

abbrev pub root_program : ℕ → Option ℕ → ProgramState
root_program root root_index = record {
  target = root;
  caller = 0;
  value = 0;
  calldata_hash = 0;
  transition_index = root_index;
  parent = none;
  updates = none;
  children = [];
  fallback = none;
  dropped = false;
  native_gas = 0;
  effect_gas = 0;
  child_call_gas = 0;
  direct_call_gas = 0;
  native_callee_gas = 0;
  direct_callee_gas = 0;
  direct_create_gas = 0;
  pruned = false;
}

abbrev pub root_frame : ℕ → WalkFrame
root_frame root = record {
  depth = 1;
  storage_ctx = some root;
  program = some 0;
  journal = [];
  out = [];
  call_gas = 0;
  callee_gas = 0;
  create_gas = 0;
  entry_gas = 0;
  call_gas_cost = 0;
  emitted_view = [];
  emitted_call_gas = none;
  emitted_create = false;
  nested_start_gas = none;
  first_program = 0;
}

unfoldable pub start_walk : ℕ → Option ℕ → SplitWalk
start_walk root root_index = record {
  skipped_opcodes = [];
  programs = root_program root root_index ∷ [];
  frames = root_frame root ∷ [];
  pending = none;
}

-- The contracts whose transition counter is in the root's journal.
abbrev pub moves_counter : ℕ → Slots → List ℕ → List ℕ
moves_counter addr slots moves =
    if is_some (lookup state_tracker_slot slots) then addr ∷ moves else moves

abbrev pub counter_moves : Journal → List ℕ
counter_moves [] = []
counter_moves ((addr, slots) ∷ journal) = moves_counter addr slots (counter_moves journal)

-- `children.retain(|c| !dropped[*c])`
unfoldable pub retain_children : List ProgramState → List ℕ → Result Failure (List ℕ)
retain_children programs [] = ok []
retain_children programs (c ∷ children) = do
  child ← program_at programs c
  rest ← retain_children programs children
  ok (if child.dropped then rest else c ∷ rest)

unfoldable pub retain_all :
    List ProgramState → List ProgramState → Result Failure (List ProgramState)
retain_all programs [] = ok []
retain_all programs (p ∷ ps) = do
  children ← retain_children programs p.children
  rest ← retain_all programs ps
  ok (record p { children = children } ∷ rest)

abbrev pub settled_root : WalkFrame → ProgramState → ProgramState
settled_root frame p = record p {
  updates = some frame.out;
  direct_call_gas = frame.call_gas;
  direct_callee_gas = frame.callee_gas;
  direct_create_gas = frame.create_gas;
}

-- The final slice of the root, which is popped.
abbrev pub pop_root : List WalkFrame → Result Failure WalkFrame
pop_root [] = err panic
pop_root (f ∷ frames) = ok f

unfoldable pub close_root : SplitWalk → Result Failure (WalkFrame × List ProgramState)
close_root w = do
  refuse_if (not (length w.frames == 1)) (unclosed_frames (length w.frames - 1))
  frames ← flush_slice w.frames w.programs
  root ← pop_root frames
  programs ← amend w.programs 0 (settled_root root)
  ok (root, programs)

module _ (keccak256 : Bytes → ℕ) (decode_to_slice : List ℕ → Option Bytes) (abi : AbiSequence)
    (eligibility : Eligibility) where
  module _ (candidates : List (ℕ × Candidate)) where
    abbrev pub walk_here : ℕ → StructLog → List WalkFrame → SplitWalk → Result Failure SplitWalk
    walk_here i log [] w = err panic
    walk_here i log (cur ∷ below) w =
        walk_op keccak256 decode_to_slice eligibility log.op log (lookup i candidates) cur below w

    unfoldable pub walk_step : ℕ → StructLog → SplitWalk → Result Failure SplitWalk
    walk_step i log w = do
      entered ← enter_frame log w.pending w
      (frames, programs) ←
          close_frames (length entered.frames + 1) log entered.frames entered.programs
      walk_here i log frames (record entered { frames = frames; programs = programs })

    unfoldable pub walk_from : ℕ → List StructLog → SplitWalk → Result Failure SplitWalk
    walk_from i [] w = ok w
    walk_from i (log ∷ logs) w = do w' ← walk_step i log w; walk_from (i + 1) logs w'

  -- The two passes over the logs, to the frame of the root and the programs.
  unfoldable pub walk_trace :
      List StructLog → ℕ → Result Failure (WalkFrame × List ProgramState × List Op)
  walk_trace logs root = do
    (candidates, root_index) ← scan_candidates logs root
    w ← walk_from candidates 0 logs (start_walk root root_index)
    (root_frame', programs) ← close_root w
    ok (root_frame', programs, w.skipped_opcodes)

  unfoldable pub finish_split :
      NestingCostModel → WalkFrame → List ProgramState → List Op → Result Failure FrameTreeExtract
  finish_split cost root_frame' programs skipped_opcodes = do
    dropped ← drop_descendants_of_dropped programs
    retained ← retain_all dropped dropped
    pruned ← prune_unprofitable abi cost retained
    call_gas ← native_call_gas pruned (λ p. (p.direct_call_gas, p.native_gas))
    callee_gas ← native_call_gas pruned (λ p. (p.direct_callee_gas, p.native_callee_gas))
    create_gas ← native_call_gas pruned (λ p. (p.direct_create_gas, 0))
    frames ← compact pruned
    ok (record {
      frames = frames;
      skipped_opcodes = skipped_opcodes;
      call_gas_total = call_gas;
      callee_gas_total = callee_gas;
      create_gas_total = create_gas;
      counter_moves = counter_moves root_frame'.journal;
    })

  unfoldable pub split_frame_tree :
      List StructLog → ℕ → NestingCostModel → Result Failure FrameTreeExtract
  split_frame_tree logs root cost = do
    (root_frame', programs, skipped_opcodes) ← walk_trace logs root
    finish_split cost root_frame' programs skipped_opcodes

module _ (keccak256 : Bytes → ℕ) (decode_to_slice : List ℕ → Option Bytes) (abi : AbiSequence) where
  unfoldable pub compute_frame_tree_canonical :
      DefaultFrame → ℕ → (ℕ → Bool) → NestingCostModel → Result Failure FrameTreeExtract
  compute_frame_tree_canonical trace root is_nestable cost =
      split_frame_tree keccak256 decode_to_slice abi (consumers is_nestable) trace.struct_logs root
        cost

  unfoldable pub compute_frame_tree_hypothetical :
      DefaultFrame → ℕ → List ℕ → NestingCostModel → Result Failure FrameTreeExtract
  compute_frame_tree_hypothetical trace root owned cost =
      split_frame_tree keccak256 decode_to_slice abi (hypothetical owned) trace.struct_logs root
        cost

  abbrev pub root_updates : FrameTreeExtract → Result Failure (List StateUpdate × List Op × ℕ)
  root_updates tree = do
    root ← ok_or (get_elem? tree.frames 0) panic
    ok (root.updates, tree.skipped_opcodes, tree.call_gas_total)

  unfoldable pub compute_state_updates_canonical :
      DefaultFrame → ℕ → Result Failure (List StateUpdate × List Op × ℕ)
  compute_state_updates_canonical trace target = do
    tree ← compute_frame_tree_canonical trace target (λ callee. false) nesting_cost_model_v1
    root_updates tree
