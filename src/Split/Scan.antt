-- ===== src/Split/Scan.antt =====
-- The pass that decides which `CALL`s could become nested frames
-- (crates/core/src/nested.rs, `scan_candidates`).
use gas_analyzer.Split.{
  Candidate, ScanFrame, ScanPending, CandidateScan, Bump, undecided, first, disqualified, Scope,
  root_scope, call_scope,
}
use gas_analyzer.Failure.{Failure, panic, zero_depth, short_stack}
use gas_analyzer.Evm.{StructLog, address_from_word, Op}
use gas_analyzer.SimProfile.{state_tracker_slot}
use gas_analyzer.Prelude.Results.{◌>>=◌, ◌>>◌, ok_or, refuse_if, Result, ok, err}
use gas_analyzer.Prelude.Assoc.{insert, remove}
use gas_analyzer.Prelude.Maps.{modify}
use gas_analyzer.Prelude.{
  ℕ, ◌+◌, ◌-◌, Bool, true, false, Option, none, some, List, [], ◌∷◌, ltb, ◌==◌, if◌then◌else◌,
  length, get_elem?, ◌+64◌,
}

-- `stack.as_deref().unwrap_or_default()`
abbrev pub stack_of : StructLog → List ℕ
stack_of log = elim log.stack [ none ↦ [] | some stack ↦ stack ]

-- `stack.get(stack.len().wrapping_sub(1 + n))`: the item that far below the top.
unfoldable pub from_top : ℕ → List ℕ → Option ℕ
from_top n stack = if ltb n (length stack) then get_elem? stack (length stack - (n + 1)) else none

abbrev pub address_of : Option ℕ → Option ℕ
address_of none = none
address_of (some word) = some (address_from_word word)

unfoldable pub start_scan : ℕ → CandidateScan
start_scan root = record {
  candidates = [];
  root_index = none;
  frames = record { depth = 1; ctx = some root; scope = some root_scope } ∷ [];
  pending = none;
}

-- A call that opened no frame is no candidate.
abbrev pub withdraw : Option Scope → List (ℕ × Candidate) → List (ℕ × Candidate)
withdraw (some (call_scope i)) candidates = remove i candidates
withdraw _ candidates = candidates

-- `pending.take()`
abbrev pub scan_enter : StructLog → Option ScanPending → CandidateScan → CandidateScan
scan_enter log none s = s
scan_enter log (some p) s =
    if log.depth == p.parent_depth +64 1
    then record s {
      frames = record { depth = log.depth; ctx = p.ctx; scope = p.scope } ∷ s.frames;
      pending = none;
    }
    else record s { candidates = withdraw p.scope s.candidates; pending = none }

unfoldable pub scan_leave : ℕ → List ScanFrame → List ScanFrame
scan_leave depth [] = []
scan_leave depth (f ∷ frames) =
    let left = scan_leave depth frames in if ltb depth f.depth then left else f ∷ frames

abbrev pub decide : Bump → Candidate → Candidate
decide bump c = elim c.bump [ undecided ↦ record c { bump = bump } | _ ↦ c ]

abbrev pub mark_unsupported : Candidate → Candidate
mark_unsupported c = record c { unsupported_op = true }

-- The candidate whose scope runs, if any, is changed.
abbrev pub in_scope : Option Scope → (Candidate → Candidate) → CandidateScan → CandidateScan
in_scope (some (call_scope i)) change s = record s { candidates = modify i change s.candidates }
in_scope _ change s = s

abbrev pub store_bump : Bool → ℕ → Bump
store_bump tracker value = if tracker then first (value - 1) else disqualified

abbrev pub root_store : Bool → ℕ → Option ℕ → Option ℕ
root_store tracker value none = if tracker then some (value - 1) else none
root_store tracker value (some index) = some index

abbrev pub scan_store : Option Scope → ℕ → ℕ → CandidateScan → CandidateScan
scan_store (some root_scope) slot value s = record s {
  root_index = root_store (slot == state_tracker_slot) value s.root_index;
}
scan_store scope slot value s =
    in_scope scope (decide (store_bump (slot == state_tracker_slot) value)) s

-- The `match` on the opcode.
unfoldable pub scan_op :
    ℕ → StructLog → Op → Option Scope → CandidateScan → Result Failure CandidateScan
scan_op i log Op.sstore scope s = do
  slot ← ok_or (from_top 0 (stack_of log)) (short_stack i)
  value ← ok_or (from_top 1 (stack_of log)) (short_stack i)
  ok (scan_store scope slot value s)
scan_op i log Op.tstore scope s = ok (in_scope scope mark_unsupported s)
scan_op i log Op.selfdestruct scope s = ok (in_scope scope mark_unsupported s)
scan_op i log _ scope s = ok s

abbrev pub is_observable : Op → Bool
is_observable Op.call = true
is_observable Op.staticcall = true
is_observable Op.create = true
is_observable Op.create2 = true
is_observable Op.log0 = true
is_observable Op.log1 = true
is_observable Op.log2 = true
is_observable Op.log3 = true
is_observable Op.log4 = true
is_observable _ = false

abbrev pub observe : Op → Option Scope → CandidateScan → CandidateScan
observe op scope s = if is_observable op then in_scope scope (decide disqualified) s else s

abbrev pub fresh_candidate : Candidate
fresh_candidate = record { bump = undecided; unsupported_op = false }

-- The frame that the next log may open.
unfoldable pub scan_pending : ℕ → StructLog → ScanFrame → Op → CandidateScan → CandidateScan
scan_pending i log cur Op.call s = record s {
  candidates = insert i fresh_candidate s.candidates;
  pending = some (record {
    parent_depth = log.depth;
    ctx = address_of (from_top 1 (stack_of log));
    scope = some (call_scope i);
  });
}
scan_pending i log cur Op.staticcall s = record s {
  pending = some (record {
    parent_depth = log.depth;
    ctx = address_of (from_top 1 (stack_of log));
    scope = none;
  });
}
scan_pending i log cur Op.delegatecall s = record s {
  pending = some (record { parent_depth = log.depth; ctx = cur.ctx; scope = cur.scope });
}
scan_pending i log cur Op.callcode s = record s {
  pending = some (record { parent_depth = log.depth; ctx = cur.ctx; scope = cur.scope });
}
scan_pending i log cur Op.create s = record s {
  pending = some (record { parent_depth = log.depth; ctx = none; scope = none });
}
scan_pending i log cur Op.create2 s = record s {
  pending = some (record { parent_depth = log.depth; ctx = none; scope = none });
}
scan_pending i log cur _ s = record s { pending = none }

-- What follows once the frame of the log is known.
abbrev pub scan_here : ℕ → StructLog → List ScanFrame → CandidateScan → Result Failure CandidateScan
scan_here i log [] s = err panic
scan_here i log (cur ∷ frames) s = if log.has_error then ok s else (do
  s' ← scan_op i log log.op cur.scope s
  ok (scan_pending i log cur log.op (observe log.op cur.scope s')))

abbrev pub scan_left : StructLog → CandidateScan → CandidateScan
scan_left log s = record s { frames = scan_leave log.depth s.frames }

unfoldable pub scan_step : ℕ → StructLog → CandidateScan → Result Failure CandidateScan
scan_step i log s = do
  refuse_if (log.depth == 0) (zero_depth i)
  let left = scan_left log (scan_enter log s.pending s)
  scan_here i log left.frames left

unfoldable pub scan_from : ℕ → List StructLog → CandidateScan → Result Failure CandidateScan
scan_from i [] s = ok s
scan_from i (log ∷ logs) s = do s' ← scan_step i log s; scan_from (i + 1) logs s'

unfoldable pub scan_candidates :
    List StructLog → ℕ → Result Failure (List (ℕ × Candidate) × Option ℕ)
scan_candidates logs root = do
  s ← scan_from 0 logs (start_scan root)
  ok (s.candidates, s.root_index)
