-- ===== src/Split.antt =====
-- Splitting a trace into frame programs (crates/core/src/nested.rs, `Bump` to `split_frame_tree`):
-- the types of the two walks over the trace. A `BTreeMap` is an ascending association list, and
-- a `HashMap` an association list. `Vec`s of frames have their last element first.
pub mod Scan
pub mod Scannable
pub mod Images
pub mod Close
pub mod Dispatch
pub mod Prune
pub mod Walk
pub mod Flush
pub mod Agree
pub mod Programs
pub mod Views
pub mod Closes
pub mod Enters
pub mod Quiet
pub mod Steps
pub mod Calls
pub mod Determines
pub mod Ends
pub mod Fuel
pub mod Tests
use gas_analyzer.Evm.{Op}
use gas_analyzer.FrameTree.{ProgramState}
use gas_analyzer.Prelude.Sort.{contains}
use gas_analyzer.Prelude.{ℕ, Bool, Option, none, some, List, if◌then◌else◌}
use gas_analyzer.Types.{StateUpdate}

-- How the trace treated a `CALL` into a callee.
pub data Bump : Type 0 where
  undecided : Bump
  first : ℕ → Bump
  disqualified : Bump

pub record Candidate : Type 0 where
  pub bump : Bump
  pub unsupported_op : Bool

pub data Scope : Type 0 where
  root_scope : Scope
  call_scope : ℕ → Scope

pub record ScanFrame : Type 0 where
  pub depth : ℕ
  pub ctx : Option ℕ
  pub scope : Option Scope

pub record ScanPending : Type 0 where
  pub parent_depth : ℕ
  pub ctx : Option ℕ
  pub scope : Option Scope

-- The local variables of `scan_candidates`.
pub record CandidateScan : Type 0 where
  pub candidates : List (ℕ × Candidate)
  pub root_index : Option ℕ
  pub frames : List ScanFrame
  pub pending : Option ScanPending

-- `BTreeMap<B256, B256>`, and the maps of each contract.
abbrev pub Slots : Type 0
Slots = List (ℕ × ℕ)

abbrev pub Journal : Type 0
Journal = List (ℕ × Slots)

pub record WalkFrame : Type 0 where
  pub depth : ℕ
  pub storage_ctx : Option ℕ
  pub program : Option ℕ
  pub journal : Journal
  pub out : List StateUpdate
  pub call_gas : ℕ
  pub callee_gas : ℕ
  pub create_gas : ℕ
  pub entry_gas : ℕ
  pub call_gas_cost : ℕ
  pub emitted_view : Slots
  pub emitted_call_gas : Option ℕ
  pub emitted_create : Bool
  pub nested_start_gas : Option ℕ
  pub first_program : ℕ

pub record PendingFrame : Type 0 where
  pub parent_depth : ℕ
  pub storage_ctx : Option ℕ
  pub program : Option ℕ
  pub emitted_view : Slots
  pub emitted_call_gas : Option ℕ
  pub emitted_create : Bool
  pub nested_start_gas : Option ℕ
  pub call_gas_cost : ℕ

-- The local variables of the walk in `split_frame_tree`.
pub record SplitWalk : Type 0 where
  pub skipped_opcodes : List Op
  pub programs : List ProgramState
  pub frames : List WalkFrame
  pub pending : Option PendingFrame

-- Which callees a split may turn into frames.
pub data Eligibility : Type 0 where
  consumers : (ℕ → Bool) → Eligibility
  hypothetical : List ℕ → Eligibility

abbrev pub index_for : Eligibility → Bump → ℕ → Option ℕ
index_for (consumers is_nestable) (first index) callee =
    if is_nestable callee then some index else none
index_for (consumers is_nestable) _ callee = none
index_for (hypothetical owned) (first index) callee =
    if contains callee owned then some index else none
index_for (hypothetical owned) _ callee = if contains callee owned then some 0 else none

-- The transition index that the callee's frame takes, or `none` when the call stays a `CALL`.
unfoldable pub frame_index : Eligibility → Option Candidate → Option ℕ → Option ℕ
frame_index eligibility none callee = none
frame_index eligibility (some candidate) none = none
frame_index eligibility (some candidate) (some callee) =
    if candidate.unsupported_op then none else index_for eligibility candidate.bump callee
