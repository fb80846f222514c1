-- ===== src/FrameTree.antt =====
-- The frame programs of a trace, once it is split (crates/core/src/nested.rs, `FrameProgram` to
-- `unnested_owned`, and `drop_descendants_of_dropped` to `compact` but for the pruning).
pub mod Drop
pub mod Depth
pub mod Compact
pub mod Total
pub mod Unnested
pub mod Tests
use gas_analyzer.Failure.{Failure, panic, never_returned, out_of_fuel}
use gas_analyzer.Prelude.Results.{◌>>=◌, ◌>>◌, ok_or, Result, ok, err}
use gas_analyzer.Prelude.Sort.{contains}
use gas_analyzer.Heuristic.{base_tx_cost}
use gas_analyzer.Prelude.{
  ℕ, zero, suc, ◌+◌, ◌-◌, Bool, true, false, not, Option, none, some, List, [], ◌∷◌, ◌++◌,
  if◌then◌else◌, length, get_elem?, set, u64_max, ◌+64◌, saturating_add,
}
use gas_analyzer.Types.{Call, StateUpdate, call, nested}

pub record FrameProgram : Type 0 where
  pub target : ℕ
  pub caller : ℕ
  pub value : ℕ
  pub calldata_hash : ℕ
  pub transition_index : Option ℕ
  pub updates : List StateUpdate
  pub children : List ℕ

pub record NestingCostModel : Type 0 where
  pub frame_overhead_gas : ℕ
  pub witness_byte_gas : ℕ
  pub witness_byte_gas_per_level : ℕ

abbrev pub nesting_cost_model_v1 : NestingCostModel
nesting_cost_model_v1 = record {
  frame_overhead_gas = 20000;
  witness_byte_gas = 16;
  witness_byte_gas_per_level = 1;
}

pub record ProgramState : Type 0 where
  pub target : ℕ
  pub caller : ℕ
  pub value : ℕ
  pub calldata_hash : ℕ
  pub transition_index : Option ℕ
  pub parent : Option ℕ
  pub updates : Option (List StateUpdate)
  pub children : List ℕ
  pub fallback : Option Call
  pub dropped : Bool
  pub native_gas : ℕ
  pub effect_gas : ℕ
  pub child_call_gas : ℕ
  pub direct_call_gas : ℕ
  pub native_callee_gas : ℕ
  pub direct_callee_gas : ℕ
  pub direct_create_gas : ℕ
  pub pruned : Bool

abbrev pub is_nested : StateUpdate → Bool
is_nested (nested x) = true
is_nested _ = false

-- `filter` of the updates that are no `NESTED`.
unfoldable pub without_nested_ops : List StateUpdate → List StateUpdate
without_nested_ops [] = []
without_nested_ops (u ∷ updates) =
    let rest = without_nested_ops updates in if is_nested u then rest else u ∷ rest

-- The fold over the children's gas, behind the root's.
unfoldable pub add_frames : NestingCostModel → ℕ → List ℕ → ℕ
add_frames cost total [] = total
add_frames cost total (gas ∷ frame_gas) =
    add_frames cost
      (saturating_add total (saturating_add (gas - base_tx_cost) cost.frame_overhead_gas)) frame_gas

unfoldable pub frame_tree_total : List ℕ → NestingCostModel → ℕ
frame_tree_total [] cost = 0
frame_tree_total (root_gas ∷ frame_gas) cost = add_frames cost (saturating_add 0 root_gas) frame_gas

pub data NotNestedReason : Type 0 where
  kept_as_call not_reached : NotNestedReason

abbrev pub frame_targets : List FrameProgram → List ℕ
frame_targets [] = []
frame_targets (f ∷ frames) = f.target ∷ frame_targets frames

abbrev pub add_target : StateUpdate → List ℕ → List ℕ
add_target (call c) targets = c.target ∷ targets
add_target _ targets = targets

abbrev pub call_targets : List StateUpdate → List ℕ
call_targets [] = []
call_targets (u ∷ updates) = add_target u (call_targets updates)

abbrev pub called_by : List FrameProgram → List ℕ
called_by [] = []
called_by (f ∷ frames) = call_targets f.updates ++ called_by frames

abbrev pub reason_for : List ℕ → ℕ → NotNestedReason
reason_for called a = if contains a called then kept_as_call else not_reached

-- The contracts in `owned`, in ascending order, that have no frame.
unfoldable pub list_unnested : List ℕ → List ℕ → List ℕ → List (ℕ × NotNestedReason)
list_unnested framed called [] = []
list_unnested framed called (a ∷ owned) =
    let rest = list_unnested framed called owned in
    if contains a framed then rest else (a, reason_for called a) ∷ rest

unfoldable pub unnested_owned : List ℕ → List FrameProgram → List (ℕ × NotNestedReason)
unnested_owned owned frames = list_unnested (frame_targets frames) (called_by frames) owned

-- `programs[id]`
abbrev pub program_at : List ProgramState → ℕ → Result Failure ProgramState
program_at programs id = ok_or (get_elem? programs id) panic

-- The body of the loop for a program with a parent.
abbrev pub drop_if : List ProgramState → ℕ → ProgramState → ProgramState → List ProgramState
drop_if programs id program above =
    if above.dropped then set programs id (record program { dropped = true }) else programs

abbrev pub drop_below :
    List ProgramState → ℕ → ProgramState → Option ℕ → Result Failure (List ProgramState)
drop_below programs id program none = ok programs
drop_below programs id program (some parent) = do
  above ← program_at programs parent
  ok (drop_if programs id program above)

-- `for id in …`: so many programs from an index on.
unfoldable pub drop_from : ℕ → ℕ → List ProgramState → Result Failure (List ProgramState)
drop_from zero id programs = ok programs
drop_from (suc count) id programs = do
  program ← program_at programs id
  programs' ← drop_below programs id program program.parent
  drop_from count (id + 1) programs'

unfoldable pub drop_descendants_of_dropped : List ProgramState → Result Failure (List ProgramState)
drop_descendants_of_dropped programs = drop_from (length programs - 1) 1 programs

-- The loop of `depth_of`, on fuel.
unfoldable pub depth_from : ℕ → List ProgramState → ℕ → ℕ → Result Failure ℕ
depth_from zero programs id depth = err out_of_fuel
depth_from (suc fuel) programs id depth = do
  program ← program_at programs id
  elim program.parent [
    | none ↦ ok depth
    | some parent ↦ depth_from fuel programs parent (depth +64 1)
  ]

unfoldable pub depth_of : List ProgramState → ℕ → Result Failure ℕ
depth_of programs id = depth_from (length programs) programs id 0

abbrev pub parent_dropped : List ProgramState → Option ℕ → Result Failure Bool
parent_dropped programs none = ok true
parent_dropped programs (some parent) = do above ← program_at programs parent; ok above.dropped

-- What one program adds to the sum; `gas` picks its direct and its native figure.
abbrev pub replayed_gas :
    List ProgramState → (ProgramState → ℕ × ℕ) → ProgramState → Result Failure ℕ
replayed_gas programs gas p =
    if not p.dropped
    then ok (gas p).0
    else (if p.pruned
        then (do gone ← parent_dropped programs p.parent; ok (if gone then 0 else (gas p).1))
        else ok 0)

unfoldable pub sum_replayed :
    List ProgramState → (ProgramState → ℕ × ℕ) → List ProgramState → Result Failure ℕ
sum_replayed programs gas [] = ok 0
sum_replayed programs gas (p ∷ ps) = do
  own ← replayed_gas programs gas p
  rest ← sum_replayed programs gas ps
  ok (own +64 rest)

unfoldable pub native_call_gas : List ProgramState → (ProgramState → ℕ × ℕ) → Result Failure ℕ
native_call_gas programs gas = sum_replayed programs gas programs

-- `usize::MAX`, the place of a program that is dropped.
abbrev pub no_place : ℕ
no_place = u64_max

-- The loop that fills `remap`, from a number of kept programs on.
unfoldable pub places : ℕ → List ProgramState → List ℕ
places next [] = []
places next (p ∷ programs) =
    if p.dropped then no_place ∷ places next programs else next ∷ places (next + 1) programs

unfoldable pub remap_children : List ℕ → List ℕ → Result Failure (List ℕ)
remap_children remap [] = ok []
remap_children remap (c ∷ children) = do
  place ← ok_or (get_elem? remap c) panic
  rest ← remap_children remap children
  ok (place ∷ rest)

abbrev pub frame_of : List ℕ → ProgramState → Result Failure FrameProgram
frame_of remap p = do
  updates ← ok_or p.updates never_returned
  children ← remap_children remap p.children
  ok (record {
    target = p.target;
    caller = p.caller;
    value = p.value;
    calldata_hash = p.calldata_hash;
    transition_index = p.transition_index;
    updates = updates;
    children = children;
  })

-- `filter`, `map` and `collect`: the first error ends it.
unfoldable pub collect_frames : List ℕ → List ProgramState → Result Failure (List FrameProgram)
collect_frames remap [] = ok []
collect_frames remap (p ∷ programs) =
    if p.dropped
    then collect_frames remap programs
    else (do f ← frame_of remap p; frames ← collect_frames remap programs; ok (f ∷ frames))

unfoldable pub compact : List ProgramState → Result Failure (List FrameProgram)
compact programs = collect_frames (places 0 programs) programs
