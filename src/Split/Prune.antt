-- ===== src/Split/Prune.antt =====
-- Turning nested frames that do not pay for their overhead back into calls
-- (crates/core/src/nested.rs, `prune_unprofitable`).
use gas_analyzer.Split.Close.{amend}
use gas_analyzer.Encoding.{AbiSequence, encode_state_updates_to_abi}
use gas_analyzer.FrameTree.{
  NestingCostModel, ProgramState, is_nested, program_at, drop_from, depth_of,
}
use gas_analyzer.Failure.{Failure, panic}
use gas_analyzer.Prelude.Results.{◌>>=◌, ok_or, Result, ok}
use gas_analyzer.Prelude.{
  ℕ, zero, suc, ◌+◌, ◌-◌, ◌*◌, ◌%◌, true, Option, none, some, List, [], ◌∷◌, ltb, ◌==◌,
  if◌then◌else◌, length, get_elem?, set, replicate, u64_mod, ◌+64◌, saturating_add, saturating_mul,
}
use gas_analyzer.Types.{StateUpdate, call}

abbrev pub estimated_proof_words : ℕ
estimated_proof_words = 8

abbrev pub witness_head_bytes : ℕ
witness_head_bytes = 8 * 32

-- The local variables: a figure for each program.
pub record Pruning : Type 0 where
  pub programs : List ProgramState
  pub witness_bytes : List ℕ
  pub net_savings : List ℕ

-- `iter().map(|c| figures[*c]).sum()`
unfoldable pub sum_at : List ℕ → List ℕ → Result Failure ℕ
sum_at figures [] = ok 0
sum_at figures (c ∷ children) = do
  own ← ok_or (get_elem? figures c) panic
  rest ← sum_at figures children
  ok (own +64 rest)

abbrev pub updates_or_none : ProgramState → List StateUpdate
updates_or_none p = elim p.updates [ none ↦ [] | some updates ↦ updates ]

unfoldable pub witness_size : AbiSequence → ProgramState → ℕ → ℕ
witness_size abi p children_bytes =
    witness_head_bytes
    +64 length (encode_state_updates_to_abi abi (updates_or_none p))
    +64 (estimated_proof_words * 32)
    +64 children_bytes

-- The gas that nesting a frame costs on top of its program.
unfoldable pub nesting_overhead : NestingCostModel → ℕ → ℕ → ℕ
nesting_overhead cost depth bytes =
    let per_byte = cost.witness_byte_gas +64 (depth * cost.witness_byte_gas_per_level) % u64_mod in
    saturating_add cost.frame_overhead_gas (saturating_mul bytes per_byte)

-- What nesting a frame saves before its overhead.
unfoldable pub nesting_benefit : ProgramState → ℕ → ℕ
nesting_benefit p children_savings =
    saturating_add (p.native_gas - p.effect_gas - p.child_call_gas) children_savings

-- `position(|c| *c == id)`
unfoldable pub position : ℕ → List ℕ → Option ℕ
position id [] = none
position id (c ∷ children) =
    let later = position id children in
    if c == id then some 0 else (elim later [ none ↦ none | some i ↦ some (suc i) ])

-- The `n`th of the `NESTED` ops becomes another op.
unfoldable pub replace_nested : ℕ → StateUpdate → List StateUpdate → Option (List StateUpdate)
replace_nested n op [] = none
replace_nested zero op (u ∷ updates) =
    let rest = replace_nested zero op updates in
    if is_nested u
    then some (op ∷ updates)
    else (elim rest [ none ↦ none | some us ↦ some (u ∷ us) ])
replace_nested (suc n) op (u ∷ updates) =
    let skipping = replace_nested n op updates in
    let rest = replace_nested (suc n) op updates in
    elim (if is_nested u then skipping else rest) [ none ↦ none | some us ↦ some (u ∷ us) ]

-- `remove(position)`
unfoldable pub remove_at : ℕ → List ℕ → List ℕ
remove_at i [] = []
remove_at zero (c ∷ children) = children
remove_at (suc i) (c ∷ children) = c ∷ remove_at i children

abbrev pub give_up : ProgramState → ProgramState
give_up p = record p { dropped = true; pruned = true }

-- The frame's op becomes its `CALL` again, and its subtree is dropped.
unfoldable pub prune_frame :
    ℕ → ProgramState → List ProgramState → Result Failure (List ProgramState)
prune_frame id p programs = do
  parent ← ok_or p.parent panic
  above ← program_at programs parent
  place ← ok_or (position id above.children) panic
  fallback ← ok_or p.fallback panic
  updates ← ok_or above.updates panic
  replaced ← ok_or (replace_nested place (call fallback) updates) panic
  moved ←
      amend programs parent
        (λ q. record q { updates = some replaced; children = remove_at place q.children })
  dropped ← amend moved id give_up
  drop_from (length programs - (id + 1)) (id + 1) dropped

-- The body of the loop.
module _ (abi : AbiSequence) (cost : NestingCostModel) where
  abbrev pub weigh_frame : ℕ → ProgramState → Pruning → Result Failure Pruning
  weigh_frame id p s = do
    children_bytes ← sum_at s.witness_bytes p.children
    let bytes = witness_size abi p children_bytes
    depth ← depth_of s.programs id
    children_savings ← sum_at s.net_savings p.children
    let overhead = nesting_overhead cost depth bytes
    let benefit = nesting_benefit p children_savings
    let weighed = record s { witness_bytes = set s.witness_bytes id bytes }
    if ltb overhead benefit
        then ok (record weighed { net_savings = set s.net_savings id (benefit - overhead) })
        else (do
          programs ← prune_frame id p s.programs
          ok (record weighed { programs = programs }))

  unfoldable pub prune_step : ℕ → Pruning → Result Failure Pruning
  prune_step id s = do p ← program_at s.programs id; if p.dropped then ok s else weigh_frame id p s

  -- `for id in (1..len).rev()`: so many programs are left, from the last.
  unfoldable pub prune_down : ℕ → Pruning → Result Failure Pruning
  prune_down zero s = ok s
  prune_down (suc id) s = do s' ← prune_step (suc id) s; prune_down id s'

  unfoldable pub prune_unprofitable : List ProgramState → Result Failure (List ProgramState)
  prune_unprofitable programs = do
    s ← prune_down (length programs - 1) (record {
      programs = programs;
      witness_bytes = replicate (length programs) 0;
      net_savings = replicate (length programs) 0;
    })
    ok s.programs
