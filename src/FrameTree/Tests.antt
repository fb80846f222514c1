-- ===== src/FrameTree/Tests.antt =====
-- An example of a frame tree: a root with two children, of which the first is dropped and has a
-- child of its own.
use gas_analyzer.FrameTree.{
  FrameProgram, ProgramState, nesting_cost_model_v1, frame_tree_total, unnested_owned, drop_from,
  drop_descendants_of_dropped, depth_of, places, remap_children, collect_frames, compact,
  kept_as_call, not_reached,
}
use gas_analyzer.FrameTree.Drop.{
  dropped_at, parent_at, is_dropped, ParentsBefore, drop_descendants_of_dropped-dropped_at,
}
use gas_analyzer.FrameTree.Depth.{depth_of-bound}
use gas_analyzer.FrameTree.Compact.{IsKept, Carries, rank, kept_count, compact-rank, compact_total}
use gas_analyzer.Prelude.Assoc.{lookup}
use gas_analyzer.Prelude.Sort.{contains}
use gas_analyzer.FrameTree.Unnested.{has_frame, is_called, lookup-unnested_owned}
use gas_analyzer.FrameTree.Total.{exact_total, frame_tree_total-exact_total}
use gas_analyzer.Prelude.Results.{ok}
use gas_analyzer.Prelude.{
  ℕ, zero, suc, ◌≤◌, min, ◌≡◌, refl, inl, inr, Bool, true, false, not, ◌&&◌, ◌||◌, Option, none,
  some, List, [], ◌∷◌, map, arith, if◌then◌else◌, length, get_elem?, u64_max,
}

abbrev program : ℕ → Option ℕ → List ℕ → Bool → ProgramState
program target parent children dropped = record {
  target = target;
  caller = 0;
  value = 0;
  calldata_hash = 0;
  transition_index = some 1;
  parent = parent;
  updates = some [];
  children = children;
  fallback = none;
  dropped = dropped;
  native_gas = 0;
  effect_gas = 0;
  child_call_gas = 0;
  direct_call_gas = 0;
  native_callee_gas = 0;
  direct_callee_gas = 0;
  direct_create_gas = 0;
  pruned = false;
}

abbrev before_pass : List ProgramState
before_pass =
    program 50 none (3 ∷ []) false
    ∷ program 51 (some 0) (2 ∷ []) true
    ∷ program 52 (some 1) [] false
    ∷ program 53 (some 0) [] false
    ∷ []

abbrev after_pass : List ProgramState
after_pass =
    program 50 none (3 ∷ []) false
    ∷ program 51 (some 0) (2 ∷ []) true
    ∷ program 52 (some 1) [] true
    ∷ program 53 (some 0) [] false
    ∷ []

pass : drop_descendants_of_dropped before_pass ≡ ok after_pass
unfolding drop_descendants_of_dropped drop_from
pass = refl

before_pass-ParentsBefore : ParentsBefore before_pass
before_pass-ParentsBefore zero q e = ground arith
before_pass-ParentsBefore (suc zero) q e = ground arith
before_pass-ParentsBefore (suc (suc zero)) q e = ground arith
before_pass-ParentsBefore (suc (suc (suc zero))) q e = ground arith
before_pass-ParentsBefore (suc (suc (suc (suc id)))) q e = ground arith

drop_descendants_of_dropped-dropped_at_example :
    (ps : List ProgramState) × (drop_descendants_of_dropped before_pass ≡ ok ps)
    × (parent_at ps 2 ≡ parent_at before_pass 2)
    × (dropped_at ps 2 ≡ (dropped_at before_pass 2 || is_dropped ps (parent_at before_pass 2)))
drop_descendants_of_dropped-dropped_at_example =
    drop_descendants_of_dropped-dropped_at before_pass 2 (omega arith) before_pass-ParentsBefore

depth_of-bound_example : (d : ℕ) × (depth_of before_pass 2 ≡ ok d) × (d ≤ 2)
depth_of-bound_example =
    depth_of-bound before_pass 2 before_pass-ParentsBefore (omega arith) (omega arith)

abbrev frame_at : ℕ → List ℕ → FrameProgram
frame_at target children = record {
  target = target;
  caller = 0;
  value = 0;
  calldata_hash = 0;
  transition_index = some 1;
  updates = [];
  children = children;
}

abbrev frames : List FrameProgram
frames = frame_at 50 (1 ∷ []) ∷ frame_at 53 [] ∷ []

compacted : compact after_pass ≡ ok frames
unfolding compact collect_frames places remap_children
compacted = refl

abbrev root_kept : IsKept after_pass 0
root_kept = record { program = program 50 none (3 ∷ []) false; here = refl; kept = refl }

abbrev last_kept : IsKept after_pass 3
last_kept = record { program = program 53 (some 0) [] false; here = refl; kept = refl }

compact-rank_example :
    (length frames ≡ kept_count after_pass)
    × ((f : FrameProgram) × (get_elem? frames (rank after_pass 0) ≡ some f)
        × Carries root_kept.program f
        × (f.children ≡ map (rank after_pass) root_kept.program.children))
compact-rank_example = compact-rank after_pass 0 root_kept (last_kept, tt) compacted

compact_total_example : (fs : List FrameProgram) × (compact after_pass ≡ ok fs)
compact_total_example =
    compact_total after_pass
      (inr (([], refl), (omega arith, tt)), (inl refl, (inl refl, (inr (([], refl), tt), tt))))

frame_tree_total-exact_total_example :
    frame_tree_total (90000 ∷ 60000 ∷ []) nesting_cost_model_v1
    ≡ min u64_max (exact_total nesting_cost_model_v1 (90000 ∷ 60000 ∷ []))
frame_tree_total-exact_total_example =
    frame_tree_total-exact_total (90000 ∷ 60000 ∷ []) nesting_cost_model_v1

lookup-unnested_owned_example : lookup 52 (unnested_owned (52 ∷ 53 ∷ []) frames) ≡ (
    if contains 52 (52 ∷ 53 ∷ []) && not (has_frame 52 frames)
    then some (if is_called 52 frames then kept_as_call else not_reached)
    else none)
lookup-unnested_owned_example = lookup-unnested_owned 52 (52 ∷ 53 ∷ []) frames
