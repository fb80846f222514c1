-- ===== src/Split/Determines.antt =====
-- What the walk gives for the root (crates/core/src/nested.rs, `split_frame_tree`).
use gas_analyzer.Split.{Candidate, WalkFrame, SplitWalk, Eligibility}
use gas_analyzer.Split.Images.{visible_image, flush_into, flush_slice}
use gas_analyzer.Split.Close.{amend, enter_frame, close_frames}
use gas_analyzer.Split.Walk.{
  root_program, start_walk, settled_root, pop_root, close_root, walk_here, walk_step, walk_from,
  walk_trace,
}
use gas_analyzer.Split.Flush.{last_store, visible_image-Ascending, lookup-emit_slots}
use gas_analyzer.Split.Agree.{start_of, place_at, StateOk, BothOk, WalkOk, Agrees-nothing}
use gas_analyzer.Split.Views.{Flushed, flush_slice-Flushed, FramesOk-flush}
use gas_analyzer.Split.Programs.{
  ProgramsOk-same, place_at-set, ProgramsOk-ParentsBefore, ProgramsOk-first,
}
use gas_analyzer.FrameTree.{ProgramState}
use gas_analyzer.FrameTree.Drop.{ParentsBefore}
use gas_analyzer.Prelude.Maps.{or_else}
use gas_analyzer.Prelude.Assoc.{lookup}
use gas_analyzer.Prelude.Results.{◌>>=◌, IfOk, IfOk-bind, IfOk-after, IfOk-ok, IfOk-refuse_if, ok}
use gas_analyzer.Prelude.{
  ℕ, zero, suc, ◌+◌, ◌<◌, ◌≡◌, refl, sym, ap, ◌∙◌, subst, not, Option, none, some, List, [], ◌∷◌,
  ◌++◌, arith, ◌==◌, length, get_elem?, set,
}
use gas_analyzer.Prelude.Bytes.{Bytes}
use gas_analyzer.Encoding.{AbiSequence}
use gas_analyzer.Evm.{StructLog, Op}
use gas_analyzer.Split.Calls.{walk_op-WalkOk}
use gas_analyzer.Split.Enters.{close_frames-BothOk, Entered, enter_frame-Entered}
use gas_analyzer.Split.Scan.{scan_candidates}

-- The program of the root writes the root's image, and stands first among the programs, each of
-- which stands behind its parent.
pub record IsSettled (root : ℕ) (frame : WalkFrame) (programs : List ProgramState) : Type 0 where
  pub writes :
      (slot value : ℕ)
      → lookup slot (visible_image (frame ∷ []) root) ≡ some value
      → last_store slot frame.out ≡ some value
  pub first_program : ProgramState
  pub here : get_elem? programs 0 ≡ some first_program
  pub updates : first_program.updates ≡ some frame.out
  pub ordered : ParentsBefore programs

only_frame : (frames : List WalkFrame) → length frames ≡ 1 → (f : WalkFrame) × (frames ≡ f ∷ [])
only_frame [] e = absurd (omega arith)
only_frame (f ∷ []) e = (f, refl)
only_frame (f ∷ g ∷ frames) e = absurd (omega arith)

start_ordered :
    (root : ℕ) (root_index : Option ℕ) (id target q : ℕ)
    → place_at (root_program root root_index ∷ []) id ≡ some (target, some q)
    → q < id
start_ordered root root_index zero target q e = cc
start_ordered root root_index (suc id) target q e = cc

module _ (root : ℕ) where
  abbrev Settled : WalkFrame × List ProgramState → Type 0
  Settled s = IsSettled root s.0 s.1

  get_elem?-set_first :
      (programs : List ProgramState) (p q : ProgramState)
      → get_elem? programs 0 ≡ some p
      → get_elem? (set programs 0 q) 0 ≡ some q
  get_elem?-set_first [] p q e = cc
  get_elem?-set_first (x ∷ programs) p q e = refl

  -- The root's frame after its final slice.
  pop_root-Settled :
      (f : WalkFrame) (programs : List ProgramState) (frames : List WalkFrame)
      → StateOk root (f ∷ []) programs
      → Flushed f [] programs frames
      → IfOk Settled (do
        top ← pop_root frames
        programs' ← amend programs 0 (settled_root top)
        ok (top, programs'))
  unfolding amend visible_image
  pop_root-Settled f programs frames (k, (emits, whole), ps) flushed =
      let (p, here, target) = ProgramsOk-first root programs ps in
      let image = visible_image (f ∷ []) flushed.program.target in
      let zero_id : flushed.id ≡ 0 = cc in
      let same_program : p ≡ flushed.program =
        let at_zero : get_elem? programs 0 ≡ some flushed.program =
          subst (λ i. get_elem? programs i ≡ some flushed.program) zero_id flushed.here in
        cc in
      let sorted = visible_image-Ascending (f ∷ []) flushed.program.target in
      let top = flush_into image f in
      let (agreed, shares) = (FramesOk-flush f [] image flushed.id sorted flushed.emits k).0 in
      let ours : flushed.program.target ≡ root = ap (λ p. p.target) (sym same_program) ∙ target in
      rw flushed.same (
        rw here (
          let settled = set programs 0 (settled_root top p) in
          let kept =
            ProgramsOk-same root programs settled
              (λ j. place_at-set programs 0 j p (settled_root top p) here refl refl) ps in
          record {
            writes = λ slot value e.
                ap (λ us. last_store slot (us ++ top.out))
                  (sym
                    (ap (λ n. start_of n f.program []) whole ∙ ap (λ o. start_of none o []) emits))
                ∙ agreed slot value (
                    lookup-emit_slots 0 slot image f.emitted_view f.out sorted
                    ∙ ap (λ o. or_else o (lookup slot f.emitted_view))
                        (ap (λ t. lookup slot (visible_image (f ∷ []) t)) ours ∙ e));
            first_program = settled_root top p;
            here = get_elem?-set_first programs p (settled_root top p) here;
            updates = refl;
            ordered = ProgramsOk-ParentsBefore root settled kept;
          }))

  close_root-Settled :
      (w : SplitWalk) → StateOk root w.frames w.programs → IfOk Settled (close_root w)
  unfolding close_root
  close_root-Settled w k = IfOk-refuse_if Settled (not (length w.frames == 1)) _ _ λ e.
      let (f, alone) = only_frame w.frames (ground (arith, e)) in
      let k' : StateOk root (f ∷ []) w.programs =
        subst (λ fs. StateOk root fs w.programs) alone k in
      rw alone (
        IfOk-bind (Flushed f [] w.programs) Settled (flush_slice (f ∷ []) w.programs) _
          (flush_slice-Flushed f [] w.programs)
          (λ frames flushed. pop_root-Settled f w.programs frames k' flushed))

  module _ (keccak256 : Bytes → ℕ) (decode_to_slice : List ℕ → Option Bytes) (abi : AbiSequence)
      (eligibility : Eligibility) (candidates : List (ℕ × Candidate)) where
    walk_here-WalkOk :
        (i : ℕ) (log : StructLog) (frames : List WalkFrame) (w : SplitWalk)
        → w.frames ≡ frames
        → w.pending ≡ none
        → StateOk root frames w.programs
        → IfOk
            (WalkOk root)
            (walk_here keccak256 decode_to_slice abi eligibility candidates i log frames w)
    walk_here-WalkOk i log [] w e idle k = tt
    walk_here-WalkOk i log (cur ∷ below) w e idle k =
        walk_op-WalkOk root keccak256 decode_to_slice eligibility log.op log (lookup i candidates)
          cur below w refl (e, idle, k)

    walk_step-WalkOk :
        (i : ℕ) (log : StructLog) (w : SplitWalk)
        → WalkOk root w
        → IfOk
            (WalkOk root)
            (walk_step keccak256 decode_to_slice abi eligibility candidates i log w)
    unfolding walk_step
    walk_step-WalkOk i log w (k, fits) =
        IfOk-bind (Entered root) (WalkOk root) (enter_frame log w.pending w) _
          (enter_frame-Entered root log w.pending w refl k fits)
          λ entered h.
            IfOk-bind (BothOk root) (WalkOk root)
              (close_frames (length entered.frames + 1) log entered.frames entered.programs) _
              (close_frames-BothOk root (length entered.frames + 1) log entered.frames
                entered.programs h.0)
              (λ s k'.
                walk_here-WalkOk i log s.0 (record entered { frames = s.0; programs = s.1 }) refl
                  h.1 k')

    walk_from-WalkOk :
        (i : ℕ) (logs : List StructLog) (w : SplitWalk)
        → WalkOk root w
        → IfOk
            (WalkOk root)
            (walk_from keccak256 decode_to_slice abi eligibility candidates i logs w)
    unfolding walk_from
    walk_from-WalkOk i [] w h = h
    walk_from-WalkOk i (log ∷ logs) w h =
        IfOk-bind (WalkOk root) (WalkOk root)
          (walk_step keccak256 decode_to_slice abi eligibility candidates i log w) _
          (walk_step-WalkOk i log w h) (λ w' h'. walk_from-WalkOk (i + 1) logs w' h')

  start_walk-WalkOk : (root_index : Option ℕ) → WalkOk root (start_walk root root_index)
  unfolding start_walk
  start_walk-WalkOk root_index = (
    (
      ((Agrees-nothing [], refl), tt),
      (refl, refl),
      record {
        here = refl;
        ordered = λ id target q e. start_ordered root root_index id target q e;
      },
    ),
    tt,
  )

-- When the walk over a trace succeeds, the last store of each slot of the root's image in the root's
-- program writes what the image holds; the program is the first one's, and every program stands
-- behind its parent.
pub walk_trace-IsSettled :
    (keccak256 : Bytes → ℕ) (decode_to_slice : List ℕ → Option Bytes) (abi : AbiSequence)
    (eligibility : Eligibility) (logs : List StructLog) (root : ℕ) {frame : WalkFrame}
    {programs : List ProgramState} {skipped : List Op}
    → walk_trace keccak256 decode_to_slice abi eligibility logs root ≡ ok (frame, programs, skipped)
    → IsSettled root frame programs
unfolding walk_trace
walk_trace-IsSettled keccak256 decode_to_slice abi eligibility logs root {frame} {programs}
      {skipped} h =
    let Result3 : WalkFrame × List ProgramState × List Op → Type 0 = λ r. IsSettled root r.0 r.1 in
    let held = IfOk-after Result3 (scan_candidates logs root) _ λ scanned e.
      IfOk-bind (WalkOk root) Result3
        (walk_from keccak256 decode_to_slice abi eligibility scanned.0 0 logs
          (start_walk root scanned.1))
        _
        (walk_from-WalkOk root keccak256 decode_to_slice abi eligibility scanned.0 0 logs
          (start_walk root scanned.1) (start_walk-WalkOk root scanned.1))
        λ w k.
          IfOk-bind (Settled root) Result3 (close_root w) _ (close_root-Settled root w k.0)
            (λ s t. t) in
    IfOk-ok Result3 _ held h
