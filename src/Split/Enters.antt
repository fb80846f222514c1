-- ===== src/Split/Enters.antt =====
-- Each round that enters or closes frames keeps the invariant of the split
-- (crates/core/src/nested.rs, `split_frame_tree`).
use gas_analyzer.Split.{WalkFrame, PendingFrame, SplitWalk}
use gas_analyzer.Split.Images.{visible_image, flush_into, flush_slice}
use gas_analyzer.Split.Close.{
  charge_program, entered_frame, top_of_stack, add_inline_gas, charge_inline, enter_frame,
  success_of, final_slice, top_depth, close_one, close_frames,
}
use gas_analyzer.Split.Flush.{visible_image-Ascending}
use gas_analyzer.Split.Agree.{
  ProgramsOk, PendingOk, EndsAtRoot, StateOk, BothOk, FramesOk-top, EndsAtRoot-top,
}
use gas_analyzer.Split.Views.{Flushed, flush_slice-Flushed, FramesOk-flush}
use gas_analyzer.Split.Closes.{close_popped-BothOk}
use gas_analyzer.Split.Programs.{ProgramsOk-charge}
use gas_analyzer.FrameTree.{ProgramState}
use gas_analyzer.Evm.{StructLog}
use gas_analyzer.Extract.{is_none_or_zero}
use gas_analyzer.Failure.{Failure}
use gas_analyzer.Prelude.Results.{
  IfOk, IfOk-bind, IfOk-after, IfOk-mono, IfOk-if, IfOk-refuse_if, Result, ok,
}
use gas_analyzer.Prelude.{
  ℕ, zero, suc, ◌-◌, ◌≡◌, refl, sym, subst, Bool, true, false, not, ◌&&◌, Option, none, some, List,
  [], ◌∷◌, ltb, ◌==◌, is_some, ◌+64◌,
}

module _ (root : ℕ) where
  pub flush_slice-StateOk :
      (cur : WalkFrame) (below : List WalkFrame) (programs : List ProgramState)
      (frames : List WalkFrame)
      → Flushed cur below programs frames
      → StateOk root (cur ∷ below) programs
      → StateOk root frames programs
  flush_slice-StateOk cur below programs frames f (k, end, ps) =
      let image = visible_image (cur ∷ below) f.program.target in
      subst (λ fs. StateOk root fs programs) (sym f.same)
        (
          FramesOk-flush cur below image f.id
              (visible_image-Ascending (cur ∷ below) f.program.target) f.emits k,
          EndsAtRoot-top cur (flush_into image cur) below refl refl end,
          ps,
        )

  final_slice-StateOk :
      (success : Bool) (frames : List WalkFrame) (programs : List ProgramState)
      → StateOk root frames programs
      → IfOk (λ fs. StateOk root fs programs) (final_slice success frames programs)
  final_slice-StateOk success [] programs k = tt
  final_slice-StateOk success (cur ∷ below) programs k =
      IfOk-if (λ fs. StateOk root fs programs) (success && is_some cur.nested_start_gas)
        (flush_slice (cur ∷ below) programs) (ok (cur ∷ below))
        (λ e.
          IfOk-mono (Flushed cur below programs) (λ fs. StateOk root fs programs)
            (flush_slice (cur ∷ below) programs)
            (λ fs f. flush_slice-StateOk cur below programs fs f k)
            (flush_slice-Flushed cur below programs))
        (λ e. k)

  close_one-BothOk :
      (log : StructLog) (frames : List WalkFrame) (programs : List ProgramState)
      → StateOk root frames programs
      → IfOk (BothOk root) (close_one log frames programs)
  close_one-BothOk log frames programs k =
      IfOk-refuse_if (BothOk root) (not (top_depth frames == log.depth +64 1)) _ _ λ e.
        IfOk-after (BothOk root) (success_of log) _ λ success f.
          IfOk-bind (λ fs. StateOk root fs programs) (BothOk root)
            (final_slice success frames programs) _ (final_slice-StateOk success frames programs k)
            (λ frames' k'. close_popped-BothOk root log success frames' programs k')

  close_round :
      (b : Bool) (s : List WalkFrame × List ProgramState)
      (m : Result Failure (List WalkFrame × List ProgramState))
      → BothOk root s
      → IfOk (BothOk root) m
      → IfOk (BothOk root) (elim b [ false ↦ ok s | true ↦ m ])
  close_round true s m h k = k
  close_round false s m h k = h

  pub close_frames-BothOk :
      (fuel : ℕ) (log : StructLog) (frames : List WalkFrame) (programs : List ProgramState)
      → StateOk root frames programs
      → IfOk (BothOk root) (close_frames fuel log frames programs)
  unfolding close_frames
  close_frames-BothOk zero log frames programs k = tt
  close_frames-BothOk (suc fuel) log frames programs k =
      close_round (ltb log.depth (top_depth frames)) (frames, programs) _ k
        (IfOk-bind (BothOk root) (BothOk root) (close_one log frames programs) _
          (close_one-BothOk log frames programs k)
          (λ s k'. close_frames-BothOk fuel log s.0 s.1 k'))

  -- After the pending frame is taken, none is.
  abbrev pub Entered : SplitWalk → Type 0
  Entered w = StateOk root w.frames w.programs × (w.pending ≡ none)

  EndsAtRoot-push :
      (f : WalkFrame) (frames : List WalkFrame) → EndsAtRoot frames → EndsAtRoot (f ∷ frames)
  EndsAtRoot-push f [] k = absurd k
  EndsAtRoot-push f (g ∷ frames) k = k

  inline-StateOk :
      (b : Bool) (gas : ℕ) (caller : WalkFrame) (frames : List WalkFrame)
      (programs : List ProgramState)
      → StateOk root (caller ∷ frames) programs
      → StateOk root (add_inline_gas b gas caller ∷ frames) programs
  inline-StateOk true gas caller frames programs (k, end, ps) =
      let charged = add_inline_gas true gas caller in
      (
        FramesOk-top caller charged frames refl refl refl refl k,
        EndsAtRoot-top caller charged frames refl refl end,
        ps,
      )
  inline-StateOk false gas caller frames programs (k, end, ps) =
      let charged = add_inline_gas false gas caller in
      (
        FramesOk-top caller charged frames refl refl refl refl k,
        EndsAtRoot-top caller charged frames refl refl end,
        ps,
      )

  charge_inline-Entered :
      (log : StructLog) (b : Bool) (o : Option ℕ) (frames : List WalkFrame) (w : SplitWalk)
      → w.frames ≡ frames
      → w.pending ≡ none
      → StateOk root frames w.programs
      → IfOk Entered (charge_inline log b o frames w)
  charge_inline-Entered log b none frames w e idle k =
      (subst (λ fs. StateOk root fs w.programs) (sym e) k, idle)
  charge_inline-Entered log b (some gas) [] w e idle k = tt
  charge_inline-Entered log b (some gas) (caller ∷ frames) w e idle (k, end, ps) =
      IfOk-bind (ProgramsOk root) Entered (charge_program w.programs caller.program (gas - log.gas))
        _ (ProgramsOk-charge root w.programs caller.program (gas - log.gas) ps)
        (λ programs ps'.
          (inline-StateOk b (gas - log.gas) caller frames programs (k, end, ps'), idle))

  pub enter_frame-Entered :
      (log : StructLog) (o : Option PendingFrame) (w : SplitWalk)
      → w.pending ≡ o
      → StateOk root w.frames w.programs
      → PendingOk o w.frames
      → IfOk Entered (enter_frame log o w)
  enter_frame-Entered log none w e k p = (k, e)
  enter_frame-Entered log (some p) w e (k, end, ps) fits =
      IfOk-if Entered (log.depth == p.parent_depth +64 1) _ _
        (λ d.
          (((fits, k), EndsAtRoot-push (entered_frame log p w.programs) w.frames end, ps), refl))
        (λ d. IfOk-refuse_if Entered (is_some p.nested_start_gas) _ _ λ g.
          IfOk-refuse_if Entered (p.emitted_create && is_none_or_zero (top_of_stack log)) _ _ λ h.
            charge_inline-Entered log p.emitted_create p.emitted_call_gas w.frames
              (record w { pending = none }) refl refl (k, end, ps))
