-- ===== src/Split/Fuel.antt =====
-- Each round of the loop that closes frames closes one, so that its fuel is enough
-- (crates/core/src/nested.rs, `split_frame_tree`).
use native.Mathlib.Nat.{suc-add}
use gas_analyzer.Split.{WalkFrame, Journal}
use gas_analyzer.Split.Images.{flush_slice, forget_overwritten}
use gas_analyzer.Split.Ends.{Ends, Ends-bind, Ends-test, close_one-HasFuel}
use gas_analyzer.Split.Close.{
  amend, charge_program, drop_since, charge_closed, settled_program, commit_into, merge_into,
  on_top, ends_nested, close_as, close_popped, success_of, final_slice, top_depth, close_one,
  close_frames,
}
use gas_analyzer.Split.Views.{Flushed, flush_slice-Flushed, Forgot, forget_overwritten-Forgot}
use gas_analyzer.FrameTree.{ProgramState}
use gas_analyzer.Evm.{StructLog}
use gas_analyzer.Failure.{Failure, panic, failed_create}
use gas_analyzer.Prelude.Results.{
  ◌>>=◌, ok_or, IfOk, IfOk-bind, IfOk-after, IfOk-mono, IfOk-if, IfOk-refuse_if, Result, ok, err,
}
use gas_analyzer.Prelude.{
  ℕ, zero, suc, ◌+◌, ◌-◌, ◌≤◌, ◌<◌, ◌≡◌, refl, ap, subst, Bool, true, false, not, ◌&&◌, Option,
  none, some, List, [], ◌∷◌, arith, ltb, ◌==◌, if◌then◌else◌, is_some, length, last?, ◌+64◌,
}

length-Forgot : (fs gs : List WalkFrame) → Forgot fs gs → length gs ≡ length fs
length-Forgot [] [] h = refl
length-Forgot [] (g ∷ gs) h = absurd h
length-Forgot (f ∷ fs) [] h = absurd h
length-Forgot (f ∷ fs) (g ∷ gs) h = ap suc (length-Forgot fs gs h.4)

-- So many frames are left.
Leaves : ℕ → List WalkFrame × List ProgramState → Type 0
Leaves n s = length s.0 ≡ n

on_top-Leaves :
    (change : WalkFrame → WalkFrame) (programs : List ProgramState) (frames : List WalkFrame)
    (n : ℕ)
    → length frames ≡ n
    → IfOk (Leaves n) (on_top change programs frames)
unfolding Leaves
on_top-Leaves change programs [] n e = tt
on_top-Leaves change programs (f ∷ frames) n e = e

forget_on_top-Leaves :
    (change : WalkFrame → WalkFrame) (frames : List WalkFrame) (programs : List ProgramState)
    (journal : Journal)
    → IfOk
        (Leaves (length frames))
        (forget_overwritten frames programs journal >>= λ gs. on_top change programs gs)
forget_on_top-Leaves change frames programs journal =
    IfOk-bind (Forgot frames) (Leaves (length frames)) (forget_overwritten frames programs journal)
      _ (forget_overwritten-Forgot frames programs journal)
      (λ gs h. on_top-Leaves change programs gs (length frames) (length-Forgot frames gs h))

close_as-Leaves :
    (log : StructLog) (success : Bool) (frame : WalkFrame) (o : Option ℕ) (parent : WalkFrame)
    (below : List WalkFrame) (programs : List ProgramState)
    → IfOk (Leaves (suc (length below))) (close_as log success frame o parent below programs)
unfolding Leaves
close_as-Leaves log true frame (some start_gas) parent below programs =
    IfOk-after (Leaves (suc (length below))) (ok_or frame.program panic) _ λ id e.
      IfOk-after (Leaves (suc (length below)))
        (amend programs id (settled_program frame (start_gas - log.gas))) _
        λ settled f.
          IfOk-after (Leaves (suc (length below)))
            (charge_program settled parent.program (start_gas - log.gas)) _
            λ charged g.
              forget_on_top-Leaves (commit_into frame) (parent ∷ below) charged frame.journal
close_as-Leaves log false frame (some start_gas) parent below programs =
    IfOk-after (Leaves (suc (length below))) (ok_or frame.program panic) _ λ id e.
      IfOk-refuse_if (Leaves (suc (length below))) (not (ends_nested (last? parent.out))) _ _
        λ f. refl
close_as-Leaves log true frame none parent below programs =
    IfOk-if (Leaves (suc (length below))) (is_some frame.program) _ _ (λ e. refl)
      (λ e. forget_on_top-Leaves (merge_into frame) (parent ∷ below) programs frame.journal)
close_as-Leaves log false frame none parent below programs = refl

close_popped-Leaves :
    (log : StructLog) (success : Bool) (frames : List WalkFrame) (programs : List ProgramState)
    → IfOk (Leaves (length frames - 1)) (close_popped log success frames programs)
unfolding close_popped
close_popped-Leaves log success [] programs = tt
close_popped-Leaves log success (frame ∷ []) programs = tt
close_popped-Leaves log success (frame ∷ parent ∷ below) programs =
    let Goal = Leaves (length (frame ∷ parent ∷ below) - 1) in
    IfOk-refuse_if Goal (frame.emitted_create && not success) (failed_create log.depth) _ λ e.
      IfOk-after Goal (if success then ok programs else drop_since frame.first_program programs) _
        λ kept f.
          IfOk-after Goal (charge_closed log frame frame.emitted_call_gas parent kept) _ λ s g.
            subst
              (λ n.
                IfOk (Leaves n) (close_as log success frame frame.nested_start_gas s.0 below s.1))
              (omega arith) (close_as-Leaves log success frame frame.nested_start_gas s.0 below s.1)

final_slice-length :
    (success : Bool) (frames : List WalkFrame) (programs : List ProgramState)
    → IfOk (λ fs. length fs ≡ length frames) (final_slice success frames programs)
final_slice-length success [] programs = tt
final_slice-length success (cur ∷ below) programs =
    let Goal : List WalkFrame → Type 0 = λ fs. length fs ≡ length (cur ∷ below) in
    IfOk-if Goal (success && is_some cur.nested_start_gas) (flush_slice (cur ∷ below) programs)
      (ok (cur ∷ below))
      (λ e.
        IfOk-mono (Flushed cur below programs) Goal (flush_slice (cur ∷ below) programs)
          (λ fs f. ap length f.same) (flush_slice-Flushed cur below programs))
      (λ e. refl)

close_one-Leaves :
    (log : StructLog) (frames : List WalkFrame) (programs : List ProgramState)
    → IfOk (Leaves (length frames - 1)) (close_one log frames programs)
close_one-Leaves log frames programs =
    let Goal = Leaves (length frames - 1) in
    IfOk-refuse_if Goal (not (top_depth frames == log.depth +64 1)) _ _ λ e.
      IfOk-after Goal (success_of log) _ λ success f.
        IfOk-bind (λ fs. length fs ≡ length frames) Goal (final_slice success frames programs) _
          (final_slice-length success frames programs)
          (λ fs same.
            subst (λ n. IfOk (Leaves (n - 1)) (close_popped log success fs programs)) same
              (close_popped-Leaves log success fs programs))

-- No frames are closed where there are none.
close_one-nothing :
    (log : StructLog) (programs : List ProgramState) → IfOk (λ s. ⊥) (close_one log [] programs)
close_one-nothing log programs =
    IfOk-refuse_if (λ s. ⊥) (not (top_depth [] == log.depth +64 1)) _ _
      λ e. IfOk-after (λ s. ⊥) (success_of log) _ λ success f. tt

bind-same :
    (m : Result Failure (List WalkFrame × List ProgramState))
    (next other : List WalkFrame × List ProgramState
      → Result Failure (List WalkFrame × List ProgramState))
    (P : List WalkFrame × List ProgramState → Type 0)
    → IfOk P m
    → ((s : List WalkFrame × List ProgramState) → P s → next s ≡ other s)
    → (m >>= next) ≡ (m >>= other)
bind-same (ok s) next other P h k = k s h
bind-same (err e) next other P h k = refl

-- The loop's own end: no frame is left that is deeper than the log.
abbrev pub IsClosed : StructLog → List WalkFrame × List ProgramState → Type 0
IsClosed log s = top_depth s.0 ≤ log.depth

close_frames-Ends :
    (fuel : ℕ) (log : StructLog) (frames : List WalkFrame) (programs : List ProgramState)
    → length frames < fuel
    → Ends (IsClosed log) (close_frames fuel log frames programs)
unfolding close_frames Leaves
close_frames-Ends zero log frames programs h = absurd (omega arith)
close_frames-Ends (suc fuel) log [] programs h =
    Ends-test (IsClosed log) (ltb log.depth 1) _ _ (λ e. ground (arith, e))
      (λ e.
        Ends-bind (λ s. ⊥) (IsClosed log) (close_one log [] programs) _
          (close_one-HasFuel log [] programs) (close_one-nothing log programs) (λ s k. absurd k))
close_frames-Ends (suc fuel) log (f ∷ frames) programs h =
    Ends-test (IsClosed log) (ltb log.depth f.depth) _ _ (λ e. ground (arith, e))
      (λ e.
        Ends-bind (Leaves (length (f ∷ frames) - 1)) (IsClosed log)
          (close_one log (f ∷ frames) programs) _ (close_one-HasFuel log (f ∷ frames) programs)
          (close_one-Leaves log (f ∷ frames) programs)
          (λ s k. close_frames-Ends fuel log s.0 s.1 (omega (arith, k, h))))

more_fuel :
    (fuel extra : ℕ) (log : StructLog) (frames : List WalkFrame) (programs : List ProgramState)
    → length frames < fuel
    → close_frames (fuel + extra) log frames programs ≡ close_frames fuel log frames programs
unfolding close_frames Leaves
more_fuel zero extra log frames programs h = absurd (omega arith)
more_fuel (suc fuel) extra log [] programs h = rw suc-add (
    ap (λ m. elim (ltb log.depth 1) [ false ↦ ok ([], programs) | true ↦ m ])
      (bind-same (close_one log [] programs) _ _ (λ s. ⊥) (close_one-nothing log programs)
        (λ s k. absurd k)))
more_fuel (suc fuel) extra log (f ∷ frames) programs h = rw suc-add (
    ap (λ m. elim (ltb log.depth f.depth) [ false ↦ ok (f ∷ frames, programs) | true ↦ m ])
      (bind-same (close_one log (f ∷ frames) programs) _ _ (Leaves (length (f ∷ frames) - 1))
        (close_one-Leaves log (f ∷ frames) programs)
        (λ s k. more_fuel fuel extra log s.0 s.1 (omega (arith, k, h)))))

-- With more fuel than there are frames, the loop that closes them never runs out of fuel: it ends by
-- its own test, with no frame left that is deeper than the log, or with a failure of the code's own.
-- More fuel than that makes no difference.
pub close_frames-enough :
    (fuel extra : ℕ) (log : StructLog) (frames : List WalkFrame) (programs : List ProgramState)
    → length frames < fuel
    → Ends (IsClosed log) (close_frames fuel log frames programs)
      × (close_frames (fuel + extra) log frames programs ≡ close_frames fuel log frames programs)
close_frames-enough fuel extra log frames programs h =
    (close_frames-Ends fuel log frames programs h, more_fuel fuel extra log frames programs h)
