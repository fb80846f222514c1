-- ===== src/Split/Ends.antt =====
-- No part of closing a frame runs out of fuel: each ends with a result or with a failure of the code's
-- own (crates/core/src/nested.rs, `split_frame_tree`).
use gas_analyzer.Split.{WalkFrame, Journal}
use gas_analyzer.Split.Images.{flush_slice, forget_in, forget_overwritten}
use gas_analyzer.Split.Close.{
  amend, add_child_call_gas, charge_program, drop_since, charge_closed, settled_program,
  commit_into, merge_into, on_top, close_nested, ends_nested, close_as, close_popped, success_of,
  final_slice, top_depth, close_one,
}
use gas_analyzer.FrameTree.{ProgramState, program_at}
use gas_analyzer.Evm.{StructLog}
use gas_analyzer.Failure.{
  Failure, panic, failed_create, out_of_fuel, depth_jumped, no_resume_stack, empty_resume_stack,
  no_nested_op,
}
use gas_analyzer.Prelude.Results.{◌>>=◌, ok_or, refuse_if, IfOk, Result, ok, err}
use gas_analyzer.Prelude.{
  ℕ, zero, suc, ◌-◌, ◌≡◌, refl, Bool, true, false, not, ◌&&◌, Option, none, some, List, [], ◌∷◌,
  ◌==◌, if◌then◌else◌, is_some, get_elem?, last?, ◌+64◌,
}

-- A result with a property, or a failure that is not a lack of fuel.
abbrev pub Ends {ℓ} : {A : Type ℓ} → (A → Type 0) → Result Failure A → Type 0
Ends P (ok a) = P a
Ends P (err e) = ¬ (e ≡ out_of_fuel)

abbrev pub HasFuel {ℓ} : {A : Type ℓ} → Result Failure A → Type 0
HasFuel m = Ends (λ a. Unit) m

pub Ends-bind {ℓ κ} :
    {A : Type ℓ} {B : Type κ} (P : A → Type 0) (Q : B → Type 0) (m : Result Failure A)
    (next : A → Result Failure B)
    → HasFuel m
    → IfOk P m
    → ((a : A) → P a → Ends Q (next a))
    → Ends Q (m >>= next)
Ends-bind P Q (ok a) next h p k = k a p
Ends-bind P Q (err e) next h p k = h

pub Ends-test {ℓ} :
    {A : Type ℓ} (P : A → Type 0) (b : Bool) (m m' : Result Failure A)
    → (b ≡ false → Ends P m)
    → (b ≡ true → Ends P m')
    → Ends P (elim b [ false ↦ m | true ↦ m' ])
Ends-test P false m m' h k = h refl
Ends-test P true m m' h k = k refl

HasFuel-bind {ℓ κ} :
    {A : Type ℓ} {B : Type κ} (m : Result Failure A) (next : A → Result Failure B)
    → HasFuel m
    → ((a : A) → HasFuel (next a))
    → HasFuel (m >>= next)
HasFuel-bind (ok a) next h k = k a
HasFuel-bind (err e) next h k = h

HasFuel-if {ℓ} :
    {A : Type ℓ} (b : Bool) (m m' : Result Failure A)
    → HasFuel m
    → HasFuel m'
    → HasFuel (if b then m else m')
HasFuel-if true m m' h h' = h
HasFuel-if false m m' h h' = h'

ok_or-HasFuel {ℓ} :
    {A : Type ℓ} (o : Option A) (e : Failure) → ¬ (e ≡ out_of_fuel) → HasFuel (ok_or o e)
ok_or-HasFuel (some a) e h = tt
ok_or-HasFuel none e h = h

refuse_if-HasFuel : (b : Bool) (e : Failure) → ¬ (e ≡ out_of_fuel) → HasFuel (refuse_if b e)
refuse_if-HasFuel true e h = h
refuse_if-HasFuel false e h = tt

expect-HasFuel {ℓ} : {A : Type ℓ} (o : Option A) → HasFuel (ok_or o panic)
expect-HasFuel o = ok_or-HasFuel o panic (λ h. cc)

amend-HasFuel :
    (programs : List ProgramState) (id : ℕ) (change : ProgramState → ProgramState)
    → HasFuel (amend programs id change)
unfolding amend
amend-HasFuel programs id change =
    HasFuel-bind (program_at programs id) _ (expect-HasFuel (get_elem? programs id)) (λ p. tt)

charge_program-HasFuel :
    (programs : List ProgramState) (o : Option ℕ) (gas : ℕ)
    → HasFuel (charge_program programs o gas)
charge_program-HasFuel programs none gas = tt
charge_program-HasFuel programs (some id) gas = amend-HasFuel programs id (add_child_call_gas gas)

drop_since-HasFuel : (n : ℕ) (programs : List ProgramState) → HasFuel (drop_since n programs)
unfolding drop_since
drop_since-HasFuel zero programs = tt
drop_since-HasFuel (suc n) [] = λ h. cc
drop_since-HasFuel (suc n) (p ∷ programs) =
    HasFuel-bind (drop_since n programs) _ (drop_since-HasFuel n programs) (λ rest. tt)

charge_closed-HasFuel :
    (log : StructLog) (frame : WalkFrame) (o : Option ℕ) (caller : WalkFrame)
    (programs : List ProgramState)
    → HasFuel (charge_closed log frame o caller programs)
charge_closed-HasFuel log frame none caller programs = tt
charge_closed-HasFuel log frame (some gas) caller programs =
    HasFuel-bind (charge_program programs caller.program (gas - log.gas)) _
      (charge_program-HasFuel programs caller.program (gas - log.gas)) (λ programs'. tt)

forget_in-HasFuel :
    (programs : List ProgramState) (journal : Journal) (f : WalkFrame) (o : Option ℕ)
    → HasFuel (forget_in programs journal f o)
forget_in-HasFuel programs journal f none = tt
forget_in-HasFuel programs journal f (some id) =
    HasFuel-bind (program_at programs id) _ (expect-HasFuel (get_elem? programs id)) (λ p. tt)

forget_overwritten-HasFuel :
    (frames : List WalkFrame) (programs : List ProgramState) (journal : Journal)
    → HasFuel (forget_overwritten frames programs journal)
unfolding forget_overwritten
forget_overwritten-HasFuel [] programs journal = tt
forget_overwritten-HasFuel (f ∷ frames) programs journal =
    HasFuel-bind (forget_in programs journal f f.program) _
      (forget_in-HasFuel programs journal f f.program)
      λ f'.
        HasFuel-bind (forget_overwritten frames programs journal) _
          (forget_overwritten-HasFuel frames programs journal) (λ frames'. tt)

on_top-HasFuel :
    (change : WalkFrame → WalkFrame) (programs : List ProgramState) (frames : List WalkFrame)
    → HasFuel (on_top change programs frames)
on_top-HasFuel change programs [] = λ h. cc
on_top-HasFuel change programs (f ∷ frames) = tt

forget_on_top-HasFuel :
    (change : WalkFrame → WalkFrame) (frames : List WalkFrame) (programs : List ProgramState)
    (journal : Journal)
    → HasFuel (forget_overwritten frames programs journal >>= λ gs. on_top change programs gs)
forget_on_top-HasFuel change frames programs journal =
    HasFuel-bind (forget_overwritten frames programs journal) _
      (forget_overwritten-HasFuel frames programs journal) (λ gs. on_top-HasFuel change programs gs)

close_nested-HasFuel :
    (log : StructLog) (frame : WalkFrame) (start_gas : ℕ) (parent : WalkFrame)
    (below : List WalkFrame) (programs : List ProgramState)
    → HasFuel (close_nested log frame start_gas parent below programs)
close_nested-HasFuel log frame start_gas parent below programs =
    let native = start_gas - log.gas in
    HasFuel-bind (ok_or frame.program panic) _ (expect-HasFuel frame.program) λ id.
      HasFuel-bind (amend programs id (settled_program frame native)) _
        (amend-HasFuel programs id (settled_program frame native))
        λ settled.
          HasFuel-bind (charge_program settled parent.program native) _
            (charge_program-HasFuel settled parent.program native)
            λ charged.
              forget_on_top-HasFuel (commit_into frame) (parent ∷ below) charged frame.journal

close_as-HasFuel :
    (log : StructLog) (success : Bool) (frame : WalkFrame) (o : Option ℕ) (parent : WalkFrame)
    (below : List WalkFrame) (programs : List ProgramState)
    → HasFuel (close_as log success frame o parent below programs)
close_as-HasFuel log true frame (some start_gas) parent below programs =
    close_nested-HasFuel log frame start_gas parent below programs
close_as-HasFuel log false frame (some start_gas) parent below programs =
    HasFuel-bind (ok_or frame.program panic) _ (expect-HasFuel frame.program) λ id.
      HasFuel-bind
        (refuse_if (not (ends_nested (last? parent.out))) (no_nested_op (last? parent.out))) _
        (refuse_if-HasFuel (not (ends_nested (last? parent.out))) (no_nested_op (last? parent.out))
          (λ h. cc))
        (λ u. tt)
close_as-HasFuel log true frame none parent below programs =
    HasFuel-if (is_some frame.program) _ _ tt
      (forget_on_top-HasFuel (merge_into frame) (parent ∷ below) programs frame.journal)
close_as-HasFuel log false frame none parent below programs = tt

close_popped-HasFuel :
    (log : StructLog) (success : Bool) (frames : List WalkFrame) (programs : List ProgramState)
    → HasFuel (close_popped log success frames programs)
unfolding close_popped
close_popped-HasFuel log success [] programs = λ h. cc
close_popped-HasFuel log success (frame ∷ []) programs = λ h. cc
close_popped-HasFuel log success (frame ∷ parent ∷ below) programs =
    HasFuel-bind (refuse_if (frame.emitted_create && not success) (failed_create log.depth)) _
      (refuse_if-HasFuel (frame.emitted_create && not success) (failed_create log.depth) (λ h. cc))
      λ u.
        HasFuel-bind (if success then ok programs else drop_since frame.first_program programs) _
          (HasFuel-if success (ok programs) (drop_since frame.first_program programs) tt
            (drop_since-HasFuel frame.first_program programs))
          λ kept.
            HasFuel-bind (charge_closed log frame frame.emitted_call_gas parent kept) _
              (charge_closed-HasFuel log frame frame.emitted_call_gas parent kept)
              λ s. close_as-HasFuel log success frame frame.nested_start_gas s.0 below s.1

success_of-HasFuel : (log : StructLog) → HasFuel (success_of log)
success_of-HasFuel log =
    HasFuel-bind (ok_or log.stack (no_resume_stack log.depth)) _
      (ok_or-HasFuel log.stack (no_resume_stack log.depth) (λ h. cc))
      λ stack.
        HasFuel-bind (ok_or (last? stack) (empty_resume_stack log.depth)) _
          (ok_or-HasFuel (last? stack) (empty_resume_stack log.depth) (λ h. cc)) (λ flag. tt)

flush_slice-HasFuel :
    (frames : List WalkFrame) (programs : List ProgramState) → HasFuel (flush_slice frames programs)
unfolding flush_slice
flush_slice-HasFuel [] programs = λ h. cc
flush_slice-HasFuel (cur ∷ below) programs =
    HasFuel-bind (ok_or cur.program panic) _ (expect-HasFuel cur.program) λ id.
      HasFuel-bind (program_at programs id) _ (expect-HasFuel (get_elem? programs id)) (λ p. tt)

final_slice-HasFuel :
    (success : Bool) (frames : List WalkFrame) (programs : List ProgramState)
    → HasFuel (final_slice success frames programs)
final_slice-HasFuel success [] programs = λ h. cc
final_slice-HasFuel success (cur ∷ below) programs =
    HasFuel-if (success && is_some cur.nested_start_gas) (flush_slice (cur ∷ below) programs)
      (ok (cur ∷ below)) (flush_slice-HasFuel (cur ∷ below) programs) tt

pub close_one-HasFuel :
    (log : StructLog) (frames : List WalkFrame) (programs : List ProgramState)
    → HasFuel (close_one log frames programs)
close_one-HasFuel log frames programs =
    HasFuel-bind
      (refuse_if (not (top_depth frames == log.depth +64 1))
        (depth_jumped (top_depth frames) log.depth))
      _
      (refuse_if-HasFuel (not (top_depth frames == log.depth +64 1))
        (depth_jumped (top_depth frames) log.depth) (λ h. cc))
      λ u. HasFuel-bind (success_of log) _ (success_of-HasFuel log) λ success.
        HasFuel-bind (final_slice success frames programs) _
          (final_slice-HasFuel success frames programs)
          (λ fs. close_popped-HasFuel log success fs programs)
