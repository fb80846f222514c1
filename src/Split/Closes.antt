-- ===== src/Split/Closes.antt =====
-- Entering and closing frames keeps the invariant of the split (crates/core/src/nested.rs,
-- `split_frame_tree`).
use gas_analyzer.Split.{WalkFrame}
use gas_analyzer.Split.Close.{
  amend, charge_program, drop_since, add_closed_gas, charge_closed, settled_program, commit_into,
  merge_into, on_top, close_nested, without_last, ends_nested, revert_nested, close_plain, close_as,
  close_popped,
}
use gas_analyzer.Split.Flush.{last_store, last_store-append}
use gas_analyzer.Split.Agree.{
  ProgramsOk, Agrees, start_of, emitted, Shares, FramesOk, StateOk, BothOk, FramesOk-top,
  EndsAtRoot-top,
}
use gas_analyzer.Split.Views.{
  Shares-out, Forgot, forget_overwritten-Forgot, FramesOk-Forgot, EndsAtRoot-Forgot,
}
use gas_analyzer.FrameTree.{ProgramState, is_nested}
use gas_analyzer.Prelude.Results.{ok_or, IfOk, IfOk-bind, IfOk-after, IfOk-if, IfOk-refuse_if, ok}
use gas_analyzer.Prelude.Maps.{or_else}
use gas_analyzer.Prelude.{
  ℕ, ◌-◌, ◌≡◌, refl, sym, ap, ◌∙◌, subst, inl, inr, Bool, true, false, not, ◌&&◌, Option, none,
  some, List, [], ◌∷◌, ◌++◌, append-nil, append_assoc, if◌then◌else◌, Bool-cases, is_some, last?,
}
use gas_analyzer.Types.{StateUpdate, nested}
use gas_analyzer.Evm.{StructLog}
use gas_analyzer.Failure.{panic, failed_create}
use gas_analyzer.Split.Images.{forget_overwritten}
use gas_analyzer.Split.Programs.{ProgramsOk-amend, ProgramsOk-charge, ProgramsOk-drop_since}

pub some_of : (o : Option ℕ) → is_some o ≡ true → (n : ℕ) × (o ≡ some n)
some_of none e = cc
some_of (some n) e = (n, refl)

pub none_of : (o : Option ℕ) → is_some o ≡ false → o ≡ none
none_of none e = refl
none_of (some n) e = cc

module _ (root : ℕ) where
  FramesOk-merge_shared :
      (frame parent : WalkFrame) (below : List WalkFrame) (id : ℕ)
      → frame.nested_start_gas ≡ none
      → frame.program ≡ some id
      → FramesOk (frame ∷ parent ∷ below)
      → FramesOk (merge_into frame parent ∷ below)
  FramesOk-merge_shared frame parent below id n p ((a, s), ((b, t), rest)) =
      let agreed : Agrees frame.emitted_view
          (start_of none (some id) (emitted (parent ∷ below)) ++ frame.out) =
        subst
          (λ o. Agrees frame.emitted_view (start_of none o (emitted (parent ∷ below)) ++ frame.out))
          p
          (subst
            (λ o.
              Agrees frame.emitted_view
                (start_of o frame.program (emitted (parent ∷ below)) ++ frame.out))
            n a) in
      let sharing : Shares none (some id) frame.out (parent ∷ below) =
        subst (λ o. Shares none o frame.out (parent ∷ below)) p
          (subst (λ o. Shares o frame.program frame.out (parent ∷ below)) n s) in
      rw p (
        (
          (λ slot value e.
              ap (last_store slot) (
                sym (
                  append_assoc (start_of parent.nested_start_gas parent.program (emitted below))
                    parent.out frame.out))
              ∙ agreed slot value e),
          Shares-out parent.nested_start_gas parent.program parent.out (parent.out ++ frame.out)
              below (λ silent e. cc) t,
        ),
        rest,
      )

  FramesOk-merge_silent :
      (frame parent : WalkFrame) (below : List WalkFrame)
      → frame.program ≡ none
      → frame.out ≡ []
      → FramesOk (parent ∷ below)
      → FramesOk (merge_into frame parent ∷ below)
  FramesOk-merge_silent frame parent below p o k =
      FramesOk-top parent (merge_into frame parent) below (rw p refl) refl refl
        (rw o (append-nil parent.out)) k

  silent_out :
      (n p : Option ℕ) (out : List StateUpdate) (below : List WalkFrame)
      → p ≡ none
      → Shares n p out below
      → out ≡ []
  silent_out none none out below e s = s
  silent_out (some gas) none out below e s = s
  silent_out n (some id) out below e s = cc

  on_top-silent :
      (frame parent : WalkFrame) (below gs : List WalkFrame) (programs : List ProgramState)
      → frame.program ≡ none
      → frame.out ≡ []
      → Forgot (parent ∷ below) gs
      → StateOk root (parent ∷ below) programs
      → IfOk (BothOk root) (on_top (merge_into frame) programs gs)
  on_top-silent frame parent below [] programs p o h k = absurd h
  on_top-silent frame parent below (g ∷ gs) programs p o h (k, end, ps) = (
    FramesOk-merge_silent frame g gs p o (FramesOk-Forgot (parent ∷ below) (g ∷ gs) h k),
    EndsAtRoot-top g (merge_into frame g) gs refl refl
        (EndsAtRoot-Forgot (parent ∷ below) (g ∷ gs) h end),
    ps,
  )

  close_plain-BothOk :
      (frame parent : WalkFrame) (below : List WalkFrame) (programs : List ProgramState)
      → frame.nested_start_gas ≡ none
      → StateOk root (frame ∷ parent ∷ below) programs
      → IfOk (BothOk root) (close_plain frame parent below programs)
  close_plain-BothOk frame parent below programs n (k, end, ps) =
      IfOk-if (BothOk root) (is_some frame.program) _ _
        (λ e.
          let (id, p) = some_of frame.program e in
          (
            FramesOk-merge_shared frame parent below id n p k,
            EndsAtRoot-top parent (merge_into frame parent) below refl refl end,
            ps,
          ))
        (λ e.
          let p = none_of frame.program e in
          let quiet =
            silent_out frame.nested_start_gas frame.program frame.out (parent ∷ below) p k.0.1 in
          IfOk-bind (Forgot (parent ∷ below)) (BothOk root)
            (forget_overwritten (parent ∷ below) programs frame.journal)
            (on_top (merge_into frame) programs)
            (forget_overwritten-Forgot (parent ∷ below) programs frame.journal)
            λ gs h. on_top-silent frame parent below gs programs p quiet h (k.1, end, ps))

  last_store-nested :
      (slot : ℕ) (u : StateUpdate) (us : List StateUpdate)
      → is_nested u ≡ true
      → last_store slot (u ∷ us) ≡ last_store slot us
  last_store-nested slot (nested x) us h = refl
  last_store-nested slot _ us h = cc

  last_store-without_last :
      (slot : ℕ) (us : List StateUpdate)
      → ends_nested (last? us) ≡ true
      → last_store slot (without_last us) ≡ last_store slot us
  last_store-without_last slot [] h = refl
  last_store-without_last slot (u ∷ []) h = sym (last_store-nested slot u [] h)
  last_store-without_last slot (u ∷ v ∷ us) h =
      last_store-append slot (u ∷ []) (without_last (v ∷ us))
      ∙ (ap (λ o. or_else o (last_store slot (u ∷ []))) (last_store-without_last slot (v ∷ us) h)
          ∙ sym (last_store-append slot (u ∷ []) (v ∷ us)))

  revert_nested-BothOk :
      (frame parent : WalkFrame) (below : List WalkFrame) (programs : List ProgramState)
      → StateOk root (parent ∷ below) programs
      → IfOk (BothOk root) (revert_nested frame parent below programs)
  revert_nested-BothOk frame parent below programs (((a, s), rest), end, ps) =
      let before = start_of parent.nested_start_gas parent.program (emitted below) in
      IfOk-after (BothOk root) (ok_or frame.program panic) _ λ id e.
        elim (Bool-cases (ends_nested (last? parent.out))) [
          | inr d ↦ rw d tt
          | inl d ↦ rw d (
            (
              (
                (λ slot value f.
                    last_store-append slot before (without_last parent.out)
                    ∙ (ap (λ o. or_else o (last_store slot before))
                          (last_store-without_last slot parent.out d)
                        ∙ (sym (last_store-append slot before parent.out) ∙ a slot value f))),
                Shares-out parent.nested_start_gas parent.program parent.out _ below
                    (λ silent nothing. ap without_last nothing) s,
              ),
              rest,
            ),
            EndsAtRoot-top parent (record parent { out = without_last parent.out }) below refl refl
                end,
            ps,
          )
        ]

  on_top-commit :
      (frame parent : WalkFrame) (below gs : List WalkFrame) (programs : List ProgramState)
      → Forgot (parent ∷ below) gs
      → StateOk root (parent ∷ below) programs
      → IfOk (BothOk root) (on_top (commit_into frame) programs gs)
  on_top-commit frame parent below [] programs h k = absurd h
  on_top-commit frame parent below (g ∷ gs) programs h (k, end, ps) = (
    FramesOk-top g (commit_into frame g) gs refl refl refl refl
        (FramesOk-Forgot (parent ∷ below) (g ∷ gs) h k),
    EndsAtRoot-top g (commit_into frame g) gs refl refl
        (EndsAtRoot-Forgot (parent ∷ below) (g ∷ gs) h end),
    ps,
  )

  close_nested-BothOk :
      (log : StructLog) (frame : WalkFrame) (start_gas : ℕ) (parent : WalkFrame)
      (below : List WalkFrame) (programs : List ProgramState)
      → StateOk root (parent ∷ below) programs
      → IfOk (BothOk root) (close_nested log frame start_gas parent below programs)
  close_nested-BothOk log frame start_gas parent below programs (k, end, ps) =
      let native = start_gas - log.gas in
      IfOk-after (BothOk root) (ok_or frame.program panic) _ λ id e.
        IfOk-bind (ProgramsOk root) (BothOk root) (amend programs id (settled_program frame native))
          _
          (ProgramsOk-amend root programs id (settled_program frame native) (λ p. (refl, refl)) ps)
          λ settled ps'.
            IfOk-bind (ProgramsOk root) (BothOk root) (charge_program settled parent.program native)
              _ (ProgramsOk-charge root settled parent.program native ps')
              λ charged ps''.
                IfOk-bind (Forgot (parent ∷ below)) (BothOk root)
                  (forget_overwritten (parent ∷ below) charged frame.journal)
                  (on_top (commit_into frame) charged)
                  (forget_overwritten-Forgot (parent ∷ below) charged frame.journal)
                  λ gs h. on_top-commit frame parent below gs charged h (k, end, ps'')

  close_as-BothOk :
      (log : StructLog) (success : Bool) (frame : WalkFrame) (o : Option ℕ) (parent : WalkFrame)
      (below : List WalkFrame) (programs : List ProgramState)
      → frame.nested_start_gas ≡ o
      → StateOk root (frame ∷ parent ∷ below) programs
      → IfOk (BothOk root) (close_as log success frame o parent below programs)
  close_as-BothOk log true frame (some start_gas) parent below programs n (k, end, ps) =
      close_nested-BothOk log frame start_gas parent below programs (k.1, end, ps)
  close_as-BothOk log false frame (some start_gas) parent below programs n (k, end, ps) =
      revert_nested-BothOk frame parent below programs (k.1, end, ps)
  close_as-BothOk log true frame none parent below programs n k =
      close_plain-BothOk frame parent below programs n k
  close_as-BothOk log false frame none parent below programs n (k, end, ps) = (k.1, end, ps)

  -- What charging leaves of the parent and of the programs.
  record Charged (parent : WalkFrame) (s : WalkFrame × List ProgramState) : Type 0 where
    view : s.0.emitted_view ≡ parent.emitted_view
    nested : s.0.nested_start_gas ≡ parent.nested_start_gas
    program : s.0.program ≡ parent.program
    out : s.0.out ≡ parent.out
    programs : ProgramsOk root s.1

  either-Charged :
      (b : Bool) (parent x y : WalkFrame) (programs : List ProgramState)
      → Charged parent (x, programs)
      → Charged parent (y, programs)
      → Charged parent (if b then x else y, programs)
  either-Charged true parent x y programs h k = h
  either-Charged false parent x y programs h k = k

  add_closed_gas-Charged :
      (frame : WalkFrame) (gas : ℕ) (parent : WalkFrame) (programs : List ProgramState)
      → ProgramsOk root programs
      → Charged parent (add_closed_gas frame gas parent, programs)
  add_closed_gas-Charged frame gas parent programs ps =
      either-Charged frame.emitted_create parent _ _ programs
        (record { view = refl; nested = refl; program = refl; out = refl; programs = ps })
        (record { view = refl; nested = refl; program = refl; out = refl; programs = ps })

  charge_closed-Charged :
      (log : StructLog) (frame : WalkFrame) (o : Option ℕ) (parent : WalkFrame)
      (programs : List ProgramState)
      → ProgramsOk root programs
      → IfOk (Charged parent) (charge_closed log frame o parent programs)
  charge_closed-Charged log frame none parent programs ps = record {
    view = refl;
    nested = refl;
    program = refl;
    out = refl;
    programs = ps;
  }
  charge_closed-Charged log frame (some gas) parent programs ps =
      IfOk-bind (ProgramsOk root) (Charged parent)
        (charge_program programs parent.program (gas - log.gas)) _
        (ProgramsOk-charge root programs parent.program (gas - log.gas) ps)
        (λ programs' ps'. add_closed_gas-Charged frame (gas - log.gas) parent programs' ps')

  Shares-above :
      (n p : Option ℕ) (out : List StateUpdate) (f g : WalkFrame) (below : List WalkFrame)
      → g.program ≡ f.program
      → Shares n p out (f ∷ below)
      → Shares n p out (g ∷ below)
  Shares-above none none out f g below e s = s
  Shares-above (some gas) none out f g below e s = s
  Shares-above none (some id) out f g below e s = e ∙ s
  Shares-above (some gas) (some id) out f g below e s = s

  -- A frame below the top that differs in no field that counts.
  pub FramesOk-second :
      (frame f g : WalkFrame) (below : List WalkFrame)
      → g.emitted_view ≡ f.emitted_view
      → g.nested_start_gas ≡ f.nested_start_gas
      → g.program ≡ f.program
      → g.out ≡ f.out
      → FramesOk (frame ∷ f ∷ below)
      → FramesOk (frame ∷ g ∷ below)
  FramesOk-second frame f g below v n p o ((a, s), rest) = (
    (
      (λ slot value e.
          ap (λ us. last_store slot (start_of frame.nested_start_gas frame.program us ++ frame.out))
            (rw (n, p, o) refl)
          ∙ a slot value e),
      Shares-above frame.nested_start_gas frame.program frame.out f g below p s,
    ),
    FramesOk-top f g below v n p o rest,
  )

  pub close_popped-BothOk :
      (log : StructLog) (success : Bool) (frames : List WalkFrame) (programs : List ProgramState)
      → StateOk root frames programs
      → IfOk (BothOk root) (close_popped log success frames programs)
  unfolding close_popped
  close_popped-BothOk log success [] programs k = tt
  close_popped-BothOk log success (frame ∷ []) programs k = tt
  close_popped-BothOk log success (frame ∷ parent ∷ below) programs (k, end, ps) =
      IfOk-refuse_if (BothOk root) (frame.emitted_create && not success) (failed_create log.depth) _
        λ e.
          IfOk-bind (ProgramsOk root) (BothOk root)
            (if success then ok programs else drop_since frame.first_program programs) _
            (IfOk-if (ProgramsOk root) success (ok programs)
              (drop_since frame.first_program programs) (λ d. ps)
              (λ d. ProgramsOk-drop_since root frame.first_program programs ps))
            λ kept ps'.
              IfOk-bind (Charged parent) (BothOk root)
                (charge_closed log frame frame.emitted_call_gas parent kept) _
                (charge_closed-Charged log frame frame.emitted_call_gas parent kept ps')
                λ s c. close_as-BothOk log success frame frame.nested_start_gas s.0 below s.1 refl (
                  FramesOk-second frame parent s.0 below c.view c.nested c.program c.out k,
                  EndsAtRoot-top parent s.0 below c.nested c.program end,
                  c.programs,
                )
