-- ===== src/Split/Steps.antt =====
-- What an opcode does keeps the invariant of the split (crates/core/src/nested.rs, the `match` on
-- the opcode in `split_frame_tree`).
use mathlib.Core.List.{reverse}
use gas_analyzer.Trace.{stack_item}
use gas_analyzer.Split.{WalkFrame, PendingFrame, SplitWalk}
use gas_analyzer.Split.Close.{amend}
use gas_analyzer.Split.Dispatch.{
  write_slot, add_effect_gas, charge_store, walk_store, delegate_frame, native_frame, callee_of,
  walk_static,
}
use gas_analyzer.Split.Flush.{last_store, last_store-append}
use gas_analyzer.Split.Agree.{
  ProgramsOk, start_of, emitted, FrameOk, FramesOk, PendingOk, StateOk, WalkOk, Agrees-nothing,
  FramesOk-top, EndsAtRoot-top,
}
use gas_analyzer.Split.Views.{Shares-out}
use gas_analyzer.Split.Quiet.{SameStores}
use gas_analyzer.Split.Programs.{ProgramsOk-amend}
use gas_analyzer.FrameTree.{ProgramState, program_at}
use gas_analyzer.Evm.{StructLog, Op}
use gas_analyzer.Failure.{no_stack}
use gas_analyzer.Prelude.Maps.{or_else}
use gas_analyzer.Prelude.Results.{ok_or, IfOk, IfOk-bind, IfOk-after, IfOk-if, ok}
use gas_analyzer.Prelude.{
  ℕ, ◌≡◌, refl, sym, ap, ◌∙◌, subst, Bool, true, false, Option, none, some, List, [], ◌∷◌,
  append-nil, ◌==◌, if◌then◌else◌, is_some,
}
use gas_analyzer.Types.{StateUpdate}

-- The output of a frame that emits grows by updates that are no stores.
pub FramesOk-out :
    (cur : WalkFrame) (out : List StateUpdate) (below : List WalkFrame) (id : ℕ)
    → cur.program ≡ some id
    → SameStores cur.out out
    → FramesOk (cur ∷ below)
    → FramesOk (record cur { out = out } ∷ below)
FramesOk-out cur out below id emits same ((a, s), rest) =
    let before = start_of cur.nested_start_gas cur.program (emitted below) in
    (
      (
        (λ slot value e.
            last_store-append slot before out
            ∙ (ap (λ o. or_else o (last_store slot before)) (same slot)
                ∙ (sym (last_store-append slot before cur.out) ∙ a slot value e))),
        Shares-out cur.nested_start_gas cur.program cur.out out below (λ silent e. cc) s,
      ),
      rest,
    )

pub native-FrameOk : (frames : List WalkFrame) → FrameOk [] none none [] frames
native-FrameOk frames = (Agrees-nothing [], refl)

pub nested-FrameOk :
    (gas id : ℕ) (frames : List WalkFrame) → FrameOk [] (some gas) (some id) [] frames
nested-FrameOk gas id frames = (Agrees-nothing [], tt)

delegate-FrameOk :
    (cur : WalkFrame) (below : List WalkFrame) (o : Option ℕ)
    → cur.program ≡ o
    → FramesOk (cur ∷ below)
    → FrameOk (if is_some o then cur.emitted_view else []) none o [] (cur ∷ below)
delegate-FrameOk cur below none e k = (Agrees-nothing [], refl)
delegate-FrameOk cur below (some id) e ((a, s), rest) = (
  (λ slot value f. ap (last_store slot) (append-nil (emitted (cur ∷ below))) ∙ a slot value f),
  e,
)

module _ (root : ℕ) where
  abbrev pub Idle : SplitWalk → WalkFrame → List WalkFrame → Type 0
  Idle w cur below =
      (w.frames ≡ cur ∷ below) × (w.pending ≡ none) × StateOk root (cur ∷ below) w.programs

  pub idle-PendingOk :
      (o : Option PendingFrame) (frames : List WalkFrame) → o ≡ none → PendingOk o frames
  idle-PendingOk none frames e = tt
  idle-PendingOk (some p) frames e = cc

  pub same-WalkOk :
      (w : SplitWalk) (cur : WalkFrame) (below : List WalkFrame) → Idle w cur below → WalkOk root w
  same-WalkOk w cur below (e, idle, k) =
      (subst (λ fs. StateOk root fs w.programs) (sym e) k, idle-PendingOk w.pending w.frames idle)

  -- A frame that may open, above the frames as they were.
  pub pending-WalkOk :
      (w : SplitWalk) (cur : WalkFrame) (below : List WalkFrame) (p : PendingFrame)
      → Idle w cur below
      → FrameOk p.emitted_view p.nested_start_gas p.program [] (cur ∷ below)
      → WalkOk root (record w { pending = some p })
  pending-WalkOk w cur below p (e, idle, k) fits = (
    subst (λ fs. StateOk root fs w.programs) (sym e) k,
    subst (FrameOk p.emitted_view p.nested_start_gas p.program []) (sym e) fits,
  )

  charge_store-ProgramsOk :
      (log : StructLog) (ctx : ℕ) (o : Option ℕ) (programs : List ProgramState)
      → ProgramsOk root programs
      → IfOk (ProgramsOk root) (charge_store log ctx o programs)
  charge_store-ProgramsOk log ctx none programs ps = ps
  charge_store-ProgramsOk log ctx (some id) programs ps =
      IfOk-after (ProgramsOk root) (program_at programs id) _ λ p e.
        IfOk-if (ProgramsOk root) (p.target == ctx)
          (amend programs id (add_effect_gas log.gas_cost)) (ok programs)
          (λ d.
            ProgramsOk-amend root programs id (add_effect_gas log.gas_cost) (λ q. (refl, refl)) ps)
          (λ d. ps)

  pub walk_store-WalkOk :
      (log : StructLog) (o : Option ℕ) (cur : WalkFrame) (below : List WalkFrame) (w : SplitWalk)
      → Idle w cur below
      → IfOk (WalkOk root) (walk_store log o cur below w)
  walk_store-WalkOk log none cur below w h = same-WalkOk w cur below h
  walk_store-WalkOk log (some ctx) cur below w (e, idle, (k, end, ps)) =
      IfOk-if (WalkOk root) log.has_error (ok w) _
        (λ d. same-WalkOk w cur below (e, idle, (k, end, ps)))
        (λ d. IfOk-after (WalkOk root) (ok_or log.stack (no_stack Op.sstore)) _ λ stack f.
          IfOk-after (WalkOk root) (stack_item (reverse stack) 0) _ λ slot g.
            IfOk-after (WalkOk root) (stack_item (reverse stack) 1) _ λ value i.
              IfOk-bind (ProgramsOk root) (WalkOk root)
                (charge_store log ctx cur.program w.programs) _
                (charge_store-ProgramsOk log ctx cur.program w.programs ps)
                (λ programs ps'. (
                  (
                    FramesOk-top cur (write_slot ctx slot value cur) below refl refl refl refl k,
                    EndsAtRoot-top cur (write_slot ctx slot value cur) below refl refl end,
                    ps',
                  ),
                  idle-PendingOk w.pending _ idle,
                )))

  pub walk_skipped-WalkOk :
      (b : Bool) (op : Op) (w : SplitWalk)
      → WalkOk root w
      → WalkOk root (if b then record w { skipped_opcodes = op ∷ w.skipped_opcodes } else w)
  walk_skipped-WalkOk true op w h = h
  walk_skipped-WalkOk false op w h = h

  pub walk_delegate-WalkOk :
      (b : Bool) (log : StructLog) (cur : WalkFrame) (below : List WalkFrame) (w : SplitWalk)
      → Idle w cur below
      → WalkOk root (if b then w else record w { pending = some (delegate_frame log cur) })
  walk_delegate-WalkOk true log cur below w h = same-WalkOk w cur below h
  walk_delegate-WalkOk false log cur below w h =
      pending-WalkOk w cur below (delegate_frame log cur) h
        (delegate-FrameOk cur below cur.program refl h.2.0)

  pub walk_static-WalkOk :
      (log : StructLog) (cur : WalkFrame) (below : List WalkFrame) (w : SplitWalk)
      → Idle w cur below
      → IfOk (WalkOk root) (walk_static log w)
  walk_static-WalkOk log cur below w h =
      IfOk-if (WalkOk root) log.has_error (ok w) _ (λ d. same-WalkOk w cur below h)
        (λ d. IfOk-after (WalkOk root) (ok_or log.stack (no_stack Op.staticcall)) _ λ stack e.
          pending-WalkOk w cur below (native_frame log (callee_of stack)) h
            (native-FrameOk (cur ∷ below)))
