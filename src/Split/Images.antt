-- ===== src/Split/Images.antt =====
-- The storage images of the split and the slices that are emitted from them
-- (crates/core/src/nested.rs, `visible_image`, `flush_slice` and `forget_overwritten`).
use gas_analyzer.Split.{WalkFrame, Slots, Journal}
use gas_analyzer.FrameTree.{ProgramState, program_at}
use gas_analyzer.Failure.{Failure, panic}
use gas_analyzer.Prelude.Results.{◌>>=◌, ok_or, Result, ok, err}
use gas_analyzer.Prelude.Assoc.{lookup, remove}
use gas_analyzer.Prelude.Maps.{put, extend}
use gas_analyzer.Prelude.{
  ℕ, Bool, false, Option, none, some, List, [], ◌∷◌, ◌++◌, ◌==◌, if◌then◌else◌,
}
use gas_analyzer.Types.{StateUpdate, store}

-- What a journal holds for a contract.
abbrev pub slots_of : Journal → ℕ → Slots
slots_of journal target = elim (lookup target journal) [ none ↦ [] | some slots ↦ slots ]

-- Every open frame's journal for the contract, merged bottom-up.
unfoldable pub visible_image : List WalkFrame → ℕ → Slots
visible_image [] target = []
visible_image (f ∷ frames) target = extend (visible_image frames target) (slots_of f.journal target)

abbrev pub store_of : ℕ → ℕ → StateUpdate
store_of slot value = store (record { slot = slot; value = value })

-- `emitted_view.get(&slot) == Some(&value)`
abbrev pub shows : Slots → ℕ → ℕ → Bool
shows view slot value = elim (lookup slot view) [ none ↦ false | some seen ↦ seen == value ]

-- The loop over the visible slots: what is emitted, and the view after it.
unfoldable pub emit_slots : Slots → Slots → List StateUpdate → Slots × List StateUpdate
emit_slots [] view out = (view, out)
emit_slots ((slot, value) ∷ visible) view out =
    if shows view slot value
    then emit_slots visible view out
    else emit_slots visible (put slot value view) (out ++ (store_of slot value ∷ []))

abbrev pub flush_into : Slots → WalkFrame → WalkFrame
flush_into visible cur =
    let emitted = emit_slots visible cur.emitted_view cur.out in
    record cur { emitted_view = emitted.0; out = emitted.1 }

unfoldable pub flush_slice : List WalkFrame → List ProgramState → Result Failure (List WalkFrame)
flush_slice [] programs = err panic
flush_slice (cur ∷ frames) programs = do
  id ← ok_or cur.program panic
  program ← program_at programs id
  ok (flush_into (visible_image (cur ∷ frames) program.target) cur ∷ frames)

-- `for slot in slots.keys() { view.remove(slot) }`
unfoldable pub forget_slots : Slots → Slots → Slots
forget_slots [] view = view
forget_slots ((slot, value) ∷ slots) view = forget_slots slots (remove slot view)

abbrev pub forget_in : List ProgramState → Journal → WalkFrame → Option ℕ → Result Failure WalkFrame
forget_in programs journal f none = ok f
forget_in programs journal f (some id) = do
  program ← program_at programs id
  ok (record f { emitted_view = forget_slots (slots_of journal program.target) f.emitted_view })

unfoldable pub forget_overwritten :
    List WalkFrame → List ProgramState → Journal → Result Failure (List WalkFrame)
forget_overwritten [] programs journal = ok []
forget_overwritten (f ∷ frames) programs journal = do
  f' ← forget_in programs journal f f.program
  frames' ← forget_overwritten frames programs journal
  ok (f' ∷ frames')

-- `parent.journal.entry(addr).or_default().extend(slots)` for each entry of the child's journal.
unfoldable pub commit_journal : Journal → Journal → Journal
commit_journal parent [] = parent
commit_journal parent ((addr, slots) ∷ journal) =
    commit_journal (put addr (extend (slots_of parent addr) slots) parent) journal
