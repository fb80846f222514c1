-- ===== src/Split/Agree.antt =====
-- The invariant of the split (crates/core/src/nested.rs, `split_frame_tree`): what a frame believes
-- to have emitted is what its program's last store of the slot writes.
use gas_analyzer.Split.{WalkFrame, PendingFrame, SplitWalk, Slots}
use gas_analyzer.Split.Images.{forget_slots}
use gas_analyzer.Split.Flush.{last_store}
use gas_analyzer.FrameTree.{ProgramState}
use gas_analyzer.Prelude.Assoc.{lookup, remove, lookup-remove}
use gas_analyzer.Prelude.{
  ℕ, ◌<◌, ◌≡◌, refl, sym, ◌∙◌, inl, inr, Option, none, some, List, [], ◌∷◌, ◌++◌, ◌==◌, Bool-cases,
  get_elem?,
}
use gas_analyzer.Types.{StateUpdate}

abbrev pub Agrees : Slots → List StateUpdate → Type 0
Agrees view updates =
    (slot value : ℕ) → lookup slot view ≡ some value → last_store slot updates ≡ some value

-- What the program of a frame emitted before the frame: a frame that is no nested one goes on with
-- the program of the frame below.
abbrev pub start_of : Option ℕ → Option ℕ → List StateUpdate → List StateUpdate
start_of none (some id) before = before
start_of _ _ before = []

-- What the program of the top frame has emitted.
abbrev pub emitted : List WalkFrame → List StateUpdate
emitted [] = []
emitted (f ∷ below) = start_of f.nested_start_gas f.program (emitted below) ++ f.out

abbrev pub top_program : List WalkFrame → Option ℕ → Option ℕ
top_program [] program = program
top_program (f ∷ frames) program = f.program

-- A frame that emits is a nested one or shares the program of the frame below; one that does not
-- emit has no output.
abbrev pub Shares : Option ℕ → Option ℕ → List StateUpdate → List WalkFrame → Type 0
Shares nested_start_gas none out below = out ≡ []
Shares none (some id) out below = top_program below (some id) ≡ some id
Shares (some gas) (some id) out below = Unit

abbrev pub FrameOk : Slots → Option ℕ → Option ℕ → List StateUpdate → List WalkFrame → Type 0
FrameOk view nested_start_gas program out below =
    Agrees view (start_of nested_start_gas program (emitted below) ++ out)
    × Shares nested_start_gas program out below

abbrev pub FramesOk : List WalkFrame → Type 0
FramesOk [] = Unit
FramesOk (f ∷ below) =
    FrameOk f.emitted_view f.nested_start_gas f.program f.out below × FramesOk below

-- The frame that the next log may open, which has no output yet.
abbrev pub PendingOk : Option PendingFrame → List WalkFrame → Type 0
PendingOk none frames = Unit
PendingOk (some p) frames = FrameOk p.emitted_view p.nested_start_gas p.program [] frames

-- The last frame is the root's, which emits into the first program.
abbrev pub EndsAtRoot : List WalkFrame → Type 0
EndsAtRoot [] = ⊥
EndsAtRoot (f ∷ []) = (f.program ≡ some 0) × (f.nested_start_gas ≡ none)
EndsAtRoot (f ∷ g ∷ frames) = EndsAtRoot (g ∷ frames)

-- The target and the parent of a program.
abbrev pub place_of : Option ProgramState → Option (ℕ × Option ℕ)
place_of none = none
place_of (some p) = some (p.target, p.parent)

abbrev pub place_at : List ProgramState → ℕ → Option (ℕ × Option ℕ)
place_at programs id = place_of (get_elem? programs id)

-- The first program is the root's, and every program stands behind its parent.
pub record ProgramsOk (root : ℕ) (programs : List ProgramState) : Type 0 where
  pub here : place_at programs 0 ≡ some (root, none)
  pub ordered : (id target q : ℕ) → place_at programs id ≡ some (target, some q) → q < id

abbrev pub StateOk : ℕ → List WalkFrame → List ProgramState → Type 0
StateOk root frames programs = FramesOk frames × EndsAtRoot frames × ProgramsOk root programs

abbrev pub BothOk : ℕ → List WalkFrame × List ProgramState → Type 0
BothOk root s = StateOk root s.0 s.1

abbrev pub WalkOk : ℕ → SplitWalk → Type 0
WalkOk root w = StateOk root w.frames w.programs × PendingOk w.pending w.frames

pub Agrees-nothing : (updates : List StateUpdate) → Agrees [] updates
unfolding lookup
Agrees-nothing updates slot value e = cc

-- A view with less in it, and a program with the same last stores.
pub Agrees-mono :
    (view view' : Slots) (us vs : List StateUpdate)
    → ((slot value : ℕ) → lookup slot view' ≡ some value → lookup slot view ≡ some value)
    → ((slot : ℕ) → last_store slot us ≡ last_store slot vs)
    → Agrees view us
    → Agrees view' vs
Agrees-mono view view' us vs less same a slot value e =
    sym (same slot) ∙ a slot value (less slot value e)

pub lookup-forget_slots :
    (slots view : Slots) (slot value : ℕ)
    → lookup slot (forget_slots slots view) ≡ some value
    → lookup slot view ≡ some value
unfolding forget_slots
lookup-forget_slots [] view slot value e = e
lookup-forget_slots ((k, v) ∷ slots) view slot value e =
    let inner = lookup-forget_slots slots (remove k view) slot value e in
    elim (Bool-cases (k == slot)) [
      | inl d ↦
          let gone : lookup slot (remove k view) ≡ none = lookup-remove k slot view ∙ rw d refl in
          cc
      | inr d ↦ sym (lookup-remove k slot view ∙ rw d refl) ∙ inner
    ]

-- A top frame that differs in no field that counts.
pub FramesOk-top :
    (f f' : WalkFrame) (below : List WalkFrame)
    → f'.emitted_view ≡ f.emitted_view
    → f'.nested_start_gas ≡ f.nested_start_gas
    → f'.program ≡ f.program
    → f'.out ≡ f.out
    → FramesOk (f ∷ below)
    → FramesOk (f' ∷ below)
FramesOk-top f f' below e g p o k = rw (e, g, p, o) k

pub EndsAtRoot-top :
    (f f' : WalkFrame) (below : List WalkFrame)
    → f'.nested_start_gas ≡ f.nested_start_gas
    → f'.program ≡ f.program
    → EndsAtRoot (f ∷ below)
    → EndsAtRoot (f' ∷ below)
EndsAtRoot-top f f' [] g p k = rw (g, p) k
EndsAtRoot-top f f' (b ∷ below) g p k = k
