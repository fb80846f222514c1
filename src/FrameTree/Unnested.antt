-- ===== src/FrameTree/Unnested.antt =====
-- Which contracts got no frame, and why (crates/core/src/nested.rs, `unnested_owned`).
use gas_analyzer.FrameTree.{
  FrameProgram, frame_targets, call_targets, called_by, reason_for, list_unnested, unnested_owned,
  kept_as_call, not_reached,
}
use gas_analyzer.Prelude.Sort.{contains}
use gas_analyzer.Prelude.Assoc.{lookup}
use gas_analyzer.Prelude.{
  ℕ, ◌≡◌, refl, ◌∙◌, inl, inr, Bool, false, not, ◌&&◌, ◌||◌, none, some, List, [], ◌∷◌, ◌++◌, arith,
  ◌==◌, if◌then◌else◌, ==_iff, Bool-cases,
}
use gas_analyzer.Types.{StateUpdate, call}

abbrev pub has_frame : ℕ → List FrameProgram → Bool
has_frame a [] = false
has_frame a (f ∷ frames) = (f.target == a) || has_frame a frames

abbrev pub is_call_of : ℕ → StateUpdate → Bool
is_call_of a (call c) = c.target == a
is_call_of a _ = false

abbrev pub program_calls : ℕ → List StateUpdate → Bool
program_calls a [] = false
program_calls a (u ∷ updates) = is_call_of a u || program_calls a updates

-- Some frame's program calls the contract.
abbrev pub is_called : ℕ → List FrameProgram → Bool
is_called a [] = false
is_called a (f ∷ frames) = program_calls a f.updates || is_called a frames

contains-frame_targets :
    (a : ℕ) (frames : List FrameProgram) → contains a (frame_targets frames) ≡ has_frame a frames
contains-frame_targets a [] = refl
contains-frame_targets a (f ∷ frames) = ground (arith, contains-frame_targets a frames)

contains-append :
    (a : ℕ) (xs ys : List ℕ) → contains a (xs ++ ys) ≡ (contains a xs || contains a ys)
contains-append a [] ys = refl
contains-append a (x ∷ xs) ys = ground (arith, contains-append a xs ys)

contains-call_targets :
    (a : ℕ) (us : List StateUpdate) → contains a (call_targets us) ≡ program_calls a us
contains-call_targets a [] = refl
contains-call_targets a (call c ∷ us) = ground (arith, contains-call_targets a us)
contains-call_targets a (_ ∷ us) = contains-call_targets a us

contains-called_by :
    (a : ℕ) (frames : List FrameProgram) → contains a (called_by frames) ≡ is_called a frames
contains-called_by a [] = refl
contains-called_by a (f ∷ frames) = ground (
  arith,
  contains-append a (call_targets f.updates) (called_by frames),
  contains-call_targets a f.updates,
  contains-called_by a frames,
)

lookup-list_unnested :
    (a : ℕ) (framed called owned : List ℕ)
    → lookup a (list_unnested framed called owned)
      ≡ (if contains a owned && not (contains a framed) then some (reason_for called a) else none)
unfolding lookup list_unnested
lookup-list_unnested a framed called [] = refl
lookup-list_unnested a framed called (b ∷ owned) = elim (Bool-cases (b == a)) [
  | inl e ↦
      let same : b ≡ a = (==_iff b a).0 e in
      rw same (ground (arith, lookup-list_unnested a framed called owned))
  | inr e ↦ ground (arith, lookup-list_unnested a framed called owned)
]

-- A contract has an entry exactly when it is owned and no frame is its own; the entry says that the
-- call was kept when some frame's program calls the contract, and otherwise that it was not reached.
pub lookup-unnested_owned :
    (a : ℕ) (owned : List ℕ) (frames : List FrameProgram)
    → lookup a (unnested_owned owned frames) ≡ (
        if contains a owned && not (has_frame a frames)
        then some (if is_called a frames then kept_as_call else not_reached)
        else none)
unfolding unnested_owned
lookup-unnested_owned a owned frames =
    lookup-list_unnested a (frame_targets frames) (called_by frames) owned
    ∙ rw (contains-frame_targets a frames, contains-called_by a frames) refl
