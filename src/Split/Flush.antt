-- ===== src/Split/Flush.antt =====
-- What a slice emits (crates/core/src/nested.rs, `flush_slice`).
use mathlib.Core.Bool.{false≢true}
use gas_analyzer.Split.{WalkFrame, Slots}
use gas_analyzer.Split.Images.{
  slots_of, visible_image, store_of, shows, emit_slots, flush_into, flush_slice,
}
use gas_analyzer.Prelude.Assoc.{lookup}
use gas_analyzer.Prelude.Maps.{or_else, put, Ascending, lookup-put, extend-Ascending, lookup-below}
use gas_analyzer.Prelude.{
  ℕ, ◌+◌, ◌<◌, ◌≡◌, refl, sym, ap, ◌∙◌, inl, inr, Bool, true, false, Option, none, some, List, [],
  ◌∷◌, ◌++◌, append-nil, append_assoc, arith, ◌==◌, if◌then◌else◌, ==_iff, Bool-cases, Option-cases,
  get_elem?,
}
use gas_analyzer.Types.{StateUpdate, store}
use gas_analyzer.FrameTree.{ProgramState}
use gas_analyzer.Prelude.Results.{ok}

-- The stores of the slots whose value the view does not show.
abbrev pub slice : Slots → Slots → List StateUpdate
slice [] view = []
slice ((slot, value) ∷ image) view =
    let rest = slice image view in
    if shows view slot value then rest else store_of slot value ∷ rest

-- What the last store of a slot writes.
abbrev pub last_store : ℕ → List StateUpdate → Option ℕ
last_store slot [] = none
last_store slot (store s ∷ us) =
    or_else (last_store slot us) (if s.slot == slot then some s.value else none)
last_store slot (_ ∷ us) = last_store slot us

or_else_assoc : (a b c : Option ℕ) → or_else a (or_else b c) ≡ or_else (or_else a b) c
or_else_assoc none b c = refl
or_else_assoc (some a) b c = refl

pub or_else_id : (a : Option ℕ) → a ≡ or_else a none
or_else_id none = refl
or_else_id (some a) = refl

pub last_store-append :
    (slot : ℕ) (us vs : List StateUpdate)
    → last_store slot (us ++ vs) ≡ or_else (last_store slot vs) (last_store slot us)
last_store-append slot [] vs = or_else_id (last_store slot vs)
last_store-append slot (store s ∷ us) vs =
    ap (λ o. or_else o (if s.slot == slot then some s.value else none))
      (last_store-append slot us vs)
    ∙ sym (or_else_assoc (last_store slot vs) (last_store slot us) _)
last_store-append slot (_ ∷ us) vs = last_store-append slot us vs

pub visible_image-Ascending :
    (frames : List WalkFrame) (target : ℕ) → Ascending 0 (visible_image frames target)
unfolding visible_image
visible_image-Ascending [] target = tt
visible_image-Ascending (f ∷ frames) target =
    extend-Ascending (visible_image frames target) (slots_of f.journal target)
      (visible_image-Ascending frames target)

abbrev seen_as : ℕ → Option ℕ → Bool
seen_as value o = elim o [ none ↦ false | some seen ↦ seen == value ]

shows-put :
    (k v slot value : ℕ) (view : Slots)
    → k < slot
    → shows (put k v view) slot value ≡ shows view slot value
shows-put k v slot value view h =
    let other : (k == slot) ≡ false = ground (arith, h) in
    ap (seen_as value) (lookup-put k slot v view ∙ rw other refl)

pub lookup-shows :
    (view : Slots) (slot value : ℕ) → shows view slot value ≡ true → lookup slot view ≡ some value
lookup-shows view slot value h = elim (Option-cases (lookup slot view)) [
  | inl e ↦ absurd (false≢true (sym (ap (seen_as value) e) ∙ h))
  | inr (seen, e) ↦ e ∙ ap some ((==_iff seen value).0 (sym (ap (seen_as value) e) ∙ h))
]

slice-put :
    (n k v : ℕ) (image view : Slots)
    → Ascending n image
    → k < n
    → slice image (put k v view) ≡ slice image view
slice-put n k v [] view a h = refl
slice-put n k v ((slot, value) ∷ image) view a h =
    let same = shows-put k v slot value view (omega (arith, h, a.0)) in
    let rest = slice-put (slot + 1) k v image view a.1 (omega (arith, h, a.0)) in
    ap
      (λ b.
        if b then slice image (put k v view) else store_of slot value ∷ slice image (put k v view))
      same
    ∙ ap (λ us. if shows view slot value then us else store_of slot value ∷ us) rest

pub emit_slots-slice :
    (n : ℕ) (image view : Slots) (out : List StateUpdate)
    → Ascending n image
    → (emit_slots image view out).1 ≡ out ++ slice image view
unfolding emit_slots
emit_slots-slice n [] view out a = sym (append-nil out)
emit_slots-slice n ((slot, value) ∷ image) view out a = elim (Bool-cases (shows view slot value)) [
  | inl e ↦ rw e (emit_slots-slice (slot + 1) image view out a.1)
  | inr e ↦ rw e (
      emit_slots-slice (slot + 1) image (put slot value view) _ a.1
      ∙ rw (slice-put (slot + 1) slot value image view a.1 (omega arith)) (append_assoc out _ _))
]

pub lookup-emit_slots :
    (n j : ℕ) (image view : Slots) (out : List StateUpdate)
    → Ascending n image
    → lookup j (emit_slots image view out).0 ≡ or_else (lookup j image) (lookup j view)
unfolding emit_slots lookup
lookup-emit_slots n j [] view out a = refl
lookup-emit_slots n j ((slot, value) ∷ image) view out a = elim (Bool-cases (slot == j)) [
  | inl e ↦
      let past : lookup j image ≡ none = lookup-below (slot + 1) j image a.1 (ground (arith, e)) in
      let here : slot ≡ j = (==_iff slot j).0 e in
      elim (Bool-cases (shows view slot value)) [
        | inl d ↦
            rw (d, e, lookup-emit_slots (slot + 1) j image view out a.1, past)
              (ap (λ i. lookup i view) (sym here) ∙ lookup-shows view slot value d)
        | inr d ↦
            rw (d, e, lookup-emit_slots (slot + 1) j image (put slot value view) _ a.1, past)
              (lookup-put slot j value view ∙ rw e refl)
      ]
  | inr e ↦ elim (Bool-cases (shows view slot value)) [
    | inl d ↦ rw (d, e) (lookup-emit_slots (slot + 1) j image view out a.1)
    | inr d ↦
        rw (d, e)
          (lookup-emit_slots (slot + 1) j image (put slot value view) _ a.1
            ∙ ap (or_else (lookup j image)) (lookup-put slot j value view ∙ rw e refl))
  ]
]

-- A flush by a frame that emits succeeds: its program gets one store for each slot of the visible
-- image of its target that the frame's view does not show, in the image's order, and the view then
-- shows the image, and what it showed before elsewhere.
pub flush_slice-slice :
    (cur : WalkFrame) (frames : List WalkFrame) (programs : List ProgramState) (id : ℕ)
    (program : ProgramState)
    → cur.program ≡ some id
    → get_elem? programs id ≡ some program
    → (after : WalkFrame) × (flush_slice (cur ∷ frames) programs ≡ ok (after ∷ frames))
      × (after.out
          ≡ cur.out ++ slice (visible_image (cur ∷ frames) program.target) cur.emitted_view)
      × ((slot : ℕ)
          → lookup slot after.emitted_view
            ≡ or_else
                (lookup slot (visible_image (cur ∷ frames) program.target))
                (lookup slot cur.emitted_view))
unfolding flush_slice
flush_slice-slice cur frames programs id program e h =
    let image = visible_image (cur ∷ frames) program.target in
    let sorted = visible_image-Ascending (cur ∷ frames) program.target in
    (
      flush_into image cur,
      rw (e, h) refl,
      emit_slots-slice 0 image cur.emitted_view cur.out sorted,
      λ slot. lookup-emit_slots 0 slot image cur.emitted_view cur.out sorted,
    )
