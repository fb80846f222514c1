-- ===== src/Split/Views.antt =====
-- Slices and forgetting keep the views of the frames true (crates/core/src/nested.rs,
-- `flush_slice` and `forget_overwritten`).
use gas_analyzer.Split.{WalkFrame, Slots, Journal}
use gas_analyzer.Split.Images.{
  slots_of, visible_image, shows, emit_slots, flush_into, flush_slice, forget_in,
  forget_overwritten,
}
use gas_analyzer.Split.Flush.{
  slice, last_store, or_else_id, last_store-append, lookup-shows, emit_slots-slice,
  lookup-emit_slots,
}
use gas_analyzer.Split.Agree.{
  Agrees, start_of, emitted, top_program, Shares, FramesOk, EndsAtRoot, lookup-forget_slots,
}
use gas_analyzer.FrameTree.{ProgramState, program_at}
use gas_analyzer.Failure.{panic}
use gas_analyzer.Prelude.Results.{ok_or, IfOk, IfOk-bind, IfOk-after, ok_or-ok}
use gas_analyzer.Prelude.Assoc.{lookup}
use gas_analyzer.Prelude.Maps.{or_else, Ascending, lookup-below}
use gas_analyzer.Prelude.{
  ℕ, ◌+◌, ◌≡◌, refl, sym, ap, ◌∙◌, inl, inr, Option, none, some, List, [], ◌∷◌, ◌++◌, append_assoc,
  arith, ◌==◌, if◌then◌else◌, ==_iff, Bool-cases, get_elem?,
}
use gas_analyzer.Types.{StateUpdate}

-- What a slice stores to a slot whose value in the image is known.
abbrev unless_shown : Slots → ℕ → Option ℕ → Option ℕ
unless_shown view slot none = none
unless_shown view slot (some value) = if shows view slot value then none else some value

last_store-slice_cons :
    (slot k value : ℕ) (image view : Slots)
    → last_store slot (slice ((k, value) ∷ image) view)
      ≡ or_else
          (last_store slot (slice image view))
          (if k == slot then unless_shown view k (some value) else none)
last_store-slice_cons slot k value image view = elim (Bool-cases (shows view k value)) [
  | inl d ↦ elim (Bool-cases (k == slot)) [
    | inl e ↦ rw (d, e) (or_else_id _)
    | inr e ↦ rw (d, e) (or_else_id _)
  ]
  | inr d ↦ rw d refl
]

last_store-slice :
    (n slot : ℕ) (image view : Slots)
    → Ascending n image
    → last_store slot (slice image view) ≡ unless_shown view slot (lookup slot image)
unfolding lookup
last_store-slice n slot [] view a = refl
last_store-slice n slot ((k, value) ∷ image) view a =
    last_store-slice_cons slot k value image view ∙ elim (Bool-cases (k == slot)) [
      | inl e ↦
          let past : lookup slot image ≡ none =
            lookup-below (k + 1) slot image a.1 (ground (arith, e)) in
          let same : k ≡ slot = (==_iff k slot).0 e in
          rw (e, last_store-slice (k + 1) slot image view a.1, past)
            (ap (λ i. unless_shown view i (some value)) same)
      | inr e ↦ rw (e, last_store-slice (k + 1) slot image view a.1) (sym (or_else_id _))
    ]

-- The view after a slice agrees with the program after it.
settles :
    (view : Slots) (slot value : ℕ) (before : Option ℕ) (o : Option ℕ)
    → ((v : ℕ) → lookup slot view ≡ some v → before ≡ some v)
    → or_else o (lookup slot view) ≡ some value
    → or_else (unless_shown view slot o) before ≡ some value
settles view slot value before none a e = a value e
settles view slot value before (some v) a e = elim (Bool-cases (shows view slot v)) [
  | inl d ↦ rw d (a v (lookup-shows view slot v d) ∙ e)
  | inr d ↦ rw d e
]

pub Agrees-emit_slots :
    (image view : Slots) (before out : List StateUpdate)
    → Ascending 0 image
    → Agrees view (before ++ out)
    → Agrees (emit_slots image view out).0 (before ++ (emit_slots image view out).1)
Agrees-emit_slots image view before out sorted a slot value e =
    let found = sym (lookup-emit_slots 0 slot image view out sorted) ∙ e in
    ap (λ us. last_store slot (before ++ us)) (emit_slots-slice 0 image view out sorted)
    ∙ (ap (last_store slot) (sym (append_assoc before out (slice image view)))
        ∙ (last_store-append slot (before ++ out) (slice image view)
            ∙ (ap (λ o. or_else o (last_store slot (before ++ out)))
                  (last_store-slice 0 slot image view sorted)
                ∙ settles view slot value (last_store slot (before ++ out)) (lookup slot image)
                    (a slot) found)))

pub Shares-out :
    (nested_start_gas program : Option ℕ) (out out' : List StateUpdate) (below : List WalkFrame)
    → (program ≡ none → out ≡ [] → out' ≡ [])
    → Shares nested_start_gas program out below
    → Shares nested_start_gas program out' below
Shares-out none none out out' below h s = h refl s
Shares-out (some gas) none out out' below h s = h refl s
Shares-out none (some id) out out' below h s = s
Shares-out (some gas) (some id) out out' below h s = s

-- What a flush leaves of the frames.
pub record Flushed (cur : WalkFrame) (below : List WalkFrame) (programs : List ProgramState)
    (frames : List WalkFrame) : Type 0 where
  pub id : ℕ
  pub program : ProgramState
  pub emits : cur.program ≡ some id
  pub here : get_elem? programs id ≡ some program
  pub same : frames ≡ flush_into (visible_image (cur ∷ below) program.target) cur ∷ below

pub flush_slice-Flushed :
    (cur : WalkFrame) (below : List WalkFrame) (programs : List ProgramState)
    → IfOk (Flushed cur below programs) (flush_slice (cur ∷ below) programs)
unfolding flush_slice
flush_slice-Flushed cur below programs =
    IfOk-after (Flushed cur below programs) (ok_or cur.program panic) _ λ id e.
      IfOk-after (Flushed cur below programs) (program_at programs id) _ λ program f. record {
        id = id;
        program = program;
        emits = ok_or-ok cur.program panic e;
        here = ok_or-ok (get_elem? programs id) panic f;
        same = refl;
      }

pub FramesOk-flush :
    (cur : WalkFrame) (below : List WalkFrame) (image : Slots) (id : ℕ)
    → Ascending 0 image
    → cur.program ≡ some id
    → FramesOk (cur ∷ below)
    → FramesOk (flush_into image cur ∷ below)
FramesOk-flush cur below image id sorted emits ((a, s), rest) = (
  (
    Agrees-emit_slots image cur.emitted_view
        (start_of cur.nested_start_gas cur.program (emitted below)) cur.out sorted a,
    Shares-out cur.nested_start_gas cur.program cur.out _ below (λ silent e. cc) s,
  ),
  rest,
)

-- Frames of which each one only forgot some of its view.
abbrev pub Forgot : List WalkFrame → List WalkFrame → Type 0
Forgot [] [] = Unit
Forgot [] (g ∷ gs) = ⊥
Forgot (f ∷ fs) [] = ⊥
Forgot (f ∷ fs) (g ∷ gs) =
    (g.program ≡ f.program)
    × (g.nested_start_gas ≡ f.nested_start_gas)
    × (g.out ≡ f.out)
    × ((slot value : ℕ)
        → lookup slot g.emitted_view ≡ some value
        → lookup slot f.emitted_view ≡ some value)
    × Forgot fs gs

forget_in-less :
    (programs : List ProgramState) (journal : Journal) (f : WalkFrame) (o : Option ℕ)
    → IfOk
        (λ g.
          (g.program ≡ f.program)
          × (g.nested_start_gas ≡ f.nested_start_gas)
          × (g.out ≡ f.out)
          × ((slot value : ℕ)
              → lookup slot g.emitted_view ≡ some value
              → lookup slot f.emitted_view ≡ some value))
        (forget_in programs journal f o)
forget_in-less programs journal f none = (refl, refl, refl, λ slot value e. e)
forget_in-less programs journal f (some id) =
    IfOk-after _ (program_at programs id) _ λ program here. (
      refl,
      refl,
      refl,
      λ slot value e.
          lookup-forget_slots (slots_of journal program.target) f.emitted_view slot value e,
    )

pub forget_overwritten-Forgot :
    (frames : List WalkFrame) (programs : List ProgramState) (journal : Journal)
    → IfOk (Forgot frames) (forget_overwritten frames programs journal)
unfolding forget_overwritten
forget_overwritten-Forgot [] programs journal = tt
forget_overwritten-Forgot (f ∷ frames) programs journal =
    IfOk-bind _ (Forgot (f ∷ frames)) (forget_in programs journal f f.program) _
      (forget_in-less programs journal f f.program)
      λ g less.
        IfOk-bind (Forgot frames) (Forgot (f ∷ frames)) (forget_overwritten frames programs journal)
          _ (forget_overwritten-Forgot frames programs journal)
          λ gs more. (less.0, less.1, less.2, less.3, more)

emitted-Forgot : (fs gs : List WalkFrame) → Forgot fs gs → emitted gs ≡ emitted fs
emitted-Forgot [] [] h = refl
emitted-Forgot [] (g ∷ gs) h = absurd h
emitted-Forgot (f ∷ fs) [] h = absurd h
emitted-Forgot (f ∷ fs) (g ∷ gs) (p, n, o, v, h) = rw (p, n, o, emitted-Forgot fs gs h) refl

top_program-Forgot :
    (fs gs : List WalkFrame) (o : Option ℕ) → Forgot fs gs → top_program gs o ≡ top_program fs o
top_program-Forgot [] [] o h = refl
top_program-Forgot [] (g ∷ gs) o h = absurd h
top_program-Forgot (f ∷ fs) [] o h = absurd h
top_program-Forgot (f ∷ fs) (g ∷ gs) o h = h.0

Shares-below :
    (n p : Option ℕ) (out : List StateUpdate) (fs gs : List WalkFrame)
    → Forgot fs gs
    → Shares n p out fs
    → Shares n p out gs
Shares-below none none out fs gs h s = s
Shares-below (some gas) none out fs gs h s = s
Shares-below none (some id) out fs gs h s = top_program-Forgot fs gs (some id) h ∙ s
Shares-below (some gas) (some id) out fs gs h s = s

pub FramesOk-Forgot : (fs gs : List WalkFrame) → Forgot fs gs → FramesOk fs → FramesOk gs
FramesOk-Forgot [] [] h k = k
FramesOk-Forgot [] (g ∷ gs) h k = absurd h
FramesOk-Forgot (f ∷ fs) [] h k = absurd h
FramesOk-Forgot (f ∷ fs) (g ∷ gs) (p, n, o, v, h) ((a, s), rest) = (
  rw (p, n, o)
      (
        (λ slot value e.
            ap (λ us. last_store slot (start_of f.nested_start_gas f.program us ++ f.out))
              (emitted-Forgot fs gs h)
            ∙ a slot value (v slot value e)),
        Shares-below f.nested_start_gas f.program f.out fs gs h s,
      ),
  FramesOk-Forgot fs gs h rest,
)

pub EndsAtRoot-Forgot : (fs gs : List WalkFrame) → Forgot fs gs → EndsAtRoot fs → EndsAtRoot gs
EndsAtRoot-Forgot [] [] h k = k
EndsAtRoot-Forgot [] (g ∷ gs) h k = absurd h
EndsAtRoot-Forgot (f ∷ fs) [] h k = absurd h
EndsAtRoot-Forgot (f ∷ []) (g ∷ []) h k = (h.0 ∙ k.0, h.1 ∙ k.1)
EndsAtRoot-Forgot (f ∷ []) (g ∷ g' ∷ gs) h k = absurd h.4
EndsAtRoot-Forgot (f ∷ f' ∷ fs) (g ∷ []) h k = absurd h.4
EndsAtRoot-Forgot (f ∷ f' ∷ fs) (g ∷ g' ∷ gs) h k = EndsAtRoot-Forgot (f' ∷ fs) (g' ∷ gs) h.4 k
