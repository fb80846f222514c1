-- ===== src/Split/Calls.antt =====
-- Calls, creates and logs keep the invariant of the split (crates/core/src/nested.rs, the `match`
-- on the opcode in `split_frame_tree`).
use gas_analyzer.Trace.{append_state_update_from_struct_log}
use gas_analyzer.Split.{Candidate, WalkFrame, PendingFrame, SplitWalk, frame_index, Eligibility}
use gas_analyzer.Split.Images.{visible_image, flush_into, flush_slice}
use gas_analyzer.Split.Close.{amend}
use gas_analyzer.Split.Scannable.{is_sstore}
use gas_analyzer.Split.Dispatch.{
  add_effect_gas, callee_of, add_update, nested_program, add_child, nested_op, open_nested,
  emit_call, choose_call, appended, call_frame, walk_call, create_frame, append_to_top, walk_create,
  walk_log, walk_op,
}
use gas_analyzer.Split.Agree.{ProgramsOk, StateOk, WalkOk, EndsAtRoot-top}
use gas_analyzer.Split.Views.{Flushed, flush_slice-Flushed}
use gas_analyzer.Split.Enters.{flush_slice-StateOk}
use gas_analyzer.Split.Quiet.{Quiet, SameStores, push-SameStores, append-SameStores, last?-Quiet}
use gas_analyzer.Split.Steps.{
  FramesOk-out, native-FrameOk, nested-FrameOk, Idle, idle-PendingOk, same-WalkOk, pending-WalkOk,
  walk_store-WalkOk, walk_skipped-WalkOk, walk_delegate-WalkOk, walk_static-WalkOk,
}
use gas_analyzer.Split.Programs.{ProgramsOk-amend, ProgramsOk-push}
use gas_analyzer.FrameTree.{ProgramState}
use gas_analyzer.Evm.{StructLog, Op}
use gas_analyzer.Failure.{panic, no_stack}
use gas_analyzer.Prelude.Results.{
  ok_or, IfOk, IfOk-bind, IfOk-after, ok_or-ok, IfOk-if, IfOk-refuse_if, ok,
}
use gas_analyzer.Prelude.{
  ℕ, zero, suc, ◌<◌, ◌≡◌, refl, ap, subst, false, not, ◌&&◌, Option, none, some, List, [], ◌∷◌,
  ◌++◌, arith, is_some, length, get_elem?, last?,
}
use gas_analyzer.Prelude.Bytes.{Bytes}
use gas_analyzer.Types.{Call, StateUpdate, call}

length-present :
    (programs : List ProgramState) (id : ℕ) {p : ProgramState}
    → get_elem? programs id ≡ some p
    → id < length programs
length-present [] id e = cc
length-present (p ∷ programs) zero e = omega arith
length-present (p ∷ programs) (suc id) e = omega (arith, length-present programs id e)

-- The frame of an emitted operation is a native one.
NativePending : PendingFrame → Type 0
NativePending p = (p.emitted_view ≡ []) × (p.nested_start_gas ≡ none) × (p.program ≡ none)

module _ (root : ℕ) (keccak256 : Bytes → ℕ) where
  -- The frames after a flush by a frame that emits into a known program.
  record Ready (cur : WalkFrame) (below : List WalkFrame) (w : SplitWalk) : Type 0 where
    id : ℕ
    emits : cur.program ≡ some id
    inside : id < length w.programs
    state : StateOk root (cur ∷ below) w.programs

  added-StateOk :
      (u : StateUpdate) (cur : WalkFrame) (below : List WalkFrame) (id : ℕ)
      (programs : List ProgramState)
      → Quiet u
      → cur.program ≡ some id
      → StateOk root (cur ∷ below) programs
      → StateOk root (add_update u cur ∷ below) programs
  added-StateOk u cur below id programs q emits (k, end, ps) = (
    FramesOk-out cur (cur.out ++ (u ∷ [])) below id emits (push-SameStores cur.out u q) k,
    EndsAtRoot-top cur (add_update u cur) below refl refl end,
    ps,
  )

  open_nested-WalkOk :
      (log : StructLog) (next : PendingFrame) (index : ℕ) (c : Call) (cur : WalkFrame)
      (below : List WalkFrame) (w : SplitWalk)
      → next.emitted_view ≡ []
      → Ready cur below w
      → IfOk (WalkOk root) (open_nested keccak256 log next index c cur below w)
  open_nested-WalkOk log next index c cur below w v r =
      IfOk-after (WalkOk root) (ok_or cur.program panic) _ λ parent e.
        let up = ok_or-ok cur.program panic e in
        let same : r.id ≡ parent = cc in
        let new = nested_program keccak256 index parent cur c in
        let id = length w.programs in
        IfOk-bind (ProgramsOk root) (WalkOk root)
          (amend (w.programs ++ (new ∷ [])) parent (add_child keccak256 id)) _
          (ProgramsOk-amend root (w.programs ++ (new ∷ [])) parent (add_child keccak256 id)
            (λ p. (refl, refl))
            (ProgramsOk-push root w.programs new parent refl
              (subst (λ i. i < length w.programs) same r.inside) r.state.2))
          (λ programs ps. (
            added-StateOk (nested_op keccak256 c) cur below r.id programs (λ slot. refl) r.emits
                (r.state.0, r.state.1, ps),
            rw v (nested-FrameOk log.gas id (add_update (nested_op keccak256 c) cur ∷ below)),
          ))

  emit_call-WalkOk :
      (log : StructLog) (next : PendingFrame) (u : StateUpdate) (cur : WalkFrame)
      (below : List WalkFrame) (w : SplitWalk)
      → NativePending next
      → Quiet u
      → Ready cur below w
      → WalkOk root (emit_call keccak256 log next u cur below w)
  unfolding NativePending
  emit_call-WalkOk log next u cur below w (v, n, p) q r = (
    added-StateOk u cur below r.id w.programs q r.emits r.state,
    rw (v, n, p) (native-FrameOk (add_update u cur ∷ below)),
  )

  choose_call-WalkOk :
      (log : StructLog) (next : PendingFrame) (index : Option ℕ) (o : Option StateUpdate)
      (cur : WalkFrame) (below : List WalkFrame) (w : SplitWalk)
      → NativePending next
      → ((u : StateUpdate) → o ≡ some u → Quiet u)
      → Ready cur below w
      → IfOk (WalkOk root) (choose_call keccak256 log next index o (cur ∷ below) w)
  unfolding choose_call NativePending
  choose_call-WalkOk log next index none cur below w p q r = tt
  choose_call-WalkOk log next (some index) (some (call c)) cur below w p q r =
      open_nested-WalkOk log next index c cur below w p.0 r
  choose_call-WalkOk log next none (some (call c)) cur below w p q r =
      emit_call-WalkOk log next (call c) cur below w p (q (call c) refl) r
  choose_call-WalkOk log next index (some u) cur below w p q r =
      emit_call-WalkOk log next u cur below w p (q u refl) r

  flush_slice-Ready :
      (cur : WalkFrame) (below : List WalkFrame) (w : SplitWalk) (frames : List WalkFrame)
      → Flushed cur below w.programs frames
      → StateOk root (cur ∷ below) w.programs
      → (top : WalkFrame) × (frames ≡ top ∷ below) × Ready top below w
  flush_slice-Ready cur below w frames f k = (
    flush_into (visible_image (cur ∷ below) f.program.target) cur,
    f.same,
    record {
      id = f.id;
      emits = f.emits;
      inside = length-present w.programs f.id f.here;
      state =
          subst (λ fs. StateOk root fs w.programs) f.same
            (flush_slice-StateOk root cur below w.programs frames f k);
    },
  )

  module _ (decode_to_slice : List ℕ → Option Bytes) (eligibility : Eligibility) where
    appended-SameStores :
        (us : List StateUpdate) (log : StructLog)
        → is_sstore log.op ≡ false
        → IfOk (SameStores us) (appended keccak256 decode_to_slice eligibility us log)
    appended-SameStores us log h =
        IfOk-bind (λ r. SameStores us r.0) (SameStores us)
          (append_state_update_from_struct_log decode_to_slice us log) _
          (append-SameStores decode_to_slice us log h)
          λ r same. IfOk-refuse_if (SameStores us) (is_some r.1) _ _ λ e. same

    walk_call-WalkOk :
        (log : StructLog) (candidate : Option Candidate) (cur : WalkFrame) (below : List WalkFrame)
        (w : SplitWalk)
        → is_sstore log.op ≡ false
        → Idle root w cur below
        → IfOk
            (WalkOk root)
            (walk_call keccak256 decode_to_slice eligibility log candidate cur below w)
    unfolding walk_call NativePending
    walk_call-WalkOk log candidate cur below w quiet h =
        IfOk-after (WalkOk root) (ok_or log.stack (no_stack Op.call)) _ λ stack e.
          IfOk-if (WalkOk root) log.has_error (ok w) _ (λ d. same-WalkOk root w cur below h)
            (λ d.
              IfOk-if (WalkOk root) (is_some cur.program) _ _
                (λ i.
                  IfOk-bind (Flushed cur below w.programs) (WalkOk root)
                    (flush_slice (cur ∷ below) w.programs) _
                    (flush_slice-Flushed cur below w.programs)
                    λ frames f.
                      let (top, split, ready) = flush_slice-Ready cur below w frames f h.2 in
                      IfOk-bind (SameStores []) (WalkOk root)
                        (appended keccak256 decode_to_slice eligibility [] log) _
                        (appended-SameStores [] log quiet)
                        λ decoded same. rw split (
                          choose_call-WalkOk log
                            (call_frame keccak256 decode_to_slice eligibility log stack)
                            (frame_index eligibility candidate (callee_of stack)) (last? decoded)
                            top below w (refl, refl, refl) (λ u g. last?-Quiet decoded u same g)
                            ready))
                (λ i.
                  pending-WalkOk root w cur below
                    (call_frame keccak256 decode_to_slice eligibility log stack) h
                    (native-FrameOk (cur ∷ below))))

    append_to_top-StateOk :
        (log : StructLog) (top : WalkFrame) (below : List WalkFrame) (w : SplitWalk)
        → is_sstore log.op ≡ false
        → Ready top below w
        → IfOk
            (λ fs. StateOk root fs w.programs)
            (append_to_top keccak256 decode_to_slice eligibility log (top ∷ below))
    append_to_top-StateOk log top below w quiet r =
        IfOk-bind (SameStores top.out) (λ fs. StateOk root fs w.programs)
          (appended keccak256 decode_to_slice eligibility top.out log) _
          (appended-SameStores top.out log quiet)
          (λ out same. (
            FramesOk-out top out below r.id r.emits same r.state.0,
            EndsAtRoot-top top (record top { out = out }) below refl refl r.state.1,
            r.state.2,
          ))

    walk_create-WalkOk :
        (log : StructLog) (cur : WalkFrame) (below : List WalkFrame) (w : SplitWalk)
        → is_sstore log.op ≡ false
        → Idle root w cur below
        → IfOk (WalkOk root) (walk_create keccak256 decode_to_slice eligibility log cur below w)
    unfolding walk_create
    walk_create-WalkOk log cur below w quiet h =
        IfOk-if (WalkOk root) log.has_error (ok w) _ (λ d. same-WalkOk root w cur below h)
          (λ d.
            IfOk-if (WalkOk root) (is_some cur.program) _ _
              (λ i.
                IfOk-bind (Flushed cur below w.programs) (WalkOk root)
                  (flush_slice (cur ∷ below) w.programs) _
                  (flush_slice-Flushed cur below w.programs)
                  λ frames f.
                    let (top, split, ready) = flush_slice-Ready cur below w frames f h.2 in
                    rw split (
                      IfOk-bind (λ fs. StateOk root fs w.programs) (WalkOk root)
                        (append_to_top keccak256 decode_to_slice eligibility log (top ∷ below)) _
                        (append_to_top-StateOk log top below w quiet ready)
                        (λ fs k. (k, native-FrameOk fs))))
              (λ i.
                pending-WalkOk root w cur below
                  (create_frame keccak256 decode_to_slice eligibility log false) h
                  (native-FrameOk (cur ∷ below))))

    walk_log-WalkOk :
        (log : StructLog) (cur : WalkFrame) (below : List WalkFrame) (w : SplitWalk)
        → is_sstore log.op ≡ false
        → Idle root w cur below
        → IfOk (WalkOk root) (walk_log keccak256 decode_to_slice eligibility log cur below w)
    unfolding walk_log
    walk_log-WalkOk log cur below w quiet (e, idle, (k, end, ps)) =
        IfOk-if (WalkOk root) (is_some cur.program && not log.has_error) _ (ok w)
          (λ d.
            IfOk-bind (λ r. SameStores cur.out r.0) (WalkOk root)
              (append_state_update_from_struct_log decode_to_slice cur.out log) _
              (append-SameStores decode_to_slice cur.out log quiet)
              λ r same. IfOk-after (WalkOk root) (ok_or cur.program panic) _ λ id f.
                IfOk-bind (ProgramsOk root) (WalkOk root)
                  (amend w.programs id (add_effect_gas log.gas_cost)) _
                  (ProgramsOk-amend root w.programs id (add_effect_gas log.gas_cost)
                    (λ p. (refl, refl)) ps)
                  (λ programs ps'. (
                    (
                      FramesOk-out cur r.0 below id (ok_or-ok cur.program panic f) same k,
                      EndsAtRoot-top cur (record cur { out = r.0 }) below refl refl end,
                      ps',
                    ),
                    idle-PendingOk root w.pending _ idle,
                  )))
          (λ d. same-WalkOk root w cur below (e, idle, (k, end, ps)))

    pub walk_op-WalkOk :
        (op : Op) (log : StructLog) (candidate : Option Candidate) (cur : WalkFrame)
        (below : List WalkFrame) (w : SplitWalk)
        → log.op ≡ op
        → Idle root w cur below
        → IfOk
            (WalkOk root)
            (walk_op keccak256 decode_to_slice eligibility op log candidate cur below w)
    unfolding walk_op
    walk_op-WalkOk Op.sstore log candidate cur below w e h =
        walk_store-WalkOk root log cur.storage_ctx cur below w h
    walk_op-WalkOk Op.tstore log candidate cur below w e h =
        walk_skipped-WalkOk root (is_some cur.program) Op.tstore w (same-WalkOk root w cur below h)
    walk_op-WalkOk Op.selfdestruct log candidate cur below w e h =
        walk_skipped-WalkOk root (is_some cur.program) Op.selfdestruct w
          (same-WalkOk root w cur below h)
    walk_op-WalkOk Op.delegatecall log candidate cur below w e h =
        walk_delegate-WalkOk root log.has_error log cur below w h
    walk_op-WalkOk Op.callcode log candidate cur below w e h =
        walk_delegate-WalkOk root log.has_error log cur below w h
    walk_op-WalkOk Op.staticcall log candidate cur below w e h =
        walk_static-WalkOk root log cur below w h
    walk_op-WalkOk Op.call log candidate cur below w e h =
        walk_call-WalkOk log candidate cur below w (ap is_sstore e) h
    walk_op-WalkOk Op.create log candidate cur below w e h =
        walk_create-WalkOk log cur below w (ap is_sstore e) h
    walk_op-WalkOk Op.create2 log candidate cur below w e h =
        walk_create-WalkOk log cur below w (ap is_sstore e) h
    walk_op-WalkOk Op.log0 log candidate cur below w e h =
        walk_log-WalkOk log cur below w (ap is_sstore e) h
    walk_op-WalkOk Op.log1 log candidate cur below w e h =
        walk_log-WalkOk log cur below w (ap is_sstore e) h
    walk_op-WalkOk Op.log2 log candidate cur below w e h =
        walk_log-WalkOk log cur below w (ap is_sstore e) h
    walk_op-WalkOk Op.log3 log candidate cur below w e h =
        walk_log-WalkOk log cur below w (ap is_sstore e) h
    walk_op-WalkOk Op.log4 log candidate cur below w e h =
        walk_log-WalkOk log cur below w (ap is_sstore e) h
    walk_op-WalkOk (Op.other n) log candidate cur below w e h = same-WalkOk root w cur below h
