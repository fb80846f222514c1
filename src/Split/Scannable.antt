-- ===== src/Split/Scannable.antt =====
-- When the pre-pass over the trace fails, and with what (crates/core/src/nested.rs,
-- `scan_candidates`).
use gas_analyzer.Split.{
  Candidate, ScanFrame, ScanPending, CandidateScan, disqualified, Scope, root_scope, call_scope,
}
use gas_analyzer.Split.Scan.{
  stack_of, from_top, start_scan, scan_enter, scan_leave, decide, mark_unsupported, in_scope,
  scan_store, scan_op, is_observable, observe, scan_pending, scan_here, scan_left, scan_step,
  scan_from, scan_candidates,
}
use gas_analyzer.Failure.{Failure, zero_depth, short_stack}
use gas_analyzer.Evm.{StructLog, Op}
use gas_analyzer.Prelude.Results.{◌>>=◌, Result, ok, err}
use gas_analyzer.Prelude.Maps.{or_else}
use gas_analyzer.Prelude.{
  ℕ, ◌+◌, ◌-◌, ◌≤◌, ◌<◌, ◌≡◌, refl, sym, ◌∙◌, subst, inl, inr, Bool, true, false, ◌&&◌, Option,
  none, some, List, [], ◌∷◌, arith, ltb, ◌==◌, if◌then◌else◌, lt→ltb, ltb→lt, Bool-cases, tests,
  length, get_elem?-inside, ◌+64◌,
}

abbrev pub is_sstore : Op → Bool
is_sstore Op.sstore = true
is_sstore _ = false

-- Only a store can fail, for a short stack.
abbrev pub op_fault : ℕ → StructLog → Op → Option Failure
op_fault i log op =
    if is_sstore op && ltb (length (stack_of log)) 2 then some (short_stack i) else none

-- A log at depth 0, or a store that ran without a slot and a value on the stack.
abbrev pub log_fault : ℕ → StructLog → Option Failure
log_fault i log =
    if log.depth == 0
    then some (zero_depth i)
    else (if log.has_error then none else op_fault i log log.op)

-- The first fault of a trace, its logs counted from `i` on.
abbrev pub first_fault : ℕ → List StructLog → Option Failure
first_fault i [] = none
first_fault i (log ∷ logs) = or_else (log_fault i log) (first_fault (i + 1) logs)

abbrev pub failure_of {ℓ} : {A : Type ℓ} → Result Failure A → Option Failure
failure_of (ok a) = none
failure_of (err e) = some e

-- The last frame is the root's.
abbrev Rooted : List ScanFrame → Type 0
Rooted [] = ⊥
Rooted (f ∷ []) = f.depth ≤ 1
Rooted (f ∷ g ∷ frames) = Rooted (g ∷ frames)

scan_leave-Rooted :
    (depth : ℕ) (frames : List ScanFrame)
    → 0 < depth
    → Rooted frames
    → Rooted (scan_leave depth frames)
unfolding scan_leave
scan_leave-Rooted depth [] h r = absurd r
scan_leave-Rooted depth (f ∷ []) h r =
    let low : ltb depth f.depth ≡ false = ground (arith, r, h) in rw low r
scan_leave-Rooted depth (f ∷ g ∷ frames) h r = elim (Bool-cases (ltb depth f.depth)) [
  | inl e ↦ rw e (scan_leave-Rooted depth (g ∷ frames) h r)
  | inr e ↦ rw e r
]

Rooted-push : (f : ScanFrame) (frames : List ScanFrame) → Rooted frames → Rooted (f ∷ frames)
Rooted-push f [] r = absurd r
Rooted-push f (g ∷ frames) r = r

-- A step ends with its fault, or with frames that still have the root.
abbrev Outcome : Option Failure → Result Failure CandidateScan → Type 0
Outcome (some e) r = r ≡ err e
Outcome none r = (s : CandidateScan) × (r ≡ ok s) × Rooted s.frames

scan_enter-Rooted :
    (log : StructLog) (o : Option ScanPending) (s : CandidateScan)
    → Rooted s.frames
    → Rooted (scan_enter log o s).frames
scan_enter-Rooted log none s r = r
scan_enter-Rooted log (some p) s r = elim (Bool-cases (log.depth == p.parent_depth +64 1)) [
  | inl e ↦
      rw e (Rooted-push (record { depth = log.depth; ctx = p.ctx; scope = p.scope }) s.frames r)
  | inr e ↦ rw e r
]

in_scope-frames :
    (scope : Option Scope) (change : Candidate → Candidate) (s : CandidateScan)
    → (in_scope scope change s).frames ≡ s.frames
in_scope-frames none change s = refl
in_scope-frames (some root_scope) change s = refl
in_scope-frames (some (call_scope i)) change s = refl

scan_store-frames :
    (scope : Option Scope) (slot value : ℕ) (s : CandidateScan)
    → (scan_store scope slot value s).frames ≡ s.frames
scan_store-frames none slot value s = refl
scan_store-frames (some root_scope) slot value s = refl
scan_store-frames (some (call_scope i)) slot value s = refl

observe-frames :
    (op : Op) (scope : Option Scope) (s : CandidateScan) → (observe op scope s).frames ≡ s.frames
observe-frames op scope s = elim (Bool-cases (is_observable op)) [
  | inl e ↦ rw e (in_scope-frames scope (decide disqualified) s)
  | inr e ↦ rw e refl
]

scan_pending-frames :
    (i : ℕ) (log : StructLog) (cur : ScanFrame) (op : Op) (s : CandidateScan)
    → (scan_pending i log cur op s).frames ≡ s.frames
unfolding scan_pending
scan_pending-frames i log cur Op.call s = refl
scan_pending-frames i log cur Op.staticcall s = refl
scan_pending-frames i log cur Op.delegatecall s = refl
scan_pending-frames i log cur Op.callcode s = refl
scan_pending-frames i log cur Op.create s = refl
scan_pending-frames i log cur Op.create2 s = refl
scan_pending-frames i log cur _ s = refl

from_top-inside :
    (n : ℕ) (stack : List ℕ) → n < length stack → (x : ℕ) × (from_top n stack ≡ some x)
unfolding from_top
from_top-inside n stack h =
    rw (lt→ltb n (length stack) h)
      (get_elem?-inside stack (length stack - (n + 1)) (omega (arith, h)))

from_top-outside : (n : ℕ) (stack : List ℕ) → length stack ≤ n → from_top n stack ≡ none
unfolding from_top
from_top-outside n stack h = ground (arith, h)

abbrev KeepsFrames : List ScanFrame → Option Failure → Result Failure CandidateScan → Type 0
KeepsFrames frames (some e) r = r ≡ err e
KeepsFrames frames none r = (s : CandidateScan) × (r ≡ ok s) × (s.frames ≡ frames)

scan_op-KeepsFrames :
    (i : ℕ) (log : StructLog) (op : Op) (scope : Option Scope) (s : CandidateScan)
    → KeepsFrames s.frames (op_fault i log op) (scan_op i log op scope s)
unfolding scan_op
scan_op-KeepsFrames i log Op.sstore scope s = elim (Bool-cases (ltb (length (stack_of log)) 2)) [
  | inl e ↦ elim (Bool-cases (ltb 0 (length (stack_of log)))) [
    | inl p ↦
        let (x, found) = from_top-inside 0 (stack_of log) (ltb→lt _ _ p) in
        let short : length (stack_of log) ≤ 1 = omega (tests, ltb→lt _ _ e) in
        rw (e, found, from_top-outside 1 (stack_of log) short) refl
    | inr p ↦ rw (e, from_top-outside 0 (stack_of log) (ground (arith, p))) refl
  ]
  | inr e ↦
      let long : 2 ≤ length (stack_of log) = ground (arith, e) in
      let (x, found) = from_top-inside 0 (stack_of log) (omega (arith, long)) in
      let (y, found') = from_top-inside 1 (stack_of log) (omega (arith, long)) in
      rw (e, found, found') (_, refl, scan_store-frames scope x y s)
]
scan_op-KeepsFrames i log Op.tstore scope s = (_, refl, in_scope-frames scope mark_unsupported s)
scan_op-KeepsFrames i log Op.selfdestruct scope s =
    (_, refl, in_scope-frames scope mark_unsupported s)
scan_op-KeepsFrames i log _ scope s = (_, refl, refl)

scan_ran-Outcome :
    (i : ℕ) (log : StructLog) (cur : ScanFrame) (s : CandidateScan) (o : Option Failure)
    (r : Result Failure CandidateScan)
    → Rooted s.frames
    → KeepsFrames s.frames o r
    → Outcome o (r >>= λ s'. ok (scan_pending i log cur log.op (observe log.op cur.scope s')))
scan_ran-Outcome i log cur s (some e) r root k = rw k refl
scan_ran-Outcome i log cur s none r root (s', e, same) = rw e (
  _,
  refl,
  subst Rooted
      (sym (
        scan_pending-frames i log cur log.op (observe log.op cur.scope s')
        ∙ (observe-frames log.op cur.scope s' ∙ same)))
      root,
)

unless_errored :
    (errored : Bool) (o : Option Failure) (s : CandidateScan) (ran : Result Failure CandidateScan)
    → Rooted s.frames
    → Outcome o ran
    → Outcome (if errored then none else o) (if errored then ok s else ran)
unless_errored true o s ran r h = (s, refl, r)
unless_errored false o s ran r h = h

scan_here-Outcome :
    (i : ℕ) (log : StructLog) (frames : List ScanFrame) (s : CandidateScan)
    → s.frames ≡ frames
    → Rooted frames
    → Outcome (if log.has_error then none else op_fault i log log.op) (scan_here i log frames s)
scan_here-Outcome i log [] s same r = absurd r
scan_here-Outcome i log (cur ∷ frames) s same r =
    let rooted : Rooted s.frames = subst Rooted (sym same) r in
    unless_errored log.has_error (op_fault i log log.op) s _ rooted (
      scan_ran-Outcome i log cur s (op_fault i log log.op) _ rooted
        (scan_op-KeepsFrames i log log.op cur.scope s))

scan_step-Outcome :
    (i : ℕ) (log : StructLog) (s : CandidateScan)
    → Rooted s.frames
    → Outcome (log_fault i log) (scan_step i log s)
unfolding scan_step
scan_step-Outcome i log s r = elim (Bool-cases (log.depth == 0)) [
  | inl e ↦ rw e refl
  | inr e ↦ rw e (
      scan_here-Outcome i log _ (scan_left log (scan_enter log s.pending s)) refl
        (scan_leave-Rooted log.depth _ (ground (arith, e)) (scan_enter-Rooted log s.pending s r)))
]

abbrev Answers {ℓ} : {A : Type ℓ} → Option Failure → Result Failure A → Type ℓ
Answers {A = A} (some e) r = r ≡ err e
Answers {A = A} none r = (a : A) × (r ≡ ok a)

bind-Answers :
    (o : Option Failure) (o' : Option Failure) (start : Result Failure CandidateScan)
    (next : CandidateScan → Result Failure CandidateScan)
    → Outcome o start
    → ((s : CandidateScan) → Rooted s.frames → Answers o' (next s))
    → Answers (or_else o o') (start >>= next)
bind-Answers (some e) o' start next h k = rw h refl
bind-Answers none o' start next (s, e, r) k = rw e (k s r)

scan_from-Answers :
    (i : ℕ) (logs : List StructLog) (s : CandidateScan)
    → Rooted s.frames
    → Answers (first_fault i logs) (scan_from i logs s)
unfolding scan_from
scan_from-Answers i [] s r = (s, refl)
scan_from-Answers i (log ∷ logs) s r =
    bind-Answers (log_fault i log) (first_fault (i + 1) logs) (scan_step i log s)
      (scan_from (i + 1) logs) (scan_step-Outcome i log s r)
      (λ s' r'. scan_from-Answers (i + 1) logs s' r')

failure-Answers :
    (o : Option Failure) (r : Result Failure CandidateScan)
    → Answers o r
    → failure_of {A = List (ℕ × Candidate) × Option ℕ} (r >>= λ s. ok (s.candidates, s.root_index))
      ≡ o
failure-Answers (some e) r h = rw h refl
failure-Answers none r (s, e) = rw e refl

-- The pre-pass fails exactly with the first fault of the trace, a log at depth 0 or a store that ran
-- with less than two items on the stack, and otherwise succeeds.
pub scan_candidates-first_fault :
    (logs : List StructLog) (root : ℕ) → failure_of (scan_candidates logs root) ≡ first_fault 0 logs
unfolding scan_candidates start_scan
scan_candidates-first_fault logs root =
    failure-Answers (first_fault 0 logs) (scan_from 0 logs (start_scan root))
      (scan_from-Answers 0 logs (start_scan root) (omega arith))
