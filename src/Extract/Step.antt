-- ===== src/Extract/Step.antt =====
-- One round of the extraction loop, seen in the updates, the target depth and the call stack.
use gas_analyzer.Evm.{StructLog}
use gas_analyzer.Prelude.Results.{◌>>=◌, >>=-eq-ok, ok}
use gas_analyzer.Extract.{
  Walk, enter_callee, resume_create, detect_reentry, leave_calls, extract_op, step, run,
}
use gas_analyzer.Prelude.{ℕ, ◌≡◌, refl, ap, ◌∙◌, Option, none, some, List, [], ◌∷◌, ◌++◌, arith}
use gas_analyzer.Prelude.Bytes.{Bytes}

-- The walks agree on what decides about extraction.
pub record SameView (v w : Walk) : Type 0 where
  pub state_updates : v.state_updates ≡ w.state_updates
  pub target_depth : v.target_depth ≡ w.target_depth
  pub call_stack : v.call_stack ≡ w.call_stack
  pub skipped_opcodes : v.skipped_opcodes ≡ w.skipped_opcodes

SameView-trans : {u v w : Walk} → SameView u v → SameView v w → SameView u w
SameView-trans p q = record {
  state_updates = p.state_updates ∙ q.state_updates;
  target_depth = p.target_depth ∙ q.target_depth;
  call_stack = p.call_stack ∙ q.call_stack;
  skipped_opcodes = p.skipped_opcodes ∙ q.skipped_opcodes;
}

enter_callee-SameView :
    (log : StructLog) (awaiting : Option (ℕ × ℕ)) (w : Walk)
    → SameView (enter_callee log awaiting w) w
enter_callee-SameView log none w = ground arith
enter_callee-SameView log (some (d, idx)) w = ground arith

resume_create-SameView :
    (log : StructLog) (pending : Option (ℕ × ℕ)) (w : Walk) {v : Walk}
    → resume_create log pending w ≡ ok v
    → SameView v w
resume_create-SameView log none w e = ground arith
resume_create-SameView log (some (d, gas)) w e = ground arith

detect_reentry-SameView :
    (origin : Option ℕ) (log : StructLog) (w : Walk) → SameView (detect_reentry origin log w) w
detect_reentry-SameView none log w = ground arith
detect_reentry-SameView (some o) log w = ground arith

module _ (decode_to_slice : List ℕ → Option Bytes) where
  pub run-append :
      (origin : Option ℕ) (xs ys : List StructLog) (w : Walk) {w' : Walk}
      → run decode_to_slice origin (xs ++ ys) w ≡ ok w'
      → (v : Walk) × (run decode_to_slice origin xs w ≡ ok v)
        × (run decode_to_slice origin ys v ≡ ok w')
  unfolding run
  run-append origin [] ys w e = (w, refl, e)
  run-append origin (x ∷ xs) ys w e =
      let (u, f, g) = >>=-eq-ok (step decode_to_slice origin x w) _ e in
      let (v, h, k) = run-append origin xs ys u g in
      (v, ap (λ m. m >>= run decode_to_slice origin xs) f ∙ h, k)

  -- A round is: leave the calls that ended, from a walk that looks like the given one, and then
  -- extract.
  pub step_view :
      (origin : Option ℕ) (log : StructLog) (w : Walk) {w' : Walk}
      → step decode_to_slice origin log w ≡ ok w'
      → (v : Walk) × SameView v w × (extract_op decode_to_slice log (leave_calls log v) ≡ ok w')
  unfolding step
  step_view origin log w e =
      let entered = enter_callee log w.awaiting_entry w in
      let (resumed, f, g) = >>=-eq-ok (resume_create log entered.pending_create entered) _ e in
      let a = enter_callee-SameView log w.awaiting_entry w in
      let b = resume_create-SameView log entered.pending_create entered f in
      let c = detect_reentry-SameView origin log resumed in
      (detect_reentry origin log resumed, SameView-trans c (SameView-trans b a), g)
