-- ===== src/Extract/Scope.antt =====
-- Extraction from the trace of a tree of frames gives the effects of the root's scope.
use gas_analyzer.Evm.{StructLog, DefaultFrame}
use gas_analyzer.Prelude.Results.{◌>>=◌, >>=-eq-ok, ok-injective, Result, ok}
use gas_analyzer.Extract.{
  TraceExtract, Walk, start, pop_calls, leave_calls, is_delegate, extract_op, step, run, finish,
  compute_state_updates,
}
use gas_analyzer.Prelude.{
  ℕ, suc, ◌+◌, ◌≤◌, ◌<◌, ◌≡◌, refl, sym, ap, ◌∙◌, subst, ◌⊎◌, inl, inr, true, false, Option, List,
  [], ◌∷◌, arith, All, All-append, u64_max,
}
use gas_analyzer.Prelude.Bytes.{Bytes}
use gas_analyzer.Types.{StateUpdate}
use gas_analyzer.Extract.Step.{SameView, run-append, step_view}
use gas_analyzer.Extract.Tree.{
  at, logs_of, height, IsLabelled, own_update, scope_updates, Body, done, delegate, own,
}
use gas_analyzer.Failure.{Failure}

-- The next log of depth `n` belongs to the scope: at most one call is open, of depth `n` or more.
abbrev IsOpenAt : ℕ → List (ℕ × ℕ) → Type 0
IsOpenAt n call_stack =
    (call_stack ≡ []) ⊎ ((d : ℕ) × (i : ℕ) × (call_stack ≡ (d, i) ∷ []) × (n ≤ d))

abbrev IsReady : ℕ → Walk → Type 0
IsReady n w =
    ((w.target_depth ≡ n) × (w.call_stack ≡ [])) ⊎ ((n < w.target_depth) × IsOpenAt n w.call_stack)

-- Logs deeper than `n` do not concern the scope: they are below its depth, or a call is open.
abbrev IsClosed : ℕ → Walk → Type 0
IsClosed n w =
    ((w.target_depth ≡ n) × (w.call_stack ≡ []))
    ⊎ ((n < w.target_depth) × ((i : ℕ) × (w.call_stack ≡ (n, i) ∷ [])))

leave_settles :
    (n : ℕ) (log : StructLog) (v : Walk)
    → log.depth ≡ n
    → IsReady n v
    → ((leave_calls log v).target_depth ≡ n)
      × ((leave_calls log v).call_stack ≡ [])
      × ((leave_calls log v).state_updates ≡ v.state_updates)
unfolding pop_calls
leave_settles n log v e (inl (t, s)) = ground arith
leave_settles n log v e (inr (t, inl s)) = ground arith
leave_settles n log v e (inr (t, inr (d, i, s, h))) = ground arith

leave_deeper :
    (n : ℕ) (log : StructLog) (v : Walk)
    → n < log.depth
    → IsClosed n v
    → IsClosed n (leave_calls log v) × ((leave_calls log v).state_updates ≡ v.state_updates)
unfolding pop_calls
leave_deeper n log v h (inl (t, s)) = ground arith
leave_deeper n log v h (inr (t, (i, s))) = ground arith

module _ (decode_to_slice : List ℕ → Option Bytes) where
  extract_deeper :
      (n : ℕ) (log : StructLog) (v : Walk) {w : Walk}
      → n < log.depth
      → log.depth < u64_max
      → IsClosed n v
      → extract_op decode_to_slice log v ≡ ok w
      → IsClosed n w × (w.state_updates ≡ v.state_updates)
  extract_deeper n log v h b (inl (t, s)) e = ground arith
  extract_deeper n log v h b (inr (t, (i, s))) e = ground arith

  step_deeper :
      (origin : Option ℕ) (n : ℕ) (log : StructLog) (v : Walk) {w : Walk}
      → (n < log.depth) × (log.depth < u64_max)
      → IsClosed n v
      → step decode_to_slice origin log v ≡ ok w
      → IsClosed n w × (w.state_updates ≡ v.state_updates)
  step_deeper origin n log v (h, b) closed e =
      let (u, same, f) = step_view decode_to_slice origin log v e in
      let (left, kept) = leave_deeper n log u h (closed_at u same) in
      let (after, kept') = extract_deeper n log (leave_calls log u) h b left f in
      (after, kept' ∙ kept ∙ same.state_updates)
    where
      closed_at : (u : Walk) → SameView u v → IsClosed n u
      closed_at u same = ground arith

  -- However long a frame that runs by itself goes on, it adds nothing.
  run_deeper :
      (origin : Option ℕ) (n : ℕ) (logs : List StructLog) (v : Walk) {w : Walk}
      → All (λ log. (n < log.depth) × (log.depth < u64_max)) logs
      → IsClosed n v
      → run decode_to_slice origin logs v ≡ ok w
      → IsClosed n w × (w.state_updates ≡ v.state_updates)
  unfolding run
  run_deeper origin n [] v deeper closed e =
      subst (λ w. IsClosed n w × (w.state_updates ≡ v.state_updates)) (ok-injective e)
        (closed, refl)
  run_deeper origin n (log ∷ logs) v (d, deeper) closed e =
      let (u, f, g) = >>=-eq-ok (step decode_to_slice origin log v) _ e in
      let (closed', kept) = step_deeper origin n log v d closed f in
      let (closed'', kept') = run_deeper origin n logs u deeper closed' g in
      (closed'', kept' ∙ kept)

  extract_own :
      (n : ℕ) (us : List StateUpdate) (log : StructLog) (v : Walk) {w : Walk}
      → n < u64_max
      → is_delegate log.op ≡ false
      → (v.target_depth ≡ n) × (v.call_stack ≡ []) × (v.state_updates ≡ us)
      → extract_op decode_to_slice (at n log) v ≡ ok w
      → (own_update decode_to_slice n us log ≡ ok w.state_updates) × IsClosed n w
  extract_own n us log v b d (t, s, k) e = ground arith

  extract_delegate :
      (n : ℕ) (us : List StateUpdate) (log : StructLog) (v : Walk) {w : Walk}
      → n < u64_max
      → is_delegate log.op ≡ true
      → (v.target_depth ≡ n) × (v.call_stack ≡ []) × (v.state_updates ≡ us)
      → extract_op decode_to_slice (at n log) v ≡ ok w
      → (w.state_updates ≡ us) × (w.target_depth ≡ suc n) × (w.call_stack ≡ [])
  extract_delegate n us log v b d (t, s, k) e = ground arith

  -- The logs of a frame that was opened from depth `n` are deeper, and their depths are no
  -- greater than the tree's.
  logs_of-deeper :
      (n m : ℕ) (body : Body)
      → n < m
      → m + height body ≤ u64_max
      → All (λ log. (n < log.depth) × (log.depth < u64_max)) (logs_of m body)
  unfolding logs_of
  logs_of-deeper n m done h b = tt
  logs_of-deeper n m (delegate log sub rest) h b = (
    (h, omega arith),
    All-append _ (logs_of (suc m) sub) (logs_of m rest)
        (logs_of-deeper n (suc m) sub (omega arith) (omega arith))
        (logs_of-deeper n m rest h (omega arith)),
  )
  logs_of-deeper n m (own log sub rest) h b = (
    (h, omega arith),
    All-append _ (logs_of (suc m) sub) (logs_of m rest)
        (logs_of-deeper n (suc m) sub (omega arith) (omega arith))
        (logs_of-deeper n m rest h (omega arith)),
  )

  IsReady-again : (n : ℕ) (w : Walk) → IsClosed n w → IsReady n w
  IsReady-again n w (inl c) = inl c
  IsReady-again n w (inr (t, (i, s))) = ground arith

  IsReady-above : (n : ℕ) (w : Walk) → IsReady (suc n) w → IsReady n w
  IsReady-above n w (inl (t, s)) = ground arith
  IsReady-above n w (inr (t, inl s)) = ground arith
  IsReady-above n w (inr (t, inr (d, i, s, h))) = ground arith

  -- The first log of a scope's next step closes what was left open.
  settle :
      (origin : Option ℕ) (n : ℕ) (us : List StateUpdate) (log : StructLog) (v : Walk) {w : Walk}
      → IsReady n v
      → v.state_updates ≡ us
      → step decode_to_slice origin (at n log) v ≡ ok w
      → (u : Walk) × ((u.target_depth ≡ n) × (u.call_stack ≡ []) × (u.state_updates ≡ us))
        × (extract_op decode_to_slice (at n log) u ≡ ok w)
  settle origin n us log v ready k e =
      let (u, same, f) = step_view decode_to_slice origin (at n log) v e in
      let (t, s, kept) = leave_settles n (at n log) u refl (ready_at u same) in
      (leave_calls (at n log) u, (t, s, kept ∙ same.state_updates ∙ k), f)
    where
      ready_at : (u : Walk) → SameView u v → IsReady n u
      ready_at u same = ground arith

  run_scope :
      (origin : Option ℕ) (n : ℕ) (us : List StateUpdate) (body : Body) (v : Walk) {w : Walk}
      → n + height body ≤ u64_max
      → IsLabelled body
      → IsReady n v
      → v.state_updates ≡ us
      → run decode_to_slice origin (logs_of n body) v ≡ ok w
      → (scope_updates decode_to_slice n us body ≡ ok w.state_updates) × IsReady n w
  unfolding run logs_of scope_updates
  run_scope origin n us done v b l ready k e =
      subst
        (λ u.
          (◌≡◌ {A = Result Failure (List StateUpdate)} (ok us) (ok u.state_updates)) × IsReady n u)
        (ok-injective e) (ap ok (sym k), ready)
  run_scope origin n us (delegate log sub rest) v b (l, ls, lr) ready k e =
      let (v1, f1, g1) = >>=-eq-ok (step decode_to_slice origin (at n log) v) _ e in
      let (v2, f2, g2) =
        run-append decode_to_slice origin (logs_of (suc n) sub) (logs_of n rest) v1 g1 in
      let (u, view, x) = settle origin n us log v ready k f1 in
      let (k1, t1, s1) = extract_delegate n us log u (omega arith) l view x in
      let (spec, ready2) =
        run_scope origin (suc n) us sub v1 (omega arith) ls (inl (t1, s1)) k1 f2 in
      let (spec', ready3) =
        run_scope origin n v2.state_updates rest v2 (omega arith) lr (IsReady-above n v2 ready2)
          refl g2 in
      (rw spec spec', ready3)
  run_scope origin n us (own log sub rest) v b (l, lr) ready k e =
      let (v1, f1, g1) = >>=-eq-ok (step decode_to_slice origin (at n log) v) _ e in
      let (v2, f2, g2) =
        run-append decode_to_slice origin (logs_of (suc n) sub) (logs_of n rest) v1 g1 in
      let (u, view, x) = settle origin n us log v ready k f1 in
      let (o, closed) = extract_own n us log u (omega arith) l view x in
      let (closed2, k2) =
        run_deeper origin n (logs_of (suc n) sub) v1
          (logs_of-deeper n (suc n) sub (omega arith) (omega arith)) closed f2 in
      let (spec', ready3) =
        run_scope origin n v2.state_updates rest v2 (omega arith) lr (IsReady-again n v2 closed2)
          refl g2 in
      (
        ap (λ m. m >>= λ us'. scope_updates decode_to_slice n us' rest) o
            ∙ (ap (λ x. scope_updates decode_to_slice n x rest) (sym k2) ∙ spec'),
        ready3,
      )

  finish-state_updates :
      (refund : ℕ) (w : Walk) {e : TraceExtract}
      → finish decode_to_slice refund w ≡ ok e
      → e.state_updates ≡ w.state_updates
  unfolding finish
  finish-state_updates refund w h = ground arith

  -- Whenever the trace of a tree of frames is accepted, with depths that fit a `u64`, what is
  -- extracted is just the effects of the root's scope, in order: its own stores, logs, creates
  -- and calls, and those of the frames it delegates to, and nothing from inside the frame of a
  -- call, a static call or a create.
  pub compute_state_updates-scope_updates :
      (trace : DefaultFrame) (origin : Option ℕ) (body : Body) {e : TraceExtract}
      → trace.struct_logs ≡ logs_of 1 body
      → 1 + height body ≤ u64_max
      → IsLabelled body
      → compute_state_updates decode_to_slice trace origin ≡ ok e
      → scope_updates decode_to_slice 1 [] body ≡ ok e.state_updates
  unfolding compute_state_updates start
  compute_state_updates-scope_updates trace origin body t b l h =
      let (w, f, g) = >>=-eq-ok (run decode_to_slice origin trace.struct_logs start) _ h in
      let ran : run decode_to_slice origin (logs_of 1 body) start ≡ ok w = rw (← t) f in
      let (spec, _) = run_scope origin 1 [] body start b l (inl (refl, refl)) refl ran in
      spec ∙ ap ok (sym (finish-state_updates _ w g))
