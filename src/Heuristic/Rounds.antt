-- ===== src/Heuristic/Rounds.antt =====
-- What the counts say of a trace whose frames are opened by calls
-- (crates/core/src/heuristic.rs, `extract_operation_counts_from_trace`).
use gas_analyzer.Heuristic.{TraceOperations}
use gas_analyzer.Heuristic.Operations.{
  Scan, is_call, add_external, cross, is_delegate_family, track_call, track_delegate,
  track_inner_call, count_op, count_counted, scan_log, scan_logs, refund_of, fresh_scan, close_scan,
  extract_operation_counts_from_trace,
}
use gas_analyzer.Evm.{StructLog, DefaultFrame, Op}
use gas_analyzer.Prelude.Assoc.{lookup, lookup-insert, lookup-remove}
use gas_analyzer.Prelude.{
  ℕ, ◌-◌, ◌≤◌, ◌≡◌, refl, sym, ap, ◌∙◌, subst, Bool, true, false, ◌&&◌, Option, none, some, List,
  [], ◌∷◌, ◌++◌, arith, ◌==◌, last?, All,
}

abbrev at : ℕ → StructLog → StructLog
at n log = record log { depth = n }

-- A trace by its steps at depth 1: each one alone, or a call with the steps of its callee, of which
-- the first is at depth 2.
pub data Rounds : Type 0 where
  done : Rounds
  plain : StructLog → Rounds → Rounds
  external : StructLog → StructLog → List StructLog → Rounds → Rounds

unfoldable pub logs_of : Rounds → List StructLog
logs_of done = []
logs_of (plain log rest) = at 1 log ∷ logs_of rest
logs_of (external log first inner rest) = at 1 log ∷ at 2 first ∷ (inner ++ logs_of rest)

abbrev pub last_depth : ℕ → List StructLog → ℕ
last_depth depth [] = depth
last_depth depth (log ∷ logs) = last_depth log.depth logs

-- The gas at the step after a callee.
abbrev pub gas_after : Rounds → ℕ
gas_after done = 0
gas_after (plain log rest) = log.gas
gas_after (external log first inner rest) = log.gas

abbrev pub is_over : Rounds → Bool
is_over done = true
is_over _ = false

-- Delegates open no frame, a frame is opened by a call, and the callee returns from depth 2 to a
-- further step.
abbrev pub IsCalls : Rounds → Type 0
IsCalls done = Unit
IsCalls (plain log rest) = (is_delegate_family log.op ≡ false) × IsCalls rest
IsCalls (external log first inner rest) =
    (log.op ≡ Op.call)
    × All (λ l. 2 ≤ l.depth) inner
    × (last_depth 2 inner ≡ 2)
    × (is_over rest ≡ false)
    × IsCalls rest

-- The steps at depth 1 counted in order, and each callee charged the gas between its call and the
-- step after it.
unfoldable pub count_rounds : Rounds → TraceOperations → TraceOperations
count_rounds done ops = ops
count_rounds (plain log rest) ops = count_rounds rest (count_op log.op log ops)
count_rounds (external log first inner rest) ops =
    count_rounds rest (add_external (log.gas - gas_after rest) ops)

scan_logs-append :
    (xs ys : List StructLog) (s : Scan) → scan_logs (xs ++ ys) s ≡ scan_logs ys (scan_logs xs s)
unfolding scan_logs
scan_logs-append [] ys s = refl
scan_logs-append (x ∷ xs) ys s = scan_logs-append xs ys (scan_log x s)

-- Outside every callee.
record Outside (ops : TraceOperations) (s : Scan) : Type 0 where
  operations : s.operations ≡ ops
  not_external : s.in_external_call ≡ false
  no_type : lookup 2 s.call_type_at_depth ≡ none

-- Inside the callee of a call with so much gas.
record Inside (ops : TraceOperations) (gas : ℕ) (s : Scan) : Type 0 where
  operations : s.operations ≡ ops
  external_call : s.in_external_call ≡ true
  gas_known : s.gas_after_call_opcode ≡ some gas
  call_type : lookup 2 s.call_type_at_depth ≡ some Op.call

-- The step at depth 1 after `cross`.
count_top :
    (log : StructLog) (s : Scan) (ops : TraceOperations)
    → is_delegate_family log.op ≡ false
    → Outside ops (cross (at 1 log) s)
    → Outside (count_op log.op log ops) (scan_log (at 1 log) s)
unfolding scan_log
count_top log s ops not_delegate o = ground (arith, not_delegate, o)

&&-false : (b : Bool) → (b && false) ≡ false
&&-false true = refl
&&-false false = refl

-- A step below depth 1 that is entered from below depth 1 changes nothing but the depth.
module _ (log : StructLog) (s : Scan) (below : (log.depth == 1) ≡ false) where
  cross-below : (s.previous_depth == 1) ≡ false → cross log s ≡ s
  cross-below before = rw (below, before, &&-false (log.depth == 2)) refl

  track_call-below : track_call log s ≡ s
  track_call-below = rw (below, &&-false (is_call log.op)) refl

  track_delegate-below : track_delegate log s ≡ s
  track_delegate-below = rw (below, &&-false (is_delegate_family log.op)) refl

  module _ (in_call : lookup 2 s.call_type_at_depth ≡ some Op.call) where
    track_inner_call-below : track_inner_call log s ≡ s
    track_inner_call-below = rw (in_call, &&-false (is_call log.op && (log.depth == 2))) refl

    count_counted-below : count_counted log s ≡ s
    count_counted-below = rw (below, in_call, &&-false (log.depth == 2)) refl

inner_step :
    (log : StructLog) (s : Scan) (ops : TraceOperations) (gas : ℕ)
    → 2 ≤ log.depth
    → 2 ≤ s.previous_depth
    → Inside ops gas s
    → Inside ops gas (scan_log log s)
unfolding scan_log
inner_step log s ops gas d p i =
    let below : (log.depth == 1) ≡ false = ground arith in
    let before : (s.previous_depth == 1) ≡ false = ground arith in
    subst (λ t. Inside ops gas (record t { previous_depth = log.depth }))
      (sym (
        ap (λ t. count_counted log (track_inner_call log (track_delegate log (track_call log t))))
          (cross-below log s below before)
        ∙ (ap (λ t. count_counted log (track_inner_call log (track_delegate log t)))
              (track_call-below log s below)
            ∙ (ap (λ t. count_counted log (track_inner_call log t))
                  (track_delegate-below log s below)
                ∙ (ap (count_counted log) (track_inner_call-below log s below i.call_type)
                    ∙ count_counted-below log s below i.call_type)))))
      (record {
        operations = i.operations;
        external_call = i.external_call;
        gas_known = i.gas_known;
        call_type = i.call_type;
      })

cross_stay :
    (log : StructLog) (s : Scan) (ops : TraceOperations)
    → (s.previous_depth == 2) ≡ false
    → Outside ops s
    → Outside ops (cross (at 1 log) s)
cross_stay log s ops p o = ground (arith, p, o)

cross_return :
    (log : StructLog) (s : Scan) (ops : TraceOperations) (gas : ℕ)
    → s.previous_depth ≡ 2
    → Inside ops gas s
    → Outside (add_external (gas - log.gas) ops) (cross (at 1 log) s)
cross_return log s ops gas p i = ground (arith, p, i, lookup-remove 2 2 s.call_type_at_depth)

enter_step :
    (first : StructLog) (s : Scan) (ops : TraceOperations) (gas : ℕ)
    → s.previous_depth ≡ 1
    → s.current_call_type ≡ some Op.call
    → s.gas_after_call_opcode ≡ some gas
    → Outside ops s
    → Inside ops gas (scan_log (at 2 first) s)
unfolding scan_log
enter_step first s ops gas p c g o =
    ground (arith, p, c, g, o, lookup-insert 2 2 Op.call s.call_type_at_depth)

previous_depth_lem : (log : StructLog) (s : Scan) → (scan_log log s).previous_depth ≡ log.depth
unfolding scan_log
previous_depth_lem log s = refl

call_top :
    (log : StructLog) (s : Scan)
    → log.op ≡ Op.call
    → ((scan_log (at 1 log) s).current_call_type ≡ some Op.call)
      × ((scan_log (at 1 log) s).gas_after_call_opcode ≡ some log.gas)
unfolding scan_log
call_top log s e = ground (arith, e)

inner_steps :
    (inner : List StructLog) (s : Scan) (ops : TraceOperations) (gas : ℕ)
    → All (λ l. 2 ≤ l.depth) inner
    → 2 ≤ s.previous_depth
    → Inside ops gas s
    → Inside ops gas (scan_logs inner s)
      × ((scan_logs inner s).previous_depth ≡ last_depth s.previous_depth inner)
unfolding scan_logs scan_log
inner_steps [] s ops gas d p i = (i, refl)
inner_steps (log ∷ inner) s ops gas (d, ds) p i =
    inner_steps inner (scan_log log s) ops gas ds d (inner_step log s ops gas d p i)

call_round :
    (log first : StructLog) (inner : List StructLog) (s : Scan) (ops : TraceOperations)
    → log.op ≡ Op.call
    → All (λ l. 2 ≤ l.depth) inner
    → last_depth 2 inner ≡ 2
    → Outside ops (cross (at 1 log) s)
    → let s' = scan_logs inner (scan_log (at 2 first) (scan_log (at 1 log) s)) in
      Inside ops log.gas s' × (s'.previous_depth ≡ 2)
call_round log first inner s ops e d l o =
    let s1 = scan_log (at 1 log) s in
    let s2 = scan_log (at 2 first) s1 in
    let counted : Outside (count_op log.op log ops) s1 =
      count_top log s ops (ap is_delegate_family e) o in
    let here : Outside ops s1 = subst (λ op. Outside (count_op op log ops) s1) e counted in
    let inside : Inside ops log.gas s2 =
      enter_step first s1 ops log.gas (previous_depth_lem (at 1 log) s) (call_top log s e).0
        (call_top log s e).1 here in
    let entered = previous_depth_lem (at 2 first) s1 in
    let (still, last) = inner_steps inner s2 ops log.gas d (omega (arith, entered)) inside in
    (still, last ∙ (ap (λ n. last_depth n inner) entered ∙ l))

scan_rounds :
    (r : Rounds) (s : Scan) (ops : TraceOperations)
    → IsCalls r
    → (is_over r ≡ true → Outside ops s)
    → ((log : StructLog) → log.gas ≡ gas_after r → Outside ops (cross (at 1 log) s))
    → ((scan_logs (logs_of r) s).operations ≡ count_rounds r ops)
      × ((scan_logs (logs_of r) s).in_external_call ≡ false)
unfolding scan_logs logs_of count_rounds
scan_rounds done s ops c over go = ((over refl).operations, (over refl).not_external)
scan_rounds (plain log rest) s ops (n, c) over go =
    let s' = scan_log (at 1 log) s in
    let o : Outside (count_op log.op log ops) s' = count_top log s ops n (go log refl) in
    scan_rounds rest s' (count_op log.op log ops) c (λ _. o)
      (λ l _.
        cross_stay l s' (count_op log.op log ops)
          (ap (λ d. d == 2) (previous_depth_lem (at 1 log) s)) o)
scan_rounds (external log first inner rest) s ops (e, d, l, more, c) over go =
    let s' = scan_logs inner (scan_log (at 2 first) (scan_log (at 1 log) s)) in
    let (inside, depth) = call_round log first inner s ops e d l (go log refl) in
    rw (scan_logs-append inner (logs_of rest) (scan_log (at 2 first) (scan_log (at 1 log) s))) (
      scan_rounds rest s' (add_external (log.gas - gas_after rest) ops) c
        (λ h. ground (arith, h, more))
        (λ l' h.
          subst (λ g. Outside (add_external (log.gas - g) ops) (cross (at 1 l') s')) h
            (cross_return l' s' ops log.gas depth inside)))

close_scan-outside :
    (last_log : Option StructLog) (s : Scan)
    → s.in_external_call ≡ false
    → close_scan last_log s ≡ s.operations
close_scan-outside none s h = refl
close_scan-outside (some log) s h = rw h

none_yet : ◌≡◌ {A = Option Op} (lookup 2 []) none
unfolding lookup
none_yet = refl

-- In a trace whose frames are all opened by calls from depth 1, the steps at depth 1 are counted and
-- no other, each callee is charged the gas between its call and the step after it, and the refund is
-- that of the last step. So the counts do depend on depth, contrary to the function's own comment,
-- which has it count all operations regardless of depth.
pub extract_operation_counts_from_trace-count_rounds :
    (trace : DefaultFrame) (r : Rounds)
    → trace.struct_logs ≡ logs_of r
    → IsCalls r
    → extract_operation_counts_from_trace trace
      ≡ count_rounds r (fresh_scan (refund_of (last? trace.struct_logs))).operations
unfolding extract_operation_counts_from_trace
extract_operation_counts_from_trace-count_rounds trace r t c =
    let last_log = last? trace.struct_logs in
    let s = fresh_scan (refund_of last_log) in
    let outside : Outside s.operations s = record {
      operations = refl;
      not_external = refl;
      no_type = none_yet;
    } in
    let (counted, out) =
      scan_rounds r s s.operations c (λ _. outside)
        (λ l _. cross_stay l s s.operations refl outside) in
    let ran : scan_logs trace.struct_logs s ≡ scan_logs (logs_of r) s =
      ap (λ ls. scan_logs ls s) t in
    ap (close_scan last_log) ran
    ∙ (close_scan-outside last_log (scan_logs (logs_of r) s) out ∙ counted)
