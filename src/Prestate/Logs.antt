-- ===== src/Prestate/Logs.antt =====
-- The logs of the net form.
use mathlib.Core.List.{Perm, append_assoc, append-nil}
use mathlib.Core.List.Perm
use gas_analyzer.Prestate.{
  or_else, position_key, index_key, has_index, logs_upto, logs_after, is_transparent,
  collect_target_depth_logs, collect_calls, ordered_target_depth_logs,
}
use gas_analyzer.CallTracer.{
  CallLog, header, FrameType, CallFrame, frame, CallFrames, no_frames, add_frame,
}
use gas_analyzer.Prelude.Sort.{sort_by_key, sort_by_key-perm, KeysFrom, sort_by_key-KeysFrom}
use gas_analyzer.Prelude.{
  ℕ, ◌+◌, ◌≡◌, refl, sym, ap, ◌∙◌, subst, inl, inr, Bool, true, false, not, ◌&&◌, Option, none,
  some, List, [], ◌∷◌, ◌++◌, append-nil, append_assoc, arith, ltb, leb, if◌then◌else◌, Bool-cases,
  is_some, length, all,
}

-- What a sub-call's logs are for its caller: the caller's own where it is a delegate that has neither
-- an error nor a reason for a revert, and none otherwise.
abbrev pub shared_logs : FrameType → Option ℕ → Option ℕ → List CallLog → List CallLog
shared_logs FrameType.delegatecall none none logs = logs
shared_logs FrameType.callcode none none logs = logs
shared_logs typ error revert_reason logs = []

-- What is logged in a frame's own scope: its logs, and those of the delegates that did not fail.
unfoldable mutual
  pub scope_logs : CallFrame → List CallLog
  scope_logs (frame h calls) = h.logs ++ calls_logs calls

  pub calls_logs : CallFrames → List CallLog
  calls_logs no_frames = []
  calls_logs (add_frame c rest) =
      shared_logs (header c).typ (header c).error (header c).revert_reason (scope_logs c)
      ++ calls_logs rest

logs_upto-logs_after : (i : ℕ) (logs : List CallLog) → logs_upto i logs ++ logs_after i logs ≡ logs
unfolding logs_upto logs_after
logs_upto-logs_after i [] = refl
logs_upto-logs_after i (log ∷ logs) = elim (Bool-cases (leb (position_key log) i)) [
  | inl e ↦ rw e (ap (◌∷◌ log) (logs_upto-logs_after i logs))
  | inr e ↦ rw e
]

perm_of_eq {ℓ} : {A : Type ℓ} {xs ys : List A} → xs ≡ ys → Perm xs ys
perm_of_eq {xs} e = subst (Perm xs) e (Perm.refl xs)

to_middle {ℓ} :
    {A : Type ℓ} (x : A) (before after : List A)
    → Perm (x ∷ (before ++ after)) (before ++ (x ∷ after))
to_middle x [] after = Perm.refl _
to_middle x (y ∷ before) after =
    Perm.trans (Perm.swap y x (before ++ after)) (Perm.cons y (to_middle x before after))

-- Two stretches that follow in either order.
swap_stretches {ℓ} :
    {A : Type ℓ} (inside after rest : List A)
    → Perm (inside ++ (after ++ rest)) (after ++ (inside ++ rest))
swap_stretches [] after rest = Perm.refl _
swap_stretches (x ∷ inside) after rest =
    Perm.trans (Perm.cons x (swap_stretches inside after rest)) (to_middle x after (inside ++ rest))

-- The logs before and after a sub-call, around the sub-call's own.
around :
    (i : ℕ) (logs inside rest : List CallLog)
    → Perm (logs_upto i logs ++ (inside ++ (logs_after i logs ++ rest))) (logs ++ (inside ++ rest))
around i logs inside rest =
    Perm.trans
      (Perm.append_left (logs_upto i logs) (swap_stretches inside (logs_after i logs) rest))
      (perm_of_eq (
        sym (append_assoc (logs_upto i logs) (logs_after i logs) (inside ++ rest))
        ∙ ap (λ ls. ls ++ (inside ++ rest)) (logs_upto-logs_after i logs)))

-- A sub-call is entered where its logs are its caller's.
entered :
    (typ : FrameType) (error revert_reason : Option ℕ) (xs ys : List CallLog)
    → Perm xs ys
    → Perm
        (if is_transparent typ && not (is_some (or_else error revert_reason)) then xs else [])
        (shared_logs typ error revert_reason ys)
entered FrameType.delegatecall none none xs ys p = p
entered FrameType.delegatecall none (some r) xs ys p = Perm.refl []
entered FrameType.delegatecall (some e) r xs ys p = Perm.refl []
entered FrameType.callcode none none xs ys p = p
entered FrameType.callcode none (some r) xs ys p = Perm.refl []
entered FrameType.callcode (some e) r xs ys p = Perm.refl []
entered FrameType.call e r xs ys p = Perm.refl []
entered FrameType.create e r xs ys p = Perm.refl []
entered FrameType.create2 e r xs ys p = Perm.refl []
entered FrameType.selfdestruct e r xs ys p = Perm.refl []
entered FrameType.staticcall e r xs ys p = Perm.refl []
entered (FrameType.other n) e r xs ys p = Perm.refl []

mutual
  unfolding collect_target_depth_logs scope_logs

  pub collect_target_depth_logs-perm :
      (f : CallFrame) → Perm (collect_target_depth_logs f) (scope_logs f)
  collect_target_depth_logs-perm (frame h calls) =
      Perm.trans (collect_calls-perm calls 0 (sort_by_key position_key h.logs))
        (Perm.append_right (calls_logs calls) (sort_by_key-perm position_key h.logs))

  pub collect_calls-perm :
      (calls : CallFrames) (i : ℕ) (logs : List CallLog)
      → Perm (collect_calls calls i logs) (logs ++ calls_logs calls)
  collect_calls-perm no_frames i logs = perm_of_eq (sym (append-nil logs))
  collect_calls-perm (add_frame c rest) i logs =
      Perm.trans
        (Perm.append_left (logs_upto i logs) (
          Perm.append
            (entered (header c).typ (header c).error (header c).revert_reason _ _
              (collect_target_depth_logs-perm c))
            (collect_calls-perm rest (i + 1) (logs_after i logs))))
        (around i logs _ (calls_logs rest))

-- The logs of the net form are exactly the logs of the frame's scope: its own, and those of its
-- delegate calls that have neither an error nor a reason for a revert, and of theirs.
pub ordered_target_depth_logs-perm :
    (f : CallFrame) → Perm (ordered_target_depth_logs f) (scope_logs f)
unfolding ordered_target_depth_logs
ordered_target_depth_logs-perm f =
    Perm.trans (sorted (ltb 1 (length logs) && all has_index logs))
      (collect_target_depth_logs-perm f)
  where
    logs : List CallLog
    logs = collect_target_depth_logs f

    sorted : (b : Bool) → Perm (if b then sort_by_key index_key logs else logs) logs
    sorted true = sort_by_key-perm index_key logs
    sorted false = Perm.refl _

-- The list that the code sorts, if it has more than one log.
by_index :
    (logs : List CallLog)
    → KeysFrom index_key 0
        (if ltb 1 (length logs) && true then sort_by_key index_key logs else logs)
by_index [] = tt
by_index (log ∷ []) = (omega arith, tt)
by_index (log ∷ next ∷ logs) =
    let many : ltb 1 (length (log ∷ next ∷ logs)) ≡ true = ground arith in
    rw many (sort_by_key-KeysFrom index_key (log ∷ next ∷ logs))

-- Where each collected log carries its index, the net form's logs stand in the order of indices.
pub ordered_target_depth_logs-KeysFrom :
    (f : CallFrame)
    → all has_index (collect_target_depth_logs f) ≡ true
    → KeysFrom index_key 0 (ordered_target_depth_logs f)
unfolding ordered_target_depth_logs
ordered_target_depth_logs-KeysFrom f e = rw e (by_index (collect_target_depth_logs f))
