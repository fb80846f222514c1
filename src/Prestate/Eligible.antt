-- ===== src/Prestate/Eligible.antt =====
-- Which calls have a net form: what `classify_prestate_eligibility` admits.
use gas_analyzer.Prestate.{
  or_else, frame_failure, verdict, decide_frame, scan_target_depth, scan_calls, storage_of,
  slot_value, union_keys, any_slot_changed, account_storage_changed, scan_accounts, wrong_target,
  failed, classify_prestate_eligibility, is_transparent, Reason, eligible, fallback,
}
use gas_analyzer.CallTracer.{
  Header, DiffMode, Storage, header, FrameType, CallFrame, frame, CallFrames, no_frames, add_frame,
}
use gas_analyzer.Prelude.Sort.{contains}
use gas_analyzer.Prestate.Net.{contains-union_keys}
use gas_analyzer.Prelude.{
  ℕ, ◌≡◌, refl, ap, ◌⊎◌, inl, inr, true, false, Option, none, some, List, [], ◌∷◌, arith, ◌==◌,
  Bool-cases,
}

-- A frame whose sub-frames at target depth are static calls, or delegates of the same kind.
mutual
  pub data IsNet : CallFrame → Type 0 where
    net : {h : Header} → {calls : CallFrames} → AreNet calls → IsNet (frame h calls)

  pub data AreNet : CallFrames → Type 0 where
    nothing : AreNet no_frames
    static :
        {c : CallFrame}
        → {rest : CallFrames} → (header c).typ ≡ FrameType.staticcall
        → AreNet rest
        → AreNet (add_frame c rest)
    delegate :
        {c : CallFrame}
        → {rest : CallFrames} → is_transparent (header c).typ ≡ true
        → IsNet c
        → AreNet rest
        → AreNet (add_frame c rest)

or_else-none {ℓ} : {A : Type ℓ} (a b : Option A) → or_else a b ≡ none → (a ≡ none) × (b ≡ none)
or_else-none none b e = (refl, e)
or_else-none (some a) b e = ground arith

module _ (c : CallFrame) (rest : CallFrames) where
  by_type :
      (t : FrameType)
      → (header c).typ ≡ t
      → (scan_target_depth c ≡ none → IsNet c)
      → (scan_calls rest ≡ none → AreNet rest)
      → decide_frame (verdict (header c) t) (scan_target_depth c) (scan_calls rest) ≡ none
      → AreNet (add_frame c rest)
  by_type FrameType.staticcall e inside after h = static e (after h)
  by_type FrameType.delegatecall e inside after h =
      let both = or_else-none (scan_target_depth c) (scan_calls rest) h in
      delegate (ap is_transparent e) (inside both.0) (after both.1)
  by_type FrameType.callcode e inside after h =
      let both = or_else-none (scan_target_depth c) (scan_calls rest) h in
      delegate (ap is_transparent e) (inside both.0) (after both.1)
  by_type FrameType.call e inside after h = ground arith
  by_type FrameType.create e inside after h = ground arith
  by_type FrameType.create2 e inside after h = ground arith
  by_type FrameType.selfdestruct e inside after h = ground arith
  by_type (FrameType.other t) e inside after h = ground arith

mutual
  unfolding scan_target_depth

  scan_target_depth-IsNet : (f : CallFrame) → scan_target_depth f ≡ none → IsNet f
  scan_target_depth-IsNet (frame h calls) e = net (scan_calls-AreNet calls e)

  scan_calls-AreNet : (calls : CallFrames) → scan_calls calls ≡ none → AreNet calls
  scan_calls-AreNet no_frames e = nothing
  scan_calls-AreNet (add_frame c rest) e =
      by_type c rest (header c).typ refl (scan_target_depth-IsNet c) (scan_calls-AreNet rest) e

any_slot_changed-false :
    (pre post : Storage) (keys : List ℕ) (k : ℕ)
    → any_slot_changed pre post keys ≡ false
    → contains k keys ≡ true
    → slot_value pre k ≡ slot_value post k
unfolding any_slot_changed
any_slot_changed-false pre post [] k e c = cc
any_slot_changed-false pre post (j ∷ keys) k e c =
    ground (arith, any_slot_changed-false pre post keys k)

account_storage_changed-false :
    (diff : DiffMode) (a k : ℕ)
    → account_storage_changed diff a ≡ false
    → slot_value (storage_of a diff.pre) k ≡ slot_value (storage_of a diff.post) k
unfolding account_storage_changed
account_storage_changed-false diff a k e = elim (Bool-cases (contains k (union_keys pre post))) [
  | inl c ↦ any_slot_changed-false pre post (union_keys pre post) k e c
  | inr c ↦ ground (arith, contains-union_keys k pre post)
]
  where
    pre : Storage
    pre = storage_of a diff.pre

    post : Storage
    post = storage_of a diff.post

scan_accounts-none :
    (diff : DiffMode) (consumer : ℕ) (accounts : List ℕ) (a : ℕ)
    → scan_accounts diff consumer accounts ≡ none
    → contains a accounts ≡ true
    → (a == consumer) ≡ false
    → account_storage_changed diff a ≡ false
unfolding scan_accounts
scan_accounts-none diff consumer [] a e c other = cc
scan_accounts-none diff consumer (b ∷ accounts) a e c other =
    ground (arith, scan_accounts-none diff consumer accounts a)

-- No account but the consumer has a slot whose value changed.
abbrev pub OnlyConsumerChanges : DiffMode → ℕ → Type 0
OnlyConsumerChanges diff consumer =
    (a k : ℕ)
    → (a == consumer) ≡ false
    → slot_value (storage_of a diff.pre) k ≡ slot_value (storage_of a diff.post) k

scan_accounts_sound :
    (diff : DiffMode) (consumer : ℕ)
    → scan_accounts diff consumer (union_keys diff.pre diff.post) ≡ none
    → OnlyConsumerChanges diff consumer
scan_accounts_sound diff consumer e a k other =
    elim (Bool-cases (contains a (union_keys diff.pre diff.post))) [
      | inl c ↦
          account_storage_changed-false diff a k
            (scan_accounts-none diff consumer (union_keys diff.pre diff.post) a e c other)
      | inr c ↦ ground (arith, contains-union_keys a diff.pre diff.post)
    ]

wrong_target-none :
    (to : Option ℕ) (consumer : ℕ)
    → wrong_target to consumer ≡ none
    → (to ≡ none) ⊎ (to ≡ some consumer)
wrong_target-none none consumer e = inl refl
wrong_target-none (some to) consumer e = ground arith

failed-none : (failure : Option ℕ) → failed failure ≡ none → failure ≡ none
failed-none none e = refl
failed-none (some reason) e = ground arith

classified :
    (reason : Option Reason)
    → elim reason [ none ↦ eligible | some r ↦ fallback r ] ≡ eligible
    → reason ≡ none
classified none e = refl
classified (some r) e = ground arith

-- A call that is classified as eligible is of the consumer (where the frame names a target), did
-- not fail, changed no other account's storage, and at target depth made no sub-call but static
-- ones and delegates.
pub classify_prestate_eligibility_sound :
    (f : CallFrame) (diff : DiffMode) (consumer : ℕ)
    → classify_prestate_eligibility f diff consumer ≡ eligible
    → (((header f).to ≡ none) ⊎ ((header f).to ≡ some consumer))
      × (frame_failure (header f) ≡ none)
      × OnlyConsumerChanges diff consumer
      × IsNet f
unfolding classify_prestate_eligibility
classify_prestate_eligibility_sound f diff consumer e =
    let a = or_else-none _ _ (classified _ e) in
    let b = or_else-none _ _ a.1 in
    let c = or_else-none _ _ b.1 in
    (
      wrong_target-none (header f).to consumer a.0,
      failed-none (frame_failure (header f)) b.0,
      scan_accounts_sound diff consumer c.0,
      scan_target_depth-IsNet f c.1,
    )
