-- ===== src/Prestate/Complete.antt =====
-- Every call that can have a net form is admitted (crates/core/src/prestate.rs,
-- `classify_prestate_eligibility`).
use gas_analyzer.Prestate.{
  or_else, frame_failure, verdict, decide_frame, scan_target_depth, scan_calls, storage_of,
  slot_value, union_keys, any_slot_changed, account_storage_changed, scan_accounts, wrong_target,
  failed, classify_prestate_eligibility, is_transparent, Reason, eligible, fallback,
}
use gas_analyzer.Prestate.Eligible.{
  OnlyConsumerChanges, IsNet, net, AreNet, nothing, static, delegate,
}
use gas_analyzer.CallTracer.{
  Header, DiffMode, Storage, header, FrameType, CallFrame, frame, CallFrames, no_frames, add_frame,
}
use gas_analyzer.Prelude.{
  ℕ, ◌≡◌, refl, ap, ◌∙◌, ◌⊎◌, inl, inr, true, false, Option, none, some, List, [], ◌∷◌, arith, ◌==◌,
  ==_refl, Bool-cases,
}

transparent-enter :
    (h : Header) (t : FrameType) (inside rest : Option Reason)
    → is_transparent t ≡ true
    → decide_frame (verdict h t) inside rest ≡ or_else inside rest
transparent-enter h FrameType.delegatecall inside rest e = refl
transparent-enter h FrameType.callcode inside rest e = refl
transparent-enter h FrameType.call inside rest e = ground arith
transparent-enter h FrameType.create inside rest e = ground arith
transparent-enter h FrameType.create2 inside rest e = ground arith
transparent-enter h FrameType.selfdestruct inside rest e = ground arith
transparent-enter h FrameType.staticcall inside rest e = ground arith
transparent-enter h (FrameType.other t) inside rest e = ground arith

mutual
  unfolding scan_target_depth

  IsNet-scan_target_depth : (f : CallFrame) → IsNet f → scan_target_depth f ≡ none
  IsNet-scan_target_depth (frame h calls) (net inner) = AreNet-scan_calls calls inner

  AreNet-scan_calls : (calls : CallFrames) → AreNet calls → scan_calls calls ≡ none
  AreNet-scan_calls no_frames nothing = refl
  AreNet-scan_calls (add_frame c rest) (static e after) = rw e (AreNet-scan_calls rest after)
  AreNet-scan_calls (add_frame c rest) (delegate e inner after) =
      transparent-enter (header c) (header c).typ (scan_target_depth c) (scan_calls rest) e
      ∙ rw (IsNet-scan_target_depth c inner) (AreNet-scan_calls rest after)

unchanged :
    (pre post : Storage) (keys : List ℕ)
    → ((k : ℕ) → slot_value pre k ≡ slot_value post k)
    → any_slot_changed pre post keys ≡ false
unfolding any_slot_changed
unchanged pre post [] h = refl
unchanged pre post (k ∷ keys) h = ground (arith, h k, unchanged pre post keys h)

scan_accounts_complete :
    (diff : DiffMode) (consumer : ℕ) (accounts : List ℕ)
    → OnlyConsumerChanges diff consumer
    → scan_accounts diff consumer accounts ≡ none
unfolding scan_accounts account_storage_changed
scan_accounts_complete diff consumer [] only = refl
scan_accounts_complete diff consumer (a ∷ accounts) only = elim (Bool-cases (a == consumer)) [
  | inl e ↦ rw e (scan_accounts_complete diff consumer accounts only)
  | inr e ↦
      let pre = storage_of a diff.pre in
      let post = storage_of a diff.post in
      rw (e, unchanged pre post (union_keys pre post) (λ k. only a k e))
        (scan_accounts_complete diff consumer accounts only)
]

right_target :
    (to : Option ℕ) (consumer : ℕ)
    → (to ≡ none) ⊎ (to ≡ some consumer)
    → wrong_target to consumer ≡ none
right_target to consumer (inl e) = rw e
right_target to consumer (inr e) = rw (e, ==_refl consumer)

all_clear :
    (target failure accounts calls : Option Reason)
    → target ≡ none
    → failure ≡ none
    → accounts ≡ none
    → calls ≡ none
    → elim (or_else target (or_else failure (or_else accounts calls))) [
      | none ↦ eligible
      | some r ↦ fallback r
    ]
      ≡ eligible
all_clear target failure accounts calls a b c d = rw (a, b, c, d) refl

-- A call of the consumer that did not fail, changed no other account's storage, and at target depth
-- made no sub-call but static ones and delegates is classified as eligible.
pub classify_prestate_eligibility_complete :
    (f : CallFrame) (diff : DiffMode) (consumer : ℕ)
    → ((header f).to ≡ none) ⊎ ((header f).to ≡ some consumer)
    → frame_failure (header f) ≡ none
    → OnlyConsumerChanges diff consumer
    → IsNet f
    → classify_prestate_eligibility f diff consumer ≡ eligible
unfolding classify_prestate_eligibility
classify_prestate_eligibility_complete f diff consumer to ran only calls =
    all_clear _ _ _ _ (right_target (header f).to consumer to) (ap failed ran)
      (scan_accounts_complete diff consumer (union_keys diff.pre diff.post) only)
      (IsNet-scan_target_depth f calls)
