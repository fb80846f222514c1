-- ===== src/Prestate.antt =====
-- The net form of a program (crates/core/src/prestate.rs).
pub mod Net
pub mod Eligible
pub mod Complete
pub mod Logs
pub mod Tests
use gas_analyzer.CallTracer.{
  CallLog, Header, DiffMode, Storage, header, FrameType, CallFrame, frame, CallFrames, no_frames,
  add_frame,
}
use gas_analyzer.Prelude.Assoc.{lookup}
use gas_analyzer.Prelude.Sort.{insert_key, sort_by_key}
use gas_analyzer.Prelude.{
  ℕ, suc, ◌+◌, Bool, true, false, not, ◌&&◌, ◌||◌, Option, none, some, List, [], ◌∷◌, ◌++◌, map,
  ltb, leb, ◌==◌, if◌then◌else◌, is_some, length, all,
}
use gas_analyzer.Prelude.Bytes.{Bytes}
use gas_analyzer.Types.{StateUpdate, store, log0, log1, log2, log3, log4}

-- `a.or(b)`
abbrev pub or_else {ℓ} : {A : Type ℓ} → Option A → Option A → Option A
or_else none b = b
or_else (some a) b = some a

abbrev pub frame_failure : Header → Option ℕ
frame_failure h = or_else h.error h.revert_reason

-- Why a call has no net form.
pub data Reason : Type 0 where
  targets_other : ℕ → ℕ → Reason
  reverted : ℕ → Reason
  other_storage_changed : ℕ → Reason
  regular_call : Option ℕ → Reason
  creation : FrameType → Reason
  self_destruct : Reason
  unhandled : FrameType → Reason

pub data PrestateEligibility : Type 0 where
  eligible : PrestateEligibility
  fallback : Reason → PrestateEligibility

-- What a sub-frame of the target-depth context says by its type alone: a reason, to look into its
-- own sub-frames, or nothing.
pub data Verdict : Type 0 where
  stop : Reason → Verdict
  enter : Verdict
  pass : Verdict

abbrev pub verdict : Header → FrameType → Verdict
verdict h FrameType.call = stop (regular_call h.to)
verdict h FrameType.create = stop (creation FrameType.create)
verdict h FrameType.create2 = stop (creation FrameType.create2)
verdict h FrameType.selfdestruct = stop self_destruct
verdict h FrameType.delegatecall = enter
verdict h FrameType.callcode = enter
verdict h FrameType.staticcall = pass
verdict h (FrameType.other t) = stop (unhandled (FrameType.other t))

abbrev pub decide_frame : Verdict → Option Reason → Option Reason → Option Reason
decide_frame (stop reason) inside rest = some reason
decide_frame enter inside rest = or_else inside rest
decide_frame pass inside rest = rest

unfoldable mutual
  pub scan_target_depth : CallFrame → Option Reason
  scan_target_depth (frame h calls) = scan_calls calls

  pub scan_calls : CallFrames → Option Reason
  scan_calls no_frames = none
  scan_calls (add_frame c rest) =
      decide_frame (verdict (header c) (header c).typ) (scan_target_depth c) (scan_calls rest)

abbrev pub storage_of : ℕ → List (ℕ × Storage) → Storage
storage_of addr accounts = elim (lookup addr accounts) [ none ↦ [] | some storage ↦ storage ]

-- A slot that is not there is zero.
abbrev pub slot_value : Storage → ℕ → ℕ
slot_value storage k = elim (lookup k storage) [ none ↦ 0 | some v ↦ v ]

-- `BTreeSet::extend` with the keys of a map.
unfoldable pub extend_keys {ℓ} : {V : Type ℓ} → List (ℕ × V) → List ℕ → List ℕ
extend_keys [] keys = keys
extend_keys ((k, v) ∷ m) keys = extend_keys m (insert_key k keys)

-- The union of the keys of two maps, in ascending order.
abbrev pub union_keys {ℓ} : {V : Type ℓ} → List (ℕ × V) → List (ℕ × V) → List ℕ
union_keys pre post = extend_keys post (extend_keys pre [])

abbrev pub slot_changed : Storage → Storage → ℕ → Bool
slot_changed pre post k = not (slot_value pre k == slot_value post k)

unfoldable pub any_slot_changed : Storage → Storage → List ℕ → Bool
any_slot_changed pre post [] = false
any_slot_changed pre post (k ∷ keys) = slot_changed pre post k || any_slot_changed pre post keys

unfoldable pub account_storage_changed : DiffMode → ℕ → Bool
account_storage_changed diff addr =
    let pre = storage_of addr diff.pre in
    let post = storage_of addr diff.post in any_slot_changed pre post (union_keys pre post)

-- The loop over the accounts.
unfoldable pub scan_accounts : DiffMode → ℕ → List ℕ → Option Reason
scan_accounts diff consumer [] = none
scan_accounts diff consumer (a ∷ accounts) =
    if not (a == consumer) && account_storage_changed diff a
    then some (other_storage_changed a)
    else scan_accounts diff consumer accounts

abbrev pub wrong_target : Option ℕ → ℕ → Option Reason
wrong_target none consumer = none
wrong_target (some to) consumer =
    if not (to == consumer) then some (targets_other to consumer) else none

abbrev pub failed : Option ℕ → Option Reason
failed none = none
failed (some reason) = some (reverted reason)

unfoldable pub classify_prestate_eligibility : CallFrame → DiffMode → ℕ → PrestateEligibility
classify_prestate_eligibility f diff consumer =
    let reason = or_else (wrong_target (header f).to consumer) (
      or_else (failed (frame_failure (header f))) (
        or_else (scan_accounts diff consumer (union_keys diff.pre diff.post))
          (scan_target_depth f))) in
    elim reason [ none ↦ eligible | some r ↦ fallback r ]

-- The loop over the touched slots: a store wherever the value changed.
unfoldable pub changed_stores : Storage → Storage → List ℕ → List StateUpdate
changed_stores pre post [] = []
changed_stores pre post (slot ∷ slots) =
    let rest = changed_stores pre post slots in
    if slot_changed pre post slot
    then store (record { slot = slot; value = slot_value post slot }) ∷ rest
    else rest

abbrev pub position_key : CallLog → ℕ
position_key log = elim log.position [ none ↦ 0 | some p ↦ p ]

-- `None` comes first.
abbrev pub index_key : CallLog → ℕ
index_key log = elim log.index [ none ↦ 0 | some i ↦ suc i ]

abbrev pub has_index : CallLog → Bool
has_index log = elim log.index [ none ↦ false | some i ↦ true ]

-- The inner `while`: the logs up to a position, and those after it.
unfoldable pub logs_upto : ℕ → List CallLog → List CallLog
logs_upto call_idx [] = []
logs_upto call_idx (log ∷ logs) =
    if leb (position_key log) call_idx then log ∷ logs_upto call_idx logs else []

unfoldable pub logs_after : ℕ → List CallLog → List CallLog
logs_after call_idx [] = []
logs_after call_idx (log ∷ logs) =
    if leb (position_key log) call_idx then logs_after call_idx logs else log ∷ logs

abbrev pub is_transparent : FrameType → Bool
is_transparent FrameType.delegatecall = true
is_transparent FrameType.callcode = true
is_transparent _ = false

-- A sub-frame whose logs are the consumer's: a delegate that did not fail.
abbrev pub is_entered : Header → Bool
is_entered h = is_transparent h.typ && not (is_some (frame_failure h))

-- What `collect_target_depth_logs` pushes, for a frame and for its sub-calls from an index on.
unfoldable mutual
  pub collect_target_depth_logs : CallFrame → List CallLog
  collect_target_depth_logs (frame h calls) =
      collect_calls calls 0 (sort_by_key position_key h.logs)

  pub collect_calls : CallFrames → ℕ → List CallLog → List CallLog
  collect_calls no_frames call_idx logs = logs
  collect_calls (add_frame c rest) call_idx logs =
      logs_upto call_idx logs
      ++ ((if is_entered (header c) then collect_target_depth_logs c else [])
          ++ collect_calls rest (call_idx + 1) (logs_after call_idx logs))

unfoldable pub ordered_target_depth_logs : CallFrame → List CallLog
ordered_target_depth_logs f =
    let logs = collect_target_depth_logs f in
    if ltb 1 (length logs) && all has_index logs then sort_by_key index_key logs else logs

abbrev pub or_empty {ℓ} : {A : Type ℓ} → Option (List A) → List A
or_empty none = []
or_empty (some xs) = xs

-- By the number of topics; more than four are cut to four.
abbrev pub topics_to_update : Bytes → List ℕ → StateUpdate
topics_to_update payload [] = log0 (record { log_data = payload })
topics_to_update payload (a ∷ []) = log1 (record { log_data = payload; topic1 = a })
topics_to_update payload (a ∷ b ∷ []) = log2 (record { log_data = payload; topic1 = a; topic2 = b })
topics_to_update payload (a ∷ b ∷ c ∷ []) =
    log3 (record { log_data = payload; topic1 = a; topic2 = b; topic3 = c })
topics_to_update payload (a ∷ b ∷ c ∷ d ∷ more) =
    log4 (record { log_data = payload; topic1 = a; topic2 = b; topic3 = c; topic4 = d })

abbrev pub log_to_update : CallLog → StateUpdate
log_to_update log = topics_to_update (or_empty log.payload) (or_empty log.topics)

unfoldable pub build_state_updates_from_prestate : ℕ → DiffMode → CallFrame → List StateUpdate
build_state_updates_from_prestate consumer diff f =
    let pre = storage_of consumer diff.pre in
    let post = storage_of consumer diff.post in
    changed_stores pre post (union_keys pre post) ++ map log_to_update (ordered_target_depth_logs f)
