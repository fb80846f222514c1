-- ===== src/Prestate/Tests.antt =====
-- Examples of the net form: a call that changes a slot, leaves another as it was, and logs around a
-- delegate's log.
use gas_analyzer.Prestate.{
  frame_failure, scan_target_depth, storage_of, slot_value, extend_keys, slot_changed,
  any_slot_changed, account_storage_changed, scan_accounts, classify_prestate_eligibility,
  changed_stores, index_key, has_index, logs_upto, logs_after, collect_target_depth_logs,
  ordered_target_depth_logs, build_state_updates_from_prestate, eligible,
}
use gas_analyzer.Prestate.Net.{
  replay, stored_slots, replay-build_state_updates_from_prestate,
  stored_slots-build_state_updates_from_prestate,
}
use gas_analyzer.Prestate.Eligible.{
  OnlyConsumerChanges, classify_prestate_eligibility_sound, IsNet, net, nothing, delegate,
}
use mathlib.Core.List.{Perm}
use gas_analyzer.Prestate.Logs.{
  scope_logs, ordered_target_depth_logs-perm, ordered_target_depth_logs-KeysFrom,
}
use gas_analyzer.Prestate.Complete.{classify_prestate_eligibility_complete}
use gas_analyzer.CallTracer.{
  CallLog, Header, DiffMode, header, FrameType, CallFrame, frame, no_frames, add_frame,
}
use gas_analyzer.Prelude.Sort.{
  insert_key, contains, AscendsFrom, insert_by_key, sort_by_key, KeysFrom,
}
use gas_analyzer.Prelude.Assoc.{lookup}
use gas_analyzer.Prelude.{ℕ, ◌≡◌, refl, ◌⊎◌, inr, true, none, some, List, [], ◌∷◌, all}
use gas_analyzer.Types.{store, log1}

abbrev consumer : ℕ
consumer = 170

abbrev diff : DiffMode
diff = record {
  pre = (consumer, (3, 7) ∷ (1, 5) ∷ []) ∷ [];
  post = (consumer, (1, 6) ∷ (3, 7) ∷ (2, 9) ∷ []) ∷ [];
}

abbrev log_after : ℕ → ℕ → CallLog
log_after position topic = record {
  topics = some (topic ∷ []);
  payload = none;
  position = some position;
  index = none;
}

abbrev head_of : FrameType → List CallLog → Header
head_of typ logs = record {
  typ = typ;
  to = some consumer;
  error = none;
  revert_reason = none;
  logs = logs;
}

abbrev root_frame : CallFrame
root_frame =
    frame (head_of FrameType.call (log_after 1 2 ∷ log_after 0 1 ∷ []))
      (add_frame (frame (head_of FrameType.delegatecall (log_after 0 8 ∷ [])) no_frames) no_frames)

net_program :
    build_state_updates_from_prestate consumer diff root_frame
    ≡ store (record { slot = 1; value = 6 })
      ∷ store (record { slot = 2; value = 9 })
      ∷ log1 (record { log_data = []; topic1 = 1 })
      ∷ log1 (record { log_data = []; topic1 = 8 })
      ∷ log1 (record { log_data = []; topic1 = 2 })
      ∷ []
unfolding build_state_updates_from_prestate changed_stores extend_keys insert_key lookup
    ordered_target_depth_logs collect_target_depth_logs logs_upto logs_after sort_by_key
    insert_by_key
net_program = refl

replay-build_state_updates_from_prestate_example :
    replay
      (build_state_updates_from_prestate consumer diff root_frame)
      (slot_value (storage_of consumer diff.pre))
      1
    ≡ slot_value (storage_of consumer diff.post) 1
replay-build_state_updates_from_prestate_example =
    replay-build_state_updates_from_prestate consumer diff root_frame 1

stored_slots-build_state_updates_from_prestate_example :
    let slots = stored_slots (build_state_updates_from_prestate consumer diff root_frame) in
    (contains 3 slots
      ≡ slot_changed (storage_of consumer diff.pre) (storage_of consumer diff.post) 3)
    × AscendsFrom 0 slots
stored_slots-build_state_updates_from_prestate_example =
    stored_slots-build_state_updates_from_prestate consumer diff root_frame 3

admitted : classify_prestate_eligibility root_frame diff consumer ≡ eligible
unfolding classify_prestate_eligibility scan_accounts account_storage_changed any_slot_changed
    extend_keys insert_key lookup scan_target_depth
admitted = refl

classify_prestate_eligibility_sound_example :
    (((header root_frame).to ≡ none) ⊎ ((header root_frame).to ≡ some consumer))
    × (frame_failure (header root_frame) ≡ none)
    × OnlyConsumerChanges diff consumer
    × IsNet root_frame
classify_prestate_eligibility_sound_example =
    classify_prestate_eligibility_sound root_frame diff consumer admitted

ordered_target_depth_logs-perm_example :
    Perm (ordered_target_depth_logs root_frame) (scope_logs root_frame)
ordered_target_depth_logs-perm_example = ordered_target_depth_logs-perm root_frame

abbrev log_number : ℕ → ℕ → CallLog
log_number index topic = record {
  topics = some (topic ∷ []);
  payload = none;
  position = none;
  index = some index;
}

abbrev numbered_frame : CallFrame
numbered_frame = frame (head_of FrameType.call (log_number 4 2 ∷ log_number 1 1 ∷ [])) no_frames

all_numbered : all has_index (collect_target_depth_logs numbered_frame) ≡ true
unfolding collect_target_depth_logs sort_by_key insert_by_key
all_numbered = refl

ordered_target_depth_logs-KeysFrom_example :
    KeysFrom index_key 0 (ordered_target_depth_logs numbered_frame)
ordered_target_depth_logs-KeysFrom_example =
    ordered_target_depth_logs-KeysFrom numbered_frame all_numbered

root_frame-IsNet : IsNet root_frame
root_frame-IsNet = net (delegate refl (net nothing) nothing)

classify_prestate_eligibility_complete_example :
    classify_prestate_eligibility root_frame diff consumer ≡ eligible
classify_prestate_eligibility_complete_example =
    classify_prestate_eligibility_complete root_frame diff consumer (inr refl) refl
      (λ a k other.
        (classify_prestate_eligibility_sound root_frame diff consumer admitted).2 a k other)
      root_frame-IsNet
