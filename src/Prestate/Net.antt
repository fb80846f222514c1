-- ===== src/Prestate/Net.antt =====
-- The stores of the net form.
use gas_analyzer.CallTracer.{CallLog, DiffMode, Storage, CallFrame}
use gas_analyzer.Prelude.Assoc.{lookup}
use gas_analyzer.Prelude.Sort.{
  insert_key, contains, contains-insert_key, AscendsFrom, AscendsFrom-mono, insert_key-AscendsFrom,
}
use gas_analyzer.Prestate.{
  storage_of, slot_value, extend_keys, union_keys, slot_changed, changed_stores,
  ordered_target_depth_logs, or_empty, topics_to_update, log_to_update,
  build_state_updates_from_prestate,
}
use gas_analyzer.Prelude.{
  ℕ, ◌+◌, ◌≡◌, refl, sym, ap, ◌∙◌, subst, inl, inr, true, false, ◌&&◌, ◌||◌, List, [], ◌∷◌, ◌++◌,
  map, arith, ◌==◌, if◌then◌else◌, Bool-cases, is_some,
}
use gas_analyzer.Types.{StateUpdate, store}

-- What the handler contract does to storage: each store in turn.
unfoldable pub replay : List StateUpdate → (ℕ → ℕ) → ℕ → ℕ
replay [] image = image
replay (store s ∷ us) image = replay us (λ k. if s.slot == k then s.value else image k)
replay (_ ∷ us) image = replay us image

-- The slots that a program stores to, in its order.
unfoldable pub stored_slots : List StateUpdate → List ℕ
stored_slots [] = []
stored_slots (store s ∷ us) = s.slot ∷ stored_slots us
stored_slots (_ ∷ us) = stored_slots us

contains-extend_keys {ℓ} :
    {V : Type ℓ} (k : ℕ) (m : List (ℕ × V)) (keys : List ℕ)
    → contains k (extend_keys m keys) ≡ (is_some (lookup k m) || contains k keys)
unfolding extend_keys lookup
contains-extend_keys k [] keys = refl
contains-extend_keys k ((j, v) ∷ m) keys =
    ground (arith, contains-extend_keys k m (insert_key j keys), contains-insert_key k j keys)

extend_keys-AscendsFrom {ℓ} :
    {V : Type ℓ} (m : List (ℕ × V)) (keys : List ℕ)
    → AscendsFrom 0 keys
    → AscendsFrom 0 (extend_keys m keys)
unfolding extend_keys
extend_keys-AscendsFrom [] keys a = a
extend_keys-AscendsFrom ((j, v) ∷ m) keys a =
    extend_keys-AscendsFrom m (insert_key j keys) (insert_key-AscendsFrom 0 j keys (omega arith) a)

pub union_keys-AscendsFrom {ℓ} :
    {V : Type ℓ} (pre post : List (ℕ × V)) → AscendsFrom 0 (union_keys pre post)
union_keys-AscendsFrom pre post =
    extend_keys-AscendsFrom post (extend_keys pre []) (extend_keys-AscendsFrom pre [] tt)

-- A key outside the union is in neither map.
pub contains-union_keys {ℓ} :
    {V : Type ℓ} (k : ℕ) (pre post : List (ℕ × V))
    → contains k (union_keys pre post) ≡ (is_some (lookup k post) || is_some (lookup k pre))
contains-union_keys k pre post =
    ground (arith, contains-extend_keys k post (extend_keys pre []), contains-extend_keys k pre [])

module _ (pre post : Storage) where
  -- Storage after one store of a slot's new value.
  abbrev written : ℕ → (ℕ → ℕ) → ℕ → ℕ
  written j image k = if j == k then slot_value post j else image k

  replay-changed_stores :
      (j k : ℕ) (keys : List ℕ) (image : ℕ → ℕ)
      → replay (changed_stores pre post (j ∷ keys)) image k ≡ (
          if slot_changed pre post j
          then replay (changed_stores pre post keys) (written j image) k
          else replay (changed_stores pre post keys) image k)
  unfolding replay changed_stores
  replay-changed_stores j k keys image = elim (Bool-cases (slot_changed pre post j)) [
    | inl e ↦ rw e
    | inr e ↦ rw e
  ]

  replay-settled :
      (k : ℕ) (keys : List ℕ) (image : ℕ → ℕ)
      → image k ≡ slot_value post k
      → replay (changed_stores pre post keys) image k ≡ slot_value post k
  unfolding replay changed_stores
  replay-settled k [] image e = e
  replay-settled k (j ∷ keys) image e = ground (
    arith,
    replay-changed_stores j k keys image,
    replay-settled k keys image,
    replay-settled k keys (written j image),
  )

  replay-reached :
      (k : ℕ) (keys : List ℕ) (image : ℕ → ℕ)
      → image k ≡ slot_value pre k
      → contains k keys ≡ true
      → replay (changed_stores pre post keys) image k ≡ slot_value post k
  unfolding replay changed_stores
  replay-reached k [] image e c = cc
  replay-reached k (j ∷ keys) image e c = ground (
    arith,
    replay-changed_stores j k keys image,
    replay-settled k keys image,
    replay-settled k keys (written j image),
    replay-reached k keys image,
    replay-reached k keys (written j image),
  )

  replay-untouched :
      (k : ℕ) (keys : List ℕ) (image : ℕ → ℕ)
      → contains k keys ≡ false
      → replay (changed_stores pre post keys) image k ≡ image k
  unfolding replay changed_stores
  replay-untouched k [] image c = refl
  replay-untouched k (j ∷ keys) image c = ground (
    arith,
    replay-changed_stores j k keys image,
    replay-untouched k keys image,
    replay-untouched k keys (written j image),
  )

  stored_slots-changed_stores :
      (k : ℕ) (keys : List ℕ)
      → contains k (stored_slots (changed_stores pre post keys))
        ≡ (contains k keys && slot_changed pre post k)
  unfolding stored_slots changed_stores
  stored_slots-changed_stores k [] = refl
  stored_slots-changed_stores k (j ∷ keys) = ground (arith, stored_slots-changed_stores k keys)

  changed_stores-AscendsFrom :
      (n : ℕ) (keys : List ℕ)
      → AscendsFrom n keys
      → AscendsFrom n (stored_slots (changed_stores pre post keys))
  unfolding stored_slots changed_stores
  changed_stores-AscendsFrom n [] a = tt
  changed_stores-AscendsFrom n (j ∷ keys) a = elim (Bool-cases (slot_changed pre post j)) [
    | inl e ↦ rw e (a.0, changed_stores-AscendsFrom (j + 1) keys a.1)
    | inr e ↦ rw e (lower (changed_stores-AscendsFrom (j + 1) keys a.1))
  ]
    where
      lower :
          AscendsFrom (j + 1) (stored_slots (changed_stores pre post keys))
          → AscendsFrom n (stored_slots (changed_stores pre post keys))
      lower = AscendsFrom-mono n (j + 1) _ (omega (arith, a.0))

  -- A slot that neither map has is zero before and after.
  slot_changed-contains :
      (k : ℕ)
      → (contains k (union_keys pre post) && slot_changed pre post k) ≡ slot_changed pre post k
  slot_changed-contains k = ground (arith, contains-union_keys k pre post)

  net_effect :
      (k : ℕ)
      → replay (changed_stores pre post (union_keys pre post)) (slot_value pre) k
        ≡ slot_value post k
  net_effect k = elim (Bool-cases (contains k (union_keys pre post))) [
    | inl e ↦ replay-reached k (union_keys pre post) (slot_value pre) refl e
    | inr e ↦
        replay-untouched k (union_keys pre post) (slot_value pre) e
        ∙ ground (arith, contains-union_keys k pre post)
  ]

replay-log_to_update :
    (log : CallLog) (us : List StateUpdate) (image : ℕ → ℕ)
    → replay (log_to_update log ∷ us) image ≡ replay us image
unfolding replay
replay-log_to_update log us image = by_topics (or_empty log.topics)
  where
    by_topics :
        (topics : List ℕ)
        → replay (topics_to_update (or_empty log.payload) topics ∷ us) image ≡ replay us image
    by_topics [] = refl
    by_topics (a ∷ []) = refl
    by_topics (a ∷ b ∷ []) = refl
    by_topics (a ∷ b ∷ c ∷ []) = refl
    by_topics (a ∷ b ∷ c ∷ d ∷ more) = refl

stored_slots-log_to_update :
    (log : CallLog) (us : List StateUpdate)
    → stored_slots (log_to_update log ∷ us) ≡ stored_slots us
unfolding stored_slots
stored_slots-log_to_update log us = by_topics (or_empty log.topics)
  where
    by_topics :
        (topics : List ℕ)
        → stored_slots (topics_to_update (or_empty log.payload) topics ∷ us) ≡ stored_slots us
    by_topics [] = refl
    by_topics (a ∷ []) = refl
    by_topics (a ∷ b ∷ []) = refl
    by_topics (a ∷ b ∷ c ∷ []) = refl
    by_topics (a ∷ b ∷ c ∷ d ∷ more) = refl

replay-logs : (logs : List CallLog) (image : ℕ → ℕ) → replay (map log_to_update logs) image ≡ image
unfolding replay
replay-logs [] image = refl
replay-logs (log ∷ logs) image =
    replay-log_to_update log (map log_to_update logs) image ∙ replay-logs logs image

stored_slots-logs : (logs : List CallLog) → stored_slots (map log_to_update logs) ≡ []
unfolding stored_slots
stored_slots-logs [] = refl
stored_slots-logs (log ∷ logs) =
    stored_slots-log_to_update log (map log_to_update logs) ∙ stored_slots-logs logs

module _ (logs : List CallLog) (pre post : Storage) where
  replay-changed_stores-logs :
      (keys : List ℕ) (image : ℕ → ℕ)
      → replay (changed_stores pre post keys ++ map log_to_update logs) image
        ≡ replay (changed_stores pre post keys) image
  unfolding replay changed_stores
  replay-changed_stores-logs [] image = replay-logs logs image
  replay-changed_stores-logs (j ∷ keys) image = elim (Bool-cases (slot_changed pre post j)) [
    | inl e ↦ rw e (replay-changed_stores-logs keys (written pre post j image))
    | inr e ↦ rw e (replay-changed_stores-logs keys image)
  ]

  stored_slots-changed_stores-logs :
      (keys : List ℕ)
      → stored_slots (changed_stores pre post keys ++ map log_to_update logs)
        ≡ stored_slots (changed_stores pre post keys)
  unfolding stored_slots changed_stores
  stored_slots-changed_stores-logs [] = stored_slots-logs logs
  stored_slots-changed_stores-logs (j ∷ keys) = elim (Bool-cases (slot_changed pre post j)) [
    | inl e ↦ rw e (ap (◌∷◌ j) (stored_slots-changed_stores-logs keys))
    | inr e ↦ rw e (stored_slots-changed_stores-logs keys)
  ]

-- Replaying the net form over the consumer's storage before the call gives, at every slot, its
-- storage after the call.
pub replay-build_state_updates_from_prestate :
    (consumer : ℕ) (diff : DiffMode) (f : CallFrame) (k : ℕ)
    → replay
        (build_state_updates_from_prestate consumer diff f)
        (slot_value (storage_of consumer diff.pre))
        k
      ≡ slot_value (storage_of consumer diff.post) k
unfolding build_state_updates_from_prestate
replay-build_state_updates_from_prestate consumer diff f k =
    ap (λ image. image k)
      (replay-changed_stores-logs logs pre post (union_keys pre post) (slot_value pre))
    ∙ net_effect pre post k
  where
    logs : List CallLog
    logs = ordered_target_depth_logs f

    pre : Storage
    pre = storage_of consumer diff.pre

    post : Storage
    post = storage_of consumer diff.post

-- The net form stores to a slot exactly when the call changed its value, and its stores are in
-- strictly ascending order of slots, so to no slot twice.
pub stored_slots-build_state_updates_from_prestate :
    (consumer : ℕ) (diff : DiffMode) (f : CallFrame) (k : ℕ)
    → let slots = stored_slots (build_state_updates_from_prestate consumer diff f) in
      (contains k slots
        ≡ slot_changed (storage_of consumer diff.pre) (storage_of consumer diff.post) k)
      × AscendsFrom 0 slots
unfolding build_state_updates_from_prestate
stored_slots-build_state_updates_from_prestate consumer diff f k = (
  ap (contains k) stores
      ∙ stored_slots-changed_stores pre post k (union_keys pre post)
      ∙ slot_changed-contains pre post k,
  subst (AscendsFrom 0) (sym stores) (
      changed_stores-AscendsFrom pre post 0 (union_keys pre post)
        (union_keys-AscendsFrom pre post)),
)
  where
    logs : List CallLog
    logs = ordered_target_depth_logs f

    pre : Storage
    pre = storage_of consumer diff.pre

    post : Storage
    post = storage_of consumer diff.post

    stores :
        stored_slots (changed_stores pre post (union_keys pre post) ++ map log_to_update logs)
        ≡ stored_slots (changed_stores pre post (union_keys pre post))
    stores = stored_slots-changed_stores-logs logs pre post (union_keys pre post)
