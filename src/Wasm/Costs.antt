-- ===== src/Wasm/Costs.antt =====
-- The store costs of the net form (crates/wasm/src/lib.rs, `net_sstore_costs`).
use gas_analyzer.Wasm.{slot_cost, slot_refund, add_slot_costs, net_sstore_costs}
use gas_analyzer.Prestate.{
  storage_of, slot_value, union_keys, slot_changed, changed_stores, ordered_target_depth_logs,
  or_empty, topics_to_update, log_to_update, build_state_updates_from_prestate,
}
use gas_analyzer.CallTracer.{CallLog, DiffMode, Storage, CallFrame}
use gas_analyzer.Prelude.{
  ℕ, ◌+◌, ◌*◌, ◌≤◌, ◌<◌, ◌≡◌, refl, ◌∙◌, inl, inr, List, [], ◌∷◌, ◌++◌, map, arith, Bool-cases,
  length, u64_mod, ◌+64◌,
}
use gas_analyzer.Prelude.Bytes.{Bytes}
use gas_analyzer.Types.{StateUpdate, store}

-- The cost of a program's stores, each on a slot as it was before, and their refunds.
abbrev pub store_costs : Storage → List StateUpdate → ℕ
store_costs pre [] = 0
store_costs pre (store s ∷ us) = slot_cost (slot_value pre s.slot) + store_costs pre us
store_costs pre (_ ∷ us) = store_costs pre us

abbrev pub store_refunds : Storage → List StateUpdate → ℕ
store_refunds pre [] = 0
store_refunds pre (store s ∷ us) =
    slot_refund (slot_value pre s.slot) s.value + store_refunds pre us
store_refunds pre (_ ∷ us) = store_refunds pre us

store_costs-append :
    (pre : Storage) (us vs : List StateUpdate)
    → (store_costs pre (us ++ vs) ≡ store_costs pre us + store_costs pre vs)
      × (store_refunds pre (us ++ vs) ≡ store_refunds pre us + store_refunds pre vs)
store_costs-append pre [] vs = (omega arith, omega arith)
store_costs-append pre (store s ∷ us) vs =
    let (a, b) = store_costs-append pre us vs in (omega (arith, a), omega (arith, b))
store_costs-append pre (_ ∷ us) vs = store_costs-append pre us vs

store_costs-topics :
    (pre : Storage) (payload : Bytes) (topics : List ℕ) (us : List StateUpdate)
    → (store_costs pre (topics_to_update payload topics ∷ us) ≡ store_costs pre us)
      × (store_refunds pre (topics_to_update payload topics ∷ us) ≡ store_refunds pre us)
store_costs-topics pre payload [] us = (refl, refl)
store_costs-topics pre payload (a ∷ []) us = (refl, refl)
store_costs-topics pre payload (a ∷ b ∷ []) us = (refl, refl)
store_costs-topics pre payload (a ∷ b ∷ c ∷ []) us = (refl, refl)
store_costs-topics pre payload (a ∷ b ∷ c ∷ d ∷ more) us = (refl, refl)

store_costs-logs :
    (pre : Storage) (logs : List CallLog)
    → (store_costs pre (map log_to_update logs) ≡ 0)
      × (store_refunds pre (map log_to_update logs) ≡ 0)
store_costs-logs pre [] = (refl, refl)
store_costs-logs pre (log ∷ logs) =
    let (a, b) = store_costs-logs pre logs in
    let (c, d) =
      store_costs-topics pre (or_empty log.payload) (or_empty log.topics)
        (map log_to_update logs) in
    (c ∙ a, d ∙ b)

pair_eq : {a b c d : ℕ} → a ≡ b → c ≡ d → ◌≡◌ {A = ℕ × ℕ} (a, c) (b, d)
pair_eq p q = cc

one_more :
    (total own rest : ℕ) → total + own < u64_mod → total +64 own + rest ≡ total + (own + rest)
one_more total own rest h = omega (arith, h)

module _ (pre post : Storage) where
  slot_cost-bound : (old : ℕ) → slot_cost old ≤ 22100
  slot_cost-bound old = ground arith

  slot_refund-bound : (old new : ℕ) → slot_refund old new ≤ 22100
  slot_refund-bound old new = ground arith

  add_slot_costs-stores :
      (slots : List ℕ) (gas refund : ℕ)
      → gas + 22100 * length slots < u64_mod
      → refund + 22100 * length slots < u64_mod
      → add_slot_costs pre post slots gas refund ≡ (
        gas + store_costs pre (changed_stores pre post slots),
        refund + store_refunds pre (changed_stores pre post slots),
      )
  unfolding add_slot_costs changed_stores
  add_slot_costs-stores [] gas refund h k = pair_eq (omega arith) (omega arith)
  add_slot_costs-stores (slot ∷ slots) gas refund h k =
      let cost = slot_cost (slot_value pre slot) in
      let back = slot_refund (slot_value pre slot) (slot_value post slot) in
      let low = slot_cost-bound (slot_value pre slot) in
      let low' = slot_refund-bound (slot_value pre slot) (slot_value post slot) in
      elim (Bool-cases (slot_changed pre post slot)) [
        | inr e ↦
            rw e (add_slot_costs-stores slots gas refund (omega (arith, h)) (omega (arith, k)))
        | inl e ↦ rw e (
            add_slot_costs-stores slots (gas +64 cost) (refund +64 back) (omega (arith, h, low))
              (omega (arith, k, low'))
            ∙ pair_eq (one_more gas cost _ (omega (arith, h, low)))
                (one_more refund back _ (omega (arith, k, low'))))
      ]

-- Where the touched slots cost less than the greatest `u64` together, the store gas and the refunds
-- of a diff are those of the stores of its net form, each priced as one cold write.
pub net_sstore_costs-store_costs :
    (consumer : ℕ) (diff : DiffMode) (f : CallFrame)
    → 22100 * length (union_keys (storage_of consumer diff.pre) (storage_of consumer diff.post))
      < u64_mod
    → net_sstore_costs diff consumer ≡ (
      store_costs
          (storage_of consumer diff.pre)
          (build_state_updates_from_prestate consumer diff f),
      store_refunds
          (storage_of consumer diff.pre)
          (build_state_updates_from_prestate consumer diff f),
    )
unfolding net_sstore_costs build_state_updates_from_prestate
net_sstore_costs-store_costs consumer diff f h =
    let pre = storage_of consumer diff.pre in
    let post = storage_of consumer diff.post in
    let slots = union_keys pre post in
    let (a, b) =
      store_costs-append pre (changed_stores pre post slots)
        (map log_to_update (ordered_target_depth_logs f)) in
    let (c, d) = store_costs-logs pre (ordered_target_depth_logs f) in
    add_slot_costs-stores pre post slots 0 0 (omega (arith, h)) (omega (arith, h))
    ∙ pair_eq (omega (arith, a, c)) (omega (arith, b, d))
