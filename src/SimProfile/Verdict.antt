-- ===== src/SimProfile/Verdict.antt =====
-- When the gate accepts a payload, and what it answers.
use gas_analyzer.Prelude.Results.{◌>>=◌, ◌>>◌, refuse_if, Result, ok, err}
use gas_analyzer.SimProfile.{
  UnboundedCost, state_tracker_slot, estimate_applied_payload_gas, count_update, count_updates,
  no_cost, validate, UnboundedCostViolation, payload_too_expensive, create_not_allowed,
}
use gas_analyzer.Prelude.{
  ℕ, suc, ◌+◌, ◌≤◌, ◌≡◌, refl, ap, ◌∙◌, ◌⊎◌, inl, inr, Bool, true, false, not, Option, none, some,
  List, [], ◌∷◌, arith, ltb, ◌==◌, if◌then◌else◌, Bool-cases, length,
}
use gas_analyzer.Types.{
  StateUpdate, store, call, log0, log1, log2, log3, log4, create, create2, nested,
}
use gas_analyzer.Encoding.{AbiSequence}

abbrev pub is_create : StateUpdate → Bool
is_create (create x) = true
is_create (create2 x) = true
is_create _ = false

abbrev pub is_log : StateUpdate → Bool
is_log (log0 x) = true
is_log (log1 x) = true
is_log (log2 x) = true
is_log (log3 x) = true
is_log (log4 x) = true
is_log _ = false

abbrev pub is_call : StateUpdate → Bool
is_call (call x) = true
is_call (nested x) = true
is_call _ = false

abbrev pub is_tracker_store : StateUpdate → Bool
is_tracker_store (store s) = s.slot == state_tracker_slot
is_tracker_store _ = false

abbrev pub is_other_store : StateUpdate → Bool
is_other_store (store s) = not (s.slot == state_tracker_slot)
is_other_store _ = false

abbrev pub count : (StateUpdate → Bool) → List StateUpdate → ℕ
count p [] = 0
count p (u ∷ us) = (if p u then 1 else 0) + count p us

-- The position of the first create.
abbrev pub first_create : List StateUpdate → Option ℕ
first_create [] = none
first_create (u ∷ us) =
    if is_create u then some 0 else elim (first_create us) [ none ↦ none | some k ↦ some (suc k) ]

abbrev pub counted_from : UnboundedCost → List StateUpdate → UnboundedCost
counted_from cost us = record cost {
  stores = cost.stores + count is_other_store us;
  tracker_stores = cost.tracker_stores + count is_tracker_store us;
  calls = cost.calls + count is_call us;
  logs = cost.logs + count is_log us;
  creates = cost.creates + count is_create us;
}

-- One update counts as itself.
count_update-counted_from :
    (replayable : Bool) (i : ℕ) (u : StateUpdate) (us : List StateUpdate) (cost : UnboundedCost)
    → (replayable ≡ true) ⊎ (is_create u ≡ false)
    → (c : UnboundedCost) × (count_update replayable i u cost ≡ ok c)
      × (counted_from c us ≡ counted_from cost (u ∷ us))
count_update-counted_from r i (store x) us cost h =
    elim (Bool-cases (x.slot == state_tracker_slot)) [
      | inl e ↦ (
        record cost { tracker_stores = cost.tracker_stores + 1 },
        ground (arith, e),
        ground (arith, e),
      )
      | inr e ↦ (record cost { stores = cost.stores + 1 }, ground (arith, e), ground (arith, e))
    ]
count_update-counted_from r i (call x) us cost h =
    (record cost { calls = cost.calls + 1 }, refl, ground arith)
count_update-counted_from r i (nested x) us cost h =
    (record cost { calls = cost.calls + 1 }, refl, ground arith)
count_update-counted_from r i (log0 x) us cost h =
    (record cost { logs = cost.logs + 1 }, refl, ground arith)
count_update-counted_from r i (log1 x) us cost h =
    (record cost { logs = cost.logs + 1 }, refl, ground arith)
count_update-counted_from r i (log2 x) us cost h =
    (record cost { logs = cost.logs + 1 }, refl, ground arith)
count_update-counted_from r i (log3 x) us cost h =
    (record cost { logs = cost.logs + 1 }, refl, ground arith)
count_update-counted_from r i (log4 x) us cost h =
    (record cost { logs = cost.logs + 1 }, refl, ground arith)
count_update-counted_from r i (create x) us cost h =
    (record cost { creates = cost.creates + 1 }, ground arith, ground arith)
count_update-counted_from r i (create2 x) us cost h =
    (record cost { creates = cost.creates + 1 }, ground arith, ground arith)

-- What stands in the way of a payload: a create, where creates cannot be replayed.
abbrev pub blocking_create : Bool → List StateUpdate → Option ℕ
blocking_create replayable us = if replayable then none else first_create us

abbrev counting :
    ℕ → List StateUpdate → UnboundedCost → Option ℕ → Result UnboundedCostViolation UnboundedCost
counting i us cost none = ok (counted_from cost us)
counting i us cost (some k) = err (create_not_allowed (i + k))

count_update-blocked :
    (i : ℕ) (u : StateUpdate) (cost : UnboundedCost)
    → is_create u ≡ true
    → count_update false i u cost ≡ err (create_not_allowed i)
count_update-blocked i (create x) cost h = refl
count_update-blocked i (create2 x) cost h = refl
count_update-blocked i (store x) cost h = cc
count_update-blocked i _ cost h = cc

counting-next :
    (i : ℕ) (u : StateUpdate) (us : List StateUpdate) (c cost : UnboundedCost) (o : Option ℕ)
    → counted_from c us ≡ counted_from cost (u ∷ us)
    → counting (i + 1) us c o
      ≡ counting i (u ∷ us) cost (elim o [ none ↦ none | some k ↦ some (suc k) ])
counting-next i u us c cost none g = ap ok g
counting-next i u us c cost (some k) g = ap (λ n. err (create_not_allowed n)) (omega arith)

count_updates-counting :
    (replayable : Bool) (i : ℕ) (us : List StateUpdate) (cost : UnboundedCost)
    → count_updates replayable i us cost ≡ counting i us cost (blocking_create replayable us)
unfolding count_updates
count_updates-counting true i [] cost = ground arith
count_updates-counting false i [] cost = ground arith
count_updates-counting true i (u ∷ us) cost =
    let (c, e, f) = count_update-counted_from true i u us cost (inl refl) in
    rw e (count_updates-counting true (i + 1) us c ∙ ap ok f)
count_updates-counting false i (u ∷ us) cost = elim (Bool-cases (is_create u)) [
  | inl e ↦
      rw (count_update-blocked i u cost e, e) (ap (λ n. err (create_not_allowed n)) (omega arith))
  | inr e ↦
      let (c, f, g) = count_update-counted_from false i u us cost (inr e) in
      rw (f, e)
        (count_updates-counting false (i + 1) us c
          ∙ counting-next i u us c cost (first_create us) g)
]

-- The answer of the gate, in full. Where a create stands in the way, the first one is named,
-- whatever the payload costs; else a payload over the budget is refused with its price and its
-- stores, the tracker's left out; else each update is counted once, by its kind.
abbrev pub answer :
    ℕ → ℕ → List StateUpdate → Option ℕ → Result UnboundedCostViolation UnboundedCost
answer bound budget us (some k) = err (create_not_allowed k)
answer bound budget us none =
    if ltb budget bound
    then err (payload_too_expensive bound budget (count is_other_store us))
    else ok (record {
      stores = count is_other_store us;
      tracker_stores = count is_tracker_store us;
      calls = count is_call us;
      logs = count is_log us;
      creates = count is_create us;
      applied_gas_upper_bound = bound;
    })

-- What the gate answers, for every payload: where creates cannot be replayed and the payload has
-- one, the position of the first; else, over the budget, the price and the number of stores; else
-- the number of updates of each kind and the price.
pub validate-answer :
    (abi : AbiSequence) (us : List StateUpdate) (gas : ℕ) (replayable : Bool) (floor budget : ℕ)
    → validate abi us gas replayable floor budget
      ≡ answer
          (estimate_applied_payload_gas abi us gas floor)
          budget
          us
          (blocking_create replayable us)
unfolding validate
validate-answer abi us gas replayable floor budget =
    rw (count_updates-counting replayable 0 us no_cost) (cases (blocking_create replayable us))
  where
    bound : ℕ
    bound = estimate_applied_payload_gas abi us gas floor

    cases :
        (o : Option ℕ)
        → (counting 0 us no_cost o >>= λ counted.
            refuse_if (ltb budget bound) (payload_too_expensive bound budget counted.stores)
            >> ok (record counted { applied_gas_upper_bound = bound }))
          ≡ answer bound budget us o
    cases none = ground arith
    cases (some k) = ap (λ n. err (create_not_allowed n)) (omega arith)

kinds :
    (us : List StateUpdate)
    → count is_other_store us
        + count is_tracker_store us
        + count is_call us
        + count is_log us
        + count is_create us
      ≡ length us
kinds [] = omega arith
kinds (store x ∷ us) = ground (arith, kinds us)
kinds (call x ∷ us) = omega (arith, kinds us)
kinds (nested x ∷ us) = omega (arith, kinds us)
kinds (log0 x ∷ us) = omega (arith, kinds us)
kinds (log1 x ∷ us) = omega (arith, kinds us)
kinds (log2 x ∷ us) = omega (arith, kinds us)
kinds (log3 x ∷ us) = omega (arith, kinds us)
kinds (log4 x ∷ us) = omega (arith, kinds us)
kinds (create x ∷ us) = omega (arith, kinds us)
kinds (create2 x ∷ us) = omega (arith, kinds us)

no_create : (us : List StateUpdate) → first_create us ≡ none → count is_create us ≡ 0
no_create [] h = refl
no_create (u ∷ us) h = ground (arith, no_create us)

-- A payload that the gate accepts costs no more than the budget to apply; its updates are all
-- accounted for by the five counts; and without replayable creates there is no create among them.
pub validate_sound :
    (abi : AbiSequence) (us : List StateUpdate) (gas : ℕ) (replayable : Bool) (floor budget : ℕ)
    {cost : UnboundedCost}
    → validate abi us gas replayable floor budget ≡ ok cost
    → (estimate_applied_payload_gas abi us gas floor ≤ budget)
      × (cost.stores + cost.tracker_stores + cost.calls + cost.logs + cost.creates ≡ length us)
      × ((replayable ≡ true) ⊎ (cost.creates ≡ 0))
validate_sound abi us gas replayable floor budget h =
    ground (arith, validate-answer abi us gas replayable floor budget, kinds us, no_create us)
