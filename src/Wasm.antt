-- ===== src/Wasm.antt =====
-- What the WebAssembly front end derives from a prestate diff (crates/wasm/src/lib.rs,
-- `net_sstore_costs` and `original_storage`).
pub mod Costs
pub mod Originals
pub mod Tests
use gas_analyzer.Prestate.{storage_of, slot_value, union_keys, slot_changed}
use gas_analyzer.CallTracer.{DiffMode, Storage}
use gas_analyzer.Prelude.Maps.{put}
use gas_analyzer.Prelude.Assoc.{lookup}
use gas_analyzer.Prelude.{
  ℕ, not, ◌&&◌, Option, none, some, List, [], ◌∷◌, ◌==◌, if◌then◌else◌, ◌+64◌,
}
use gas_analyzer.Types.{StateUpdate, store}

abbrev pub sstore_cold_set_cost : ℕ
sstore_cold_set_cost = 22100

abbrev pub sstore_cold_reset_cost : ℕ
sstore_cold_reset_cost = 5000

abbrev pub sstore_clears_refund : ℕ
sstore_clears_refund = 4800

abbrev pub slot_cost : ℕ → ℕ
slot_cost old = if old == 0 then sstore_cold_set_cost else sstore_cold_reset_cost

abbrev pub slot_refund : ℕ → ℕ → ℕ
slot_refund old new = if not (old == 0) && (new == 0) then sstore_clears_refund else 0

-- The loop over the touched slots.
unfoldable pub add_slot_costs : Storage → Storage → List ℕ → ℕ → ℕ → ℕ × ℕ
add_slot_costs pre post [] gas refund = (gas, refund)
add_slot_costs pre post (slot ∷ slots) gas refund =
    if slot_changed pre post slot
    then add_slot_costs pre post slots (gas +64 slot_cost (slot_value pre slot))
        (refund +64 slot_refund (slot_value pre slot) (slot_value post slot))
    else add_slot_costs pre post slots gas refund

unfoldable pub net_sstore_costs : DiffMode → ℕ → ℕ × ℕ
net_sstore_costs diff consumer =
    let pre = storage_of consumer diff.pre in
    let post = storage_of consumer diff.post in add_slot_costs pre post (union_keys pre post) 0 0

-- The value that is stored last, by slot.
unfoldable pub collect_last : List StateUpdate → List (ℕ × ℕ) → List (ℕ × ℕ)
collect_last [] last = last
collect_last (store s ∷ updates) last = collect_last updates (put s.slot s.value last)
collect_last (_ ∷ updates) last = collect_last updates last

abbrev pub original_value : Option ℕ → Option ℕ → ℕ → ℕ
original_value (some value) in_post last = value
original_value none (some value) last = 0
original_value none none last = last

unfoldable pub original_values : Storage → Storage → List (ℕ × ℕ) → List (ℕ × ℕ)
original_values pre post [] = []
original_values pre post ((slot, last) ∷ stores) =
    (slot, original_value (lookup slot pre) (lookup slot post) last)
    ∷ original_values pre post stores

unfoldable pub original_storage : DiffMode → ℕ → List StateUpdate → List (ℕ × ℕ)
original_storage diff account updates =
    original_values (storage_of account diff.pre) (storage_of account diff.post)
      (collect_last updates [])
