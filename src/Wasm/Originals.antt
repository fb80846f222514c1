-- ===== src/Wasm/Originals.antt =====
-- The storage that the front end starts from (crates/wasm/src/lib.rs, `original_storage`).
use gas_analyzer.Wasm.{collect_last, original_value, original_values, original_storage}
use gas_analyzer.Prestate.{or_else, storage_of}
use gas_analyzer.CallTracer.{DiffMode, Storage}
use gas_analyzer.Split.Flush.{last_store, or_else_id}
use gas_analyzer.Prelude.Maps.{put, lookup-put}
use gas_analyzer.Prelude.Assoc.{lookup}
use gas_analyzer.Prelude.{
  ℕ, ◌≡◌, refl, sym, ap, ◌∙◌, inl, inr, Bool, true, false, Option, none, some, List, [], ◌∷◌, ◌==◌,
  if◌then◌else◌, ==_iff, Bool-cases, is_some,
}
use gas_analyzer.Types.{StateUpdate, store}

or_else_if :
    (o p : Option ℕ) (b : Bool) (value : ℕ)
    → or_else o (if b then some value else p)
      ≡ or_else (or_else o (if b then some value else none)) p
or_else_if none p true value = refl
or_else_if none p false value = refl
or_else_if (some n) p b value = refl

lookup-collect_last :
    (slot : ℕ) (updates : List StateUpdate) (last : List (ℕ × ℕ))
    → lookup slot (collect_last updates last) ≡ or_else (last_store slot updates) (lookup slot last)
unfolding collect_last
lookup-collect_last slot [] last = refl
lookup-collect_last slot (store s ∷ updates) last =
    lookup-collect_last slot updates (put s.slot s.value last)
    ∙ (ap (or_else (last_store slot updates)) (lookup-put s.slot slot s.value last)
        ∙ or_else_if (last_store slot updates) (lookup slot last) (s.slot == slot) s.value)
lookup-collect_last slot (_ ∷ updates) last = lookup-collect_last slot updates last

-- What a slot starts with, from its value before and after the transaction and its last store.
abbrev pub starting_value : Option ℕ → Option ℕ → Option ℕ → Option ℕ
starting_value before after none = none
starting_value before after (some last) =
    or_else before (if is_some after then some 0 else some last)

original_value-starting :
    (before after : Option ℕ) (last : ℕ)
    → some (original_value before after last) ≡ starting_value before after (some last)
original_value-starting (some value) after last = refl
original_value-starting none (some value) last = refl
original_value-starting none none last = refl

lookup-original_values :
    (pre post : Storage) (slot : ℕ) (stores : List (ℕ × ℕ))
    → lookup slot (original_values pre post stores)
      ≡ starting_value (lookup slot pre) (lookup slot post) (lookup slot stores)
unfolding original_values lookup
lookup-original_values pre post slot [] = refl
lookup-original_values pre post slot ((k, last) ∷ stores) = elim (Bool-cases (k == slot)) [
  | inl e ↦
      let same : k ≡ slot = (==_iff k slot).0 e in
      rw e (
        ap (λ i. some (original_value (lookup i pre) (lookup i post) last)) same
        ∙ original_value-starting (lookup slot pre) (lookup slot post) last)
  | inr e ↦ rw e (lookup-original_values pre post slot stores)
]

-- A slot starts with a value exactly when the program stores to it: with the one that the diff has
-- before the transaction, with zero where the diff has it only after the transaction, and with the
-- value that is stored last where the diff leaves it out.
pub lookup-original_storage :
    (diff : DiffMode) (account slot : ℕ) (updates : List StateUpdate)
    → lookup slot (original_storage diff account updates)
      ≡ starting_value
          (lookup slot (storage_of account diff.pre))
          (lookup slot (storage_of account diff.post))
          (last_store slot updates)
unfolding original_storage lookup
lookup-original_storage diff account slot updates =
    let pre = storage_of account diff.pre in
    let post = storage_of account diff.post in
    lookup-original_values pre post slot (collect_last updates [])
    ∙ ap (starting_value (lookup slot pre) (lookup slot post))
        (lookup-collect_last slot updates [] ∙ sym (or_else_id (last_store slot updates)))
