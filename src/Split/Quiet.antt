-- ===== src/Split/Quiet.antt =====
-- Reading a step other than a store adds no store (crates/core/src/trace.rs,
-- `append_state_update_from_struct_log`).
use mathlib.Core.List.{reverse}
use gas_analyzer.Trace.{
  requires_memory, stack_item, memory_slice, decode_op, apply_decoded, parse_trace_memory,
  decode_at, append_state_update_from_struct_log, Decoded, push, skip, ignore,
}
use gas_analyzer.Split.Flush.{last_store, last_store-append}
use gas_analyzer.Split.Scannable.{is_sstore}
use gas_analyzer.Evm.{StructLog, Op}
use gas_analyzer.Failure.{panic}
use gas_analyzer.Prelude.Maps.{or_else}
use gas_analyzer.Prelude.Results.{ok_or, IfOk, IfOk-bind, IfOk-after, IfOk-refuse_if}
use gas_analyzer.Prelude.{
  ℕ, ◌≡◌, refl, sym, ap, ◌∙◌, subst, false, ◌&&◌, Option, none, some, List, [], ◌∷◌, ◌++◌, ◌==◌,
  last?,
}
use gas_analyzer.Prelude.Bytes.{Bytes}
use gas_analyzer.Types.{StateUpdate}

-- An update that is no store.
abbrev pub Quiet : StateUpdate → Type 0
Quiet u = (slot : ℕ) → last_store slot (u ∷ []) ≡ none

abbrev pub QuietDecoded : Decoded → Type 0
QuietDecoded (push u) = Quiet u
QuietDecoded _ = Unit

decode_op-Quiet :
    (op : Op) (stack : List ℕ) (memory : Bytes)
    → is_sstore op ≡ false
    → IfOk QuietDecoded (decode_op op stack memory)
unfolding decode_op
decode_op-Quiet Op.create stack memory h =
    IfOk-after QuietDecoded (stack_item stack 0) _
      λ x0 e0. IfOk-after QuietDecoded (memory_slice stack memory 1 2) _ λ x1 e1. λ slot. refl
decode_op-Quiet Op.create2 stack memory h = IfOk-after QuietDecoded (stack_item stack 0) _ λ x0 e0.
    IfOk-after QuietDecoded (memory_slice stack memory 1 2) _
      λ x1 e1. IfOk-after QuietDecoded (stack_item stack 3) _ λ x2 e2. λ slot. refl
decode_op-Quiet Op.sstore stack memory h = cc
decode_op-Quiet Op.call stack memory h =
    IfOk-after QuietDecoded (memory_slice stack memory 3 4) _ λ x0 e0.
      IfOk-after QuietDecoded (stack_item stack 1) _
        λ x1 e1. IfOk-after QuietDecoded (stack_item stack 2) _ λ x2 e2. λ slot. refl
decode_op-Quiet Op.log0 stack memory h =
    IfOk-after QuietDecoded (memory_slice stack memory 0 1) _ λ x0 e0. λ slot. refl
decode_op-Quiet Op.log1 stack memory h =
    IfOk-after QuietDecoded (memory_slice stack memory 0 1) _
      λ x0 e0. IfOk-after QuietDecoded (stack_item stack 2) _ λ x1 e1. λ slot. refl
decode_op-Quiet Op.log2 stack memory h =
    IfOk-after QuietDecoded (memory_slice stack memory 0 1) _ λ x0 e0.
      IfOk-after QuietDecoded (stack_item stack 2) _
        λ x1 e1. IfOk-after QuietDecoded (stack_item stack 3) _ λ x2 e2. λ slot. refl
decode_op-Quiet Op.log3 stack memory h =
    IfOk-after QuietDecoded (memory_slice stack memory 0 1) _ λ x0 e0.
      IfOk-after QuietDecoded (stack_item stack 2) _ λ x1 e1.
        IfOk-after QuietDecoded (stack_item stack 3) _
          λ x2 e2. IfOk-after QuietDecoded (stack_item stack 4) _ λ x3 e3. λ slot. refl
decode_op-Quiet Op.log4 stack memory h =
    IfOk-after QuietDecoded (memory_slice stack memory 0 1) _ λ x0 e0.
      IfOk-after QuietDecoded (stack_item stack 2) _ λ x1 e1.
        IfOk-after QuietDecoded (stack_item stack 3) _ λ x2 e2.
          IfOk-after QuietDecoded (stack_item stack 4) _
            λ x3 e3. IfOk-after QuietDecoded (stack_item stack 5) _ λ x4 e4. λ slot. refl
decode_op-Quiet _ stack memory h = tt

-- The last stores of a list are those of another.
abbrev pub SameStores : List StateUpdate → List StateUpdate → Type 0
SameStores us vs = (slot : ℕ) → last_store slot vs ≡ last_store slot us

pub push-SameStores :
    (us : List StateUpdate) (u : StateUpdate) → Quiet u → SameStores us (us ++ (u ∷ []))
push-SameStores us u q slot =
    last_store-append slot us (u ∷ []) ∙ ap (λ o. or_else o (last_store slot us)) (q slot)

apply_decoded-SameStores :
    (us : List StateUpdate) (d : Decoded) → QuietDecoded d → SameStores us (apply_decoded us d).0
apply_decoded-SameStores us (push u) q = push-SameStores us u q
apply_decoded-SameStores us (skip op) q = λ slot. refl
apply_decoded-SameStores us ignore q = λ slot. refl

module _ (decode_to_slice : List ℕ → Option Bytes) where
  decode_at-Quiet :
      (log : StructLog) (stack : List ℕ) (memory : Option (List (List ℕ)))
      → is_sstore log.op ≡ false
      → IfOk QuietDecoded (decode_at decode_to_slice log stack memory)
  decode_at-Quiet log stack (some memory) h =
      IfOk-after QuietDecoded (ok_or (parse_trace_memory decode_to_slice memory) panic) _
        λ bytes e. decode_op-Quiet log.op stack bytes h
  decode_at-Quiet log stack none h =
      IfOk-refuse_if QuietDecoded (requires_memory log.op && (log.depth == 1)) _ _ λ e. tt

  pub append-SameStores :
      (us : List StateUpdate) (log : StructLog)
      → is_sstore log.op ≡ false
      → IfOk (λ r. SameStores us r.0) (append_state_update_from_struct_log decode_to_slice us log)
  unfolding append_state_update_from_struct_log
  append-SameStores us log h =
      IfOk-after (λ r. SameStores us r.0) (ok_or log.stack panic) _
        λ stack e.
          IfOk-bind QuietDecoded (λ r. SameStores us r.0)
            (decode_at decode_to_slice log (reverse stack) log.memory) _
            (decode_at-Quiet log (reverse stack) log.memory h)
            (λ d q. apply_decoded-SameStores us d q)

or_else-none : (o p : Option ℕ) → or_else o p ≡ none → o ≡ none
or_else-none none p e = refl
or_else-none (some n) p e = cc

-- The last update of a list without stores is no store.
pub last?-Quiet :
    (us : List StateUpdate) (u : StateUpdate)
    → ((slot : ℕ) → last_store slot us ≡ none)
    → last? us ≡ some u
    → Quiet u
last?-Quiet [] u h e slot = cc
last?-Quiet (v ∷ []) u h e slot =
    let same : v ≡ u = cc in subst (λ x. last_store slot (x ∷ []) ≡ none) same (h slot)
last?-Quiet (v ∷ w ∷ us) u h e slot =
    last?-Quiet (w ∷ us) u
      (λ i.
        or_else-none (last_store i (w ∷ us)) (last_store i (v ∷ []))
          (sym (last_store-append i (v ∷ []) (w ∷ us)) ∙ h i))
      e slot
