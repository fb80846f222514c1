-- ===== src/Trace.antt =====
-- Reading one step of a struct-log trace (crates/core/src/trace.rs, up to
-- `append_state_update_from_struct_log`). The crate `hex` is the parameter `decode_to_slice`,
-- which fails on a text of odd length and on any character that is no digit.
pub mod Memory
pub mod Append
pub mod Tests
use mathlib.Core.List.{reverse}
use gas_analyzer.Prelude.Options
use gas_analyzer.Prelude.Results.{◌>>=◌, ◌>>◌, ok_or, refuse_if, Result, ok, err}
use gas_analyzer.Evm.{StructLog, address_from_word, Op}
use gas_analyzer.Failure.{Failure, panic, missing_memory, unexpected_opcode}
use gas_analyzer.Prelude.{
  ℕ, ◌-◌, min, Bool, true, false, ◌&&◌, Option, none, some, List, [], ◌∷◌, ◌++◌, ltb, leb, ◌==◌,
  if◌then◌else◌, length, get_elem?, take, drop, replicate, u64_mod, saturating_add,
}
use gas_analyzer.Prelude.Bytes.{Bytes}
use gas_analyzer.Types.{StateUpdate, store, call, log0, log1, log2, log3, log4, create, create2}

-- Out of range the rest is zero. Allocation does not fail here.
unfoldable pub copy_memory : Bytes → ℕ → ℕ → Bytes
copy_memory memory offset len =
    let end = saturating_add offset len in
    let copy_len = min (length memory - offset) len in
    if leb end (length memory)
    then take (end - offset) (drop offset memory)
    else if ltb offset (length memory)
    then take copy_len (drop offset memory) ++ replicate (len - copy_len) 0
    else replicate len 0

-- `s.strip_prefix("0x").unwrap_or(s)`
unfoldable pub strip_0x : List ℕ → List ℕ
strip_0x [] = []
strip_0x (c ∷ []) = c ∷ []
strip_0x (c ∷ d ∷ s) = if c == b'0' && (d == b'x') then s else c ∷ d ∷ s

unfoldable pub reads_memory : Op → Bool
reads_memory Op.create = true
reads_memory Op.create2 = true
reads_memory Op.call = true
reads_memory Op.log0 = true
reads_memory Op.log1 = true
reads_memory Op.log2 = true
reads_memory Op.log3 = true
reads_memory Op.log4 = true
reads_memory _ = false

-- The opcodes whose missing memory is an error at depth 1.
unfoldable pub requires_memory : Op → Bool
requires_memory Op.call = true
requires_memory Op.log0 = true
requires_memory Op.log1 = true
requires_memory Op.log2 = true
requires_memory Op.log3 = true
requires_memory Op.log4 = true
requires_memory _ = false

-- `stack[i]`
abbrev pub stack_item : List ℕ → ℕ → Result Failure ℕ
stack_item stack i = ok_or (get_elem? stack i) panic

-- `stack[i].try_into().expect(…)` into a `usize`
abbrev pub stack_usize : List ℕ → ℕ → Result Failure ℕ
stack_usize stack i = do item ← stack_item stack i; refuse_if (leb u64_mod item) panic; ok item

abbrev pub memory_slice : List ℕ → Bytes → ℕ → ℕ → Result Failure Bytes
memory_slice stack memory offset_at length_at = do
  offset ← stack_usize stack offset_at
  len ← stack_usize stack length_at
  ok (copy_memory memory offset len)

-- The body of the `match` on the opcode: the update that it pushes, if any, or the opcode that it
-- skips. The stack has its top first.
pub data Decoded : Type 0 where
  push : StateUpdate → Decoded
  skip : Op → Decoded
  ignore : Decoded

unfoldable pub decode_op : Op → List ℕ → Bytes → Result Failure Decoded
decode_op Op.selfdestruct stack memory = ok (skip Op.selfdestruct)
decode_op Op.tstore stack memory = ok (skip Op.tstore)
decode_op Op.create stack memory = do
  value ← stack_item stack 0
  initcode ← memory_slice stack memory 1 2
  ok (push (create (record { value = value; initcode = initcode })))
decode_op Op.create2 stack memory = do
  value ← stack_item stack 0
  initcode ← memory_slice stack memory 1 2
  salt ← stack_item stack 3
  ok (push (create2 (record { salt = salt; value = value; initcode = initcode })))
decode_op Op.delegatecall stack memory = err (unexpected_opcode Op.delegatecall)
decode_op Op.callcode stack memory = err (unexpected_opcode Op.callcode)
decode_op Op.sstore stack memory = do
  slot ← stack_item stack 0
  value ← stack_item stack 1
  ok (push (store (record { slot = slot; value = value })))
decode_op Op.call stack memory = do
  args ← memory_slice stack memory 3 4
  target ← stack_item stack 1
  value ← stack_item stack 2
  ok (push (call (record { target = address_from_word target; value = value; callargs = args })))
decode_op Op.log0 stack memory = do
  payload ← memory_slice stack memory 0 1
  ok (push (log0 (record { log_data = payload })))
decode_op Op.log1 stack memory = do
  payload ← memory_slice stack memory 0 1
  topic1 ← stack_item stack 2
  ok (push (log1 (record { log_data = payload; topic1 = topic1 })))
decode_op Op.log2 stack memory = do
  payload ← memory_slice stack memory 0 1
  topic1 ← stack_item stack 2
  topic2 ← stack_item stack 3
  ok (push (log2 (record { log_data = payload; topic1 = topic1; topic2 = topic2 })))
decode_op Op.log3 stack memory = do
  payload ← memory_slice stack memory 0 1
  topic1 ← stack_item stack 2
  topic2 ← stack_item stack 3
  topic3 ← stack_item stack 4
  ok (
      push
        (log3 (record { log_data = payload; topic1 = topic1; topic2 = topic2; topic3 = topic3 })))
decode_op Op.log4 stack memory = do
  payload ← memory_slice stack memory 0 1
  topic1 ← stack_item stack 2
  topic2 ← stack_item stack 3
  topic3 ← stack_item stack 4
  topic4 ← stack_item stack 5
  ok (
      push (
        log4 (record {
          log_data = payload;
          topic1 = topic1;
          topic2 = topic2;
          topic3 = topic3;
          topic4 = topic4;
        })))
decode_op _ stack memory = ok ignore

-- The list after the step, and the opcode that was skipped.
abbrev pub apply_decoded : List StateUpdate → Decoded → List StateUpdate × Option Op
apply_decoded state_updates (push update) = (state_updates ++ (update ∷ []), none)
apply_decoded state_updates (skip op) = (state_updates, some op)
apply_decoded state_updates ignore = (state_updates, none)

module _ (decode_to_slice : List ℕ → Option Bytes) where
  -- `none` is the panic of `expect("invalid hex")`.
  unfoldable pub parse_trace_memory : List (List ℕ) → Option Bytes
  parse_trace_memory [] = some []
  parse_trace_memory (s ∷ memory) =
      Options.◌>>=◌ (decode_to_slice (strip_0x s))
        λ word. Options.◌>>=◌ (parse_trace_memory memory) λ rest. some (word ++ rest)

  abbrev pub decode_at : StructLog → List ℕ → Option (List (List ℕ)) → Result Failure Decoded
  decode_at struct_log stack (some memory) = do
    bytes ← ok_or (parse_trace_memory memory) panic
    decode_op struct_log.op stack bytes
  decode_at struct_log stack none = do
    refuse_if (requires_memory struct_log.op && (struct_log.depth == 1))
        (missing_memory struct_log.op)
    ok ignore

  unfoldable pub append_state_update_from_struct_log :
      List StateUpdate → StructLog → Result Failure (List StateUpdate × Option Op)
  append_state_update_from_struct_log state_updates struct_log = do
    stack ← ok_or struct_log.stack panic
    decoded ← decode_at struct_log (reverse stack) struct_log.memory
    ok (apply_decoded state_updates decoded)
