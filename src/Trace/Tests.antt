-- ===== src/Trace/Tests.antt =====
-- Examples of reading one step, with a decoder of hexadecimal text.
use gas_analyzer.Trace.{
  copy_memory, strip_0x, decode_op, parse_trace_memory, append_state_update_from_struct_log,
}
use gas_analyzer.Trace.Memory.{window, copy_memory-window}
use gas_analyzer.Trace.Append.{lean_struct_log, append-lean_struct_log}
use gas_analyzer.Evm.{StructLog, Op}
use gas_analyzer.Prelude.Results.{ok}
use gas_analyzer.Prelude.{
  ℕ, ◌+◌, ◌-◌, ◌*◌, ◌≡◌, refl, false, ◌&&◌, Option, none, some, List, [], ◌∷◌, arith, leb,
  if◌then◌else◌,
}
use gas_analyzer.Prelude.Bytes.{Bytes}
use gas_analyzer.Types.{log1}

copy_memory-window_example : copy_memory (1 ∷ 2 ∷ 3 ∷ []) 2 4 ≡ window (1 ∷ 2 ∷ 3 ∷ []) 2 4
copy_memory-window_example = copy_memory-window (1 ∷ 2 ∷ 3 ∷ []) 2 4 (omega arith)

abbrev pub hex_digit : ℕ → Option ℕ
hex_digit c =
    if leb b'0' c && leb c b'9'
    then some (c - b'0')
    else (if leb b'a' c && leb c b'f' then some (c - b'a' + 10) else none)

abbrev pub pair_digits : Option ℕ → Option ℕ → Option Bytes → Option Bytes
pair_digits (some hi) (some lo) (some rest) = some ((hi * 16 + lo) ∷ rest)
pair_digits _ _ _ = none

abbrev pub hex_decode : List ℕ → Option Bytes
hex_decode [] = some []
hex_decode (c ∷ []) = none
hex_decode (c ∷ d ∷ text) = pair_digits (hex_digit c) (hex_digit d) (hex_decode text)

abbrev pub step_at : ℕ → Op → ℕ → List ℕ → StructLog
step_at depth op gas stack = record {
  depth = depth;
  op = op;
  gas = gas;
  gas_cost = 100;
  stack = some stack;
  memory = some ((b'0' ∷ b'x' ∷ b'2' ∷ b'a' ∷ []) ∷ []);
  refund_counter = none;
  has_error = false;
}

-- A `LOG1` of one byte.
log_at_zero :
    append_state_update_from_struct_log hex_decode [] (step_at 1 Op.log1 500 (9 ∷ 1 ∷ 0 ∷ []))
    ≡ ok (log1 (record { log_data = 42 ∷ []; topic1 = 9 }) ∷ [], none)
unfolding append_state_update_from_struct_log parse_trace_memory strip_0x decode_op copy_memory
log_at_zero = refl

pub sample_memory :
    parse_trace_memory hex_decode ((b'0' ∷ b'x' ∷ b'2' ∷ b'a' ∷ []) ∷ []) ≡ some (42 ∷ [])
unfolding parse_trace_memory strip_0x
sample_memory = refl

append-lean_struct_log_example :
    append_state_update_from_struct_log hex_decode []
      (lean_struct_log (step_at 1 Op.sstore 500 (7 ∷ 1 ∷ [])))
    ≡ append_state_update_from_struct_log hex_decode [] (step_at 1 Op.sstore 500 (7 ∷ 1 ∷ []))
append-lean_struct_log_example =
    append-lean_struct_log hex_decode [] (step_at 1 Op.sstore 500 (7 ∷ 1 ∷ []))
      (42 ∷ [], sample_memory)
