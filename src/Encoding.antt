-- ===== src/Encoding.antt =====
-- The ABI encoding of a state-update program (crates/core/src/encoding.rs). What alloy encodes,
-- the fields of each struct, is the parameter `AbiSequence`; the framing is the code's own.
pub mod Abi
pub mod Length
pub mod Roundtrip
pub mod Tests
use mathlib.Core.List.{flatten}
use gas_analyzer.Prelude.{ℕ, ◌+◌, ◌-◌, ◌*◌, ◌/◌, List, [], ◌∷◌, ◌++◌, map, length, replicate}
use gas_analyzer.Prelude.Bytes.{Bytes, be_bytes}
use gas_analyzer.Types.{
  Store, Call, Log0, Log1, Log2, Log3, Log4, Create, Create2, Nested, StateUpdate, store, call,
  log0, log1, log2, log3, log4, create, create2, nested,
}
use gas_analyzer.Types.Tag.{discriminant, StateUpdateType}

-- `abi_encode_sequence` of each struct.
pub record AbiSequence : Type 0 where
  pub store : Store → Bytes
  pub call : Call → Bytes
  pub log0 : Log0 → Bytes
  pub log1 : Log1 → Bytes
  pub log2 : Log2 → Bytes
  pub log3 : Log3 → Bytes
  pub log4 : Log4 → Bytes
  pub create : Create → Bytes
  pub create2 : Create2 → Bytes
  pub nested : Nested → Bytes

abbrev pub update_type : StateUpdate → StateUpdateType
update_type (store x) = StateUpdateType.store
update_type (call x) = StateUpdateType.call
update_type (log0 x) = StateUpdateType.log0
update_type (log1 x) = StateUpdateType.log1
update_type (log2 x) = StateUpdateType.log2
update_type (log3 x) = StateUpdateType.log3
update_type (log4 x) = StateUpdateType.log4
update_type (create x) = StateUpdateType.create
update_type (create2 x) = StateUpdateType.create2
update_type (nested x) = StateUpdateType.nested

abbrev pub update_data : AbiSequence → StateUpdate → Bytes
update_data abi (store x) = abi.store x
update_data abi (call x) = abi.call x
update_data abi (log0 x) = abi.log0 x
update_data abi (log1 x) = abi.log1 x
update_data abi (log2 x) = abi.log2 x
update_data abi (log3 x) = abi.log3 x
update_data abi (log4 x) = abi.log4 x
update_data abi (create x) = abi.create x
update_data abi (create2 x) = abi.create2 x
update_data abi (nested x) = abi.nested x

unfoldable pub encode_state_updates_to_sol :
    AbiSequence → List StateUpdate → List StateUpdateType × List Bytes
encode_state_updates_to_sol abi state_updates =
    (map update_type state_updates, map (update_data abi) state_updates)

-- A `usize` as the 16 low bytes of a 32-byte word.
unfoldable pub write_u256_word : ℕ → Bytes
write_u256_word value = replicate 16 0 ++ be_bytes 16 value

abbrev pub pad32_len : ℕ → ℕ
pad32_len len = (len + 31) / 32 * 32

unfoldable pub encode_bytes : Bytes → Bytes
encode_bytes value =
    write_u256_word (length value)
    ++ (value ++ replicate (pad32_len (length value) - length value) 0)

-- The loop over the encoded elements that writes where each one starts. `running_offset` sums
-- lengths of vectors that are in memory, so it does not wrap.
unfoldable pub write_offsets : ℕ → List Bytes → Bytes
write_offsets running_offset [] = []
write_offsets running_offset (enc ∷ encs) =
    write_u256_word running_offset ++ write_offsets (running_offset + length enc) encs

unfoldable pub encode_bytes_array : List Bytes → Bytes
encode_bytes_array values =
    let encoded_elements = map encode_bytes values in
    write_u256_word (length values)
    ++ (write_offsets (32 * length values) encoded_elements ++ flatten encoded_elements)

-- The loop over the enum values: each one fills a word.
unfoldable pub write_types : List StateUpdateType → Bytes
write_types [] = []
write_types (enum_val ∷ types) = write_u256_word (discriminant enum_val) ++ write_types types

-- `StateUpdateType[]`
unfoldable pub encode_types : List StateUpdateType → Bytes
encode_types types = write_u256_word (length types) ++ write_types types

unfoldable pub encode_state_updates_to_abi : AbiSequence → List StateUpdate → Bytes
unfolding encode_state_updates_to_sol
encode_state_updates_to_abi abi state_updates =
    let (types, datas) = encode_state_updates_to_sol abi state_updates in
    let types_payload = encode_types types in
    let datas_payload = encode_bytes_array datas in
    write_u256_word 64
    ++ (write_u256_word (64 + length types_payload) ++ (types_payload ++ datas_payload))
