-- ===== src/Encoding/Length.antt =====
-- How long an encoded program is.
use mathlib.Core.List.{flatten}
use gas_analyzer.Prelude.{
  ℕ, zero, ◌+◌, ◌-◌, ◌*◌, ◌≡◌, refl, ◌∙◌, List, [], ◌∷◌, ◌++◌, map, arith, length, replicate,
  length-append, length-replicate, length-map,
}
use gas_analyzer.Prelude.Bytes.{Bytes, length-be_bytes}
use gas_analyzer.Types.Tag.{discriminant, StateUpdateType}
use gas_analyzer.Encoding.{
  AbiSequence, update_type, update_data, write_u256_word, pad32_len, encode_bytes, write_offsets,
  encode_bytes_array, write_types, encode_types, encode_state_updates_to_abi,
}
use gas_analyzer.Types.{StateUpdate}

pub length-write_u256_word : (n : ℕ) → length (write_u256_word n) ≡ 32
unfolding write_u256_word
length-write_u256_word n = omega (arith, length-be_bytes 16 n)

pub length-encode_bytes : (v : Bytes) → length (encode_bytes v) ≡ 32 + pad32_len (length v)
unfolding encode_bytes
length-encode_bytes v = omega (
  arith,
  length-append (write_u256_word (length v)) (v ++ pad),
  length-append v pad,
  length-write_u256_word (length v),
  length-replicate (pad32_len (length v) - length v) zero,
)
  where
    pad : Bytes
    pad = replicate (pad32_len (length v) - length v) 0

pub length-write_offsets :
    (o : ℕ) (encs : List Bytes) → length (write_offsets o encs) ≡ 32 * length encs
unfolding write_offsets
length-write_offsets o [] = omega arith
length-write_offsets o (enc ∷ encs) =
    length-append (write_u256_word o) (write_offsets (o + length enc) encs)
    ∙ omega (arith, length-write_u256_word o, length-write_offsets (o + length enc) encs)

length-write_types : (types : List StateUpdateType) → length (write_types types) ≡ 32 * length types
unfolding write_types
length-write_types [] = omega arith
length-write_types (t ∷ types) =
    length-append (write_u256_word (discriminant t)) (write_types types)
    ∙ omega (arith, length-write_u256_word (discriminant t), length-write_types types)

pub length-encode_types :
    (types : List StateUpdateType) → length (encode_types types) ≡ 32 + 32 * length types
unfolding encode_types
length-encode_types types =
    length-append (write_u256_word (length types)) (write_types types)
    ∙ omega (arith, length-write_u256_word (length types), length-write_types types)

-- What the bodies of the elements take, each one its length and its padded data.
abbrev pub bodies_size : List Bytes → ℕ
bodies_size [] = 0
bodies_size (v ∷ vs) = 32 + pad32_len (length v) + bodies_size vs

pub length-flatten : (vs : List Bytes) → length (flatten (map encode_bytes vs)) ≡ bodies_size vs
unfolding flatten
length-flatten [] = refl
length-flatten (v ∷ vs) =
    length-append (encode_bytes v) (flatten (map encode_bytes vs))
    ∙ omega (arith, length-encode_bytes v, length-flatten vs)

pub length-encode_bytes_array :
    (vs : List Bytes) → length (encode_bytes_array vs) ≡ 32 + 32 * length vs + bodies_size vs
unfolding encode_bytes_array
length-encode_bytes_array vs =
    length-append (write_u256_word (length vs)) (offsets ++ flatten encs)
    ∙ omega (
      arith,
      length-append offsets (flatten encs),
      length-write_u256_word (length vs),
      length-write_offsets (32 * length vs) encs,
      length-map vs encode_bytes,
      length-flatten vs,
    )
  where
    encs : List Bytes
    encs = map encode_bytes vs

    offsets : Bytes
    offsets = write_offsets (32 * length vs) encs

-- What one update adds to an encoded program: its tag, its offset, its length and its padded data.
abbrev pub update_size : AbiSequence → StateUpdate → ℕ
update_size abi u = 96 + pad32_len (length (update_data abi u))

abbrev pub program_size : AbiSequence → List StateUpdate → ℕ
program_size abi [] = 0
program_size abi (u ∷ us) = update_size abi u + program_size abi us

bodies_size_lem :
    (abi : AbiSequence) (us : List StateUpdate)
    → 64 * length us + bodies_size (map (update_data abi) us) ≡ program_size abi us
bodies_size_lem abi [] = omega arith
bodies_size_lem abi (u ∷ us) = omega (arith, bodies_size_lem abi us)

-- An encoded program is four words and, for each update, three words and its padded data.
pub length-encode_state_updates_to_abi :
    (abi : AbiSequence) (us : List StateUpdate)
    → length (encode_state_updates_to_abi abi us) ≡ 128 + program_size abi us
unfolding encode_state_updates_to_abi
length-encode_state_updates_to_abi abi us = omega (
  arith,
  length-append (write_u256_word 64) (write_u256_word (64 + length types) ++ (types ++ datas)),
  length-append (write_u256_word (64 + length types)) (types ++ datas),
  length-append types datas,
  length-write_u256_word 64,
  length-write_u256_word (64 + length types),
  length-encode_types (map update_type us),
  length-map us update_type,
  length-encode_bytes_array (map (update_data abi) us),
  length-map us (update_data abi),
  bodies_size_lem abi us,
)
  where
    types : Bytes
    types = encode_types (map update_type us)

    datas : Bytes
    datas = encode_bytes_array (map (update_data abi) us)
