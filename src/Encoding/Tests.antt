-- ===== src/Encoding/Tests.antt =====
-- Examples of the encoding, with the fields of each struct as alloy lays them out.
use gas_analyzer.Encoding.{
  AbiSequence, update_type, update_data, write_u256_word, encode_bytes, encode_state_updates_to_abi,
}
use gas_analyzer.Encoding.Length.{program_size, length-encode_state_updates_to_abi}
use gas_analyzer.Encoding.Abi.{decode}
use gas_analyzer.Encoding.Roundtrip.{decode-encode_state_updates_to_abi}
use gas_analyzer.Prelude.{
  ℕ, ◌+◌, ◌*◌, ◌<◌, ◌≡◌, some, List, [], ◌∷◌, ◌++◌, map, arith, length, u64_mod,
}
use gas_analyzer.Prelude.Bytes.{Bytes, be_bytes}
use gas_analyzer.Types.{StateUpdate, store, log1}
use gas_analyzer.Types.Tag.{discriminant}

-- A word and, after the head, one dynamic field.
abbrev pub word : ℕ → Bytes
word n = be_bytes 32 n

unfoldable pub tail_bytes : Bytes → Bytes
unfolding encode_bytes write_u256_word
tail_bytes payload = encode_bytes payload

abbrev pub alloy : AbiSequence
alloy = record {
  store = λ x. word x.slot ++ word x.value;
  call = λ x. word x.target ++ (word x.value ++ (word 96 ++ tail_bytes x.callargs));
  log0 = λ x. word 32 ++ tail_bytes x.log_data;
  log1 = λ x. word 64 ++ (word x.topic1 ++ tail_bytes x.log_data);
  log2 = λ x. word 96 ++ (word x.topic1 ++ (word x.topic2 ++ tail_bytes x.log_data));
  log3 = λ x.
      word 128 ++ (word x.topic1 ++ (word x.topic2 ++ (word x.topic3 ++ tail_bytes x.log_data)));
  log4 = λ x.
      word 160
      ++ (word x.topic1
          ++ (word x.topic2 ++ (word x.topic3 ++ (word x.topic4 ++ tail_bytes x.log_data))));
  create = λ x. word x.value ++ (word 64 ++ tail_bytes x.initcode);
  create2 = λ x. word x.salt ++ (word x.value ++ (word 96 ++ tail_bytes x.initcode));
  nested = λ x. word x.target ++ (word x.value ++ word x.child_leaf);
}

abbrev pub one_store_one_log : List StateUpdate
one_store_one_log =
    store (record { slot = 1; value = 42 })
    ∷ log1 (record { log_data = 7 ∷ 0 ∷ []; topic1 = 9 })
    ∷ []

length-encode_state_updates_to_abi_example :
    length (encode_state_updates_to_abi alloy one_store_one_log)
    ≡ 128 + program_size alloy one_store_one_log
length-encode_state_updates_to_abi_example =
    length-encode_state_updates_to_abi alloy one_store_one_log

pub encoded_length : length (encode_state_updates_to_abi alloy one_store_one_log) ≡ 512
unfolding tail_bytes encode_bytes write_u256_word be_bytes
encoded_length = length-encode_state_updates_to_abi alloy one_store_one_log

pub small_program : 16 * length (encode_state_updates_to_abi alloy one_store_one_log) < u64_mod
small_program = omega (arith, encoded_length)

decode-encode_state_updates_to_abi_example :
    decode (encode_state_updates_to_abi alloy one_store_one_log)
    ≡ some (
      map (λ u. discriminant (update_type u)) one_store_one_log,
      map (update_data alloy) one_store_one_log,
    )
decode-encode_state_updates_to_abi_example =
    decode-encode_state_updates_to_abi alloy one_store_one_log (omega (arith, small_program))
