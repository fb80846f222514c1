-- ===== src/Evm.antt =====
-- What a struct-log trace holds (alloy's `DefaultFrame` and `StructLog`, the fields that the code
-- reads). A mnemonic that the code compares with has a constructor of its own; `other` is any
-- other one.
use gas_analyzer.Prelude.{ℕ, ◌%◌, Bool, Option, List}
use gas_analyzer.Prelude.Bytes.{Bytes}

pub data Op : Type 0 where
  call staticcall delegatecall callcode create create2 sstore tstore selfdestruct : Op
  log0 log1 log2 log3 log4 : Op
  other : ℕ → Op

-- The stack and the memory have their bottom first. A memory word is a text of hexadecimal digits.
pub record StructLog : Type 0 where
  pub depth : ℕ
  pub op : Op
  pub gas : ℕ
  pub gas_cost : ℕ
  pub stack : Option (List ℕ)
  pub memory : Option (List (List ℕ))
  pub refund_counter : Option ℕ
  pub has_error : Bool

pub record DefaultFrame : Type 0 where
  pub failed : Bool
  pub return_value : Bytes
  pub struct_logs : List StructLog

-- `Address::from_word`: the low 20 bytes.
abbrev pub address_from_word : ℕ → ℕ
address_from_word word = word % 1461501637330902918203684832716283019655932542976
