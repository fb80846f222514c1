-- ===== src/Types.antt =====
-- The operations of a state-update program (crates/core/src/types.rs). A `bytes32`, a `uint256`
-- and an `address` are numbers; `bytes` is a list of byte values.
pub mod Tag
use gas_analyzer.Prelude.{ℕ}
use gas_analyzer.Prelude.Bytes.{Bytes}

pub record Store : Type 0 where
  pub slot : ℕ
  pub value : ℕ

pub record Call : Type 0 where
  pub target : ℕ
  pub value : ℕ
  pub callargs : Bytes

pub record Log0 : Type 0 where
  pub log_data : Bytes

pub record Log1 : Type 0 where
  pub log_data : Bytes
  pub topic1 : ℕ

pub record Log2 : Type 0 where
  pub log_data : Bytes
  pub topic1 : ℕ
  pub topic2 : ℕ

pub record Log3 : Type 0 where
  pub log_data : Bytes
  pub topic1 : ℕ
  pub topic2 : ℕ
  pub topic3 : ℕ

pub record Log4 : Type 0 where
  pub log_data : Bytes
  pub topic1 : ℕ
  pub topic2 : ℕ
  pub topic3 : ℕ
  pub topic4 : ℕ

pub record Create : Type 0 where
  pub value : ℕ
  pub initcode : Bytes

pub record Create2 : Type 0 where
  pub salt : ℕ
  pub value : ℕ
  pub initcode : Bytes

pub record Nested : Type 0 where
  pub target : ℕ
  pub value : ℕ
  pub child_leaf : ℕ

pub data StateUpdate : Type 0 where
  store : Store → StateUpdate
  call : Call → StateUpdate
  log0 : Log0 → StateUpdate
  log1 : Log1 → StateUpdate
  log2 : Log2 → StateUpdate
  log3 : Log3 → StateUpdate
  log4 : Log4 → StateUpdate
  create : Create → StateUpdate
  create2 : Create2 → StateUpdate
  nested : Nested → StateUpdate
