-- ===== src/Types/Tag.antt =====
-- The tags that the handler contract dispatches on (crates/core/src/types.rs).
use gas_analyzer.Prelude.{ℕ}

pub data StateUpdateType : Type 0 where
  store call log0 log1 log2 log3 log4 create create2 nested : StateUpdateType

-- `as u8`: the position in the declaration.
abbrev pub discriminant : StateUpdateType → ℕ
discriminant store = 0
discriminant call = 1
discriminant log0 = 2
discriminant log1 = 3
discriminant log2 = 4
discriminant log3 = 5
discriminant log4 = 6
discriminant create = 7
discriminant create2 = 8
discriminant nested = 9
