-- ===== src/Failure.antt =====
-- How the extraction of a program fails: each `bail!` by what it reports, and a panic (an
-- `expect`, an `unwrap` or an index out of bounds). A loop on fuel ends with `out_of_fuel`. The
-- constructors from `zero_depth` on are those of the split into frames
-- (crates/core/src/nested.rs).
use gas_analyzer.Evm.{Op}
use gas_analyzer.Prelude.{ℕ, Option}
use gas_analyzer.Types.{StateUpdate}

pub data Failure : Type 0 where
  panic : Failure
  missing_memory : Op → Failure
  unexpected_opcode : Op → Failure
  failed_create : ℕ → Failure
  never_returned : Failure
  out_of_fuel : Failure
  zero_depth : ℕ → Failure
  short_stack : ℕ → Failure
  no_frame_opened : ℕ → Failure
  depth_jumped : ℕ → ℕ → Failure
  no_resume_stack : ℕ → Failure
  empty_resume_stack : ℕ → Failure
  no_nested_op : Option StateUpdate → Failure
  no_stack : Op → Failure
  no_update : Failure
  unclosed_frames : ℕ → Failure
