-- ===== src/Indexer.antt =====
-- The jobs of the indexer (crates/indexer-service/src/queue.rs). Redis is not modelled: the worker
-- and the head tracker are given what it answers, and say which jobs they push to it. A time is a
-- number of seconds since 1970, none before it.
pub mod Worker
pub mod HeadTracker
pub mod Retries
pub mod Pushed
pub mod Fanout
pub mod Rounds
pub mod Cursor
pub mod Tests
use gas_analyzer.Prelude.{ℕ, ◌+◌, ◌-◌, ◌%◌, Option, none, some, ltb, if◌then◌else◌}

pub record AnalyzeTxJob : Type 0 where
  pub chain_id : ℕ
  pub tx_hash : ℕ
  pub block_number : ℕ
  pub tx_index : ℕ
  pub attempt : ℕ
  pub enqueued_at : ℕ

-- A job from the future is of age 0 here and of negative age there; neither is above a limit.
unfoldable pub age_secs : AnalyzeTxJob → ℕ → Option ℕ
age_secs job now = if ltb 0 job.enqueued_at then some (now - job.enqueued_at) else none

abbrev pub u32_mod : ℕ
u32_mod = 4294967296

-- `attempt + 1` wraps in a release build.
unfoldable pub next_attempt : AnalyzeTxJob → AnalyzeTxJob
next_attempt job = record job { attempt = (job.attempt + 1) % u32_mod }
