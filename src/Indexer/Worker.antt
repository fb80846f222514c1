-- ===== src/Indexer/Worker.antt =====
-- The worker (crates/indexer-service/src/worker.rs): what becomes of a job that is claimed. The
-- analysis, the store and Redis give their outcomes as arguments.
use gas_analyzer.Indexer.{AnalyzeTxJob, age_secs, u32_mod, next_attempt}
use gas_analyzer.Prelude.{ℕ, ◌+◌, ◌%◌, Bool, false, ◌&&◌, none, some, ltb, if◌then◌else◌}

pub record WorkerConfig : Type 0 where
  pub queue_job_ttl_secs : ℕ
  pub max_retries : ℕ

-- What the analysis of a transaction gives, a timeout being a failure.
pub data Analysis : Type 0 where
  report skipped failed : Analysis

-- What becomes of a job. `lost` is a call of the store or of Redis that failed: the error is
-- logged, and the job is in no list.
pub data Fate : Type 0 where
  persisted passed_over expired dead_lettered lost : Fate
  requeued : AnalyzeTxJob → Fate

-- `as i64`: a limit from 2 ^ 63 on is negative, which turns the check off as 0 does.
abbrev pub ttl_secs : WorkerConfig → ℕ
ttl_secs cfg = if ltb cfg.queue_job_ttl_secs 9223372036854775808 then cfg.queue_job_ttl_secs else 0

unfoldable pub is_expired : WorkerConfig → AnalyzeTxJob → ℕ → Bool
is_expired cfg job now =
    ltb 0 (ttl_secs cfg)
    && (elim (age_secs job now) [ none ↦ false | some age ↦ ltb (ttl_secs cfg) age ])

-- `stored`: the calls that follow the analysis succeed.
unfoldable pub handle : WorkerConfig → AnalyzeTxJob → Analysis → Bool → Fate
handle cfg job report stored = if stored then persisted else lost
handle cfg job skipped stored = passed_over
handle cfg job failed stored =
    if ltb ((job.attempt + 1) % u32_mod) cfg.max_retries
    then (if stored then requeued (next_attempt job) else lost)
    else (if stored then dead_lettered else lost)

-- One round of the worker's loop for a job that is claimed.
unfoldable pub process : WorkerConfig → AnalyzeTxJob → ℕ → Analysis → Bool → Fate
process cfg job now analysis stored =
    if is_expired cfg job now then expired else handle cfg job analysis stored
