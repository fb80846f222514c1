-- ===== src/Indexer/Tests.antt =====
-- Examples of jobs and of the head tracker.
use gas_analyzer.Indexer.{AnalyzeTxJob, age_secs, next_attempt}
use gas_analyzer.Indexer.Worker.{
  WorkerConfig, is_expired, handle, process, failed, dead_lettered, requeued,
}
use gas_analyzer.Indexer.HeadTracker.{
  HeadTrackerConfig, Transaction, Seen, Round, start_tracker, skip_ahead, jobs_from, push,
  take_block, round, track,
}
use gas_analyzer.Indexer.Retries.{Claim, lifetime, EndsWithin, lifetime-EndsWithin}
use gas_analyzer.Indexer.Fanout.{AllFanOut, track-AllFanOut}
use gas_analyzer.Indexer.Cursor.{Accounts, track-Accounts, round_lag}
use gas_analyzer.Prelude.Results.{ok}
use gas_analyzer.Prelude.{
  ℕ, ◌+◌, ◌-◌, ◌≤◌, ◌<◌, ◌≡◌, refl, true, Option, none, some, List, [], ◌∷◌, arith, u64_max,
}

abbrev job : AnalyzeTxJob
job = record {
  chain_id = 1;
  tx_hash = 7;
  block_number = 100;
  tx_index = 3;
  attempt = 0;
  enqueued_at = 900;
}

abbrev three_tries : WorkerConfig
three_tries = record { queue_job_ttl_secs = 3600; max_retries = 3 }

abbrev failing : Claim
failing = record { now = 1000; analysis = failed; stored = true }

abbrev failing_claims : List Claim
failing_claims = failing ∷ failing ∷ failing ∷ []

dies :
    lifetime three_tries failing_claims job
    ≡ requeued (record job { attempt = 1 })
      ∷ requeued (record job { attempt = 2 })
      ∷ dead_lettered
      ∷ []
unfolding lifetime process is_expired handle age_secs next_attempt
dies = refl

lifetime-EndsWithin_example : EndsWithin 3 (lifetime three_tries failing_claims job)
lifetime-EndsWithin_example =
    lifetime-EndsWithin three_tries failing_claims job (omega arith) (omega arith) (omega arith)

abbrev bounded : HeadTrackerConfig
bounded = record { max_queue_depth = 50; max_blocks_behind = 5; chain_id = 1 }

-- A call, a create and another call.
abbrev txs : List Transaction
txs =
    record { tx_hash = 70; to = some 8 }
    ∷ record { tx_hash = 71; to = none }
    ∷ record { tx_hash = 72; to = some 9 }
    ∷ []

abbrev at_head : ℕ → ℕ → ℕ → Seen
at_head head depth accepted = record {
  head = some head;
  depth = some depth;
  block = some txs;
  clock = λ idx. 900 + idx;
  accepted = accepted;
}

-- The second push fails, the block is pushed again, and the tracker then skips ahead.
abbrev seen : List Seen
seen = at_head 101 0 1 ∷ at_head 101 0 9 ∷ at_head 120 60 9 ∷ at_head 120 9 0 ∷ []

abbrev pushed_job : ℕ → ℕ → AnalyzeTxJob
pushed_job hash idx = record {
  chain_id = 1;
  tx_hash = hash;
  block_number = 101;
  tx_index = idx;
  attempt = 0;
  enqueued_at = 900 + idx;
}

tracked : track bounded seen (start_tracker 100) ≡ record {
  pushed = pushed_job 70 0 ∷ pushed_job 70 0 ∷ pushed_job 72 2 ∷ [];
  completed = 101 ∷ [];
  tracker = record { next_block = 115; skipped_blocks = 13 };
}
unfolding track round take_block skip_ahead start_tracker push jobs_from
tracked = refl

below_max : (n head : ℕ) → n < u64_max → ◌≡◌ {A = Option ℕ} (some n) (some head) → head < u64_max
below_max n head h e = let same : n ≡ head = cc in omega (arith, same, h)

track-Accounts_example : Accounts (start_tracker 100) (track bounded seen (start_tracker 100))
track-Accounts_example = track-Accounts bounded 100 seen (omega arith) (
  (λ head e. below_max 101 head (omega arith) e),
  (
    (λ head e. below_max 101 head (omega arith) e),
    (
      (λ head e. below_max 120 head (omega arith) e),
      ((λ head e. below_max 120 head (omega arith) e), tt),
    ),
  ),
)

track-AllFanOut_example : AllFanOut 1 seen (track bounded seen (start_tracker 100))
track-AllFanOut_example = track-AllFanOut bounded seen (start_tracker 100)

round_lag_example :
    (r : Round) × (round bounded (at_head 120 9 9) (record { next_block = 102; skipped_blocks = 0 })
      ≡ ok r)
    × (120 - r.tracker.next_block ≤ 5)
round_lag_example =
    round_lag bounded 120 9 (some txs) (λ idx. 900 + idx) 9
      (record { next_block = 102; skipped_blocks = 0 }) (omega arith) (omega arith) (omega arith)
