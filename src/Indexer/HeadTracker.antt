-- ===== src/Indexer/HeadTracker.antt =====
-- The head tracker (crates/indexer-service/src/head_tracker.rs): one round of its loop. What the node
-- and Redis answer are arguments; a failure to read the head or the queue's depth ends the tracker, and
-- a push that fails leaves nothing in the queue. `chain_id` stands in the common configuration.
use gas_analyzer.Indexer.{AnalyzeTxJob}
use gas_analyzer.Prelude.Results.{◌>>=◌, ok_or, Result, ok, err}
use gas_analyzer.Prelude.{
  ℕ, zero, suc, ◌+◌, ◌-◌, Bool, true, false, ◌&&◌, Option, none, some, List, [], ◌∷◌, ◌++◌, ltb,
  if◌then◌else◌, is_some, ◌+64◌,
}

pub record HeadTrackerConfig : Type 0 where
  pub max_queue_depth : ℕ
  pub max_blocks_behind : ℕ
  pub chain_id : ℕ

pub record Tracker : Type 0 where
  pub next_block : ℕ
  pub skipped_blocks : ℕ

-- A transaction's hash and what it calls, which a create has not.
pub record Transaction : Type 0 where
  pub tx_hash : ℕ
  pub to : Option ℕ

-- What a round sees: the chain's head, the depth of the queue, the transactions of the next block,
-- the time at each of them, and how many pushes succeed.
pub record Seen : Type 0 where
  pub head : Option ℕ
  pub depth : Option ℕ
  pub block : Option (List Transaction)
  pub clock : ℕ → ℕ
  pub accepted : ℕ

pub data Stop : Type 0 where
  no_head no_depth : Stop

unfoldable pub start_tracker : ℕ → Tracker
start_tracker head = record { next_block = head +64 1; skipped_blocks = 0 }

abbrev pub lags : HeadTrackerConfig → ℕ → Tracker → Bool
lags cfg head t = ltb 0 cfg.max_blocks_behind && ltb cfg.max_blocks_behind (head - t.next_block)

-- Bounded lag: skip ahead.
unfoldable pub skip_ahead : HeadTrackerConfig → ℕ → Tracker → Tracker
skip_ahead cfg head t =
    if lags cfg head t
    then record t {
      skipped_blocks = t.skipped_blocks +64 (head - cfg.max_blocks_behind - t.next_block);
      next_block = head - cfg.max_blocks_behind;
    }
    else t

abbrev pub job_of : ℕ → ℕ → ℕ → ℕ → Transaction → AnalyzeTxJob
job_of chain_id block_number now idx tx = record {
  chain_id = chain_id;
  tx_hash = tx.tx_hash;
  block_number = block_number;
  tx_index = idx;
  attempt = 0;
  enqueued_at = now;
}

-- The jobs of a block, its transactions counted from `idx` on.
unfoldable pub jobs_from : ℕ → ℕ → (ℕ → ℕ) → ℕ → List Transaction → List AnalyzeTxJob
jobs_from chain_id block_number clock idx [] = []
jobs_from chain_id block_number clock idx (tx ∷ txs) =
    let rest = jobs_from chain_id block_number clock (idx + 1) txs in
    if is_some tx.to then job_of chain_id block_number (clock idx) idx tx ∷ rest else rest

-- The jobs that are pushed until a push fails, and whether none does.
unfoldable pub push : ℕ → List AnalyzeTxJob → List AnalyzeTxJob × Bool
push accepted [] = ([], true)
push zero (job ∷ jobs) = ([], false)
push (suc accepted) (job ∷ jobs) = let rest = push accepted jobs in (job ∷ rest.0, rest.1)

-- The jobs of a block that get into the queue, and whether the block is done.
abbrev pub enqueue_block :
    ℕ → ℕ → Option (List Transaction) → (ℕ → ℕ) → ℕ → List AnalyzeTxJob × Bool
enqueue_block chain_id block_number none clock accepted = ([], false)
enqueue_block chain_id block_number (some txs) clock accepted =
    push accepted (jobs_from chain_id block_number clock 0 txs)

-- What a round does: the jobs that it pushes, the block that it completes, if any, and the state after
-- it. A block that is not completed is enqueued again, from its first job on.
pub record Round : Type 0 where
  pub pushed : List AnalyzeTxJob
  pub completed : Option ℕ
  pub tracker : Tracker

abbrev pub idle : Tracker → Round
idle t = record { pushed = []; completed = none; tracker = t }

-- After `enqueue_block`.
abbrev pub settle : Tracker → List AnalyzeTxJob × Bool → Round
settle t (pushed, false) = record { pushed = pushed; completed = none; tracker = t }
settle t (pushed, true) = record {
  pushed = pushed;
  completed = some t.next_block;
  tracker = record t { next_block = t.next_block +64 1 };
}

unfoldable pub take_block : HeadTrackerConfig → ℕ → Seen → Tracker → Round
take_block cfg head seen t =
    if ltb head t.next_block
    then idle t
    else settle t (enqueue_block cfg.chain_id t.next_block seen.block seen.clock seen.accepted)

unfoldable pub round : HeadTrackerConfig → Seen → Tracker → Result Stop Round
round cfg seen t = do
  head ← ok_or seen.head no_head
  depth ← ok_or seen.depth no_depth
  ok (
      if ltb cfg.max_queue_depth depth
      then idle t
      else take_block cfg head seen (skip_ahead cfg head t))

-- What the tracker does until it stops or nothing more is seen: all jobs that it pushes, the blocks
-- that it completes, in the order of the rounds, and its last state.
pub record Run : Type 0 where
  pub pushed : List AnalyzeTxJob
  pub completed : List ℕ
  pub tracker : Tracker

abbrev pub note_block : Option ℕ → List ℕ → List ℕ
note_block none blocks = blocks
note_block (some block) blocks = block ∷ blocks

abbrev pub then_run : Round → Run → Run
then_run r run = record {
  pushed = r.pushed ++ run.pushed;
  completed = note_block r.completed run.completed;
  tracker = run.tracker;
}

abbrev pub stopped : Tracker → Run
stopped t = record { pushed = []; completed = []; tracker = t }

unfoldable pub track : HeadTrackerConfig → List Seen → Tracker → Run
track cfg [] t = stopped t
track cfg (seen ∷ more) t = elim (round cfg seen t) [
  | err e ↦ stopped t
  | ok r ↦ then_run r (track cfg more r.tracker)
]
