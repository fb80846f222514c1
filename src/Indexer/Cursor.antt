-- ===== src/Indexer/Cursor.antt =====
-- The cursor of the head tracker and the blocks that it accounts for
-- (crates/indexer-service/src/head_tracker.rs).
use gas_analyzer.Indexer.HeadTracker.{
  HeadTrackerConfig, Tracker, Transaction, Seen, Round, Run, start_tracker, lags, skip_ahead,
  settle, take_block, round, then_run, stopped, track, Stop,
}
use gas_analyzer.Prelude.Results.{IfOk, Result, ok, err}
use gas_analyzer.Prelude.{
  ℕ, ◌+◌, ◌-◌, ◌≤◌, ◌<◌, ◌≡◌, refl, inl, inr, Bool, true, false, Option, none, some, List, [], ◌∷◌,
  arith, ltb, Bool-cases, length, All, u64_max,
}
use gas_analyzer.Prelude.Sort.{AscendsFrom, AscendsFrom-mono}
use gas_analyzer.Indexer.{AnalyzeTxJob}
use gas_analyzer.Indexer.Pushed.{Spans, OfBlock-Spans}
use gas_analyzer.Indexer.Rounds.{Advances, IsSound, round-Advances}

-- The completed blocks of a run ascend from the first cursor, below the last one, and the last cursor
-- is the first one, the blocks that are completed and those that are skipped. The blocks of the jobs
-- that are pushed never go back, from the first cursor up to the last one.
pub record Accounts (t : Tracker) (run : Run) : Type 0 where
  pub forward : t.next_block ≤ run.tracker.next_block
  pub accounts :
      run.tracker.next_block + t.skipped_blocks
      ≡ t.next_block + length run.completed + run.tracker.skipped_blocks
  pub ascends : AscendsFrom t.next_block run.completed
  pub below : All (λ block. block < run.tracker.next_block) run.completed
  pub spans : Spans t.next_block run.tracker.next_block run.pushed

stopped-Accounts : (t : Tracker) → Accounts t (stopped t)
stopped-Accounts t = record {
  forward = omega arith;
  accounts = omega arith;
  ascends = tt;
  below = tt;
  spans = record { ordered = tt; below = tt };
}

module _ (t t' : Tracker) (jobs : List AnalyzeTxJob) (run : Run) where
  round_then :
      (o : Option ℕ)
      → Advances t (record { pushed = jobs; completed = o; tracker = t' })
      → Accounts t' run
      → Accounts t (then_run (record { pushed = jobs; completed = o; tracker = t' }) run)
  round_then none a k =
      let f = a.forward in
      let g = k.forward in
      let p = a.accounts in
      let q = k.accounts in
      record {
        forward = omega (arith, f, g);
        accounts = omega (arith, p, q);
        ascends = AscendsFrom-mono t.next_block t'.next_block run.completed f k.ascends;
        below = k.below;
        spans =
            OfBlock-Spans t.next_block a.block t'.next_block run.tracker.next_block jobs run.pushed
              a.since a.upto g a.of_block k.spans;
      }
  round_then (some block) a k =
      let f = a.forward in
      let g = k.forward in
      let p = a.accounts in
      let q = k.accounts in
      let (low, high) = a.fresh block refl in
      record {
        forward = omega (arith, f, g);
        accounts = omega (arith, p, q);
        ascends = (
          low,
          AscendsFrom-mono (block + 1) t'.next_block run.completed (omega (arith, high)) k.ascends,
        );
        below = (omega (arith, high, g), k.below);
        spans =
            OfBlock-Spans t.next_block a.block t'.next_block run.tracker.next_block jobs run.pushed
              a.since a.upto g a.of_block k.spans;
      }

module _ (cfg : HeadTrackerConfig) where
  -- One round of a run, before the rounds `next`.
  round-Accounts :
      (t : Tracker) (r : Result Stop Round) (next : Tracker → Run)
      → IfOk (Advances t) r
      → ((o : Round) → Advances t o → Accounts o.tracker (next o.tracker))
      → Accounts t (elim r [ err e ↦ stopped t | ok o ↦ then_run o (next o.tracker) ])
  round-Accounts t (err e) next a k = stopped-Accounts t
  round-Accounts t (ok o) next a k =
      round_then t o.tracker o.pushed (next o.tracker) o.completed a (k o a)

  track_sound :
      (seen : List Seen) (t : Tracker)
      → All (λ s. (head : ℕ) → s.head ≡ some head → head < u64_max) seen
      → IsSound t
      → Accounts t (track cfg seen t)
  unfolding track
  track_sound [] t h s = stopped-Accounts t
  track_sound (o ∷ seen) t h s =
      round-Accounts t (round cfg o t) (track cfg seen) (round-Advances cfg o t h.0 s) (λ r a.
        track_sound seen r.tracker h.1 (record { bounded = a.bounded; counted = a.counted }))

-- As long as no head reaches the greatest `u64`, a run of the tracker completes each block at most once
-- and in ascending order, from the block after the first head on and below its cursor, and every
-- block in between is completed or counted as skipped. A block that fails may leave jobs in the queue
-- and is pushed again, so that a job can be pushed twice, but the jobs' blocks never go back: they
-- start with the block after the first head and end at the cursor at the latest.
pub track-Accounts :
    (cfg : HeadTrackerConfig) (head : ℕ) (seen : List Seen)
    → head < u64_max
    → All (λ s. (head : ℕ) → s.head ≡ some head → head < u64_max) seen
    → Accounts (start_tracker head) (track cfg seen (start_tracker head))
unfolding start_tracker
track-Accounts cfg head seen low h =
    track_sound cfg seen (start_tracker head) h
      (record { bounded = omega (arith, low); counted = omega arith })

skip_ahead-lag :
    (cfg : HeadTrackerConfig) (head : ℕ) (t : Tracker)
    → 0 < cfg.max_blocks_behind
    → head - (skip_ahead cfg head t).next_block ≤ cfg.max_blocks_behind
unfolding skip_ahead
skip_ahead-lag cfg head t on = elim (Bool-cases (lags cfg head t)) [
  | inl e ↦ rw e (omega arith)
  | inr e ↦ rw e (ground (arith, e, on))
]

abbrev Near : ℕ → ℕ → Round → Type 0
Near limit head r = head - r.tracker.next_block ≤ limit

module _ (limit head : ℕ) (t : Tracker) (near : head - t.next_block ≤ limit) where
  settle_lag :
      (answer : List AnalyzeTxJob × Bool)
      → t.next_block < u64_max
      → Near limit head (settle t answer)
  settle_lag (jobs, false) low = near
  settle_lag (jobs, true) low = omega (arith, near, low)

  take_block-lag :
      (cfg : HeadTrackerConfig) (seen : Seen)
      → head < u64_max
      → Near limit head (take_block cfg head seen t)
  unfolding take_block
  take_block-lag cfg seen low = elim (Bool-cases (ltb head t.next_block)) [
    | inl e ↦ rw e near
    | inr e ↦ rw e (settle_lag _ (ground (arith, e, low)))
  ]

-- After a round that the depth of the queue does not hold back, the cursor is at most
-- `max_blocks_behind` blocks behind the head, where that limit is set, whatever becomes of the block.
pub round_lag :
    (cfg : HeadTrackerConfig) (head depth : ℕ) (block : Option (List Transaction)) (clock : ℕ → ℕ)
    (accepted : ℕ) (t : Tracker)
    → 0 < cfg.max_blocks_behind
    → depth ≤ cfg.max_queue_depth
    → head < u64_max
    → (r : Round) × (round cfg
          (record {
            head = some head;
            depth = some depth;
            block = block;
            clock = clock;
            accepted = accepted;
          })
          t
        ≡ ok r)
      × (head - r.tracker.next_block ≤ cfg.max_blocks_behind)
unfolding round
round_lag cfg head depth block clock accepted t on room low =
    let t' = skip_ahead cfg head t in
    let seen : Seen = record {
      head = some head;
      depth = some depth;
      block = block;
      clock = clock;
      accepted = accepted;
    } in
    let free : ltb cfg.max_queue_depth depth ≡ false = ground (arith, room) in
    (
      take_block cfg head seen t',
      rw free refl,
      take_block-lag cfg.max_blocks_behind head t' (skip_ahead-lag cfg head t on) cfg seen low,
    )
