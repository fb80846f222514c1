-- ===== src/Indexer/Rounds.antt =====
-- What one round of the head tracker does to its cursor (crates/indexer-service/src/head_tracker.rs).
use gas_analyzer.Indexer.HeadTracker.{
  HeadTrackerConfig, Tracker, Seen, Round, lags, skip_ahead, idle, settle, take_block, round,
  no_head, no_depth,
}
use gas_analyzer.Prelude.Results.{ok_or, IfOk, IfOk-after, ok_or-ok}
use gas_analyzer.Prelude.{
  ℕ, ◌+◌, ◌-◌, ◌≤◌, ◌<◌, ◌≡◌, inl, inr, Bool, true, false, Option, none, some, List, [], arith, ltb,
  Bool-cases, u64_mod, u64_max,
}
use gas_analyzer.Indexer.{AnalyzeTxJob}
use gas_analyzer.Indexer.Pushed.{OfBlock, enqueue_block-OfBlock}

abbrev pub count_block : Option ℕ → ℕ
count_block none = 0
count_block (some block) = 1

-- The cursor never goes back, each block up to it is completed or counted as skipped, and the jobs are
-- those of one block, at most the cursor.
pub record Advances (t : Tracker) (r : Round) : Type 0 where
  pub forward : t.next_block ≤ r.tracker.next_block
  pub bounded : r.tracker.next_block < u64_mod
  pub counted : r.tracker.skipped_blocks ≤ r.tracker.next_block
  pub accounts :
      r.tracker.next_block + t.skipped_blocks
      ≡ t.next_block + count_block r.completed + r.tracker.skipped_blocks
  pub fresh :
      (block : ℕ)
      → r.completed ≡ some block
      → (t.next_block ≤ block) × (block < r.tracker.next_block)
  pub block : ℕ
  pub since : t.next_block ≤ block
  pub upto : block ≤ r.tracker.next_block
  pub of_block : OfBlock block r.pushed

-- A tracker that has skipped no more blocks than there are.
pub record IsSound (t : Tracker) : Type 0 where
  pub bounded : t.next_block < u64_mod
  pub counted : t.skipped_blocks ≤ t.next_block

-- A round that completes no block.
stay-Advances :
    (t : Tracker) (jobs : List AnalyzeTxJob)
    → IsSound t
    → OfBlock t.next_block jobs
    → Advances t (record { pushed = jobs; completed = none; tracker = t })
stay-Advances t jobs s h = record {
  forward = omega arith;
  bounded = s.bounded;
  counted = s.counted;
  accounts = omega arith;
  fresh = λ block e. cc;
  block = t.next_block;
  since = omega arith;
  upto = omega arith;
  of_block = h;
}

skip_ahead-Advances :
    (cfg : HeadTrackerConfig) (head : ℕ) (t : Tracker)
    → head < u64_max
    → IsSound t
    → Advances t (idle (skip_ahead cfg head t))
unfolding skip_ahead
skip_ahead-Advances cfg head t h s = elim (Bool-cases (lags cfg head t)) [
  | inr e ↦ rw e (stay-Advances t [] s tt)
  | inl e ↦
      let far : cfg.max_blocks_behind < head - t.next_block = ground (arith, e) in
      let b = s.bounded in
      let c = s.counted in
      rw e (record {
        forward = omega (arith, far);
        bounded = omega (arith, h);
        counted = omega (arith, far, h, c);
        accounts = omega (arith, far, h, c);
        fresh = λ block d. cc;
        block = t.next_block;
        since = omega arith;
        upto = omega (arith, far);
        of_block = tt;
      })
]

settle-Advances :
    (t : Tracker) (answer : List AnalyzeTxJob × Bool)
    → t.next_block < u64_max
    → IsSound t
    → OfBlock t.next_block answer.0
    → Advances t (settle t answer)
settle-Advances t (jobs, false) low s h = stay-Advances t jobs s h
settle-Advances t (jobs, true) low s h =
    let c = s.counted in
    record {
      forward = omega (arith, low);
      bounded = omega (arith, low);
      counted = omega (arith, low, c);
      accounts = omega (arith, low);
      fresh = λ block d.
          let same : t.next_block ≡ block = cc in (omega (arith, same), omega (arith, same, low));
      block = t.next_block;
      since = omega arith;
      upto = omega (arith, low);
      of_block = h;
    }

take_block-Advances :
    (cfg : HeadTrackerConfig) (head : ℕ) (seen : Seen) (t : Tracker)
    → head < u64_max
    → IsSound t
    → Advances t (take_block cfg head seen t)
unfolding take_block
take_block-Advances cfg head seen t h s = elim (Bool-cases (ltb head t.next_block)) [
  | inl e ↦ rw e (stay-Advances t [] s tt)
  | inr e ↦ rw e (
      settle-Advances t _ (ground (arith, e, h)) s
        (enqueue_block-OfBlock cfg.chain_id t.next_block seen.block seen.clock seen.accepted))
]

then-Advances : (t t' : Tracker) (r : Round) → Advances t (idle t') → Advances t' r → Advances t r
then-Advances t t' r a b =
    let f = a.forward in
    let g = b.forward in
    let p = a.accounts in
    let q = b.accounts in
    let m = b.since in
    record {
      forward = omega (arith, f, g);
      bounded = b.bounded;
      counted = b.counted;
      accounts = omega (arith, p, q);
      fresh = λ block e. let (low, high) = b.fresh block e in (omega (arith, f, low), high);
      block = b.block;
      since = omega (arith, f, m);
      upto = b.upto;
      of_block = b.of_block;
    }

pub round-Advances :
    (cfg : HeadTrackerConfig) (seen : Seen) (t : Tracker)
    → ((head : ℕ) → seen.head ≡ some head → head < u64_max)
    → IsSound t
    → IfOk (Advances t) (round cfg seen t)
unfolding round
round-Advances cfg seen t h s = IfOk-after (Advances t) (ok_or seen.head no_head) _ λ head e.
    IfOk-after (Advances t) (ok_or seen.depth no_depth) _ λ depth f.
      let low = h head (ok_or-ok seen.head no_head e) in
      elim (Bool-cases (ltb cfg.max_queue_depth depth)) [
        | inl g ↦ rw g (stay-Advances t [] s tt)
        | inr g ↦
            let a = skip_ahead-Advances cfg head t low s in
            rw g (
              then-Advances t (skip_ahead cfg head t) _ a (
                take_block-Advances cfg head seen (skip_ahead cfg head t) low
                  (record { bounded = a.bounded; counted = a.counted })))
      ]
