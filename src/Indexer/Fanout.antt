-- ===== src/Indexer/Fanout.antt =====
-- The transactions of the blocks that the head tracker completes
-- (crates/indexer-service/src/head_tracker.rs, `enqueue_block`).
use gas_analyzer.Indexer.{AnalyzeTxJob}
use gas_analyzer.Indexer.HeadTracker.{
  HeadTrackerConfig, Tracker, Transaction, Seen, Round, Run, skip_ahead, job_of, jobs_from, push,
  enqueue_block, settle, take_block, round, then_run, stopped, track, Stop, no_head, no_depth,
}
use gas_analyzer.Prelude.Results.{ok_or, IfOk, IfOk-after, Result, ok, err}
use gas_analyzer.Prelude.{
  ℕ, zero, suc, ◌+◌, ◌≡◌, refl, sym, ap, subst, ◌⊎◌, inl, inr, Bool, true, false, Option, none,
  some, List, [], ◌∷◌, ◌++◌, ltb, if◌then◌else◌, Bool-cases, is_some, All,
}

-- Some element has the property.
abbrev pub Any {ℓ} : {A : Type ℓ} → (A → Type 0) → List A → Type 0
Any P [] = ⊥
Any P (x ∷ xs) = P x ⊎ Any P xs

Any-map {ℓ} :
    {A : Type ℓ} (P Q : A → Type 0) (xs : List A) → ((x : A) → P x → Q x) → Any P xs → Any Q xs
Any-map P Q [] k h = absurd h
Any-map P Q (x ∷ xs) k (inl p) = inl (k x p)
Any-map P Q (x ∷ xs) k (inr h) = inr (Any-map P Q xs k h)

Any-front {ℓ} :
    {A : Type ℓ} (P : A → Type 0) (front back : List A) → Any P front → Any P (front ++ back)
Any-front P [] back h = absurd h
Any-front P (x ∷ front) back (inl p) = inl p
Any-front P (x ∷ front) back (inr h) = inr (Any-front P front back h)

Any-back {ℓ} :
    {A : Type ℓ} (P : A → Type 0) (front back : List A) → Any P back → Any P (front ++ back)
Any-back P [] back h = h
Any-back P (x ∷ front) back h = inr (Any-back P front back h)

All-map {ℓ} :
    {A : Type ℓ} (P Q : A → Type 0) (xs : List A) → ((x : A) → P x → Q x) → All P xs → All Q xs
All-map P Q [] k h = tt
All-map P Q (x ∷ xs) k (p, h) = (k x p, All-map P Q xs k h)

-- A job for a transaction that stands at a place in a block of a chain.
abbrev pub IsJobOf : ℕ → ℕ → ℕ → Transaction → AnalyzeTxJob → Type 0
IsJobOf chain_id n i tx job =
    (job.chain_id ≡ chain_id)
    × (job.block_number ≡ n)
    × (job.tx_index ≡ i)
    × (job.tx_hash ≡ tx.tx_hash)

-- A transaction that is not a create has a job.
abbrev pub HasJob : ℕ → ℕ → ℕ → Transaction → Option ℕ → List AnalyzeTxJob → Type 0
HasJob chain_id n i tx none jobs = Unit
HasJob chain_id n i tx (some callee) jobs = Any (IsJobOf chain_id n i tx) jobs

-- Each transaction that is not a create has a job, at its place counted from `i` on.
abbrev pub EachHasJob : ℕ → ℕ → ℕ → List Transaction → List AnalyzeTxJob → Type 0
EachHasJob chain_id n i [] jobs = Unit
EachHasJob chain_id n i (tx ∷ txs) jobs =
    HasJob chain_id n i tx tx.to jobs × EachHasJob chain_id n (i + 1) txs jobs

-- The node gave the block, and each transaction of it that is not a create has a job.
abbrev pub FansOut : ℕ → ℕ → List AnalyzeTxJob → Seen → Type 0
FansOut chain_id n jobs seen =
    (txs : List Transaction) × (seen.block ≡ some txs) × EachHasJob chain_id n 0 txs jobs

module _ (chain_id n : ℕ) (jobs all_jobs : List AnalyzeTxJob)
    (among : (P : AnalyzeTxJob → Type 0) → Any P jobs → Any P all_jobs) where
  HasJob-more :
      (i : ℕ) (tx : Transaction) (to : Option ℕ)
      → HasJob chain_id n i tx to jobs
      → HasJob chain_id n i tx to all_jobs
  HasJob-more i tx none h = tt
  HasJob-more i tx (some callee) h = among (IsJobOf chain_id n i tx) h

  EachHasJob-more :
      (i : ℕ) (txs : List Transaction)
      → EachHasJob chain_id n i txs jobs
      → EachHasJob chain_id n i txs all_jobs
  EachHasJob-more i [] h = tt
  EachHasJob-more i (tx ∷ txs) (h, hs) = (HasJob-more i tx tx.to h, EachHasJob-more (i + 1) txs hs)

  FansOut-more : (seen : Seen) → FansOut chain_id n jobs seen → FansOut chain_id n all_jobs seen
  FansOut-more seen (txs, e, h) = (txs, e, EachHasJob-more 0 txs h)

own_job :
    (chain_id n now i : ℕ) (tx : Transaction) (to : Option ℕ) (rest : List AnalyzeTxJob)
    → HasJob chain_id n i tx to (if is_some to then job_of chain_id n now i tx ∷ rest else rest)
own_job chain_id n now i tx none rest = tt
own_job chain_id n now i tx (some callee) rest = inl (refl, refl, refl, refl)

later_job :
    (b : Bool) (job : AnalyzeTxJob) (rest : List AnalyzeTxJob) (P : AnalyzeTxJob → Type 0)
    → Any P rest
    → Any P (if b then job ∷ rest else rest)
later_job true job rest P h = inr h
later_job false job rest P h = h

jobs_from-EachHasJob :
    (chain_id n : ℕ) (clock : ℕ → ℕ) (i : ℕ) (txs : List Transaction)
    → EachHasJob chain_id n i txs (jobs_from chain_id n clock i txs)
unfolding jobs_from
jobs_from-EachHasJob chain_id n clock i [] = tt
jobs_from-EachHasJob chain_id n clock i (tx ∷ txs) =
    let rest = jobs_from chain_id n clock (i + 1) txs in
    (
      own_job chain_id n (clock i) i tx tx.to rest,
      EachHasJob-more chain_id n rest _ (later_job (is_some tx.to) _ rest) (i + 1) txs
          (jobs_from-EachHasJob chain_id n clock (i + 1) txs),
    )

-- Where no push fails, all jobs are pushed.
push_all :
    (accepted : ℕ) (jobs : List AnalyzeTxJob)
    → (push accepted jobs).1 ≡ true
    → (push accepted jobs).0 ≡ jobs
unfolding push
push_all accepted [] h = refl
push_all zero (job ∷ jobs) h = cc
push_all (suc accepted) (job ∷ jobs) h = ap (◌∷◌ job) (push_all accepted jobs h)

enqueue_block-FansOut :
    (chain_id n : ℕ) (seen : Seen) (block : Option (List Transaction))
    → seen.block ≡ block
    → (enqueue_block chain_id n block seen.clock seen.accepted).1 ≡ true
    → FansOut chain_id n (enqueue_block chain_id n block seen.clock seen.accepted).0 seen
enqueue_block-FansOut chain_id n seen none e h = cc
enqueue_block-FansOut chain_id n seen (some txs) e h = (
  txs,
  e,
  subst (EachHasJob chain_id n 0 txs)
      (sym (push_all seen.accepted (jobs_from chain_id n seen.clock 0 txs) h))
      (jobs_from-EachHasJob chain_id n seen.clock 0 txs),
)

-- If the round completes a block, the block is fanned out.
abbrev Completes : ℕ → Seen → Round → Type 0
Completes chain_id seen r = (n : ℕ) → r.completed ≡ some n → FansOut chain_id n r.pushed seen

settle-Completes :
    (chain_id : ℕ) (seen : Seen) (t : Tracker) (answer : List AnalyzeTxJob × Bool)
    → (answer.1 ≡ true → FansOut chain_id t.next_block answer.0 seen)
    → Completes chain_id seen (settle t answer)
settle-Completes chain_id seen t (jobs, false) h n e = cc
settle-Completes chain_id seen t (jobs, true) h n e =
    let same : t.next_block ≡ n = cc in subst (λ m. FansOut chain_id m jobs seen) same (h refl)

take_block-Completes :
    (cfg : HeadTrackerConfig) (head : ℕ) (seen : Seen) (t : Tracker)
    → Completes cfg.chain_id seen (take_block cfg head seen t)
unfolding take_block
take_block-Completes cfg head seen t = elim (Bool-cases (ltb head t.next_block)) [
  | inl e ↦ rw e (λ n f. cc)
  | inr e ↦ rw e (
      settle-Completes cfg.chain_id seen t _
        (enqueue_block-FansOut cfg.chain_id t.next_block seen seen.block refl))
]

round-Completes :
    (cfg : HeadTrackerConfig) (seen : Seen) (t : Tracker)
    → IfOk (Completes cfg.chain_id seen) (round cfg seen t)
unfolding round
round-Completes cfg seen t =
    let Goal = Completes cfg.chain_id seen in
    IfOk-after Goal (ok_or seen.head no_head) _ λ head e.
      IfOk-after Goal (ok_or seen.depth no_depth) _ λ depth f.
        elim (Bool-cases (ltb cfg.max_queue_depth depth)) [
          | inl g ↦ rw g (λ n h. cc)
          | inr g ↦ rw g (take_block-Completes cfg head seen (skip_ahead cfg head t))
        ]

-- Each completed block of a run is fanned out.
abbrev pub AllFanOut : ℕ → List Seen → Run → Type 0
AllFanOut chain_id seen run = All (λ n. Any (FansOut chain_id n run.pushed) seen) run.completed

module _ (chain_id : ℕ) (seen : Seen) (more : List Seen) (jobs : List AnalyzeTxJob)
    (run : Run) where
  later_blocks :
      AllFanOut chain_id more run
      → All (λ n. Any (FansOut chain_id n (jobs ++ run.pushed)) (seen ∷ more)) run.completed
  later_blocks h =
      All-map (λ n. Any (FansOut chain_id n run.pushed) more)
        (λ n. Any (FansOut chain_id n (jobs ++ run.pushed)) (seen ∷ more)) run.completed
        (λ n a. inr (
          Any-map (FansOut chain_id n run.pushed) (FansOut chain_id n (jobs ++ run.pushed)) more
            (FansOut-more chain_id n run.pushed (jobs ++ run.pushed)
              (λ P. Any-back P jobs run.pushed))
            a))
        h

  then_run-AllFanOut :
      (o : Option ℕ) (t : Tracker)
      → Completes chain_id seen (record { pushed = jobs; completed = o; tracker = t })
      → AllFanOut chain_id more run
      → AllFanOut chain_id
          (seen ∷ more)
          (then_run (record { pushed = jobs; completed = o; tracker = t }) run)
  then_run-AllFanOut none t c h = later_blocks h
  then_run-AllFanOut (some n) t c h = (
    inl (
        FansOut-more chain_id n jobs (jobs ++ run.pushed) (λ P. Any-front P jobs run.pushed) seen
          (c n refl)),
    later_blocks h,
  )

one_round :
    (chain_id : ℕ) (seen : Seen) (more : List Seen) (t : Tracker) (r : Result Stop Round)
    (next : Tracker → Run)
    → IfOk (Completes chain_id seen) r
    → ((t' : Tracker) → AllFanOut chain_id more (next t'))
    → AllFanOut chain_id
        (seen ∷ more)
        (elim r [ err e ↦ stopped t | ok o ↦ then_run o (next o.tracker) ])
one_round chain_id seen more t (err e) next c k = tt
one_round chain_id seen more t (ok o) next c k =
    then_run-AllFanOut chain_id seen more o.pushed (next o.tracker) o.completed o.tracker c
      (k o.tracker)

-- No transaction of a completed block is missed: for each block that the tracker completes, the node
-- gave the block in some round, and for each transaction of it that is not a create the tracker has
-- pushed a job with the chain, the block's number, the transaction's place in the block and its hash.
pub track-AllFanOut :
    (cfg : HeadTrackerConfig) (seen : List Seen) (t : Tracker)
    → AllFanOut cfg.chain_id seen (track cfg seen t)
unfolding track
track-AllFanOut cfg [] t = tt
track-AllFanOut cfg (o ∷ seen) t =
    one_round cfg.chain_id o seen t (round cfg o t) (track cfg seen) (round-Completes cfg o t)
      (track-AllFanOut cfg seen)
