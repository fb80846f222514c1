-- ===== src/Indexer/Pushed.antt =====
-- The blocks of the jobs that the head tracker pushes (crates/indexer-service/src/head_tracker.rs,
-- `enqueue_block`).
use gas_analyzer.Indexer.{AnalyzeTxJob}
use gas_analyzer.Indexer.HeadTracker.{Transaction, jobs_from, push, enqueue_block}
use gas_analyzer.Prelude.Sort.{KeysFrom}
use gas_analyzer.Prelude.{
  ℕ, zero, suc, ◌+◌, ◌≤◌, ◌≡◌, refl, inl, inr, Option, none, some, List, [], ◌∷◌, ◌++◌, arith,
  Bool-cases, is_some, All, All-append,
}

abbrev pub block_key : AnalyzeTxJob → ℕ
block_key job = job.block_number

-- Jobs of one block.
abbrev pub OfBlock : ℕ → List AnalyzeTxJob → Type 0
OfBlock n jobs = All (λ job. job.block_number ≡ n) jobs

jobs_from-OfBlock :
    (chain_id n : ℕ) (clock : ℕ → ℕ) (idx : ℕ) (txs : List Transaction)
    → OfBlock n (jobs_from chain_id n clock idx txs)
unfolding jobs_from
jobs_from-OfBlock chain_id n clock idx [] = tt
jobs_from-OfBlock chain_id n clock idx (tx ∷ txs) = elim (Bool-cases (is_some tx.to)) [
  | inl e ↦ rw e (refl, jobs_from-OfBlock chain_id n clock (idx + 1) txs)
  | inr e ↦ rw e (jobs_from-OfBlock chain_id n clock (idx + 1) txs)
]

push-OfBlock :
    (accepted n : ℕ) (jobs : List AnalyzeTxJob) → OfBlock n jobs → OfBlock n (push accepted jobs).0
unfolding push
push-OfBlock accepted n [] h = tt
push-OfBlock zero n (job ∷ jobs) h = tt
push-OfBlock (suc accepted) n (job ∷ jobs) h = (h.0, push-OfBlock accepted n jobs h.1)

pub enqueue_block-OfBlock :
    (chain_id n : ℕ) (block : Option (List Transaction)) (clock : ℕ → ℕ) (accepted : ℕ)
    → OfBlock n (enqueue_block chain_id n block clock accepted).0
enqueue_block-OfBlock chain_id n none clock accepted = tt
enqueue_block-OfBlock chain_id n (some txs) clock accepted =
    push-OfBlock accepted n (jobs_from chain_id n clock 0 txs)
      (jobs_from-OfBlock chain_id n clock 0 txs)

-- The jobs' blocks never go back, from one bound on and up to another.
pub record Spans (from upto : ℕ) (jobs : List AnalyzeTxJob) : Type 0 where
  pub ordered : KeysFrom block_key from jobs
  pub below : All (λ job. job.block_number ≤ upto) jobs

KeysFrom-mono :
    (m n : ℕ) (jobs : List AnalyzeTxJob)
    → m ≤ n
    → KeysFrom block_key n jobs
    → KeysFrom block_key m jobs
KeysFrom-mono m n [] h k = tt
KeysFrom-mono m n (job ∷ jobs) h k = (omega (arith, h, k.0), k.1)

OfBlock-KeysFrom :
    (m n k : ℕ) (jobs more : List AnalyzeTxJob)
    → m ≤ n
    → n ≤ k
    → OfBlock n jobs
    → KeysFrom block_key k more
    → KeysFrom block_key m (jobs ++ more)
OfBlock-KeysFrom m n k [] more low high h rest = KeysFrom-mono m k more (omega arith) rest
OfBlock-KeysFrom m n k (job ∷ jobs) more low high h rest =
    let same : job.block_number ≡ n = h.0 in
    (
      omega (arith, same),
      OfBlock-KeysFrom job.block_number n k jobs more (omega (arith, same)) high h.1 rest,
    )

OfBlock-below :
    (n k : ℕ) (jobs : List AnalyzeTxJob)
    → n ≤ k
    → OfBlock n jobs
    → All (λ job. job.block_number ≤ k) jobs
OfBlock-below n k [] high h = tt
OfBlock-below n k (job ∷ jobs) high h =
    let same : job.block_number ≡ n = h.0 in (omega (arith, same), OfBlock-below n k jobs high h.1)

-- The jobs of one block, and then those of a run that goes on from a later cursor.
pub OfBlock-Spans :
    (m n k upto : ℕ) (jobs more : List AnalyzeTxJob)
    → m ≤ n
    → n ≤ k
    → k ≤ upto
    → OfBlock n jobs
    → Spans k upto more
    → Spans m upto (jobs ++ more)
OfBlock-Spans m n k upto jobs more low high end h rest = record {
  ordered = OfBlock-KeysFrom m n k jobs more low high h rest.ordered;
  below =
      All-append (λ job. job.block_number ≤ upto) jobs more
        (OfBlock-below n upto jobs (omega (arith, high, end)) h) rest.below;
}
