-- ===== src/Indexer/Retries.antt =====
-- How often a job is tried (crates/indexer-service/src/worker.rs and queue.rs).
use gas_analyzer.Indexer.{AnalyzeTxJob, age_secs, u32_mod, next_attempt}
use gas_analyzer.Indexer.Worker.{
  WorkerConfig, is_expired, handle, process, Analysis, report, skipped, failed, Fate, persisted,
  passed_over, expired, dead_lettered, lost, requeued,
}
use gas_analyzer.Prelude.{
  ℕ, suc, ◌+◌, ◌-◌, ◌%◌, ◌≤◌, ◌<◌, max, ◌≡◌, refl, inl, inr, Bool, true, false, some, List, [], ◌∷◌,
  arith, ltb, if◌then◌else◌, ltb→lt, Bool-cases, length, last?,
}

-- What the rounds that claim a job are given: the time, the analysis, and whether calls succeed.
pub record Claim : Type 0 where
  pub now : ℕ
  pub analysis : Analysis
  pub stored : Bool

abbrev pub is_requeued : Fate → Bool
is_requeued (requeued job) = true
is_requeued _ = false

-- The fates of a job, claimed again as long as it is requeued.
abbrev pub follow : Fate → (AnalyzeTxJob → List Fate) → List Fate
follow (requeued job) next = requeued job ∷ next job
follow fate next = fate ∷ []

unfoldable pub lifetime : WorkerConfig → List Claim → AnalyzeTxJob → List Fate
lifetime cfg [] job = []
lifetime cfg (c ∷ claims) job =
    follow (process cfg job c.now c.analysis c.stored) (λ job'. lifetime cfg claims job')

-- A job that is requeued keeps its time, and its attempt is below the limit.
record IsRetry (cfg : WorkerConfig) (job job' : AnalyzeTxJob) : Type 0 where
  attempt : job'.attempt ≡ job.attempt + 1
  below : job'.attempt < cfg.max_retries
  enqueued_at : job'.enqueued_at ≡ job.enqueued_at

abbrev Retries : WorkerConfig → AnalyzeTxJob → Fate → Type 0
Retries cfg job (requeued job') = IsRetry cfg job job'
Retries cfg job _ = Unit

handle-Retries :
    (cfg : WorkerConfig) (job : AnalyzeTxJob) (analysis : Analysis) (stored : Bool)
    → job.attempt + 1 < u32_mod
    → Retries cfg job (handle cfg job analysis stored)
unfolding handle next_attempt
handle-Retries cfg job report true h = tt
handle-Retries cfg job report false h = tt
handle-Retries cfg job skipped stored h = tt
handle-Retries cfg job failed stored h =
    let exact : (job.attempt + 1) % u32_mod ≡ job.attempt + 1 = omega (arith, h) in
    elim (Bool-cases (ltb ((job.attempt + 1) % u32_mod) cfg.max_retries)) [
      | inl e ↦ rw e (kept stored exact (ltb→lt _ _ e))
      | inr e ↦ rw e (ended stored)
    ]
  where
    kept :
        (stored : Bool)
        → (job.attempt + 1) % u32_mod ≡ job.attempt + 1
        → (job.attempt + 1) % u32_mod < cfg.max_retries
        → Retries cfg job (if stored then requeued (next_attempt job) else lost)
    kept true exact low = record { attempt = exact; below = low; enqueued_at = refl }
    kept false exact low = tt

    ended : (stored : Bool) → Retries cfg job (if stored then dead_lettered else lost)
    ended true = tt
    ended false = tt

process-Retries :
    (cfg : WorkerConfig) (job : AnalyzeTxJob) (c : Claim)
    → job.attempt + 1 < u32_mod
    → Retries cfg job (process cfg job c.now c.analysis c.stored)
unfolding process
process-Retries cfg job c h = elim (Bool-cases (is_expired cfg job c.now)) [
  | inl e ↦ rw e tt
  | inr e ↦ rw e (handle-Retries cfg job c.analysis c.stored h)
]

-- The fates end with one that is final, and are so many at most.
abbrev pub EndsWithin : ℕ → List Fate → Type 0
EndsWithin n fates =
    (fate : Fate) × (last? fates ≡ some fate) × (is_requeued fate ≡ false) × (length fates ≤ n)

last?-cons :
    (x fate : Fate) (fates : List Fate) → last? fates ≡ some fate → last? (x ∷ fates) ≡ some fate
last?-cons x fate [] e = cc
last?-cons x fate (y ∷ fates) e = e

module _ (cfg : WorkerConfig) (job : AnalyzeTxJob) where
  follow-EndsWithin :
      (fate : Fate) (next : AnalyzeTxJob → List Fate)
      → Retries cfg job fate
      → ((job' : AnalyzeTxJob)
          → IsRetry cfg job job'
          → EndsWithin (max 1 (cfg.max_retries - job'.attempt)) (next job'))
      → EndsWithin (max 1 (cfg.max_retries - job.attempt)) (follow fate next)
  follow-EndsWithin persisted next r k = (persisted, refl, refl, omega arith)
  follow-EndsWithin passed_over next r k = (passed_over, refl, refl, omega arith)
  follow-EndsWithin expired next r k = (expired, refl, refl, omega arith)
  follow-EndsWithin dead_lettered next r k = (dead_lettered, refl, refl, omega arith)
  follow-EndsWithin lost next r k = (lost, refl, refl, omega arith)
  follow-EndsWithin (requeued job') next r k =
      let (fate, e, final, few) = k job' r in
      (
        fate,
        last?-cons (requeued job') fate (next job') e,
        final,
        omega (arith, few, r.attempt, r.below),
      )

-- A job whose claims go on long enough comes to an end: it is claimed at most `max_retries` times,
-- less the attempts that it has behind it, and once where none is left, and the last time it is
-- persisted, passed over, expired, dead-lettered or lost, and not requeued. The setting so bounds the
-- claims, the first one included: a job is retried at most `max_retries - 1` times, where the docs
-- have it retried `max_retries` times before it is dead-lettered.
pub lifetime-EndsWithin :
    (cfg : WorkerConfig) (claims : List Claim) (job : AnalyzeTxJob)
    → cfg.max_retries < u32_mod
    → job.attempt + 1 < u32_mod
    → max 1 (cfg.max_retries - job.attempt) ≤ length claims
    → EndsWithin (max 1 (cfg.max_retries - job.attempt)) (lifetime cfg claims job)
unfolding lifetime
lifetime-EndsWithin cfg [] job m h long = absurd (omega arith)
lifetime-EndsWithin cfg (c ∷ claims) job m h long =
    follow-EndsWithin cfg job (process cfg job c.now c.analysis c.stored) (lifetime cfg claims)
      (process-Retries cfg job c h)
      (λ job' r.
        later cfg claims job job' m long r
          (λ long' h'. lifetime-EndsWithin cfg claims job' m h' long'))
  where
    later :
        (cfg : WorkerConfig) (claims : List Claim) (job job' : AnalyzeTxJob)
        → cfg.max_retries < u32_mod
        → max 1 (cfg.max_retries - job.attempt) ≤ suc (length claims)
        → IsRetry cfg job job'
        → (max 1 (cfg.max_retries - job'.attempt) ≤ length claims
            → job'.attempt + 1 < u32_mod
            → EndsWithin (max 1 (cfg.max_retries - job'.attempt)) (lifetime cfg claims job'))
        → EndsWithin (max 1 (cfg.max_retries - job'.attempt)) (lifetime cfg claims job')
    later cfg claims job job' m long r k =
        k (omega (arith, long, r.attempt, r.below)) (omega (arith, m, r.below))

-- A retry expires when the job itself would have.
pub is_expired-next_attempt :
    (cfg : WorkerConfig) (job : AnalyzeTxJob) (now : ℕ)
    → is_expired cfg (next_attempt job) now ≡ is_expired cfg job now
unfolding is_expired age_secs next_attempt
is_expired-next_attempt cfg job now = refl
