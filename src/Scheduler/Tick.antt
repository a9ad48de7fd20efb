-- ===== src/Scheduler/Tick.antt =====
-- tick, nextRun, markFailed and recoverStale of internal/scheduler/scheduler.go. Which case of
-- the `select` is taken for a claim is the environment's choice, `offer`; tick answers the claims
-- that it put on the channel.
pub mod Laws
pub mod Once
use signal_flow.Base.{
  ◌++◌, ℕ, ℤ, pos, ◌-◌, String, some, List, [], ◌∷◌, Result, ok, err, M, pure, throw, try, ◌>>=◌,
  ◌>>◌, scale, wrap_int64,
}
use signal_flow.Domain.{Time, JobClaim, Execution, error}
use signal_flow.Domain.Ports.{Runtime, JobRepository, ExecutionRepository, CronParser, NextRunFunc}

pub data Offer : Type 0 where
  accepted shutting_down saturated : Offer

-- The record that markFailed writes, of which an UPDATE takes five columns.
abbrev pub failed_execution : String → String → Time → Execution
failed_execution exec_id reason finished = record {
  id = exec_id;
  job_id = "";
  status = error;
  output = [];
  error = reason;
  duration_ms = pos 0;
  started_at = 0;
  finished_at = some finished;
}

abbrev pub stale_running_age : ℕ
stale_running_age = 300_000_000_000

module _ {S : Type 0} (runtime : Runtime S) (job_repo : JobRepository S)
    (exec_repo : ExecutionRepository S) (parse : CronParser) (offer : JobClaim → M S Offer)
    (workers : ℤ) where
  unfoldable pub next_run : NextRunFunc S
  next_run schedule = elim (parse schedule) [
    | err e ↦ throw e
    | ok next ↦ do now ← runtime.now; pure (next now)
  ]

  unfoldable pub mark_failed : String → String → M S (Unit {0})
  mark_failed exec_id reason = do
    now ← runtime.now
    r ← try (exec_repo.update (failed_execution exec_id reason now))
    pure tt

  -- What the `select` does with a claim: the claims that it puts on the channel.
  unfoldable pub settle_offer : JobClaim → Offer → M S (List JobClaim)
  unfolding mark_failed
  settle_offer claim accepted = pure (claim ∷ [])
  settle_offer claim shutting_down = do
    mark_failed claim.execution_id "scheduler shutting down"
    pure []
  settle_offer claim saturated = do mark_failed claim.execution_id "worker pool saturated"; pure []

  unfoldable pub offer_all : List JobClaim → M S (List JobClaim)
  unfolding settle_offer
  offer_all [] = pure []
  offer_all (claim ∷ claims) = do
    o ← offer claim
    xs ← settle_offer claim o
    ys ← offer_all claims
    pure (xs ++ ys)

  abbrev pub claim_limit : ℤ
  claim_limit = wrap_int64 (scale workers 2)

  abbrev offer_claims : Result (List JobClaim) → M S (List JobClaim)
  offer_claims (err e) = pure []
  offer_claims (ok claims) = offer_all claims

  unfoldable pub tick : M S (List JobClaim)
  unfolding next_run offer_all
  tick = do r ← try (job_repo.claim_due claim_limit next_run); offer_claims r

  unfoldable pub recover_stale : M S (Unit {0})
  recover_stale = do
    now ← runtime.now
    r ← try (exec_repo.recover_stale_running (now - stale_running_age))
    pure tt
