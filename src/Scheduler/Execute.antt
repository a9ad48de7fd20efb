-- ===== src/Scheduler/Execute.antt =====
-- executeJob and worker of internal/scheduler/scheduler.go. `dispatch` is the Dispatcher's, if
-- there is one; it answers the sends that it starts. A log line is left out.
pub mod Laws
pub mod Rows
pub mod Timeout
use signal_flow.Base.{
  ℤ, pos, String, Option, none, some, List, [], ◌∷◌, ◌++◌, Result, ok, err, M, pure, try, ◌>>=◌,
  ◌>>◌, ◌+++◌, if◌then◌else◌, ◌==◌, is_positive, sub_ℕ, quot_ℤ,
}
use signal_flow.Domain.{Time, RawMessage, JobType, Job, JobClaim, Execution, running, error}
use signal_flow.Domain.Ports.{Runtime, JobRepository, ExecutionRepository}
use signal_flow.Executor.{ExecResult, Executor}
use signal_flow.Executor.HttpCheck.{seconds}
use signal_flow.Notifier.Dispatch.{Sending}
use signal_flow.Scheduler.Policy.{should_notify}

-- The map `executors`.
abbrev pub Executors : Type 0 → Type 0
Executors S = List (JobType × Executor S)

unfoldable pub executor_for : {S : Type 0} → JobType → Executors S → Option (Executor S)
executor_for t [] = none
executor_for t ((u, e) ∷ es) = if u == t then some e else executor_for t es

abbrev pub default_job_timeout : ℤ
default_job_timeout = pos 30_000_000_000

unfoldable pub job_timeout : ℤ → ℤ
job_timeout n = if is_positive (seconds n) then seconds n else default_job_timeout

-- `exec` with the outcome of the executor.
abbrev pub with_outcome : Result ExecResult → Execution → Execution
with_outcome (err e) exec = record exec { status = error; error = e.text }
with_outcome (ok r) exec = record exec { status = r.status; output = r.output }

-- The record before the run. Its status is Go's zero value, which no branch leaves in place.
abbrev pub fresh_execution : JobClaim → Time → Execution
fresh_execution claim start = record {
  id = claim.execution_id;
  job_id = claim.job.id;
  status = running;
  output = [];
  error = "";
  duration_ms = pos 0;
  started_at = start;
  finished_at = none;
}

-- The milliseconds between two readings of the clock.
abbrev pub elapsed_ms : Time → Time → ℤ
elapsed_ms start finished = quot_ℤ (sub_ℕ finished start) 1_000_000

abbrev pub finish : Time → Time → Execution → Execution
finish start finished exec = record exec {
  finished_at = some finished;
  duration_ms = elapsed_ms start finished;
}

module _ {S : Type 0} (runtime : Runtime S) (job_repo : JobRepository S)
    (exec_repo : ExecutionRepository S) (executors : Executors S)
    (unmarshal : RawMessage → Result String)
    (dispatch : Option (Job → Execution → M S (List Sending))) where
  abbrev pub run_with : Option (Executor S) → Job → Execution → M S Execution
  run_with none job exec =
      pure (record exec { status = error; error = "unknown job type: " +++ job.type })
  run_with (some e) job exec = do
    r ← try (e (job_timeout job.timeout_seconds ∷ []) job.config)
    pure (with_outcome r exec)

  -- From the choice of the executor to its result.
  unfoldable pub run_job : Job → Execution → M S Execution
  unfolding executor_for job_timeout
  run_job job exec = run_with (executor_for job.type executors) job exec

  -- The two writes, whose errors are only logged.
  unfoldable pub record_run : Job → Execution → Time → M S (Unit {0})
  record_run job exec finished = do
    saved ← try (exec_repo.update exec)
    moved ← try (job_repo.update (record job { last_run_at = some finished }))
    pure tt

  abbrev pub notify_with :
      Option (Job → Execution → M S (List Sending)) → Job → Execution → M S (List Sending)
  notify_with none job exec = pure []
  notify_with (some d) job exec = if should_notify unmarshal job exec then d job exec else pure []

  unfoldable pub notify : Job → Execution → M S (List Sending)
  unfolding should_notify
  notify job exec = notify_with dispatch job exec

  unfoldable pub execute_job : JobClaim → M S (List Sending)
  unfolding run_job record_run notify
  execute_job claim = do
    start ← runtime.now
    ran ← run_job claim.job (fresh_execution claim start)
    finished ← runtime.now
    record_run claim.job (finish start finished ran) finished
    notify (record claim.job { last_run_at = some finished }) (finish start finished ran)

  -- A worker takes the claims off the channel, one after the other.
  unfoldable pub worker : List JobClaim → M S (List Sending)
  unfolding execute_job
  worker [] = pure []
  worker (claim ∷ claims) = do xs ← execute_job claim; ys ← worker claims; pure (xs ++ ys)
