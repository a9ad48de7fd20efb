-- ===== src/Scheduler/Execute/Laws.antt =====
-- What a run leaves in the tables: a finished execution, and the job row as it was when the run
-- was claimed.
use signal_flow.Base.{
  suc, ◌+++◌, Bool-cases, ℕ, ◌≡◌, ◌≢◌, refl, ap, subst, ◌∙◌, inl, inr, String, Option, none, some,
  List, [], ◌∷◌, Result, ok, err, M, run_next, arith, ◌==◌, All,
}
use signal_flow.Domain.{
  Time, RawMessage, JobType, Job, JobClaim, Execution, ExecStatus, running, error,
}
use signal_flow.Store.{Db, Store, current}
use signal_flow.Store.Statement.{statement-written, written, store_runtime}
use signal_flow.Repository.Job.{set_job}
use signal_flow.Repository.Job
use signal_flow.Repository.Execution.{set_execution, updated_execution}
use signal_flow.Repository.Execution
use signal_flow.Repository.Adapters.{job_repository, execution_repository}
use signal_flow.Executor.{ExecResult, Context, Executor}
use signal_flow.Notifier.Dispatch.{Sending}
use signal_flow.Scheduler.Execute.{
  Executors, executor_for, job_timeout, with_outcome, fresh_execution, finish, run_with, notify,
  run_job, record_run, execute_job,
}

-- An executor acts outside the database: of the store it moves the clock only.
abbrev pub ActsOutside : Executor Store → Type 0
ActsOutside e =
    (ctx : Context) (config : RawMessage) (s : Store)
    → (r : ℕ) × ((e ctx config s).1 ≡ record s { reads = r })

-- Its results are final.
abbrev pub IsFinal : ExecStatus → Type 0
IsFinal st = st ≢ running

abbrev pub AnswersFinal : Executor Store → Type 0
AnswersFinal e =
    (ctx : Context) (config : RawMessage) (s : Store) (r : ExecResult)
    → (e ctx config s).0 ≡ ok r
    → IsFinal r.status

-- What is asked of the executors that the scheduler was built with.
abbrev pub AreSound : Executors Store → Type 0
AreSound executors = All (λ p. ActsOutside p.1 × AnswersFinal p.1) executors

executor_for_sound :
    (t : JobType) (executors : Executors Store) (e : Executor Store)
    → AreSound executors
    → executor_for t executors ≡ some e
    → ActsOutside e × AnswersFinal e
unfolding executor_for
executor_for_sound t [] e h found = cc
executor_for_sound t ((u, x) ∷ es) e (sound, h) found = elim (Bool-cases (u == t)) [
  | inl hit ↦
      let same : x ≡ e = ground arith in subst (λ y. ActsOutside y × AnswersFinal y) same sound
  | inr miss ↦ executor_for_sound t es e h (ground arith)
]

-- A run that came to an end: a final record of the same execution, and nothing else moved but
-- the clock.
pub record Ran (exec : Execution) (s : Store) (r : Result Execution × Store) : Type 0 where
  pub outcome : Execution
  pub reads : ℕ
  pub answered : r ≡ (ok outcome, record s { reads = reads })
  pub final : IsFinal outcome.status
  pub same_id : outcome.id ≡ exec.id

with_outcome-IsFinal :
    (exec : Execution) (r : Result ExecResult)
    → ((x : ExecResult) → r ≡ ok x → IsFinal x.status)
    → IsFinal (with_outcome r exec).status
with_outcome-IsFinal exec (err e) h = λ p. cc
with_outcome-IsFinal exec (ok x) h = h x refl

id-with_outcome : (exec : Execution) (r : Result ExecResult) → (with_outcome r exec).id ≡ exec.id
id-with_outcome exec (err e) = refl
id-with_outcome exec (ok x) = refl

-- The tables after the two writes of a run.
abbrev pub recorded : Job → Execution → Time → Store → Db
recorded job exec finished s =
    let d : Db = written (set_execution exec s) s.db in
    written (set_job (current s) (record job { last_run_at = some finished }) d) d

module _ (executors : Executors Store) (unmarshal : RawMessage → Result String)
    (dispatch : Option (Job → Execution → M Store (List Sending))) where
  abbrev record_writes : Job → Execution → Time → M Store (Unit {0})
  record_writes =
      record_run store_runtime job_repository execution_repository executors unmarshal dispatch

  abbrev pub asks : Job → Execution → M Store (List Sending)
  asks = notify store_runtime job_repository execution_repository executors unmarshal dispatch

  run_with-Ran :
      (o : Option (Executor Store)) (job : Job) (exec : Execution) (s : Store)
      → ((e : Executor Store) → o ≡ some e → ActsOutside e × AnswersFinal e)
      → Ran exec s (
          run_with store_runtime job_repository execution_repository executors unmarshal dispatch o
            job exec s)
  unfolding run_next
  run_with-Ran none job exec s h = record {
    outcome = record exec { status = error; error = "unknown job type: " +++ job.type };
    reads = s.reads;
    answered = refl;
    final = λ e. cc;
    same_id = refl;
  }
  run_with-Ran (some e) job exec s h =
      let (outside, answers) = h e refl in
      let (r, moved) = outside (job_timeout job.timeout_seconds ∷ []) job.config s in
      record {
        outcome = with_outcome (e (job_timeout job.timeout_seconds ∷ []) job.config s).0 exec;
        reads = r;
        answered =
            ap
              (λ u. (
                ok (with_outcome (e (job_timeout job.timeout_seconds ∷ []) job.config s).0 exec),
                u,
              ))
              moved;
        final = with_outcome-IsFinal exec _ (answers _ job.config s);
        same_id = id-with_outcome exec _;
      }

  run_job-Ran :
      (job : Job) (exec : Execution) (s : Store)
      → AreSound executors
      → Ran exec s (
          run_job store_runtime job_repository execution_repository executors unmarshal dispatch job
            exec s)
  unfolding run_job
  run_job-Ran job exec s sound =
      run_with-Ran (executor_for job.type executors) job exec s
        (λ e found. executor_for_sound job.type executors e sound found)

  record_run-recorded :
      (job : Job) (exec : Execution) (finished : Time) (s : Store)
      → s.faults ≡ []
      → (record_writes job exec finished s).1 ≡ record s { db = recorded job exec finished s }
  unfolding record_run Job.update Execution.update run_next
  record_run-recorded job exec finished s calm =
      ap (λ u. (Job.update (record job { last_run_at = some finished }) u).1)
        (statement-written (set_execution exec) s calm)
      ∙ statement-written
          (λ v. set_job (current v) (record job { last_run_at = some finished }) v.db)
          (record s { db = written (set_execution exec s) s.db }) calm

  -- Notifying writes neither jobs nor executions.
  abbrev pub KeepsRuns : Type 0
  KeepsRuns =
      (job : Job) (exec : Execution) (s : Store)
      → ((asks job exec s).1.executions ≡ s.executions) × ((asks job exec s).1.jobs ≡ s.jobs)

  -- What a run writes: the outcome of its executor, and the snapshot of its claim.
  pub record RunWritten (claim : JobClaim) (s t : Store) : Type 0 where
    pub start : Time
    pub finished : Time
    pub ran : Execution
    pub reads : ℕ
    pub outcome :
        (run_job store_runtime job_repository execution_repository executors unmarshal dispatch
          claim.job
          (fresh_execution claim (s.clock s.reads))
          (record s { reads = suc s.reads })).0
        ≡ ok ran
    pub final : IsFinal ran.status
    pub same_id : ran.id ≡ claim.execution_id
    pub executions :
        t.executions
        ≡ (recorded claim.job
            (finish start finished ran)
            finished
            (record s { reads = reads })).executions
    pub jobs :
        t.jobs
        ≡ (recorded claim.job
            (finish start finished ran)
            finished
            (record s { reads = reads })).jobs

  pub execute_job-RunWritten :
      (claim : JobClaim) (s : Store)
      → AreSound executors
      → KeepsRuns
      → s.faults ≡ []
      → RunWritten claim s
          (execute_job store_runtime job_repository execution_repository executors unmarshal
            dispatch claim s).1
  unfolding execute_job run_next
  execute_job-RunWritten claim s sound keeps calm =
      let start = s.clock s.reads in
      let run =
        run_job-Ran claim.job (fresh_execution claim start) (record s { reads = suc s.reads })
          sound in
      let finished = s.clock run.reads in
      let exec = finish start finished run.outcome in
      let u : Store = record s { reads = suc run.reads } in
      let wrote = record_run-recorded claim.job exec finished u calm in
      let kept =
        keeps (record claim.job { last_run_at = some finished }) exec
          (record_writes claim.job exec finished u).1 in
      rw run.answered (record {
        start = start;
        finished = finished;
        ran = run.outcome;
        reads = suc run.reads;
        outcome = ap (λ (p : Result Execution × Store). p.0) run.answered;
        final = run.final;
        same_id = run.same_id;
        executions = kept.0 ∙ ap (λ (v : Store). v.executions) wrote;
        jobs = kept.1 ∙ ap (λ (v : Store). v.jobs) wrote;
      })
