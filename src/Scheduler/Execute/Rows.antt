-- ===== src/Scheduler/Execute/Rows.antt =====
-- The rows that a run leaves behind: what becomes of its execution, and of its job.
use signal_flow.Base.{
  ne_of_test, ◌≡◌, ◌≢◌, sym, ap, subst, ◌∙◌, ◌⊎◌, inl, inr, String, true, Option, some, List, [],
  Result, ok, suc, M, arith, eq_iff, ◌==◌, In, Bool-cases,
}
use signal_flow.Domain.{Time, RawMessage, Job, JobClaim, Execution}
use signal_flow.Store.{Db, Store, current}
use signal_flow.Store.Rows.{In-update_where, update_where}
use signal_flow.Store.Statement.{written, store_runtime}
use signal_flow.Repository.Constraints.{require, has_job, job_row_allowed}
use signal_flow.Repository.Job.{set_job, updated_job}
use signal_flow.Repository.Execution.{set_execution, updated_execution, takes_texts}
use signal_flow.Repository.Adapters.{job_repository, execution_repository}
use signal_flow.Notifier.Dispatch.{Sending}
use signal_flow.Scheduler.Execute.{Executors, finish, execute_job, run_job, fresh_execution}
use signal_flow.Scheduler.Execute.Laws.{
  IsFinal, AreSound, KeepsRuns, RunWritten, execute_job-RunWritten,
}

-- What the two UPDATEs of a run do to the two tables.
executions-set_job :
    (now : Time) (job : Job) (d : Db) → (written (set_job now job d) d).executions ≡ d.executions
unfolding set_job require
executions-set_job now job d = ground arith

jobs-set_job :
    (now : Time) (job : Job) (d : Db)
    → job_row_allowed job ≡ true
    → (written (set_job now job d) d).jobs
      ≡ update_where (λ j. j.id == job.id) (updated_job now job) d.jobs
unfolding set_job require
jobs-set_job now job d allowed = elim (Bool-cases (has_job job.id d.jobs)) [
  | inl e ↦ rw (e, allowed, require)
  | inr e ↦ rw (e, require)
]

executions-set_execution :
    (exec : Execution) (s : Store)
    → takes_texts exec s ≡ true
    → (written (set_execution exec s) s.db).executions
      ≡ update_where (λ e. e.id == exec.id) (updated_execution exec) s.executions
unfolding set_execution require
executions-set_execution exec s takes = rw (takes, require)

module _ (executors : Executors Store) (unmarshal : RawMessage → Result String)
    (dispatch : Option (Job → Execution → M Store (List Sending))) (claim : JobClaim)
    (s : Store) where
  -- What the executor of the claimed job makes of the execution, from the first reading of the
  -- clock on.
  abbrev pub run_of : Result Execution
  run_of =
      (run_job store_runtime job_repository execution_repository executors unmarshal dispatch
        claim.job (fresh_execution claim (s.clock s.reads)) (record s { reads = suc s.reads })).0

  -- TEXT columns take the output and the error of this run.
  abbrev pub TakesOutcome : Type 0
  TakesOutcome = (x : Execution) → run_of ≡ ok x → takes_texts x s ≡ true

module _ (executors : Executors Store) (unmarshal : RawMessage → Result String)
    (dispatch : Option (Job → Execution → M Store (List Sending))) (sound : AreSound executors)
    (keeps : KeepsRuns executors unmarshal dispatch) (claim : JobClaim) (s : Store)
    (calm : s.faults ≡ []) where
  abbrev after_run : Store
  after_run =
      (execute_job store_runtime job_repository execution_repository executors unmarshal dispatch
        claim s).1

  wrote : RunWritten executors unmarshal dispatch claim s after_run
  wrote = execute_job-RunWritten executors unmarshal dispatch claim s sound keeps calm

  -- After a run on a store with no failures to come, whose TEXT columns take the output and the
  -- error of this run, with executors that write no table and answer final statuses and a
  -- notification that keeps jobs and executions, every row of the run's execution is final and has
  -- a time of finish, and every other row is one that was there.
  pub execute_job_finishes :
      (e : Execution)
      → TakesOutcome executors unmarshal dispatch claim s
      → In e after_run.executions
      → ((e.id ≡ claim.execution_id) × IsFinal e.status × ((f : Time) × (e.finished_at ≡ some f)))
        ⊎ ((e.id ≢ claim.execution_id) × In e s.executions)
  unfolding updated_execution
  execute_job_finishes e takes m =
      let w = wrote in
      let exec = finish w.start w.finished w.ran in
      let u : Store = record s { reads = w.reads } in
      let rows =
        w.executions
        ∙ executions-set_job (current u) (record claim.job { last_run_at = some w.finished })
            (written (set_execution exec u) s.db)
        ∙ executions-set_execution exec u (takes w.ran w.outcome) in
      let (o, listed, how) =
        In-update_where (λ e. e.id == exec.id) (updated_execution exec) s.executions e
          (subst (In e) rows m) in
      elim how [
        | inl (hit, same) ↦ inl (
          ap (λ (x : Execution). x.id) same ∙ (eq_iff o.id exec.id).0 hit ∙ w.same_id,
          subst IsFinal (sym (ap (λ (x : Execution). x.status) same)) w.final,
          (w.finished, ap (λ (x : Execution). x.finished_at) same),
        )
        | inr (miss, same) ↦ inr (
          λ clash.
              ne_of_test o.id exec.id miss
                (sym (ap (λ (x : Execution). x.id) same) ∙ clash ∙ sym w.same_id),
          subst (λ x. In x s.executions) (sym same) listed,
        )
      ]

  -- After a run on a store with no failures to come, with sound executors, a notification that
  -- keeps jobs and executions, and a claimed job whose row the constraints allow, every row with
  -- that job's identifier has the status, schedule and next run of the claim, whatever it had when
  -- the run started.
  pub execute_job_overwrites :
      (j : Job)
      → job_row_allowed claim.job ≡ true
      → In j after_run.jobs
      → j.id ≡ claim.job.id
      → (j.status ≡ claim.job.status)
        × (j.schedule ≡ claim.job.schedule)
        × (j.next_run_at ≡ claim.job.next_run_at)
  unfolding updated_job
  execute_job_overwrites j allowed m same =
      let w = wrote in
      let exec = finish w.start w.finished w.ran in
      let u : Store = record s { reads = w.reads } in
      let job = record claim.job { last_run_at = some w.finished } in
      let rows =
        w.jobs ∙ jobs-set_job (current u) job (written (set_execution exec u) s.db) allowed in
      let (o, listed, how) =
        In-update_where (λ j. j.id == job.id) (updated_job (current u) job) _ j
          (subst (In j) rows m) in
      elim how [
        | inl (hit, e) ↦ (
          ap (λ (x : Job). x.status) e,
          ap (λ (x : Job). x.schedule) e,
          ap (λ (x : Job). x.next_run_at) e,
        )
        | inr (miss, e) ↦
            absurd (ne_of_test o.id job.id miss (sym (ap (λ (x : Job). x.id) e) ∙ same))
      ]
