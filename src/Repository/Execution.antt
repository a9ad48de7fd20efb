-- ===== src/Repository/Execution.antt =====
-- internal/repository/postgres/execution.go, and migrations/000003, 000006.
pub mod Laws
use signal_flow.Base.{
  ℕ, ℤ, String, Bool, false, true, not, ◌&&◌, ◌||◌, some, List, [], ◌∷◌, ◌++◌, Result, ok, M, ◌==◌,
  leb, ltb, ◌>>=◌, pure, bytes_of,
}
use signal_flow.Domain.{Time, Job, Execution, ExecStatus, failure, error, is_running}
use signal_flow.Store.{Db, Store, current}
use signal_flow.Store.Rows.{
  select_where, update_where, delete_where, count_where, first_where, sort_by, limit_rows,
  page_rows,
}
use signal_flow.Store.Statement.{statement, query}
use signal_flow.Repository.Constraints.{require, has_job, has_execution, cascade_notifications}
use signal_flow.Repository.Job.{found}

-- The two columns of type TEXT take what is written to them.
abbrev pub takes_texts : Execution → Store → Bool
takes_texts exec s = s.text_ok exec.output && s.text_ok (bytes_of exec.error)

unfoldable pub insert_execution : Execution → Store → Result (Unit {0} × Db)
insert_execution exec s = require (takes_texts exec s) "invalid byte sequence for encoding UTF8" (
    require (not (has_execution exec.id s.executions)) "duplicate key in executions" (
      require (has_job exec.job_id s.jobs) "no such job"
        (ok (tt, record s.db { executions = s.executions ++ exec ∷ [] }))))

unfoldable pub create : Execution → M Store (Unit {0})
unfolding insert_execution
create exec = statement (insert_execution exec)

-- The columns that the UPDATE sets: the job and the start are not among them.
unfoldable pub updated_execution : Execution → Execution → Execution
updated_execution exec row = record row {
  status = exec.status;
  output = exec.output;
  error = exec.error;
  duration_ms = exec.duration_ms;
  finished_at = exec.finished_at;
}

unfoldable pub set_execution : Execution → Store → Result (Unit {0} × Db)
unfolding updated_execution
set_execution exec s = require (takes_texts exec s) "invalid byte sequence for encoding UTF8" (
    ok (
      tt,
      record s.db {
        executions = update_where (λ e. e.id == exec.id) (updated_execution exec) s.executions;
      },
    ))

unfoldable pub update : Execution → M Store (Unit {0})
unfolding set_execution
update exec = statement (set_execution exec)

unfoldable pub get_by_id : String → M Store Execution
get_by_id id = query (λ s. found (first_where (λ e. e.id == id) s.executions))

-- ORDER BY started_at DESC.
abbrev latest_first : Execution → Execution → Bool
latest_first a b = leb b.started_at a.started_at

unfoldable pub list_by_job : String → ℤ → ℤ → M Store (List Execution × ℕ)
list_by_job job_id offset limit = do
  total ← query (λ s. ok (count_where (λ e. e.job_id == job_id) s.executions))
  execs ← query λ s.
      page_rows offset limit
        (sort_by latest_first (select_where (λ e. e.job_id == job_id) s.executions))
  pure (execs, total)

unfoldable pub list_recent : ℤ → M Store (List Execution)
list_recent limit = query (λ s. limit_rows limit (sort_by latest_first s.executions))

-- JOIN jobs j ON j.id = e.job_id WHERE j.user_id = …, where a job's identifier is unique.
abbrev pub is_owned_by : String → String → List Job → Bool
is_owned_by user_id job_id [] = false
is_owned_by user_id job_id (j ∷ js) =
    (j.id == job_id && j.user_id == user_id) || is_owned_by user_id job_id js

unfoldable pub list_recent_by_user : String → ℤ → M Store (List Execution)
list_recent_by_user user_id limit = query λ s.
    limit_rows limit
      (sort_by latest_first (select_where (λ e. is_owned_by user_id e.job_id s.jobs) s.executions))

-- `status IN ('failure', 'error')`.
abbrev pub is_failed : ExecStatus → Bool
is_failed failure = true
is_failed error = true
is_failed _ = false

unfoldable pub count_failures_by_user_since : String → Time → M Store ℕ
count_failures_by_user_since user_id since = query λ s. ok (
    count_where
      (λ e. is_owned_by user_id e.job_id s.jobs && is_failed e.status && leb since e.started_at)
      s.executions)

abbrev pub is_stale : Time → Execution → Bool
is_stale cutoff e = is_running e.status && ltb e.started_at cutoff

abbrev pub recovered : Time → Execution → Execution
recovered now e = record e {
  status = error;
  error = "scheduler crashed or timed out";
  finished_at = some now;
}

unfoldable pub recover_stale_running : Time → M Store ℕ
recover_stale_running cutoff = statement λ s. ok (
  count_where (is_stale cutoff) s.executions,
  record s.db { executions = update_where (is_stale cutoff) (recovered (current s)) s.executions },
)

unfoldable pub delete_older_than : Time → M Store ℕ
unfolding cascade_notifications
delete_older_than before = statement λ s. ok (
  count_where (λ e. ltb e.started_at before) s.executions,
  cascade_notifications
      (record s.db { executions = delete_where (λ e. ltb e.started_at before) s.executions }),
)
