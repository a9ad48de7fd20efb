-- ===== src/Repository/Job.antt =====
-- internal/repository/postgres/job.go, but ClaimDue (see Claim), and migrations/000002, 000006.
pub mod Laws
use signal_flow.Base.{
  ℕ, ℤ, String, Bool, not, ◌&&◌, ◌||◌, none, some, List, [], ◌∷◌, ◌++◌, Result, ok, err, M, ◌==◌,
  leb, ◌>>=◌, pure, Option,
}
use signal_flow.Domain.{Time, Job, is_active}
use signal_flow.Store.{Db, Store, current}
use signal_flow.Store.Rows.{
  select_where, update_where, delete_where, count_where, first_where, sort_by, page_rows,
}
use signal_flow.Store.Statement.{statement, query, driver_error}
use signal_flow.Repository.Constraints.{
  require, has_user, has_job, job_row_allowed, cascade_executions,
}

-- The row that the INSERT makes: `last_run_at` is left to its default, and the two times are now().
unfoldable pub inserted_job : Time → Job → Job
inserted_job now job = record job { last_run_at = none; created_at = now; updated_at = now }

unfoldable pub insert_job : Time → Job → Db → Result (Unit {0} × Db)
unfolding inserted_job
insert_job now job db = require (not (has_job job.id db.jobs)) "duplicate key in jobs" (
    require (has_user job.user_id db.users) "no such user" (
      require (job_row_allowed job) "jobs_type_check"
        (ok (tt, record db { jobs = db.jobs ++ inserted_job now job ∷ [] }))))

unfoldable pub create : Job → M Store (Unit {0})
unfolding insert_job
create job = statement (λ s. insert_job (current s) job s.db)

abbrev pub found : {R : Type 0} → Option R → Result R
found none = err (driver_error "no rows in result set")
found (some r) = ok r

unfoldable pub get_by_id : String → M Store Job
get_by_id id = query (λ s. found (first_where (λ j. j.id == id) s.jobs))

-- ORDER BY created_at DESC.
abbrev newest_first : Job → Job → Bool
newest_first a b = leb b.created_at a.created_at

unfoldable pub list : String → ℤ → ℤ → M Store (List Job × ℕ)
list user_id offset limit = do
  total ← query (λ s. ok (count_where (λ j. j.user_id == user_id) s.jobs))
  jobs ← query λ s.
      page_rows offset limit
        (sort_by newest_first (select_where (λ j. j.user_id == user_id) s.jobs))
  pure (jobs, total)

unfoldable pub list_active : M Store (List Job)
list_active = query (λ s. ok (select_where (λ j. is_active j.status) s.jobs))

-- The columns that the UPDATE sets; the owner and the time of creation are not among them.
unfoldable pub updated_job : Time → Job → Job → Job
updated_job now job row = record row {
  name = job.name;
  type = job.type;
  schedule = job.schedule;
  config = job.config;
  status = job.status;
  notify_channels = job.notify_channels;
  condition = job.condition;
  timeout_seconds = job.timeout_seconds;
  last_run_at = job.last_run_at;
  next_run_at = job.next_run_at;
  updated_at = now;
}

unfoldable pub set_job : Time → Job → Db → Result (Unit {0} × Db)
unfolding updated_job
set_job now job db =
    require (not (has_job job.id db.jobs) || job_row_allowed job) "jobs_type_check" (
      ok
        (tt, record db { jobs = update_where (λ j. j.id == job.id) (updated_job now job) db.jobs }))

unfoldable pub update : Job → M Store (Unit {0})
unfolding set_job
update job = statement (λ s. set_job (current s) job s.db)

unfoldable pub delete : String → M Store (Unit {0})
unfolding cascade_executions
delete id =
    statement λ s.
      ok (tt, cascade_executions (record s.db { jobs = delete_where (λ j. j.id == id) s.jobs }))

unfoldable pub count_by_user : String → M Store ℕ
count_by_user user_id = query (λ s. ok (count_where (λ j. j.user_id == user_id) s.jobs))

unfoldable pub count_active_by_user : String → M Store ℕ
count_active_by_user user_id =
    query (λ s. ok (count_where (λ j. j.user_id == user_id && is_active j.status) s.jobs))
