-- ===== src/Repository/Claim.antt =====
-- ClaimDue of internal/repository/postgres/job.go: one transaction selects the due jobs that no
-- other transaction has locked, moves each one's next run on, and inserts a running execution
-- for each. `locked` of the store are the rows that SKIP LOCKED passes over; the query adds its own to
-- them, until the transaction ends.
pub mod Selection
pub mod Laws
pub mod Effect
use signal_flow.Base.{
  ℤ, pos, String, Bool, false, true, not, ◌&&◌, Option, none, some, List, [], ◌∷◌, ◌++◌, Result, ok,
  err, M, ◌==◌, leb, any, pure, try, ◌>>=◌, ◌>>◌, suc, map,
}
use signal_flow.Domain.{Time, Job, JobClaim, Execution, is_active, running}
use signal_flow.Domain.Ports.{NextRunFunc}
use signal_flow.Store.{Db, Store, current}
use signal_flow.Store.Rows.{select_where, update_where, sort_by, limit_rows}
use signal_flow.Store.Statement.{statement, query, transaction}
use signal_flow.Repository.Constraints.{require, has_job, has_execution}

-- `next_run_at <= now()`, which is not true of NULL.
abbrev pub is_due_at : Time → Option Time → Bool
is_due_at now none = false
is_due_at now (some t) = leb t now

unfoldable pub is_claimable : Store → Job → Bool
is_claimable s j =
    is_active j.status
    && is_due_at (current s) j.next_run_at
    && not (any (λ id. id == j.id) s.locked)

-- ORDER BY next_run_at ASC, where NULL comes last.
abbrev pub sooner : Option Time → Option Time → Bool
sooner (some a) (some b) = leb a b
sooner (some a) none = true
sooner none (some b) = false
sooner none none = true

unfoldable pub select_due : ℤ → Store → Result (List Job)
unfolding is_claimable
select_due limit s =
    limit_rows limit
      (sort_by (λ a b. sooner a.next_run_at b.next_run_at) (select_where (is_claimable s) s.jobs))

unfoldable pub advance_job : Time → Time → String → Db → Db
advance_job now next_at id db = record db {
  jobs =
      update_where (λ j. j.id == id)
        (λ j. record j { next_run_at = some next_at; updated_at = now }) db.jobs;
}

-- The row of a claimed run; the other columns have their defaults.
abbrev pub running_execution : String → String → Time → Execution
running_execution id job_id started = record {
  id = id;
  job_id = job_id;
  status = running;
  output = [];
  error = "";
  duration_ms = pos 0;
  started_at = started;
  finished_at = none;
}

unfoldable pub insert_running : String → String → Time → Db → Result (String × Db)
insert_running id job_id started db =
    require (not (has_execution id db.executions)) "duplicate key in executions" (
      require (has_job job_id db.jobs) "no such job" (
        ok (
          id,
          record db { executions = db.executions ++ running_execution id job_id started ∷ [] },
        )))

-- gen_random_uuid(), the default of executions.id.
abbrev pub draw : M Store String
draw s = (ok (s.uuid s.drawn), record s { drawn = suc s.drawn })

-- The two statements of one round of the loop.
unfoldable pub claim_job : Time → Time → Job → Time → M Store JobClaim
unfolding advance_job insert_running
claim_job began now job next_at = do
  statement (λ s. ok (tt, advance_job began next_at job.id s.db))
  id ← draw
  exec_id ← statement (λ s. insert_running id job.id now s.db)
  pure (record { job = record job { next_run_at = some next_at }; execution_id = exec_id })

-- One round: a schedule that does not parse skips its job and leaves it due.
unfoldable pub claim_one :
    Time → Time → Job → M Store (List JobClaim) → Result Time → M Store (List JobClaim)
unfolding claim_job
claim_one began now job rest (err _) = rest
claim_one began now job rest (ok next_at) = do
  claim ← claim_job began now job next_at
  claims ← rest
  pure (claim ∷ claims)

-- The loop.
unfoldable pub claim_jobs : NextRunFunc Store → Time → Time → List Job → M Store (List JobClaim)
unfolding claim_one
claim_jobs next began now [] = pure []
claim_jobs next began now (job ∷ jobs) = do
  r ← try (next job.schedule)
  claim_one began now job (claim_jobs next began now jobs) r

abbrev pub read_now : M Store Time
read_now s = (ok (s.clock s.reads), record s { reads = suc s.reads })

-- FOR UPDATE: the rows that the query answers are locked, and so passed over by the others.
unfoldable pub lock_rows : List Job → M Store (Unit {0})
lock_rows jobs s = (ok tt, record s { locked = map (λ j. j.id) jobs ++ s.locked })

unfoldable pub select_for_update : ℤ → M Store (List Job)
unfolding select_due lock_rows
select_for_update limit = do jobs ← query (select_due limit); lock_rows jobs; pure jobs

-- Inside the transaction, where now() is the time at which it began.
unfoldable pub claim_within : ℤ → NextRunFunc Store → Time → M Store (List JobClaim)
unfolding select_for_update claim_jobs
claim_within limit next began = do
  jobs ← select_for_update limit
  now ← read_now
  claim_jobs next began now jobs

-- The end of a transaction, committed or rolled back, gives its locks up.
abbrev pub unlock : {A : Type 0} → List String → Result A × Store → Result A × Store
unlock held (r, s) = (r, record s { locked = held })

unfoldable pub claim_due : ℤ → NextRunFunc Store → M Store (List JobClaim)
unfolding claim_within
claim_due limit next s = unlock s.locked (transaction (claim_within limit next (current s)) s)
