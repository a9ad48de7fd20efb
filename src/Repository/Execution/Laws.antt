-- ===== src/Repository/Execution/Laws.antt =====
-- What recovering stale executions does to the table.
use signal_flow.Base.{◌≡◌, refl, ◌↔◌, ◌⊎◌, inl, inr, ℕ, ◌<◌, true, some, Ensures, arith}
use signal_flow.Domain.{Time, Execution, ExecStatus, running, success, failure, error, is_running}
use signal_flow.Store.{Store, current}
use signal_flow.Store.Counting.{Counted, count_where-Counted, RowByRow, update_where-RowByRow}
use signal_flow.Store.Statement.{statement-Ensures, settle-Ensures}
use signal_flow.Repository.Execution.{is_stale, recovered, recover_stale_running}

-- The execution is running and began before the cutoff.
abbrev pub IsStale : Time → Execution → Type 0
IsStale cutoff e = (e.status ≡ running) × (e.started_at < cutoff)

-- A stale row has become an error that ended now, its other columns as they were; any other row is
-- as it was.
abbrev pub IsSweptRow : Time → Time → Execution → Execution → Type 0
IsSweptRow cutoff now o e =
    (IsStale cutoff o
      × (e.status ≡ error)
      × (e.error ≡ "scheduler crashed or timed out")
      × (e.finished_at ≡ some now)
      × (e.id ≡ o.id)
      × (e.job_id ≡ o.job_id)
      × (e.output ≡ o.output)
      × (e.duration_ms ≡ o.duration_ms)
      × (e.started_at ≡ o.started_at))
    ⊎ ((IsStale cutoff o → ⊥) × (e ≡ o))

-- What a sweep with this cutoff leaves.
pub record Swept (cutoff : Time) (n : ℕ) (s t : Store) : Type 0 where
  pub counted : Counted (IsStale cutoff) n s.executions
  pub swept : RowByRow (IsSweptRow cutoff (current s)) s.executions t.executions
  pub same_users : t.users ≡ s.users
  pub same_jobs : t.jobs ≡ s.jobs
  pub same_channels : t.channels ≡ s.channels
  pub same_notifications : t.notifications ≡ s.notifications

is_running_iff : (st : ExecStatus) → (is_running st ≡ true) ↔ (st ≡ running)
is_running_iff running = (λ _. refl, λ _. refl)
is_running_iff success = (λ h. cc, λ h. cc)
is_running_iff failure = (λ h. cc, λ h. cc)
is_running_iff error = (λ h. cc, λ h. cc)

stale_iff : (cutoff : Time) (e : Execution) → (is_stale cutoff e ≡ true) ↔ IsStale cutoff e
stale_iff cutoff e = (
  λ h.
      let runs : is_running e.status ≡ true = ground arith in
      let old : e.started_at < cutoff = ground arith in ((is_running_iff e.status).0 runs, old),
  λ h. let runs = (is_running_iff e.status).1 h.0 in let old = h.1 in ground arith,
)

-- After a recovery the table has its rows one by one: those that were running since before the
-- cutoff have become errors that ended now, with their other columns kept, and all the others are
-- as they were; the answer is the number of the former, and no other table has changed. A failure
-- changes nothing.
pub recover_stale_running-Swept :
    (cutoff : Time) (s : Store)
    → Ensures (λ n t. Swept cutoff n s t) (λ _ t. t.db ≡ s.db) (recover_stale_running cutoff s)
unfolding recover_stale_running
recover_stale_running-Swept cutoff s =
    statement-Ensures _ s
      (λ gs. settle-Ensures _ _ _ (record {
        counted =
            count_where-Counted (IsStale cutoff) (is_stale cutoff) (stale_iff cutoff) s.executions;
        swept =
            update_where-RowByRow (IsSweptRow cutoff (current s)) (is_stale cutoff)
              (recovered (current s))
              (λ e stale.
                inl ((stale_iff cutoff e).0 stale, refl, refl, refl, refl, refl, refl, refl, refl))
              (λ e fresh. inr (λ h. let stale = (stale_iff cutoff e).1 h in cc, refl)) s.executions;
        same_users = refl;
        same_jobs = refl;
        same_channels = refl;
        same_notifications = refl;
      }))
      (λ _ _. refl)
