-- ===== src/Service/Dashboard.antt =====
-- internal/service/dashboard.go. Stats returns its counters also beside an error, so its value
-- is a pair of both.
pub mod Laws
pub mod Failures
use signal_flow.Base.{
  ℕ, ℤ, pos, ◌-◌, String, Option, none, some, List, ok, err, Error, M, pure, try, ◌>>=◌,
  if◌then◌else◌, is_positive,
}
use signal_flow.Domain.{Execution}
use signal_flow.Domain.Ports.{JobRepository, ExecutionRepository, NotificationRepository, Runtime}

pub record DashboardStats : Type 0 where
  pub total_jobs : ℕ
  pub active_jobs : ℕ
  pub recent_failures : ℕ
  pub notifications_sent : ℕ

abbrev pub no_stats : DashboardStats
no_stats = record { total_jobs = 0; active_jobs = 0; recent_failures = 0; notifications_sent = 0 }

abbrev pub day : ℕ
day = 86_400_000_000_000

-- One `if v, err := …; err == nil { set } else { return stats, err }`.
abbrev pub counted :
    {S : Type 0}
    → DashboardStats
    → M S ℕ
    → (ℕ → M S (DashboardStats × Option Error))
    → M S (DashboardStats × Option Error)
counted stats count rest = do r ← try count; elim r [ ok v ↦ rest v | err e ↦ pure (stats, some e) ]

module _ {S : Type 0} (runtime : Runtime S) (job_repo : JobRepository S)
    (exec_repo : ExecutionRepository S) (notif_repo : NotificationRepository S) where
  unfoldable pub stats : String → M S (DashboardStats × Option Error)
  stats user_id = do
    now ← runtime.now
    let since = now - day
    counted no_stats (job_repo.count_by_user user_id) λ total.
        let s1 = record no_stats { total_jobs = total } in
        counted s1 (job_repo.count_active_by_user user_id) λ live.
          let s2 = record s1 { active_jobs = live } in
          counted s2 (exec_repo.count_failures_by_user_since user_id since) λ failures.
            let s3 = record s2 { recent_failures = failures } in
            counted s3 (notif_repo.count_sent_by_user_since user_id since)
              λ sent. pure (record s3 { notifications_sent = sent }, none)

  unfoldable pub recent_executions : String → ℤ → M S (List Execution)
  recent_executions user_id limit =
      exec_repo.list_recent_by_user user_id (if is_positive limit then limit else pos 20)
