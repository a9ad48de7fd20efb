-- ===== src/Service/Dashboard/Failures.antt =====
-- What the dashboard's counters are when a query fails.
use signal_flow.Base.{pure, ℕ, ◌<◌, ◌≤◌, ◌≡◌, ◌↔◌, ◌⊎◌, String, Option, none, List, Error, M}
use signal_flow.Domain.{active}
use signal_flow.Store.{Store}
use signal_flow.Store.Counting.{Counted}
use signal_flow.Repository.Job.{count_active_by_user}
use signal_flow.Repository.Execution.{count_failures_by_user_since}
use signal_flow.Repository.Notification.{count_sent_by_user_since}
use signal_flow.Service.Dashboard.{DashboardStats, counted}
use signal_flow.Service.Dashboard.Laws.{IsRecentFailure, IsRecentSent, since}

-- Of the counters before the `k`-th the value is the number of rows; the later ones are zero.
abbrev pub IsCounter : {R : Type 0} → ℕ → ℕ → (R → Type 0) → ℕ → List R → Type 0
IsCounter k i P v rows = ((i < k) × Counted P v rows) ⊎ ((k ≤ i) × (v ≡ 0))

-- The first `k` counters, in the order of the queries, are the numbers of the user's rows.
pub record CountsUpTo (user_id : String) (s : Store) (k : ℕ) (st : DashboardStats) : Type 0 where
  pub jobs : IsCounter k 0 (λ j. j.user_id ≡ user_id) st.total_jobs s.jobs
  pub live : IsCounter k 1 (λ j. (j.user_id ≡ user_id) × (j.status ≡ active)) st.active_jobs s.jobs
  pub failures :
      IsCounter k 2
        (IsRecentFailure user_id (since user_id s) s.jobs)
        st.recent_failures
        s.executions
  pub sends :
      IsCounter k 3
        (IsRecentSent user_id (since user_id s) s.db)
        st.notifications_sent
        s.notifications

module _ (user_id : String) (s : Store) where
  -- What Stats answers: the tables are as they were, and a number of counters is right.
  abbrev pub IsPartial : DashboardStats × Option Error → Store → Type 0
  IsPartial out t =
      (t.db ≡ s.db)
      × ((k : ℕ) × CountsUpTo user_id s k out.0 × ((out.1 ≡ none) ↔ (k ≡ 4)) × (k ≤ 4))

  abbrev Jobs : ℕ → Type 0
  Jobs n = Counted (λ j. j.user_id ≡ user_id) n s.jobs

  abbrev Live : ℕ → Type 0
  Live n = Counted (λ j. (j.user_id ≡ user_id) × (j.status ≡ active)) n s.jobs

  abbrev Failures : ℕ → Type 0
  Failures n = Counted (IsRecentFailure user_id (since user_id s) s.jobs) n s.executions

  abbrev Sends : ℕ → Type 0
  Sends n = Counted (IsRecentSent user_id (since user_id s) s.db) n s.notifications

  -- The queries that are left, after none, one, two and three counts.
  abbrev with_counts : ℕ → ℕ → ℕ → ℕ → DashboardStats
  with_counts a b c d = record {
    total_jobs = a;
    active_jobs = b;
    recent_failures = c;
    notifications_sent = d;
  }

  abbrev fourth : ℕ → ℕ → ℕ → M Store (DashboardStats × Option Error)
  fourth a b c =
      counted (with_counts a b c 0) (count_sent_by_user_since user_id (since user_id s))
        (λ d. pure (with_counts a b c d, none))

  abbrev third : ℕ → ℕ → M Store (DashboardStats × Option Error)
  third a b =
      counted (with_counts a b 0 0) (count_failures_by_user_since user_id (since user_id s))
        (fourth a b)

  abbrev second : ℕ → M Store (DashboardStats × Option Error)
  second a = counted (with_counts a 0 0 0) (count_active_by_user user_id) (third a)
