-- ===== src/Service/Dashboard/Laws.antt =====
-- What the dashboard counts, told of the rows themselves: Stats of internal/service/dashboard.go.
use signal_flow.Base.{
  ◌-◌, ◌≤◌, ◌≡◌, refl, sym, subst, ◌↔◌, ◌⊎◌, inl, inr, arith, In, String, Bool, true, false, ◌&&◌,
  ◌||◌, ◌==◌, eq_iff, leb, none, List, [], ◌∷◌, ok, run_next,
}
use signal_flow.Domain.{
  Time, Job, JobStatus, active, paused, disabled, Execution, ExecStatus, running, success, failure,
  error, Notification, NotificationStatus, pending, sent, failed, is_active, is_sent,
}
use signal_flow.Store.{Db, Store, current}
use signal_flow.Store.Rows.{count_where}
use signal_flow.Store.Counting.{Counted, count_where-Counted}
use signal_flow.Store.Statement.{store_runtime, query, settle}
use signal_flow.Repository.Job.{count_by_user, count_active_by_user}
use signal_flow.Repository.Execution.{is_owned_by, is_failed, count_failures_by_user_since}
use signal_flow.Repository.Notification.{is_for_user, count_sent_by_user_since}
use signal_flow.Repository.Adapters.{job_repository, execution_repository, notification_repository}
use signal_flow.Service.Dashboard.{DashboardStats, day, stats}

-- A stored job of the user has this identifier.
abbrev pub OwnsJob : String → List Job → String → Type 0
OwnsJob user_id jobs job_id = (j : Job) × In j jobs × ((j.id ≡ job_id) × (j.user_id ≡ user_id))

abbrev pub IsRecentFailure : String → Time → List Job → Execution → Type 0
IsRecentFailure user_id since jobs e =
    (OwnsJob user_id jobs e.job_id × ((e.status ≡ failure) ⊎ (e.status ≡ error)))
    × (since ≤ e.started_at)

abbrev pub IsRecentSent : String → Time → Db → Notification → Type 0
IsRecentSent user_id since db n =
    (((e : Execution) × In e db.executions
        × ((e.id ≡ n.execution_id) × OwnsJob user_id db.jobs e.job_id))
      × (n.status ≡ sent))
    × (since ≤ n.created_at)

-- The counters are the numbers of the user's jobs, of the active ones among them, of the
-- executions of the last day that failed and of the notifications of the last day that were sent.
pub record CountsOf (user_id : String) (s : Store) (st : DashboardStats) : Type 0 where
  pub jobs : Counted (λ j. j.user_id ≡ user_id) st.total_jobs s.jobs
  pub live : Counted (λ j. (j.user_id ≡ user_id) × (j.status ≡ active)) st.active_jobs s.jobs
  pub failures :
      Counted (IsRecentFailure user_id (current s - day) s.jobs) st.recent_failures s.executions
  pub sends :
      Counted (IsRecentSent user_id (current s - day) s.db) st.notifications_sent s.notifications

-- Deciding a conjunction, a disjunction and an entry of a list.
and_iff :
    {A B : Type 0} (a b : Bool) → (a ≡ true) ↔ A → (b ≡ true) ↔ B → ((a && b) ≡ true) ↔ (A × B)
and_iff true b f g = (λ h. (f.0 refl, g.0 h), λ h. g.1 h.1)
and_iff false b f g = (λ h. cc, λ h. f.1 h.0)

or_iff : {A B : Type 0} (a b : Bool) → (a ≡ true) ↔ A → (b ≡ true) ↔ B → ((a || b) ≡ true) ↔ (A ⊎ B)
or_iff true b f g = (λ h. inl (f.0 refl), λ h. refl)
or_iff false b f g =
    (λ h. inr (g.0 h), λ h. elim h [ inl x ↦ (let e = f.1 x in cc) | inr y ↦ g.1 y ])

listed_iff :
    {R : Type 0} (P : R → Type 0) (x : R) (rs : List R)
    → (P x ⊎ ((r : R) × In r rs × P r)) ↔ ((r : R) × In r (x ∷ rs) × P r)
listed_iff P x rs = (
  λ h. elim h [ inl p ↦ (x, inl refl, p) | inr (r, m, p) ↦ (r, inr m, p) ],
  λ h. elim h.1 [ inl e ↦ inl (subst P e h.2) | inr m ↦ inr (h.0, m, h.2) ],
)

owned_iff :
    (user_id job_id : String) (jobs : List Job)
    → (is_owned_by user_id job_id jobs ≡ true) ↔ OwnsJob user_id jobs job_id
owned_iff user_id job_id [] = (λ h. cc, λ h. elim h.1 [ ])
owned_iff user_id job_id (j ∷ js) =
    let here =
      or_iff _ _ (and_iff _ _ (eq_iff j.id job_id) (eq_iff j.user_id user_id))
        (owned_iff user_id job_id js) in
    let there = listed_iff (λ (k : Job). (k.id ≡ job_id) × (k.user_id ≡ user_id)) j js in
    (λ h. there.0 (here.0 h), λ h. here.1 (there.1 h))

for_user_iff :
    (user_id exec_id : String) (execs : List Execution) (jobs : List Job)
    → (is_for_user user_id exec_id execs jobs ≡ true)
      ↔ ((e : Execution) × In e execs × ((e.id ≡ exec_id) × OwnsJob user_id jobs e.job_id))
for_user_iff user_id exec_id [] jobs = (λ h. cc, λ h. elim h.1 [ ])
for_user_iff user_id exec_id (e ∷ es) jobs =
    let here =
      or_iff _ _ (and_iff _ _ (eq_iff e.id exec_id) (owned_iff user_id e.job_id jobs))
        (for_user_iff user_id exec_id es jobs) in
    let there =
      listed_iff (λ (k : Execution). (k.id ≡ exec_id) × OwnsJob user_id jobs k.job_id) e es in
    (λ h. there.0 (here.0 h), λ h. here.1 (there.1 h))

active_iff : (st : JobStatus) → (is_active st ≡ true) ↔ (st ≡ active)
active_iff active = (λ _. refl, λ _. refl)
active_iff paused = (λ h. cc, λ h. cc)
active_iff disabled = (λ h. cc, λ h. cc)

sent_iff : (st : NotificationStatus) → (is_sent st ≡ true) ↔ (st ≡ sent)
sent_iff pending = (λ h. cc, λ h. cc)
sent_iff sent = (λ _. refl, λ _. refl)
sent_iff failed = (λ h. cc, λ h. cc)

failed_iff : (st : ExecStatus) → (is_failed st ≡ true) ↔ ((st ≡ failure) ⊎ (st ≡ error))
failed_iff running = (λ h. cc, λ h. elim h [ inl e ↦ cc | inr e ↦ cc ])
failed_iff success = (λ h. cc, λ h. elim h [ inl e ↦ cc | inr e ↦ cc ])
failed_iff failure = (λ _. inl refl, λ _. refl)
failed_iff error = (λ _. inr refl, λ _. refl)

leb_iff : (a b : Time) → (leb a b ≡ true) ↔ (a ≤ b)
leb_iff a b = ground arith

-- What the code counts, with its tests.
module _ (user_id : String) (s : Store) where
  abbrev pub since : Time
  since = current s - day

  abbrev pub answer : DashboardStats
  answer = record {
    total_jobs = count_where (λ j. j.user_id == user_id) s.jobs;
    active_jobs = count_where (λ j. j.user_id == user_id && is_active j.status) s.jobs;
    recent_failures =
        count_where
          (λ e. is_owned_by user_id e.job_id s.jobs && is_failed e.status && leb since e.started_at)
          s.executions;
    notifications_sent =
        count_where
          (λ n.
            is_for_user user_id n.execution_id s.executions s.jobs
            && is_sent n.status
            && leb since n.created_at)
          s.notifications;
  }

  pub answer-CountsOf : CountsOf user_id s answer
  answer-CountsOf = record {
    jobs = count_where-Counted _ _ (λ j. eq_iff j.user_id user_id) s.jobs;
    live =
        count_where-Counted _ _ (λ j. and_iff _ _ (eq_iff j.user_id user_id) (active_iff j.status))
          s.jobs;
    failures =
        count_where-Counted _ _
          (λ e.
            and_iff _ _ (and_iff _ _ (owned_iff user_id e.job_id s.jobs) (failed_iff e.status))
              (leb_iff since e.started_at))
          s.executions;
    sends =
        count_where-Counted _ _
          (λ n.
            and_iff _ _
              (and_iff _ _ (for_user_iff user_id n.execution_id s.executions s.jobs)
                (sent_iff n.status))
              (leb_iff since n.created_at))
          s.notifications;
  }

  answered :
      s.faults ≡ []
      → (stats store_runtime job_repository execution_repository notification_repository user_id
          s).0
        ≡ ok (answer, none)
  unfolding stats run_next count_by_user count_active_by_user count_failures_by_user_since
      count_sent_by_user_since query settle
  answered calm =
      subst
        (λ fs.
          (stats store_runtime job_repository execution_repository notification_repository user_id
            (record s { faults = fs })).0
          ≡ ok (answer, none))
        (sym calm) refl

  -- With no failure of the database to come Stats answers without an error, and its counters are
  -- the numbers of the user's jobs, of the active ones among them, of the executions of the user's
  -- jobs that began within the last day and failed or ended in an error, and of the notifications
  -- of such jobs' executions that were created within the last day and sent.
  pub stats_counts :
      s.faults ≡ []
      → (st : DashboardStats) × ((stats store_runtime job_repository execution_repository
            notification_repository user_id s).0
          ≡ ok (st, none))
        × CountsOf user_id s st
  stats_counts calm = (answer, answered calm, answer-CountsOf)
