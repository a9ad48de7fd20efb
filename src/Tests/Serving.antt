-- ===== src/Tests/Serving.antt =====
-- The operations on jobs and the sweep of stale executions, on the same store.
use signal_flow.Base.{
  String, M, Result, Bool, ◌==◌, pos, ◌++◌, ◌≡◌, ◌≢◌, refl, true, false, none, some, [], ◌∷◌, ok,
  Ensures, In, inl, inr, is_positive, sym, ap, ◌∙◌, ne_of_test, eq_iff, run_next, map_err_of,
}
use signal_flow.Domain.{Time, User, Job, active, paused, is_active, job_type_command}
use signal_flow.Store.{Store}
use signal_flow.Store.Statement.{store_runtime, statement, settle}
use signal_flow.Repository.Adapters.{job_repository, execution_repository, notification_repository}
use signal_flow.Repository.Claim.{is_claimable}
use signal_flow.Repository.Execution.{recover_stale_running}
use signal_flow.Repository.Execution.Laws.{Swept, recover_stale_running-Swept}
use signal_flow.Service.Job.{CreateJobInput, create, pause, resume, trigger_run}
use signal_flow.Service.Job.Laws.{
  Resumed, resume_plans, pause_stops, trigger_run_inactive, create_adds,
}
use signal_flow.Repository.Adapters.{user_repository}
use signal_flow.Service.Auth.{Claims, login, register, store_user, new_user}
use signal_flow.Service.Auth.Return.{registered_logs_in}
use signal_flow.Repository.User
use signal_flow.Repository.User.{insert_user}
use signal_flow.Repository.Constraints.{require}
use signal_flow.Service.Auth.Laws.{Granted, LoginError, Registered, login_sound, register_adds}
use signal_flow.Service.Dashboard.{DashboardStats, stats}
use signal_flow.Service.Dashboard.Laws.{CountsOf, stats_counts}
use signal_flow.Tests.Data.{store, every_hour}

recover_stale_running-Swept_example :
    Ensures (λ n t. Swept 5 n store t) (λ _ t. t.db ≡ store.db) (recover_stale_running 5 store)
recover_stale_running-Swept_example = recover_stale_running-Swept 5 store

pause_stops_example :
    Ensures
      (λ job t.
        (job.status ≡ paused)
        × ((j : Job) (u : Store) → In j t.jobs → j.id ≡ "backup" → is_claimable u j ≡ false)
        × ((j : Job) → In j t.jobs → j.id ≢ "backup" → In j store.jobs))
      (λ _ t. t.db ≡ store.db)
      (pause store_runtime job_repository every_hour "backup" store)
pause_stops_example = pause_stops every_hour "backup" store

report_idle : (j : Job) → In j store.jobs → j.id ≡ "report" → is_active j.status ≡ false
report_idle j (inl e) same =
    absurd (ne_of_test "backup" "report" refl (sym (ap (λ (k : Job). k.id) e) ∙ same))
report_idle j (inr (inl e)) same = rw e refl
report_idle j (inr (inr m)) same = elim m [ ]

trigger_run_inactive_example :
    Ensures
      (λ job t. (j : Job) (u : Store) → In j t.jobs → j.id ≡ "report" → is_claimable u j ≡ false)
      (λ _ t. t.db ≡ store.db)
      (trigger_run store_runtime job_repository every_hour "report" store)
trigger_run_inactive_example = trigger_run_inactive every_hour "report" store report_idle

abbrev wanted : CreateJobInput
wanted = record {
  user_id = "ann";
  name = "new";
  type = job_type_command;
  schedule = "0 * * * *";
  config = some "{}";
  notify_channels = some [];
  condition = none;
  timeout_seconds = pos 0;
}

create_adds_example :
    Ensures
      (λ job t.
        (row : Job) × (t.jobs ≡ store.jobs ++ row ∷ [])
        × (row.id ≡ job.id)
        × (row.status ≡ active)
        × (is_positive row.timeout_seconds ≡ true)
        × (row.condition ≢ none)
        × ((next : Time → Time) × (every_hour "0 * * * *" ≡ ok next)
            × (row.next_run_at ≡ some (next 10))))
      (λ _ t. t.db ≡ store.db)
      (create store_runtime job_repository every_hour wanted store)
create_adds_example = create_adds every_hour wanted store

-- Passwords that are their own hashes, and a token that is the user's identifier.
abbrev plain_hash : String → M Store String
plain_hash password s = (ok password, s)

abbrev plain_sign : Claims → Result String
plain_sign c = ok c.sub

abbrev bob : String
bob = "bob@example.org"

abbrev secret : String
secret = "secret"

abbrev same_text : String → String → Bool
same_text a b = a == b

login_sound_example :
    Ensures
      (Granted plain_hash same_text plain_sign "ann@example.org" "" store)
      (λ e t. LoginError plain_hash same_text plain_sign e × (t.db ≡ store.db))
      (login store_runtime user_repository plain_hash same_text plain_sign "ann@example.org" ""
        store)
login_sound_example = login_sound plain_hash same_text plain_sign "ann@example.org" "" store

register_adds_example :
    Ensures
      (λ user t.
        (bob ≢ "")
        × (secret ≢ "")
        × Registered plain_hash same_text plain_sign bob secret "Bob" store user t)
      (λ _ t. t.db ≡ store.db)
      (register store_runtime user_repository plain_hash same_text plain_sign bob secret "Bob"
        store)
register_adds_example =
    register_adds plain_hash same_text plain_sign bob secret "Bob" store (λ text u. refl)

abbrev new_bob : User
new_bob = new_user "fresh" bob secret "Bob"

abbrev store_with_bob : Store
store_with_bob =
    (register store_runtime user_repository plain_hash same_text plain_sign bob secret "Bob"
      store).1

bob_registers :
    register store_runtime user_repository plain_hash same_text plain_sign bob secret "Bob" store
    ≡ (ok new_bob, store_with_bob)
unfolding register store_user run_next statement settle insert_user require map_err_of User.create
bob_registers = refl

bob_calm : store_with_bob.faults ≡ []
unfolding register store_user run_next statement settle insert_user require map_err_of User.create
bob_calm = refl

own_hash :
    (hashed : String) (v : Store)
    → (plain_hash secret v).0 ≡ ok hashed
    → same_text hashed secret ≡ true
own_hash hashed v made = (eq_iff hashed secret).1 cc

registered_logs_in_example :
    login store_runtime user_repository plain_hash same_text plain_sign bob secret store_with_bob
    ≡ (ok "fresh", (store_runtime.now store_with_bob).1)
registered_logs_in_example =
    registered_logs_in plain_hash same_text plain_sign bob secret "Bob" store store_with_bob
      store_with_bob new_bob "fresh" (λ text v. refl) own_hash bob_registers refl bob_calm refl

stats_counts_example :
    (st : DashboardStats) × ((stats store_runtime job_repository execution_repository
        notification_repository "ann" store).0
      ≡ ok (st, none))
    × CountsOf "ann" store st
stats_counts_example = stats_counts "ann" store refl

-- The connection breaks at the third of the statements to come.
abbrev broken_store : Store
broken_store = record store { faults = none ∷ none ∷ some "connection reset" ∷ [] }

resume_plans_example :
    Ensures
      (λ job t.
        Resumed every_hour "report" store t
        × ((j : Job) → In j t.jobs → j.id ≢ "report" → In j store.jobs))
      (λ _ t. t.db ≡ store.db)
      (resume store_runtime job_repository every_hour "report" store)
resume_plans_example = resume_plans every_hour "report" store
