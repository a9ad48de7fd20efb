-- ===== src/Repository/Integrity/Updates.antt =====
-- UPDATE, which leaves identifiers and references alone.
use signal_flow.Base.{
  any, ne_of_test, ◌&&◌, Option, String, Bool, true, false, not, ◌≡◌, ◌≢◌, refl, sym, ap, ◌∙◌,
  subst, List, [], ◌∷◌, All, ◌==◌, arith, Bool-cases, inl, inr, if◌then◌else◌, some,
}
use signal_flow.Domain.{Time, User, Job, Execution, Channel, Notification, NotificationStatus}
use signal_flow.Store.{Db, Store}
use signal_flow.Store.Rows.{update_where}
use signal_flow.Store.Keys.{
  has_key-update_where, Unique-update_where, Unique-set_key, All-update_where,
}
use signal_flow.Repository.Constraints.{
  has_user, has_job, has_execution, has_channel, job_row_allowed, channel_row_allowed,
}
use signal_flow.Repository.User.{set_user, updated_user}
use signal_flow.Repository.Job.{set_job, updated_job}
use signal_flow.Repository.Claim.{advance_job}
use signal_flow.Repository.Execution.{set_execution, updated_execution}
use signal_flow.Repository.Channel.{set_channel, updated_channel}
use signal_flow.Repository.Notification.{with_status}
use signal_flow.Repository.Integrity.{IsConsistent}
use signal_flow.Repository.Integrity.Tables.{
  Keeps, require-Keeps, has_same, with_users, with_jobs, with_channels, with_executions,
  with_notifications,
}

-- No row has the key, so none is changed.
update_where_none :
    {R : Type 0} (key : R → String) (k : String) (f : R → R) (rs : List R)
    → any (λ r. key r == k) rs ≡ false
    → update_where (λ r. key r == k) f rs ≡ rs
update_where_none key k f [] h = refl
update_where_none key k f (r ∷ rs) h =
    let miss : (key r == k) ≡ false = ground (arith, h) in
    rw (miss, if◌then◌else◌, update_where_none key k f rs (ground (arith, h))) refl

-- The other rows, where none of them has the new key.
free_of_test :
    {R : Type 0} (id key : R → String) (k new : String) (rs : List R)
    → any (λ r. not (id r == k) && key r == new) rs ≡ false
    → All (λ r. (id r == k) ≡ false → key r ≢ new) rs
free_of_test id key k new [] h = tt
free_of_test id key k new (r ∷ rs) h = (
  (λ miss. ne_of_test (key r) new (ground (arith, h, miss))),
  free_of_test id key k new rs (ground (arith, h)),
)

same_ids :
    (now : Time) (user : User) (id : String) (us : List User)
    → has_user id (update_where (λ u. u.id == user.id) (updated_user now user) us) ≡ has_user id us
same_ids now user id us =
    has_key-update_where (λ (u : User). u.id) id _ (updated_user now user) us (λ _. refl)

set_stored_user :
    (now : Time) (user : User) (db : Db)
    → IsConsistent db
    → any (λ (u : User). not (u.id == user.id) && u.email == user.email) db.users ≡ false
    → IsConsistent
        (record db { users = update_where (λ u. u.id == user.id) (updated_user now user) db.users })
set_stored_user now user db c free =
    with_users db _ c
      (record {
        ids =
            Unique-update_where (λ (u : User). u.id) _ (updated_user now user) db.users (λ _. refl)
              c.users_ok.ids;
        emails =
            Unique-set_key (λ (u : User). u.id) (λ (u : User). u.email) user.id user.email
              (updated_user now user) (λ _. refl) db.users c.users_ok.ids
              (free_of_test (λ (u : User). u.id) (λ (u : User). u.email) user.id user.email db.users
                free)
              c.users_ok.emails;
      })
      (has_same has_user (λ id. same_ids now user id db.users))

pub set_user-Keeps :
    (now : Time) (user : User) (db : Db) → IsConsistent db → Keeps (set_user now user db)
unfolding set_user
set_user-Keeps now user db c = require-Keeps _ _ _ λ free.
    elim (Bool-cases (has_user user.id db.users)) [
      | inl e ↦ set_stored_user now user db c (ground (arith, e, free))
      | inr e ↦
          subst (λ us. IsConsistent (record db { users = us }))
            (sym
              (update_where_none (λ (u : User). u.id) user.id (updated_user now user) db.users e))
            c
    ]

set_stored_job :
    (now : Time) (job : Job) (db : Db)
    → IsConsistent db
    → job_row_allowed job ≡ true
    → IsConsistent
        (record db { jobs = update_where (λ j. j.id == job.id) (updated_job now job) db.jobs })
unfolding updated_job
set_stored_job now job db c allowed =
    with_jobs db _ c
      (record {
        ids =
            Unique-update_where (λ (j : Job). j.id) _ (updated_job now job) db.jobs (λ _. refl)
              c.jobs_ok.ids;
        owners = All-update_where _ _ (updated_job now job) db.jobs (λ _ _ h. h) c.jobs_ok.owners;
        rows = All-update_where _ _ (updated_job now job) db.jobs (λ _ _ _. allowed) c.jobs_ok.rows;
      })
      (has_same has_job (λ id.
        has_key-update_where (λ (j : Job). j.id) id _ (updated_job now job) db.jobs (λ _. refl)))

pub set_job-Keeps :
    (now : Time) (job : Job) (db : Db) → IsConsistent db → Keeps (set_job now job db)
unfolding set_job
set_job-Keeps now job db c = require-Keeps _ _ _ λ allowed.
    elim (Bool-cases (has_job job.id db.jobs)) [
      | inl e ↦ set_stored_job now job db c (ground (arith, e, allowed))
      | inr e ↦
          subst (λ js. IsConsistent (record db { jobs = js }))
            (sym (update_where_none (λ (j : Job). j.id) job.id (updated_job now job) db.jobs e)) c
    ]

set_stored_channel :
    (now : Time) (ch : Channel) (db : Db)
    → IsConsistent db
    → channel_row_allowed ch ≡ true
    → IsConsistent (record db {
      channels = update_where (λ c. c.id == ch.id) (updated_channel now ch) db.channels;
    })
set_stored_channel now ch db c allowed =
    with_channels db _ c
      (record {
        ids =
            Unique-update_where (λ (c : Channel). c.id) _ (updated_channel now ch) db.channels
              (λ _. refl) c.channels_ok.ids;
        owners =
            All-update_where _ _ (updated_channel now ch) db.channels (λ _ _ h. h)
              c.channels_ok.owners;
        rows =
            All-update_where _ _ (updated_channel now ch) db.channels (λ _ _ _. allowed)
              c.channels_ok.rows;
      })
      (has_same has_channel (λ id.
        has_key-update_where (λ (c : Channel). c.id) id _ (updated_channel now ch) db.channels
          (λ _. refl)))

pub set_channel-Keeps :
    (now : Time) (ch : Channel) (db : Db) → IsConsistent db → Keeps (set_channel now ch db)
unfolding set_channel
set_channel-Keeps now ch db c = require-Keeps _ _ _ λ allowed.
    elim (Bool-cases (has_channel ch.id db.channels)) [
      | inl e ↦ set_stored_channel now ch db c (ground (arith, e, allowed))
      | inr e ↦
          subst (λ cs. IsConsistent (record db { channels = cs }))
            (sym (
              update_where_none (λ (c : Channel). c.id) ch.id (updated_channel now ch) db.channels
                e))
            c
    ]

-- An UPDATE of executions that sets neither the identifier nor the job.
pub change_executions :
    (p : Execution → Bool) (f : Execution → Execution) (db : Db)
    → IsConsistent db
    → ((e : Execution) → ((f e).id ≡ e.id) × ((f e).job_id ≡ e.job_id))
    → IsConsistent (record db { executions = update_where p f db.executions })
change_executions p f db c same =
    with_executions db _ c
      (record {
        ids =
            Unique-update_where (λ (e : Execution). e.id) p f db.executions (λ e. (same e).0)
              c.executions_ok.ids;
        runs =
            All-update_where _ p f db.executions
              (λ e _ h. ap (λ id. has_job id db.jobs) (same e).1 ∙ h) c.executions_ok.runs;
      })
      (has_same has_execution (λ id.
        has_key-update_where (λ (e : Execution). e.id) id p f db.executions (λ e. (same e).0)))

pub set_execution-Keeps :
    (exec : Execution) (s : Store) → IsConsistent s.db → Keeps (set_execution exec s)
unfolding set_execution updated_execution
set_execution-Keeps exec s c = require-Keeps _ _ _ λ _.
    change_executions (λ e. e.id == exec.id) (updated_execution exec) s.db c (λ _. (refl, refl))

pub advance_job-keeps :
    (now next_at : Time) (id : String) (db : Db)
    → IsConsistent db
    → IsConsistent (advance_job now next_at id db)
unfolding advance_job
advance_job-keeps now next_at id db c =
    let f : Job → Job = λ j. record j { next_run_at = some next_at; updated_at = now } in
    with_jobs db _ c
      (record {
        ids = Unique-update_where (λ (j : Job). j.id) _ f db.jobs (λ _. refl) c.jobs_ok.ids;
        owners = All-update_where _ _ f db.jobs (λ _ _ h. h) c.jobs_ok.owners;
        rows = All-update_where _ _ f db.jobs (λ _ _ h. h) c.jobs_ok.rows;
      })
      (has_same has_job (λ i. has_key-update_where (λ (j : Job). j.id) i _ f db.jobs (λ _. refl)))

pub set_status-keeps :
    (id : String) (status : NotificationStatus) (text : String) (at : Option Time) (db : Db)
    → IsConsistent db
    → IsConsistent (record db {
      notifications = update_where (λ n. n.id == id) (with_status status text at) db.notifications;
    })
set_status-keeps id status text at db c =
    let f = with_status status text at in
    with_notifications db _ c (record {
      ids =
          Unique-update_where (λ (n : Notification). n.id) _ f db.notifications (λ _. refl)
            c.notifications_ok.ids;
      about = All-update_where _ _ f db.notifications (λ _ _ h. h) c.notifications_ok.about;
      through = All-update_where _ _ f db.notifications (λ _ _ h. h) c.notifications_ok.through;
    })
