-- ===== src/Repository/Integrity/Inserts.antt =====
-- INSERT, with the keys and references that it checks.
use signal_flow.Base.{String, true, not, ◌≡◌, [], ◌∷◌, ◌++◌, All-append}
use signal_flow.Domain.{Time, User, Job, Execution, Channel, Notification}
use signal_flow.Store.{Db, Store}
use signal_flow.Store.Keys.{has_key-append, Unique-append}
use signal_flow.Repository.Constraints.{has_job, has_execution}
use signal_flow.Repository.User.{insert_user}
use signal_flow.Repository.Job.{insert_job, inserted_job}
use signal_flow.Repository.Claim.{insert_running, running_execution}
use signal_flow.Repository.Execution.{insert_execution}
use signal_flow.Repository.Channel.{insert_channel}
use signal_flow.Repository.Notification.{insert_notification}
use signal_flow.Repository.Integrity.{IsConsistent}
use signal_flow.Repository.Integrity.Tables.{
  Keeps, require-Keeps, false_of_not, with_users, with_jobs, with_channels, with_executions,
  with_notifications,
}

pub insert_user-Keeps :
    (now : Time) (user : User) (db : Db) → IsConsistent db → Keeps (insert_user now user db)
unfolding insert_user
insert_user-Keeps now user db c = require-Keeps _ _ _ λ new. require-Keeps _ _ _ λ free.
    with_users db _ c
      (record {
        ids = Unique-append (λ (u : User). u.id) _ db.users (false_of_not _ new) c.users_ok.ids;
        emails =
            Unique-append (λ (u : User). u.email) _ db.users (false_of_not _ free)
              c.users_ok.emails;
      })
      (λ id h. has_key-append (λ (u : User). u.id) id db.users _ h)

pub insert_job-Keeps :
    (now : Time) (job : Job) (db : Db) → IsConsistent db → Keeps (insert_job now job db)
unfolding insert_job inserted_job
insert_job-Keeps now job db c = require-Keeps _ _ _ λ new. require-Keeps _ _ _ λ owned.
    require-Keeps _ _ _ λ allowed.
      with_jobs db _ c
        (record {
          ids = Unique-append (λ (j : Job). j.id) _ db.jobs (false_of_not _ new) c.jobs_ok.ids;
          owners = All-append _ db.jobs _ c.jobs_ok.owners (owned, tt);
          rows = All-append _ db.jobs _ c.jobs_ok.rows (allowed, tt);
        })
        (λ id h. has_key-append (λ (j : Job). j.id) id db.jobs _ h)

pub insert_channel-Keeps :
    (now : Time) (ch : Channel) (db : Db) → IsConsistent db → Keeps (insert_channel now ch db)
unfolding insert_channel
insert_channel-Keeps now ch db c = require-Keeps _ _ _ λ new. require-Keeps _ _ _ λ owned.
    require-Keeps _ _ _ λ allowed.
      with_channels db _ c
        (record {
          ids =
              Unique-append (λ (c : Channel). c.id) _ db.channels (false_of_not _ new)
                c.channels_ok.ids;
          owners = All-append _ db.channels _ c.channels_ok.owners (owned, tt);
          rows = All-append _ db.channels _ c.channels_ok.rows (allowed, tt);
        })
        (λ id h. has_key-append (λ (c : Channel). c.id) id db.channels _ h)

-- A run of a stored job joins under a new identifier.
add_execution :
    (exec : Execution) (db : Db)
    → IsConsistent db
    → not (has_execution exec.id db.executions) ≡ true
    → has_job exec.job_id db.jobs ≡ true
    → IsConsistent (record db { executions = db.executions ++ exec ∷ [] })
add_execution exec db c new run =
    with_executions db _ c
      (record {
        ids =
            Unique-append (λ (e : Execution). e.id) exec db.executions (false_of_not _ new)
              c.executions_ok.ids;
        runs = All-append _ db.executions _ c.executions_ok.runs (run, tt);
      })
      (λ id h. has_key-append (λ (e : Execution). e.id) id db.executions _ h)

pub insert_execution-Keeps :
    (exec : Execution) (s : Store) → IsConsistent s.db → Keeps (insert_execution exec s)
unfolding insert_execution
insert_execution-Keeps exec s c =
    require-Keeps _ _ _
      λ _. require-Keeps _ _ _ λ new. require-Keeps _ _ _ λ run. add_execution exec s.db c new run

pub insert_running-Keeps :
    (id job_id : String) (started : Time) (db : Db)
    → IsConsistent db
    → Keeps (insert_running id job_id started db)
unfolding insert_running
insert_running-Keeps id job_id started db c = require-Keeps _ _ _ λ new.
    require-Keeps _ _ _ λ run. add_execution (running_execution id job_id started) db c new run

pub insert_notification-Keeps :
    (now : Time) (n : Notification) (s : Store)
    → IsConsistent s.db
    → Keeps (insert_notification now n s)
unfolding insert_notification
insert_notification-Keeps now n s c = require-Keeps _ _ _ λ _. require-Keeps _ _ _ λ new.
    require-Keeps _ _ _ λ execution. require-Keeps _ _ _ λ channel.
      with_notifications s.db _ c (record {
        ids =
            Unique-append (λ (n : Notification). n.id) _ s.notifications (false_of_not _ new)
              c.notifications_ok.ids;
        about = All-append _ s.notifications _ c.notifications_ok.about (execution, tt);
        through = All-append _ s.notifications _ c.notifications_ok.through (channel, tt);
      })
