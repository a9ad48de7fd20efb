-- ===== src/Repository/Integrity/Deletes.antt =====
-- DELETE, with its cascade.
use signal_flow.Base.{String, Bool, true, ◌≡◌, ◌==◌}
use signal_flow.Domain.{Execution, Notification}
use signal_flow.Store.{Db}
use signal_flow.Store.Rows.{delete_where}
use signal_flow.Store.Keys.{Unique, Unique-select_where, All-select_where, All-selected}
use signal_flow.Repository.Constraints.{
  has_execution, cascade_notifications, cascade_executions, cascade_users,
}
use signal_flow.Repository.Integrity.{IsConsistent, UsersOk, JobsOk, ChannelsOk, ExecutionsOk}

cascade_notifications-keeps :
    (db : Db)
    → UsersOk db.users
    → JobsOk db.users db.jobs
    → ChannelsOk db.users db.channels
    → ExecutionsOk db.jobs db.executions
    → Unique (λ (n : Notification). n.id) db.notifications
    → IsConsistent (cascade_notifications db)
unfolding cascade_notifications
cascade_notifications-keeps db users jobs channels executions ids = record {
  users_ok = users;
  jobs_ok = jobs;
  channels_ok = channels;
  executions_ok = executions;
  notifications_ok = record {
    ids = Unique-select_where _ _ _ (Unique-select_where _ _ db.notifications ids);
    about = All-selected (λ n. has_execution n.execution_id db.executions ≡ true) _ _ (λ _ h. h);
    through = All-select_where _ _ _ (All-selected _ _ db.notifications (λ _ h. h));
  };
}

cascade_executions-keeps :
    (db : Db)
    → UsersOk db.users
    → JobsOk db.users db.jobs
    → ChannelsOk db.users db.channels
    → Unique (λ (e : Execution). e.id) db.executions
    → Unique (λ (n : Notification). n.id) db.notifications
    → IsConsistent (cascade_executions db)
unfolding cascade_executions
cascade_executions-keeps db users jobs channels execs ids =
    cascade_notifications-keeps _ users jobs channels
      (record {
        ids = Unique-select_where _ _ db.executions execs;
        runs = All-selected _ _ db.executions (λ _ h. h);
      })
      ids

pub delete_user-keeps :
    (id : String) (db : Db)
    → IsConsistent db
    → IsConsistent (cascade_users (record db { users = delete_where (λ u. u.id == id) db.users }))
unfolding cascade_users
delete_user-keeps id db c =
    cascade_executions-keeps _
      (record {
        ids = Unique-select_where _ _ db.users c.users_ok.ids;
        emails = Unique-select_where _ _ db.users c.users_ok.emails;
      })
      (record {
        ids = Unique-select_where _ _ db.jobs c.jobs_ok.ids;
        owners = All-selected _ _ db.jobs (λ _ h. h);
        rows = All-select_where _ _ db.jobs c.jobs_ok.rows;
      })
      (record {
        ids = Unique-select_where _ _ db.channels c.channels_ok.ids;
        owners = All-selected _ _ db.channels (λ _ h. h);
        rows = All-select_where _ _ db.channels c.channels_ok.rows;
      })
      c.executions_ok.ids c.notifications_ok.ids

pub delete_job-keeps :
    (id : String) (db : Db)
    → IsConsistent db
    → IsConsistent
        (cascade_executions (record db { jobs = delete_where (λ j. j.id == id) db.jobs }))
delete_job-keeps id db c =
    cascade_executions-keeps _ c.users_ok
      (record {
        ids = Unique-select_where _ _ db.jobs c.jobs_ok.ids;
        owners = All-select_where _ _ db.jobs c.jobs_ok.owners;
        rows = All-select_where _ _ db.jobs c.jobs_ok.rows;
      })
      c.channels_ok c.executions_ok.ids c.notifications_ok.ids

pub delete_channel-keeps :
    (id : String) (db : Db)
    → IsConsistent db
    → IsConsistent (
        cascade_notifications
          (record db { channels = delete_where (λ ch. ch.id == id) db.channels }))
delete_channel-keeps id db c =
    cascade_notifications-keeps _ c.users_ok c.jobs_ok
      (record {
        ids = Unique-select_where _ _ db.channels c.channels_ok.ids;
        owners = All-select_where _ _ db.channels c.channels_ok.owners;
        rows = All-select_where _ _ db.channels c.channels_ok.rows;
      })
      c.executions_ok c.notifications_ok.ids

pub delete_executions-keeps :
    (p : Execution → Bool) (db : Db)
    → IsConsistent db
    → IsConsistent (cascade_notifications (record db { executions = delete_where p db.executions }))
delete_executions-keeps p db c =
    cascade_notifications-keeps _ c.users_ok c.jobs_ok c.channels_ok
      (record {
        ids = Unique-select_where _ _ db.executions c.executions_ok.ids;
        runs = All-select_where _ _ db.executions c.executions_ok.runs;
      })
      c.notifications_ok.ids
