-- ===== src/Repository/Integrity.antt =====
-- What the constraints of migrations/*.up.sql promise of the tables, and the statements that write
-- them.
pub mod Tables
pub mod Inserts
pub mod Updates
pub mod Deletes
pub mod Laws
pub mod Keeping
use signal_flow.Base.{String, ℤ, true, false, ◌≡◌, List, [], ◌∷◌, All, M, Option}
use signal_flow.Domain.{Time, User, Job, Execution, Channel, Notification, NotificationStatus}
use signal_flow.Domain.Ports.{NextRunFunc}
use signal_flow.Store.{Db, Store}
use signal_flow.Store.Keys.{Unique}
use signal_flow.Repository.Constraints.{
  has_user, has_job, has_execution, has_channel, job_row_allowed, channel_row_allowed,
}
use signal_flow.Repository.User
use signal_flow.Repository.Job
use signal_flow.Repository.Claim
use signal_flow.Repository.Execution
use signal_flow.Repository.Channel
use signal_flow.Repository.Notification

pub record UsersOk (users : List User) : Type 0 where
  pub ids : Unique (λ (u : User). u.id) users
  pub emails : Unique (λ (u : User). u.email) users

pub record JobsOk (users : List User) (jobs : List Job) : Type 0 where
  pub ids : Unique (λ (j : Job). j.id) jobs
  pub owners : All (λ (j : Job). has_user j.user_id users ≡ true) jobs
  pub rows : All (λ (j : Job). job_row_allowed j ≡ true) jobs

pub record ChannelsOk (users : List User) (channels : List Channel) : Type 0 where
  pub ids : Unique (λ (c : Channel). c.id) channels
  pub owners : All (λ (c : Channel). has_user c.user_id users ≡ true) channels
  pub rows : All (λ (c : Channel). channel_row_allowed c ≡ true) channels

pub record ExecutionsOk (jobs : List Job) (executions : List Execution) : Type 0 where
  pub ids : Unique (λ (e : Execution). e.id) executions
  pub runs : All (λ (e : Execution). has_job e.job_id jobs ≡ true) executions

pub record NotificationsOk (executions : List Execution) (channels : List Channel)
    (notifications : List Notification) : Type 0 where
  pub ids : Unique (λ (n : Notification). n.id) notifications
  pub about :
      All (λ (n : Notification). has_execution n.execution_id executions ≡ true) notifications
  pub through : All (λ (n : Notification). has_channel n.channel_id channels ≡ true) notifications

-- Keys are unique, what a row refers to exists, and the CHECKs hold.
pub record IsConsistent (db : Db) : Type 0 where
  pub users_ok : UsersOk db.users
  pub jobs_ok : JobsOk db.users db.jobs
  pub channels_ok : ChannelsOk db.users db.channels
  pub executions_ok : ExecutionsOk db.jobs db.executions
  pub notifications_ok : NotificationsOk db.executions db.channels db.notifications

-- A call of a method that writes.
pub data Write : Type 0 where
  create_user update_user : User → Write
  delete_user : String → Write
  create_job update_job : Job → Write
  delete_job : String → Write
  claim_due : ℤ → NextRunFunc Store → Write
  create_execution update_execution : Execution → Write
  recover_stale delete_older : Time → Write
  create_channel update_channel : Channel → Write
  delete_channel : String → Write
  create_notification : Notification → Write
  update_status : String → NotificationStatus → String → Write

-- The store after the call, whether it succeeded or failed.
abbrev pub after : Write → Store → Store
after (create_user u) s = (User.create u s).1
after (update_user u) s = (User.update u s).1
after (delete_user id) s = (User.delete id s).1
after (create_job j) s = (Job.create j s).1
after (update_job j) s = (Job.update j s).1
after (delete_job id) s = (Job.delete id s).1
after (claim_due limit next) s = (Claim.claim_due limit next s).1
after (create_execution e) s = (Execution.create e s).1
after (update_execution e) s = (Execution.update e s).1
after (recover_stale t) s = (Execution.recover_stale_running t s).1
after (delete_older t) s = (Execution.delete_older_than t s).1
after (create_channel c) s = (Channel.create c s).1
after (update_channel c) s = (Channel.update c s).1
after (delete_channel id) s = (Channel.delete id s).1
after (create_notification n) s = (Notification.create n s).1
after (update_status id status text) s = (Notification.update_status id status text s).1

-- The calls in their order.
abbrev pub after_all : List Write → Store → Store
after_all [] s = s
after_all (w ∷ ws) s = after_all ws (after w s)
