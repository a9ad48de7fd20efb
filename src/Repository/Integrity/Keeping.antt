-- ===== src/Repository/Integrity/Keeping.antt =====
-- Consistent tables, as what the operations of the five repositories keep.
use signal_flow.Base.{List, [], ◌∷◌, String, ◌≡◌, sym, subst, Result, Ensures-state}
use signal_flow.Base.Keeping.{Keeps, run_next-keeps}
use signal_flow.Store.{Db, Store}
use signal_flow.Store.Statement.{query, query-Ensures, store_runtime}
use signal_flow.Repository.User
use signal_flow.Repository.Job
use signal_flow.Repository.Execution
use signal_flow.Repository.Channel
use signal_flow.Repository.Channel.{channels_of}
use signal_flow.Repository.Notification
use signal_flow.Repository.Adapters.{
  user_repository, job_repository, execution_repository, channel_repository,
  notification_repository,
}
use signal_flow.Repository.Integrity.{
  IsConsistent, create_user, create_job, update_job, delete_job, update_execution, recover_stale,
  create_channel, update_channel, delete_channel, create_notification, update_status,
}
use signal_flow.Repository.Integrity.Laws.{after-IsConsistent}
use signal_flow.Domain.Keeping.{
  RuntimeKeeps, JobsKeep, ExecutionsKeep, ChannelsKeep, NotificationsKeep, UsersKeep,
}

abbrev pub HasConsistent : Store → Type 0
HasConsistent s = IsConsistent s.db

-- The tables are as they were.
pub of_same : {was is : Db} → is ≡ was → IsConsistent was → IsConsistent is
of_same same c = subst IsConsistent (sym same) c

query-Keeps : {A : Type 0} (body : Store → Result A) → Keeps HasConsistent (query body)
query-Keeps body s c =
    Ensures-state {K = HasConsistent} (query-Ensures body s (λ _ _ _. c) (λ _ _. c))

pub runtime-Keeps : RuntimeKeeps HasConsistent store_runtime
runtime-Keeps = record { now = λ s c. c; new_uuid = λ s c. c }

pub users-Keep : UsersKeep HasConsistent user_repository
unfolding User.get_by_email
users-Keep = record {
  create = λ u s c. after-IsConsistent (create_user u) s tt c;
  get_by_email = λ email. query-Keeps _;
}

pub jobs-Keep : JobsKeep HasConsistent job_repository
unfolding Job.get_by_id Job.list Job.count_by_user Job.count_active_by_user
jobs-Keep = record {
  create = λ j s c. after-IsConsistent (create_job j) s tt c;
  get_by_id = λ id. query-Keeps _;
  list = λ user offset limit s c.
      run_next-keeps HasConsistent _ _ (query-Keeps _ s c)
        λ total t k. run_next-keeps HasConsistent _ _ (query-Keeps _ t k) λ jobs u h. h;
  update = λ j s c. after-IsConsistent (update_job j) s tt c;
  delete = λ id s c. after-IsConsistent (delete_job id) s tt c;
  count_by_user = λ user. query-Keeps _;
  count_active_by_user = λ user. query-Keeps _;
}

pub executions-Keep : ExecutionsKeep HasConsistent execution_repository
unfolding Execution.get_by_id Execution.list_by_job Execution.list_recent
    Execution.list_recent_by_user Execution.count_failures_by_user_since
executions-Keep = record {
  update = λ e s c. after-IsConsistent (update_execution e) s tt c;
  get_by_id = λ id. query-Keeps _;
  list_by_job = λ job offset limit s c.
      run_next-keeps HasConsistent _ _ (query-Keeps _ s c)
        λ total t k. run_next-keeps HasConsistent _ _ (query-Keeps _ t k) λ execs u h. h;
  list_recent = λ limit. query-Keeps _;
  list_recent_by_user = λ user limit. query-Keeps _;
  recover_stale_running = λ t s c. after-IsConsistent (recover_stale t) s tt c;
  count_failures_by_user_since = λ user t. query-Keeps _;
}

get_by_ids-Keeps : (ids : List String) → Keeps HasConsistent (Channel.get_by_ids ids)
unfolding Channel.get_by_ids
get_by_ids-Keeps [] s c = c
get_by_ids-Keeps (id ∷ ids) s c = query-Keeps _ s c

pub channels-Keep : ChannelsKeep HasConsistent channel_repository
unfolding Channel.get_by_id Channel.list
channels-Keep = record {
  create = λ ch s c. after-IsConsistent (create_channel ch) s tt c;
  get_by_id = λ id. query-Keeps _;
  list = λ user. query-Keeps _;
  update = λ ch s c. after-IsConsistent (update_channel ch) s tt c;
  delete = λ id s c. after-IsConsistent (delete_channel id) s tt c;
  get_by_ids = get_by_ids-Keeps;
}

pub notifications-Keep : NotificationsKeep HasConsistent notification_repository
unfolding Notification.list_by_execution Notification.list_recent
    Notification.count_sent_by_user_since
notifications-Keep = record {
  create = λ n s c. after-IsConsistent (create_notification n) s tt c;
  update_status = λ id status text s c. after-IsConsistent (update_status id status text) s tt c;
  list_by_execution = λ id. query-Keeps _;
  list_recent = λ limit. query-Keeps _;
  count_sent_by_user_since = λ user t. query-Keeps _;
}
