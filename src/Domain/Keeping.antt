-- ===== src/Domain/Keeping.antt =====
-- What every operation of a repository keeps, as far as the program calls it.
use signal_flow.Base.{ℤ, String, List}
use signal_flow.Base.Keeping.{Keeps}
use signal_flow.Domain.{Time, User, Job, Execution, Channel, Notification, NotificationStatus}
use signal_flow.Domain.Ports.{
  Runtime, JobRepository, ExecutionRepository, ChannelRepository, NotificationRepository,
  UserRepository,
}

module _ {S : Type 0} (K : S → Type 0) where
  pub record RuntimeKeeps (runtime : Runtime S) : Type 0 where
    pub now : Keeps K runtime.now
    pub new_uuid : Keeps K runtime.new_uuid

  -- The operations that the program calls.
  pub record JobsKeep (repo : JobRepository S) : Type 0 where
    pub create : (j : Job) → Keeps K (repo.create j)
    pub get_by_id : (id : String) → Keeps K (repo.get_by_id id)
    pub list : (user : String) (offset limit : ℤ) → Keeps K (repo.list user offset limit)
    pub update : (j : Job) → Keeps K (repo.update j)
    pub delete : (id : String) → Keeps K (repo.delete id)
    pub count_by_user : (user : String) → Keeps K (repo.count_by_user user)
    pub count_active_by_user : (user : String) → Keeps K (repo.count_active_by_user user)

  pub record ExecutionsKeep (repo : ExecutionRepository S) : Type 0 where
    pub update : (e : Execution) → Keeps K (repo.update e)
    pub get_by_id : (id : String) → Keeps K (repo.get_by_id id)
    pub list_by_job :
        (job : String) (offset limit : ℤ) → Keeps K (repo.list_by_job job offset limit)
    pub list_recent : (limit : ℤ) → Keeps K (repo.list_recent limit)
    pub list_recent_by_user :
        (user : String) (limit : ℤ) → Keeps K (repo.list_recent_by_user user limit)
    pub recover_stale_running : (t : Time) → Keeps K (repo.recover_stale_running t)
    pub count_failures_by_user_since :
        (user : String) (t : Time) → Keeps K (repo.count_failures_by_user_since user t)

  pub record ChannelsKeep (repo : ChannelRepository S) : Type 0 where
    pub create : (c : Channel) → Keeps K (repo.create c)
    pub get_by_id : (id : String) → Keeps K (repo.get_by_id id)
    pub list : (user : String) → Keeps K (repo.list user)
    pub update : (c : Channel) → Keeps K (repo.update c)
    pub delete : (id : String) → Keeps K (repo.delete id)
    pub get_by_ids : (ids : List String) → Keeps K (repo.get_by_ids ids)

  pub record NotificationsKeep (repo : NotificationRepository S) : Type 0 where
    pub create : (n : Notification) → Keeps K (repo.create n)
    pub update_status :
        (id : String) (status : NotificationStatus) (text : String)
        → Keeps K (repo.update_status id status text)
    pub list_by_execution : (id : String) → Keeps K (repo.list_by_execution id)
    pub list_recent : (limit : ℤ) → Keeps K (repo.list_recent limit)
    pub count_sent_by_user_since :
        (user : String) (t : Time) → Keeps K (repo.count_sent_by_user_since user t)

  pub record UsersKeep (repo : UserRepository S) : Type 0 where
    pub create : (u : User) → Keeps K (repo.create u)
    pub get_by_email : (email : String) → Keeps K (repo.get_by_email email)
