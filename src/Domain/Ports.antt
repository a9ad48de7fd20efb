-- ===== src/Domain/Ports.antt =====
-- The repository interfaces of internal/domain, over any program state `S`. A context is left
-- out: a cancelled call is a call that fails.
use signal_flow.Base.{ℕ, ℤ, String, List, M, Result}
use signal_flow.Domain.{
  Time, Job, JobClaim, Execution, Channel, Notification, NotificationStatus, User,
}

-- `NextRunFunc`, which reads the clock itself.
abbrev pub NextRunFunc : Type 0 → Type 0
NextRunFunc S = String → M S Time

pub record JobRepository (S : Type 0) : Type 0 where
  pub create : Job → M S (Unit {0})
  pub get_by_id : String → M S Job
  pub list : String → ℤ → ℤ → M S (List Job × ℕ)
  pub list_active : M S (List Job)
  pub claim_due : ℤ → NextRunFunc S → M S (List JobClaim)
  pub update : Job → M S (Unit {0})
  pub delete : String → M S (Unit {0})
  pub count_by_user : String → M S ℕ
  pub count_active_by_user : String → M S ℕ

pub record ExecutionRepository (S : Type 0) : Type 0 where
  pub create : Execution → M S (Unit {0})
  pub update : Execution → M S (Unit {0})
  pub get_by_id : String → M S Execution
  pub list_by_job : String → ℤ → ℤ → M S (List Execution × ℕ)
  pub list_recent : ℤ → M S (List Execution)
  pub list_recent_by_user : String → ℤ → M S (List Execution)
  pub recover_stale_running : Time → M S ℕ
  pub count_failures_by_user_since : String → Time → M S ℕ
  pub delete_older_than : Time → M S ℕ

pub record ChannelRepository (S : Type 0) : Type 0 where
  pub create : Channel → M S (Unit {0})
  pub get_by_id : String → M S Channel
  pub get_by_ids : List String → M S (List Channel)
  pub list : String → M S (List Channel)
  pub update : Channel → M S (Unit {0})
  pub delete : String → M S (Unit {0})

pub record NotificationRepository (S : Type 0) : Type 0 where
  pub create : Notification → M S (Unit {0})
  pub list_by_execution : String → M S (List Notification)
  pub list_recent : ℤ → M S (List Notification)
  pub update_status : String → NotificationStatus → String → M S (Unit {0})
  pub count_sent_by_user_since : String → Time → M S ℕ

pub record UserRepository (S : Type 0) : Type 0 where
  pub create : User → M S (Unit {0})
  pub get_by_id : String → M S User
  pub get_by_email : String → M S User
  pub update : User → M S (Unit {0})
  pub delete : String → M S (Unit {0})

-- What the program takes from its surroundings: `time.Now` and `uuid.NewString`.
pub record Runtime (S : Type 0) : Type 0 where
  pub now : M S Time
  pub new_uuid : M S String

-- robfig/cron: parsing an expression gives the function `Next`.
abbrev pub CronParser : Type 0
CronParser = String → Result (Time → Time)
