-- ===== src/Domain.antt =====
-- internal/domain: the records that the parts of the program exchange, and (in Ports) the
-- repository interfaces. A `time.Time` is a number of nanoseconds, a `*T` an `Option`, a
-- `json.RawMessage` an optional text (`none` is nil), an `int` an integer.
pub mod Ports
pub mod Keeping
use signal_flow.Base.{[], ◌∷◌, none, some, ℕ, ℤ, String, Bool, true, false, Option, List}

abbrev pub Time : Type 0
Time = ℕ

abbrev pub Bytes : Type 0
Bytes = List ℕ

abbrev pub RawMessage : Type 0
RawMessage = Option String

-- A `[]string`; `none` is nil.
abbrev pub StringSlice : Type 0
StringSlice = Option (List String)

abbrev pub elements : StringSlice → List String
elements none = []
elements (some xs) = xs

abbrev pub JobType : Type 0
JobType = String

abbrev pub job_type_http_check : JobType
job_type_http_check = "http_check"

abbrev pub job_type_command : JobType
job_type_command = "command"

abbrev pub ChannelType : Type 0
ChannelType = String

abbrev pub channel_type_webhook : ChannelType
channel_type_webhook = "webhook"

abbrev pub channel_type_email : ChannelType
channel_type_email = "email"

abbrev pub channel_type_slack : ChannelType
channel_type_slack = "slack"

abbrev pub channel_type_telegram : ChannelType
channel_type_telegram = "telegram"

abbrev pub channel_type_discord : ChannelType
channel_type_discord = "discord"

pub data JobStatus : Type 0 where
  active paused disabled : JobStatus

pub data ExecStatus : Type 0 where
  running success failure error : ExecStatus

pub data NotificationStatus : Type 0 where
  pending sent failed : NotificationStatus

pub record User : Type 0 where
  pub id : String
  pub email : String
  pub password_hash : String
  pub name : String
  pub created_at : Time
  pub updated_at : Time

pub record Job : Type 0 where
  pub id : String
  pub user_id : String
  pub name : String
  pub type : JobType
  pub schedule : String
  pub config : RawMessage
  pub status : JobStatus
  pub notify_channels : StringSlice
  pub condition : RawMessage
  pub timeout_seconds : ℤ
  pub last_run_at : Option Time
  pub next_run_at : Option Time
  pub created_at : Time
  pub updated_at : Time

pub record JobClaim : Type 0 where
  pub job : Job
  pub execution_id : String

pub record Execution : Type 0 where
  pub id : String
  pub job_id : String
  pub status : ExecStatus
  pub output : Bytes
  pub error : String
  pub duration_ms : ℤ
  pub started_at : Time
  pub finished_at : Option Time

pub record Channel : Type 0 where
  pub id : String
  pub user_id : String
  pub name : String
  pub type : ChannelType
  pub config : RawMessage
  pub enabled : Bool
  pub created_at : Time
  pub updated_at : Time

pub record Notification : Type 0 where
  pub id : String
  pub execution_id : String
  pub channel_id : String
  pub status : NotificationStatus
  pub payload : Bytes
  pub error : String
  pub sent_at : Option Time
  pub created_at : Time

-- The tests `status == …` of the code.
abbrev pub is_active : JobStatus → Bool
is_active active = true
is_active _ = false

abbrev pub is_running : ExecStatus → Bool
is_running running = true
is_running _ = false

abbrev pub is_success : ExecStatus → Bool
is_success success = true
is_success _ = false

abbrev pub is_sent : NotificationStatus → Bool
is_sent sent = true
is_sent _ = false
