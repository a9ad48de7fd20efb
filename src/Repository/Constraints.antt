-- ===== src/Repository/Constraints.antt =====
-- The constraints of migrations/*.up.sql: what a row refers to exists, an identifier is new, and
-- a deletion takes the rows that refer to the deleted ones with it.
use signal_flow.Base.{
  String, Bool, ◌||◌, ◌&&◌, some, none, Option, List, Result, err, Error, Ensures, fails, ◌≡◌, refl,
  true, false, if◌then◌else◌, ◌==◌, any,
}
use signal_flow.Domain.{User, Job, Channel, Execution, Notification}
use signal_flow.Store.{Db, Store}
use signal_flow.Store.Rows.{select_where}
use signal_flow.Store.Statement.{driver_error, settle}

-- The statement is refused unless the test holds.
unfoldable pub require : {A : Type 0} → Bool → String → Result A → Result A
require b text r = if b then r else err (driver_error text)

abbrev pub has_user : String → List User → Bool
has_user id users = any (λ u. u.id == id) users

abbrev pub has_job : String → List Job → Bool
has_job id jobs = any (λ j. j.id == id) jobs

abbrev pub has_execution : String → List Execution → Bool
has_execution id execs = any (λ e. e.id == id) execs

abbrev pub has_channel : String → List Channel → Bool
has_channel id chans = any (λ c. c.id == id) chans

abbrev pub has_notification : String → List Notification → Bool
has_notification id notifs = any (λ n. n.id == id) notifs

-- The CHECK on jobs.type and on channels.type.
abbrev pub job_type_allowed : String → Bool
job_type_allowed t = t == "http_check" || t == "command" || t == "rss_watch"

-- NOT NULL of a column to which nil is written as NULL.
abbrev pub is_given : {A : Type 0} → Option A → Bool
is_given none = false
is_given (some m) = true

-- The CHECK and the NOT NULLs that a written row of jobs meets.
abbrev pub job_row_allowed : Job → Bool
job_row_allowed job =
    job_type_allowed job.type
    && is_given job.config
    && is_given job.notify_channels
    && is_given job.condition

abbrev pub channel_type_allowed : String → Bool
channel_type_allowed t =
    t == "webhook" || t == "email" || t == "slack" || t == "telegram" || t == "discord"

abbrev pub channel_row_allowed : Channel → Bool
channel_row_allowed ch = channel_type_allowed ch.type && is_given ch.config

-- The rows that still refer to rows of the tables given, after a deletion there.
unfoldable pub cascade_notifications : Db → Db
cascade_notifications db = record db {
  notifications =
      select_where (λ n. has_execution n.execution_id db.executions)
        (select_where (λ n. has_channel n.channel_id db.channels) db.notifications);
}

unfoldable pub cascade_executions : Db → Db
unfolding cascade_notifications
cascade_executions db =
    cascade_notifications
      (record db { executions = select_where (λ e. has_job e.job_id db.jobs) db.executions })

unfoldable pub cascade_users : Db → Db
unfolding cascade_executions
cascade_users db = cascade_executions (record db {
  jobs = select_where (λ j. has_user j.user_id db.users) db.jobs;
  channels = select_where (λ c. has_user c.user_id db.users) db.channels;
})

-- A statement behind a constraint: the constraint held, or the statement failed.
pub require-Ensures {ℓ} :
    {A : Type 0} {P : A → Store → Type ℓ} {Q : Error → Store → Type ℓ} (s : Store) (b : Bool)
    (text : String) (r : Result (A × Db))
    → (b ≡ true → Ensures P Q (settle s r))
    → Q (driver_error text) s
    → Ensures P Q (settle s (require b text r))
unfolding require settle
require-Ensures s true text r h k = h refl
require-Ensures s false text r h k = fails k
