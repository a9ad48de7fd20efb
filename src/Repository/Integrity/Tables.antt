-- ===== src/Repository/Integrity/Tables.antt =====
-- Each statement's effect on the tables keeps them consistent.
use signal_flow.Base.{
  String, Bool, true, false, not, ◌≡◌, refl, ◌∙◌, List, All-mono, Result, ok, err, arith,
}
use signal_flow.Domain.{User, Job, Execution, Channel, Notification}
use signal_flow.Store.{Db}
use signal_flow.Repository.Constraints.{require, has_user, has_job, has_execution, has_channel}
use signal_flow.Repository.Integrity.{
  IsConsistent, UsersOk, JobsOk, ChannelsOk, ExecutionsOk, NotificationsOk,
}

-- The tables that a statement leaves, if it succeeds, are consistent.
abbrev pub Keeps : {A : Type 0} → Result (A × Db) → Type 0
Keeps (ok (a, db)) = IsConsistent db
Keeps (err e) = Unit {0}

pub require-Keeps :
    {A : Type 0} (b : Bool) (text : String) (r : Result (A × Db))
    → (b ≡ true → Keeps r)
    → Keeps (require b text r)
unfolding require
require-Keeps true text r h = h refl
require-Keeps false text r h = tt

pub false_of_not : (b : Bool) → not b ≡ true → b ≡ false
false_of_not b h = ground arith

-- More users, jobs, executions or channels never leave a reference without its row.
abbrev pub Grows : {R : Type 0} → (String → List R → Bool) → List R → List R → Type 0
Grows has old new = (id : String) → has id old ≡ true → has id new ≡ true

abbrev pub has_same :
    {R : Type 0} (has : String → List R → Bool) {old new : List R}
    → ((id : String) → has id new ≡ has id old)
    → Grows has old new
has_same has same id h = same id ∙ h

JobsOk-Grows :
    (us vs : List User) (js : List Job) → Grows has_user us vs → JobsOk us js → JobsOk vs js
JobsOk-Grows us vs js g c = record {
  ids = c.ids;
  owners = All-mono _ _ js (λ j h. g j.user_id h) c.owners;
  rows = c.rows;
}

ChannelsOk-Grows :
    (us vs : List User) (cs : List Channel)
    → Grows has_user us vs
    → ChannelsOk us cs
    → ChannelsOk vs cs
ChannelsOk-Grows us vs cs g c = record {
  ids = c.ids;
  owners = All-mono _ _ cs (λ ch h. g ch.user_id h) c.owners;
  rows = c.rows;
}

ExecutionsOk-Grows :
    (js ks : List Job) (es : List Execution)
    → Grows has_job js ks
    → ExecutionsOk js es
    → ExecutionsOk ks es
ExecutionsOk-Grows js ks es g c = record {
  ids = c.ids;
  runs = All-mono _ _ es (λ e h. g e.job_id h) c.runs;
}

NotificationsOk-Grows :
    (es fs : List Execution) (cs ds : List Channel) (ns : List Notification)
    → Grows has_execution es fs
    → Grows has_channel cs ds
    → NotificationsOk es cs ns
    → NotificationsOk fs ds ns
NotificationsOk-Grows es fs cs ds ns g k c = record {
  ids = c.ids;
  about = All-mono _ _ ns (λ n h. g n.execution_id h) c.about;
  through = All-mono _ _ ns (λ n h. k n.channel_id h) c.through;
}

pub with_users :
    (db : Db) (us : List User)
    → IsConsistent db
    → UsersOk us
    → Grows has_user db.users us
    → IsConsistent (record db { users = us })
with_users db us c fine grows = record {
  users_ok = fine;
  jobs_ok = JobsOk-Grows db.users us db.jobs grows c.jobs_ok;
  channels_ok = ChannelsOk-Grows db.users us db.channels grows c.channels_ok;
  executions_ok = c.executions_ok;
  notifications_ok = c.notifications_ok;
}

pub with_jobs :
    (db : Db) (js : List Job)
    → IsConsistent db
    → JobsOk db.users js
    → Grows has_job db.jobs js
    → IsConsistent (record db { jobs = js })
with_jobs db js c fine grows = record {
  users_ok = c.users_ok;
  jobs_ok = fine;
  channels_ok = c.channels_ok;
  executions_ok = ExecutionsOk-Grows db.jobs js db.executions grows c.executions_ok;
  notifications_ok = c.notifications_ok;
}

pub with_channels :
    (db : Db) (cs : List Channel)
    → IsConsistent db
    → ChannelsOk db.users cs
    → Grows has_channel db.channels cs
    → IsConsistent (record db { channels = cs })
with_channels db cs c fine grows = record {
  users_ok = c.users_ok;
  jobs_ok = c.jobs_ok;
  channels_ok = fine;
  executions_ok = c.executions_ok;
  notifications_ok =
      NotificationsOk-Grows db.executions db.executions db.channels cs db.notifications (λ _ h. h)
        grows c.notifications_ok;
}

pub with_executions :
    (db : Db) (es : List Execution)
    → IsConsistent db
    → ExecutionsOk db.jobs es
    → Grows has_execution db.executions es
    → IsConsistent (record db { executions = es })
with_executions db es c fine grows = record {
  users_ok = c.users_ok;
  jobs_ok = c.jobs_ok;
  channels_ok = c.channels_ok;
  executions_ok = fine;
  notifications_ok =
      NotificationsOk-Grows db.executions es db.channels db.channels db.notifications grows
        (λ _ h. h) c.notifications_ok;
}

pub with_notifications :
    (db : Db) (ns : List Notification)
    → IsConsistent db
    → NotificationsOk db.executions db.channels ns
    → IsConsistent (record db { notifications = ns })
with_notifications db ns c fine = record {
  users_ok = c.users_ok;
  jobs_ok = c.jobs_ok;
  channels_ok = c.channels_ok;
  executions_ok = c.executions_ok;
  notifications_ok = fine;
}
