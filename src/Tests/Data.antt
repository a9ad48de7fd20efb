-- ===== src/Tests/Data.antt =====
-- The stores and the parameters of the runs: two jobs of one user, the first of them due.
use signal_flow.Base.{
  Bool, not, any, nat_eq, ◌≡◌, pos, ◌+◌, String, true, none, some, [], ◌∷◌, ok, refl, Option,
}
use signal_flow.Domain.{
  Bytes, Time, Job, JobStatus, Execution, Channel, User, active, paused, running, job_type_command,
  channel_type_webhook,
}
use signal_flow.Domain.Ports.{NextRunFunc, CronParser}
use signal_flow.Store.{Db, Store}
use signal_flow.Repository.Claim.Effect.{OnlyReads}

-- TEXT takes no NUL byte; of what else it refuses these stores make nothing.
abbrev pub without_nul : Bytes → Bool
without_nul bytes = not (any (λ b. nat_eq b 0) bytes)

abbrev pub ann : User
ann = record {
  id = "ann";
  email = "ann@example.org";
  password_hash = "";
  name = "Ann";
  created_at = 1;
  updated_at = 1;
}

abbrev pub job_row : String → JobStatus → Option Time → Job
job_row id status next_run_at = record {
  id = id;
  user_id = "ann";
  name = id;
  type = job_type_command;
  schedule = "* * * * *";
  config = some "{}";
  status = status;
  notify_channels = some ("hook" ∷ []);
  condition = some "{}";
  timeout_seconds = pos 30;
  last_run_at = none;
  next_run_at = next_run_at;
  created_at = 1;
  updated_at = 1;
}

abbrev pub backup : Job
backup = job_row "backup" active (some 5)

abbrev pub report : Job
report = job_row "report" paused none

abbrev pub run_row : String → String → Time → Execution
run_row id job_id started = record {
  id = id;
  job_id = job_id;
  status = running;
  output = [];
  error = "";
  duration_ms = pos 0;
  started_at = started;
  finished_at = none;
}

abbrev pub hook : Channel
hook = record {
  id = "hook";
  user_id = "ann";
  name = "hook";
  type = channel_type_webhook;
  config = some "{}";
  enabled = true;
  created_at = 1;
  updated_at = 1;
}

abbrev pub tables : Db
tables = record {
  users = ann ∷ [];
  jobs = backup ∷ report ∷ [];
  executions = run_row "old" "backup" 2 ∷ [];
  channels = hook ∷ [];
  notifications = [];
}

abbrev pub store : Store
store = record {
  db = tables;
  clock = λ n. 10 + n;
  reads = 0;
  uuid = λ n. "fresh";
  drawn = 0;
  faults = [];
  locked = [];
  text_ok = without_nul;
}

-- Every schedule gives this time.
abbrev pub at_time : Time → NextRunFunc Store
at_time t schedule s = (ok t, s)

pub at_time-OnlyReads : (t : Time) → OnlyReads (at_time t)
at_time-OnlyReads t schedule s = (s.reads, refl)

abbrev pub every_hour : CronParser
every_hour schedule = ok (λ now. now + 3600)

pub of_ok : {A : Type 0} {a b : A} → ok a ≡ ok b → a ≡ b
of_ok e = cc
