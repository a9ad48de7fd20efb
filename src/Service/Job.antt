-- ===== src/Service/Job.antt =====
-- internal/service/job.go.
pub mod Laws
use signal_flow.Base.{
  ℕ, ℤ, pos, String, Option, none, some, List, ok, err, Error, ErrorKind, not_found, invalid_input,
  M, pure, throw, map_err, ◌>>=◌, ◌>>◌, ◌+++◌, if◌then◌else◌, is_positive,
}
use signal_flow.Domain.{StringSlice, Time, RawMessage, JobType, Job, active, paused}
use signal_flow.Domain.Ports.{JobRepository, Runtime, CronParser}

-- fmt.Errorf("%w: …: %v", kind, e).
abbrev pub wrap_error : ErrorKind → String → Error → Error
wrap_error kind text e = record { kind = kind; text = text +++ ": " +++ e.text }

pub record CreateJobInput : Type 0 where
  pub user_id : String
  pub name : String
  pub type : JobType
  pub schedule : String
  pub config : RawMessage
  pub notify_channels : StringSlice
  pub condition : RawMessage
  pub timeout_seconds : ℤ

pub record UpdateJobInput : Type 0 where
  pub name : Option String
  pub schedule : Option String
  pub config : Option RawMessage
  pub notify_channels : Option StringSlice
  pub condition : Option RawMessage
  pub timeout_seconds : Option ℤ

abbrev pub default_condition : String
default_condition = "{\"on\":\"failure\"}"

abbrev pub or_default_condition : RawMessage → RawMessage
or_default_condition none = some default_condition
or_default_condition (some c) = some c

abbrev pub or_default_timeout : ℤ → ℤ
or_default_timeout t = if is_positive t then t else pos 30

-- The record that Create stores; the columns that it leaves at their zero values are the
-- database's to fill.
unfoldable pub new_job : CreateJobInput → String → Time → Job
new_job input id next_run = record {
  id = id;
  user_id = input.user_id;
  name = input.name;
  type = input.type;
  schedule = input.schedule;
  config = input.config;
  status = active;
  notify_channels = input.notify_channels;
  condition = or_default_condition input.condition;
  timeout_seconds = or_default_timeout input.timeout_seconds;
  last_run_at = none;
  next_run_at = some next_run;
  created_at = 0;
  updated_at = 0;
}

abbrev pub given : {A : Type 0} → Option A → A → A
given none a = a
given (some b) a = b

abbrev given_timeout : Option ℤ → ℤ → ℤ
given_timeout none t = t
given_timeout (some u) t = if is_positive u then u else t

-- The fields that Update sets after the schedule.
abbrev with_fields : UpdateJobInput → Job → Job
with_fields input job = record job {
  name = given input.name job.name;
  config = given input.config job.config;
  notify_channels = given input.notify_channels job.notify_channels;
  condition = given input.condition job.condition;
  timeout_seconds = given_timeout input.timeout_seconds job.timeout_seconds;
}

abbrev or_default_limit : ℤ → ℤ
or_default_limit limit = if is_positive limit then limit else pos 20

module _ {S : Type 0} (runtime : Runtime S) (repo : JobRepository S) (parse : CronParser) where
  -- s.parser.Parse and sched.Next(time.Now()), as Create, Update and Resume use them.
  unfoldable pub next_run_of : (Error → Error) → String → M S Time
  next_run_of wrap schedule = elim (parse schedule) [
    | err e ↦ throw (wrap e)
    | ok next ↦ do now ← runtime.now; pure (next now)
  ]

  unfoldable pub create : CreateJobInput → M S Job
  unfolding next_run_of new_job
  create input = do
    next_run ← next_run_of (wrap_error invalid_input "invalid input: invalid cron") input.schedule
    id ← runtime.new_uuid
    repo.create (new_job input id next_run)
    pure (new_job input id next_run)

  unfoldable pub get_by_id : String → M S Job
  get_by_id id = map_err (wrap_error not_found "not found") (repo.get_by_id id)

  unfoldable pub list : String → ℤ → ℤ → M S (List Job × ℕ)
  list user_id offset limit = repo.list user_id offset (or_default_limit limit)

  unfoldable pub reschedule : Option String → Job → M S Job
  unfolding next_run_of
  reschedule none job = pure job
  reschedule (some schedule) job = do
    next ← next_run_of (wrap_error invalid_input "invalid input: invalid cron") schedule
    pure (record job { schedule = schedule; next_run_at = some next })

  -- Writes the record and returns it.
  abbrev pub save : Job → M S Job
  save job = do repo.update job; pure job

  unfoldable pub update : String → UpdateJobInput → M S Job
  unfolding get_by_id reschedule
  update id input = do
    job ← get_by_id id
    job' ← reschedule input.schedule job
    save (with_fields input job')

  unfoldable pub delete : String → M S (Unit {0})
  delete id = repo.delete id

  unfoldable pub trigger_run : String → M S Job
  unfolding get_by_id
  trigger_run id = do
    job ← get_by_id id
    now ← runtime.now
    save (record job { next_run_at = some now })

  unfoldable pub pause : String → M S Job
  unfolding get_by_id
  pause id = do job ← get_by_id id; save (record job { status = paused; next_run_at = none })

  unfoldable pub resume : String → M S Job
  unfolding get_by_id next_run_of
  resume id = do
    job ← get_by_id id
    next ←
        next_run_of (λ e. record e { text = "stored schedule invalid: " +++ e.text }) job.schedule
    save (record job { status = active; next_run_at = some next })
