-- ===== src/Handler/Keeping.antt =====
-- What the services keep, the handlers of the API and of the sessions keep.
pub mod Guards
pub mod Pages
pub mod Routes
use signal_flow.Base.{
  String, Option, none, some, Result, ok, err, Bool, Bool-cases, M, inl, inr, ◌==◌, if◌then◌else◌,
  Error,
}
use signal_flow.Base.Text.{atoi, split_pair}
use signal_flow.Base.Keeping.{Keeps}
use signal_flow.Domain.{User}
use signal_flow.Domain.Ports.{
  Runtime, CronParser, JobRepository, ExecutionRepository, ChannelRepository,
  NotificationRepository,
}
use signal_flow.Executor.{Context}
use signal_flow.Domain.Keeping.{
  RuntimeKeeps, JobsKeep, ExecutionsKeep, ChannelsKeep, NotificationsKeep,
}
use signal_flow.Service.Keeping.{
  create_job-keeps, get_job-keeps, list_jobs-keeps, update_job-keeps, delete_job-keeps,
  trigger_run-keeps, pause-keeps, resume-keeps, create_channel-keeps, get_channel-keeps,
  list_channels-keeps, update_channel-keeps, delete_channel-keeps, get_execution-keeps,
  list_by_job-keeps, list_recent-keeps, list_by_execution-keeps, recent_notifications-keeps,
}
use signal_flow.Service.Job.{UpdateJobInput}
use signal_flow.Service.Channel.{UpdateChannelInput}
use signal_flow.Handler.Http.{
  Request, Response, Handler, answer, with_body, user_id, CreateJobRequest, CreateChannelRequest,
  RegisterRequest, LoginRequest,
}
use signal_flow.Handler.Auth
use signal_flow.Handler.Job
use signal_flow.Handler.Channel
use signal_flow.Handler.Execution
use signal_flow.Handler.Notification
use signal_flow.Handler.Session
use signal_flow.Handler.Session.{login_result, login_form}
use signal_flow.Handler.Health
use signal_flow.Handler.Health.{readyz_timeout, readiness}
use signal_flow.Base.{[], ◌∷◌}

module _ {S : Type 0} (K : S → Type 0) where
  -- Whatever the request.
  abbrev pub HandlerKeeps : Handler S → Type 0
  HandlerKeeps h = (r : Request) → Keeps K (h r)

  module _ {A : Type 0} where
    pub answer-keeps : (f : A → Response) (out : Result A × S) → K out.1 → K (answer f out).1
    unfolding answer
    answer-keeps f (ok a, s) h = h
    answer-keeps f (err e, s) h = h

    pub with_body-keeps :
        (given : Option A) (next : A → S → Response × S)
        → ((a : A) → Keeps K (next a))
        → Keeps K (with_body given next)
    unfolding with_body
    with_body-keeps none next h s k = k
    with_body-keeps (some a) next h s k = h a s k

  module _ (runtime : Runtime S) (rt : RuntimeKeeps K runtime) where
    module _ (repo : JobRepository S) (j : JobsKeep K repo) (parse : CronParser) where
      pub job_list-keeps : HandlerKeeps (Job.list runtime repo parse)
      unfolding Job.list
      job_list-keeps r s k = answer-keeps _ _ (
          list_jobs-keeps K runtime rt repo j parse (user_id r) (atoi (r.query "offset"))
            (atoi (r.query "limit")) s k)

      pub job_create-keeps :
          (decode : String → Option CreateJobRequest)
          → HandlerKeeps (Job.create runtime repo parse decode)
      unfolding Job.create
      job_create-keeps decode r = with_body-keeps (decode r.body) _ λ req s k.
          answer-keeps _ _
            (create_job-keeps K runtime rt repo j parse (Job.create_job_input (user_id r) req) s k)

      pub job_get-keeps : HandlerKeeps (Job.get runtime repo parse)
      unfolding Job.get
      job_get-keeps r s k = answer-keeps _ _ (get_job-keeps K runtime rt repo j parse r.id s k)

      pub job_update-keeps :
          (decode : String → Option UpdateJobInput)
          → HandlerKeeps (Job.update runtime repo parse decode)
      unfolding Job.update
      job_update-keeps decode r =
          with_body-keeps (decode r.body) _
            λ req s k. answer-keeps _ _ (update_job-keeps K runtime rt repo j parse r.id req s k)

      pub job_delete-keeps : HandlerKeeps (Job.delete runtime repo parse)
      unfolding Job.delete
      job_delete-keeps r s k =
          answer-keeps _ _ (delete_job-keeps K runtime rt repo j parse r.id s k)

      pub job_trigger_run-keeps : HandlerKeeps (Job.trigger_run runtime repo parse)
      unfolding Job.trigger_run
      job_trigger_run-keeps r s k =
          answer-keeps _ _ (trigger_run-keeps K runtime rt repo j parse r.id s k)

      pub job_pause-keeps : HandlerKeeps (Job.pause runtime repo parse)
      unfolding Job.pause
      job_pause-keeps r s k = answer-keeps _ _ (pause-keeps K runtime rt repo j parse r.id s k)

      pub job_resume-keeps : HandlerKeeps (Job.resume runtime repo parse)
      unfolding Job.resume
      job_resume-keeps r s k = answer-keeps _ _ (resume-keeps K runtime rt repo j parse r.id s k)

    module _ (repo : ChannelRepository S) (c : ChannelsKeep K repo) where
      pub channel_list-keeps : HandlerKeeps (Channel.list runtime repo)
      unfolding Channel.list
      channel_list-keeps r s k =
          answer-keeps _ _ (list_channels-keeps K runtime rt repo c (user_id r) s k)

      pub channel_create-keeps :
          (decode : String → Option CreateChannelRequest)
          → HandlerKeeps (Channel.create runtime repo decode)
      unfolding Channel.create
      channel_create-keeps decode r = with_body-keeps (decode r.body) _ λ req s k.
          answer-keeps _ _ (
            create_channel-keeps K runtime rt repo c (Channel.create_channel_input (user_id r) req)
              s k)

      pub channel_get-keeps : HandlerKeeps (Channel.get runtime repo)
      unfolding Channel.get
      channel_get-keeps r s k = answer-keeps _ _ (get_channel-keeps K runtime rt repo c r.id s k)

      pub channel_update-keeps :
          (decode : String → Option UpdateChannelInput)
          → HandlerKeeps (Channel.update runtime repo decode)
      unfolding Channel.update
      channel_update-keeps decode r =
          with_body-keeps (decode r.body) _
            λ req s k. answer-keeps _ _ (update_channel-keeps K runtime rt repo c r.id req s k)

      pub channel_delete-keeps : HandlerKeeps (Channel.delete runtime repo)
      unfolding Channel.delete
      channel_delete-keeps r s k =
          answer-keeps _ _ (delete_channel-keeps K runtime rt repo c r.id s k)

  module _ (repo : ExecutionRepository S) (e : ExecutionsKeep K repo) where
    pub execution_get-keeps : HandlerKeeps (Execution.get repo)
    unfolding Execution.get
    execution_get-keeps r s k = answer-keeps _ _ (get_execution-keeps K repo e r.id s k)

    pub execution_list_by_job-keeps : HandlerKeeps (Execution.list_by_job repo)
    unfolding Execution.list_by_job
    execution_list_by_job-keeps r s k =
        answer-keeps _ _
          (list_by_job-keeps K repo e r.id (atoi (r.query "offset")) (atoi (r.query "limit")) s k)

    pub execution_list_recent-keeps : HandlerKeeps (Execution.list_recent repo)
    unfolding Execution.list_recent
    execution_list_recent-keeps r s k =
        answer-keeps _ _ (list_recent-keeps K repo e (atoi (r.query "limit")) s k)

  module _ (repo : NotificationRepository S) (n : NotificationsKeep K repo) where
    pub notification_list-keeps : HandlerKeeps (Notification.list_by_execution repo)
    unfolding Notification.list_by_execution
    notification_list-keeps r s k = answer-keeps _ _ (list_by_execution-keeps K repo n r.id s k)

    pub notification_recent-keeps : HandlerKeeps (Notification.list_recent repo)
    unfolding Notification.list_recent
    notification_recent-keeps r s k =
        answer-keeps _ _ (recent_notifications-keeps K repo n (atoi (r.query "limit")) s k)

  pub register_user-keeps :
      (register : String → String → String → M S User)
      → ((email password name : String) → Keeps K (register email password name))
      → (decode : String → Option RegisterRequest)
      → HandlerKeeps (Auth.register_user register decode)
  unfolding Auth.register_user
  register_user-keeps register keeps decode r =
      with_body-keeps (decode r.body) _ λ req s k. answer-keeps _ _ (keeps _ _ _ s k)

  module _ (login : String → String → M S String)
      (keeps : (email password : String) → Keeps K (login email password)) where
    pub login_user-keeps :
        (decode : String → Option LoginRequest) → HandlerKeeps (Auth.login_user login decode)
    unfolding Auth.login_user
    login_user-keeps decode r =
        with_body-keeps (decode r.body) _ λ req s k. answer-keeps _ _ (keeps _ _ s k)

    login_result-keeps :
        (email : String) (out : Result String × S) → K out.1 → K (login_result login email out).1
    login_result-keeps email (ok token, s) h = h
    login_result-keeps email (err e, s) h = h

    login_form-keeps : (form : Result (String → String)) → Keeps K (login_form login form)
    login_form-keeps (ok value) s k = login_result-keeps _ _ (keeps _ _ s k)
    login_form-keeps (err e) s k = k

    pub do_login-keeps : HandlerKeeps (Session.do_login login)
    unfolding Session.do_login
    do_login-keeps r = login_form-keeps r.form

  module _ (ping : Context → M S (Unit {0})) (keeps : (ctx : Context) → Keeps K (ping ctx)) where
    readiness-keeps : (out : Result (Unit {0}) × S) → K out.1 → K (readiness ping out).1
    readiness-keeps (ok _, s) h = h
    readiness-keeps (err e, s) h = h

    pub ready-keeps : HandlerKeeps (Health.ready ping)
    unfolding Health.ready
    ready-keeps r s k = readiness-keeps _ (keeps _ s k)
