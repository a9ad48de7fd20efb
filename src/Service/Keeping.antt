-- ===== src/Service/Keeping.antt =====
-- What the operations of the repositories keep, the services keep.
use signal_flow.Base.{
  ℤ, String, Option, none, some, Result, ok, err, Error, M, Result-cases, Bool-cases, ◌==◌, ◌||◌, ℕ,
  Bool, run_next, inl, inr,
}
use signal_flow.Base.Keeping.{Keeps, run_next-keeps, map_err_of-keeps}
use signal_flow.Domain.{User, Job}
use signal_flow.Domain.Keeping.{
  RuntimeKeeps, JobsKeep, ExecutionsKeep, ChannelsKeep, NotificationsKeep, UsersKeep,
}
use signal_flow.Domain.Ports.{
  Runtime, CronParser, JobRepository, ExecutionRepository, ChannelRepository,
  NotificationRepository, UserRepository,
}
use signal_flow.Service.Job
use signal_flow.Service.Job.{CreateJobInput, UpdateJobInput, next_run_of, reschedule}
use signal_flow.Service.Channel
use signal_flow.Service.Channel.{CreateChannelInput, UpdateChannelInput, store_new}
use signal_flow.Service.Auth
use signal_flow.Service.Auth.{Claims, store_user, check_password, issue_token, found_user}
use signal_flow.Service.Dashboard
use signal_flow.Service.Dashboard.{DashboardStats, counted}
use signal_flow.Service.Execution
use signal_flow.Service.Notification

module _ {S : Type 0} (K : S → Type 0) where
  module _ (runtime : Runtime S) (r : RuntimeKeeps K runtime) where
    module _ (repo : JobRepository S) (j : JobsKeep K repo) (parse : CronParser) where
      next_run_of-keeps :
          (wrap : Error → Error) (schedule : String)
          → Keeps K (next_run_of runtime repo parse wrap schedule)
      unfolding next_run_of
      next_run_of-keeps wrap schedule s k = elim (Result-cases (parse schedule)) [
        | inl (next, e) ↦ rw (e, next_run_of) (run_next-keeps K _ _ (r.now s k) λ now t h. h)
        | inr (x, e) ↦ rw (e, next_run_of) k
      ]

      pub create_job-keeps :
          (input : CreateJobInput) → Keeps K (Job.create runtime repo parse input)
      unfolding Job.create
      create_job-keeps input s k =
          run_next-keeps K _ _ (next_run_of-keeps _ input.schedule s k) λ next t h.
            run_next-keeps K _ _ (r.new_uuid t h)
              λ id u g. run_next-keeps K _ _ (j.create _ u g) λ _ v i. i

      pub get_job-keeps : (id : String) → Keeps K (Job.get_by_id runtime repo parse id)
      unfolding Job.get_by_id
      get_job-keeps id s k = map_err_of-keeps K _ _ (j.get_by_id id s k)

      pub list_jobs-keeps :
          (user : String) (offset limit : ℤ)
          → Keeps K (Job.list runtime repo parse user offset limit)
      unfolding Job.list
      list_jobs-keeps user offset limit = j.list user offset _

      save-keeps : (job : Job) → Keeps K (Job.save runtime repo parse job)
      save-keeps job s k = run_next-keeps K _ _ (j.update job s k) λ _ t h. h

      reschedule-keeps :
          (schedule : Option String) (job : Job)
          → Keeps K (reschedule runtime repo parse schedule job)
      unfolding reschedule
      reschedule-keeps none job s k = k
      reschedule-keeps (some schedule) job s k =
          run_next-keeps K _ _ (next_run_of-keeps _ schedule s k) λ next t h. h

      pub update_job-keeps :
          (id : String) (input : UpdateJobInput) → Keeps K (Job.update runtime repo parse id input)
      unfolding Job.update
      update_job-keeps id input s k = run_next-keeps K _ _ (get_job-keeps id s k) λ job t h.
          run_next-keeps K _ _ (reschedule-keeps input.schedule job t h)
            λ job' u g. save-keeps _ u g

      pub delete_job-keeps : (id : String) → Keeps K (Job.delete runtime repo parse id)
      unfolding Job.delete
      delete_job-keeps id = j.delete id

      pub trigger_run-keeps : (id : String) → Keeps K (Job.trigger_run runtime repo parse id)
      unfolding Job.trigger_run
      trigger_run-keeps id s k =
          run_next-keeps K _ _ (get_job-keeps id s k)
            λ job t h. run_next-keeps K _ _ (r.now t h) λ now u g. save-keeps _ u g

      pub pause-keeps : (id : String) → Keeps K (Job.pause runtime repo parse id)
      unfolding Job.pause
      pause-keeps id s k = run_next-keeps K _ _ (get_job-keeps id s k) λ job t h. save-keeps _ t h

      pub resume-keeps : (id : String) → Keeps K (Job.resume runtime repo parse id)
      unfolding Job.resume
      resume-keeps id s k = run_next-keeps K _ _ (get_job-keeps id s k) λ job t h.
          run_next-keeps K _ _ (next_run_of-keeps _ job.schedule t h) λ next u g. save-keeps _ u g

    module _ (repo : ChannelRepository S) (c : ChannelsKeep K repo) where
      pub create_channel-keeps :
          (input : CreateChannelInput) → Keeps K (Channel.create runtime repo input)
      unfolding Channel.create store_new
      create_channel-keeps input s k = elim (Bool-cases (input.name == "" || input.type == "")) [
        | inl e ↦ rw (e, Channel.create) k
        | inr e ↦
            rw (e, Channel.create)
              (run_next-keeps K _ _ (r.new_uuid s k)
                λ id t h. run_next-keeps K _ _ (c.create _ t h) λ _ u g. g)
      ]

      pub get_channel-keeps : (id : String) → Keeps K (Channel.get_by_id runtime repo id)
      unfolding Channel.get_by_id
      get_channel-keeps id s k = map_err_of-keeps K _ _ (c.get_by_id id s k)

      pub list_channels-keeps : (user : String) → Keeps K (Channel.list runtime repo user)
      unfolding Channel.list
      list_channels-keeps user = c.list user

      pub update_channel-keeps :
          (id : String) (input : UpdateChannelInput)
          → Keeps K (Channel.update runtime repo id input)
      unfolding Channel.update
      update_channel-keeps id input s k =
          run_next-keeps K _ _ (get_channel-keeps id s k)
            λ ch t h. run_next-keeps K _ _ (c.update _ t h) λ _ u g. g

      pub delete_channel-keeps : (id : String) → Keeps K (Channel.delete runtime repo id)
      unfolding Channel.delete
      delete_channel-keeps id = c.delete id

    module _ (repo : UserRepository S) (u : UsersKeep K repo) (hash : String → M S String)
        (hashes : (password : String) → Keeps K (hash password)) (compare : String → String → Bool)
        (sign : Claims → Result String) where
      pub register-keeps :
          (email password name : String)
          → Keeps K (Auth.register runtime repo hash compare sign email password name)
      unfolding Auth.register store_user
      register-keeps email password name s k = elim (Bool-cases (email == "" || password == "")) [
        | inl e ↦ rw (e, Auth.register) k
        | inr e ↦
            rw (e, Auth.register)
              (run_next-keeps K _ _ (hashes password s k) λ hashed t h.
                run_next-keeps K _ _ (r.new_uuid t h) λ id v g.
                  run_next-keeps K _ _ (map_err_of-keeps K _ _ (u.create _ v g)) λ _ w i. i)
      ]

      found_user-keeps :
          (password : String) (out : Result User)
          → Keeps K (found_user runtime repo hash compare sign password out)
      unfolding check_password issue_token
      found_user-keeps password (err x) s k = k
      found_user-keeps password (ok user) s k =
          elim (Bool-cases (compare user.password_hash password)) [
            | inl e ↦ rw (e, check_password) (run_next-keeps K _ _ (r.now s k) λ now t h. h)
            | inr e ↦ rw (e, check_password) k
          ]

      pub login-keeps :
          (email password : String)
          → Keeps K (Auth.login runtime repo hash compare sign email password)
      unfolding Auth.login
      login-keeps email password s k =
          run_next-keeps K _ _ (u.get_by_email email s k)
            λ out t h. found_user-keeps password out t h

    module _ (jobs : JobRepository S) (j : JobsKeep K jobs) (execs : ExecutionRepository S)
        (e : ExecutionsKeep K execs) (notifs : NotificationRepository S)
        (n : NotificationsKeep K notifs) where
      outcome-keeps :
          (stats : DashboardStats) (next : ℕ → M S (DashboardStats × Option Error))
          → ((v : ℕ) → Keeps K (next v))
          → (s : S) (out : Result ℕ × S) → K out.1
          → K (counted stats (λ _. out) next s).1
      unfolding run_next
      outcome-keeps stats next g s (ok v, t) h = g v t h
      outcome-keeps stats next g s (err x, t) h = h

      counted-keeps :
          (stats : DashboardStats) (count : M S ℕ) (next : ℕ → M S (DashboardStats × Option Error))
          → Keeps K count
          → ((v : ℕ) → Keeps K (next v))
          → Keeps K (counted stats count next)
      counted-keeps stats count next h g s k = outcome-keeps stats next g s (count s) (h s k)

      pub stats-keeps : (user : String) → Keeps K (Dashboard.stats runtime jobs execs notifs user)
      unfolding Dashboard.stats
      stats-keeps user s k = run_next-keeps K _ _ (r.now s k) λ now.
          counted-keeps _ _ _ (j.count_by_user user) λ total.
            counted-keeps _ _ _ (j.count_active_by_user user) λ live.
              counted-keeps _ _ _ (e.count_failures_by_user_since user _)
                λ failures. counted-keeps _ _ _ (n.count_sent_by_user_since user _) λ sent t h. h

      pub recent_executions-keeps :
          (user : String) (limit : ℤ)
          → Keeps K (Dashboard.recent_executions runtime jobs execs notifs user limit)
      unfolding Dashboard.recent_executions
      recent_executions-keeps user limit = e.list_recent_by_user user _

  module _ (repo : ExecutionRepository S) (e : ExecutionsKeep K repo) where
    pub get_execution-keeps : (id : String) → Keeps K (Execution.get_by_id repo id)
    unfolding Execution.get_by_id
    get_execution-keeps id s k = map_err_of-keeps K _ _ (e.get_by_id id s k)

    pub list_by_job-keeps :
        (job : String) (offset limit : ℤ) → Keeps K (Execution.list_by_job repo job offset limit)
    unfolding Execution.list_by_job
    list_by_job-keeps job offset limit = e.list_by_job job offset _

    pub list_recent-keeps : (limit : ℤ) → Keeps K (Execution.list_recent repo limit)
    unfolding Execution.list_recent
    list_recent-keeps limit = e.list_recent _

  module _ (repo : NotificationRepository S) (n : NotificationsKeep K repo) where
    pub list_by_execution-keeps : (id : String) → Keeps K (Notification.list_by_execution repo id)
    unfolding Notification.list_by_execution
    list_by_execution-keeps id = n.list_by_execution id

    pub recent_notifications-keeps : (limit : ℤ) → Keeps K (Notification.list_recent repo limit)
    unfolding Notification.list_recent
    recent_notifications-keeps limit = n.list_recent _
