-- ===== src/Handler/Keeping/Pages.antt =====
-- What the services keep, the dashboard keeps.
use signal_flow.Base.{
  ℕ, pos, is_positive, if◌then◌else◌, String, Bool, List, Result, ok, err, Error, Option,
}
use signal_flow.Base.Text.{atoi}
use signal_flow.Base.Keeping.{Keeps}
use signal_flow.Domain.{Job, Channel, Execution}
use signal_flow.Domain.Ports.{
  Runtime, CronParser, JobRepository, ExecutionRepository, ChannelRepository,
  NotificationRepository,
}
use signal_flow.Service.Job as JobService
use signal_flow.Service.Channel as ChannelService
use signal_flow.Service.Execution as ExecutionService
use signal_flow.Service.Dashboard.{DashboardStats}
use signal_flow.Domain.Keeping.{
  RuntimeKeeps, JobsKeep, ExecutionsKeep, ChannelsKeep, NotificationsKeep,
}
use signal_flow.Service.Keeping.{
  create_job-keeps, get_job-keeps, list_jobs-keeps, delete_job-keeps, trigger_run-keeps,
  pause-keeps, resume-keeps, create_channel-keeps, get_channel-keeps, list_channels-keeps,
  update_channel-keeps, delete_channel-keeps, list_by_job-keeps, stats-keeps,
  recent_executions-keeps,
}
use signal_flow.Handler.Http.{Request, user_id}
use signal_flow.Handler.Dashboard.{
  form_job_input, form_channel_input, list_or_nil, items_or_nil, toggle_input, index_page, index,
  jobs_result, jobs_page, job_detail, job_detail_page, channels_result, channels_page, recent_rows,
  recent_executions_partial, render_jobs_error, job_created, job_with_condition, job_with_config,
  job_form, create_job, run_job, pause_job, resume_job, delete_job, render_channels_error,
  channel_created, channel_with_config, channel_form, create_channel, toggle_found, toggle_channel,
  delete_channel,
}
use signal_flow.Handler.Keeping.{HandlerKeeps}

module _ {S : Type 0} (K : S → Type 0) where
  module _ {A : Type 0} where
    list_or_nil-keeps : (out : Result (List A × ℕ) × S) → K out.1 → K (list_or_nil out).1
    list_or_nil-keeps (ok p, s) h = h
    list_or_nil-keeps (err e, s) h = h

    items_or_nil-keeps : (out : Result (List A) × S) → K out.1 → K (items_or_nil out).1
    items_or_nil-keeps (ok xs, s) h = h
    items_or_nil-keeps (err e, s) h = h

  module _ (runtime : Runtime S) (rt : RuntimeKeeps K runtime) (jobs : JobRepository S)
      (j : JobsKeep K jobs) (chans : ChannelRepository S) (c : ChannelsKeep K chans)
      (execs : ExecutionRepository S) (e : ExecutionsKeep K execs)
      (notifs : NotificationRepository S) (n : NotificationsKeep K notifs) (parse : CronParser)
      (valid_json : String → Bool) where
    index_page-keeps :
        (out : Result (DashboardStats × Option Error) × S)
        → K out.1
        → K (index_page runtime jobs chans execs notifs parse valid_json out).1
    index_page-keeps (ok p, s) h = h
    index_page-keeps (err x, s) h = h

    pub index-keeps : HandlerKeeps K (index runtime jobs chans execs notifs parse valid_json)
    unfolding index
    index-keeps r s k =
        index_page-keeps _ (stats-keeps K runtime rt jobs j execs e notifs n (user_id r) s k)

    jobs_result-keeps :
        (out : Result (List Job × ℕ) × S)
        → K out.1
        → K (jobs_result runtime jobs chans execs notifs parse valid_json out).1
    jobs_result-keeps (ok p, s) h = h
    jobs_result-keeps (err x, s) h = h

    pub jobs_page-keeps :
        HandlerKeeps K (jobs_page runtime jobs chans execs notifs parse valid_json)
    unfolding jobs_page
    jobs_page-keeps r s k =
        jobs_result-keeps _
          (list_jobs-keeps K runtime rt jobs j parse (user_id r) (pos 0) (pos 100) s k)

    job_detail-keeps :
        (id : String) (out : Result Job × S)
        → K out.1
        → K (job_detail runtime jobs chans execs notifs parse valid_json id out).1
    job_detail-keeps id (ok job, s) h =
        list_or_nil-keeps (ExecutionService.list_by_job execs id (pos 0) (pos 50) s)
          (list_by_job-keeps K execs e id (pos 0) (pos 50) s h)
    job_detail-keeps id (err x, s) h = h

    pub job_detail_page-keeps :
        HandlerKeeps K (job_detail_page runtime jobs chans execs notifs parse valid_json)
    unfolding job_detail_page
    job_detail_page-keeps r s k =
        job_detail-keeps r.id _ (get_job-keeps K runtime rt jobs j parse r.id s k)

    channels_result-keeps :
        (out : Result (List Channel) × S)
        → K out.1
        → K (channels_result runtime jobs chans execs notifs parse valid_json out).1
    channels_result-keeps (ok cs, s) h = h
    channels_result-keeps (err x, s) h = h

    pub channels_page-keeps :
        HandlerKeeps K (channels_page runtime jobs chans execs notifs parse valid_json)
    unfolding channels_page
    channels_page-keeps r s k =
        channels_result-keeps _ (list_channels-keeps K runtime rt chans c (user_id r) s k)

    recent_rows-keeps :
        (out : Result (List Execution) × S)
        → K out.1
        → K (recent_rows runtime jobs chans execs notifs parse valid_json out).1
    recent_rows-keeps (ok xs, s) h = h
    recent_rows-keeps (err x, s) h = h

    pub recent_executions_partial-keeps :
        HandlerKeeps K (recent_executions_partial runtime jobs chans execs notifs parse valid_json)
    unfolding recent_executions_partial
    recent_executions_partial-keeps r s k = recent_rows-keeps _ (
        recent_executions-keeps K runtime rt jobs j execs e notifs n (user_id r)
          (let limit = atoi (r.query "limit") in if is_positive limit then limit else pos 20) s k)

    render_jobs_error-keeps :
        (r : Request) (msg : String)
        → Keeps K (render_jobs_error runtime jobs chans execs notifs parse valid_json r msg)
    unfolding render_jobs_error
    render_jobs_error-keeps r msg s k =
        list_or_nil-keeps (JobService.list runtime jobs parse (user_id r) (pos 0) (pos 100) s)
          (list_jobs-keeps K runtime rt jobs j parse (user_id r) (pos 0) (pos 100) s k)

    job_created-keeps :
        (r : Request) (out : Result Job × S)
        → K out.1
        → K (job_created runtime jobs chans execs notifs parse valid_json r out).1
    job_created-keeps r (ok job, s) h = h
    job_created-keeps r (err x, s) h = render_jobs_error-keeps r _ s h

    job_with_condition-keeps :
        (r : Request) (value : String → String) (cfg : String) (cond : Result String)
        → Keeps K
            (job_with_condition runtime jobs chans execs notifs parse valid_json r value cfg cond)
    job_with_condition-keeps r value cfg (ok cond) s k =
        job_created-keeps r _ (
          create_job-keeps K runtime rt jobs j parse (form_job_input (user_id r) value cfg cond) s
            k)
    job_with_condition-keeps r value cfg (err x) s k = render_jobs_error-keeps r _ s k

    job_with_config-keeps :
        (r : Request) (value : String → String) (cfg : Result String)
        → Keeps K (job_with_config runtime jobs chans execs notifs parse valid_json r value cfg)
    job_with_config-keeps r value (ok cfg) = job_with_condition-keeps r value cfg _
    job_with_config-keeps r value (err x) = render_jobs_error-keeps r _

    job_form-keeps :
        (r : Request) (form : Result (String → String))
        → Keeps K (job_form runtime jobs chans execs notifs parse valid_json r form)
    job_form-keeps r (ok value) s k = job_with_config-keeps r value _ s k
    job_form-keeps r (err x) s k = k

    pub create_job_form-keeps :
        HandlerKeeps K (create_job runtime jobs chans execs notifs parse valid_json)
    unfolding create_job
    create_job_form-keeps r = job_form-keeps r r.form

    pub run_job_button-keeps :
        HandlerKeeps K (run_job runtime jobs chans execs notifs parse valid_json)
    unfolding run_job
    run_job_button-keeps r s k = trigger_run-keeps K runtime rt jobs j parse r.id s k

    pub pause_job-keeps :
        HandlerKeeps K (pause_job runtime jobs chans execs notifs parse valid_json)
    unfolding pause_job
    pause_job-keeps r s k = pause-keeps K runtime rt jobs j parse r.id s k

    pub resume_job-keeps :
        HandlerKeeps K (resume_job runtime jobs chans execs notifs parse valid_json)
    unfolding resume_job
    resume_job-keeps r s k = resume-keeps K runtime rt jobs j parse r.id s k

    pub delete_job_button-keeps :
        HandlerKeeps K (delete_job runtime jobs chans execs notifs parse valid_json)
    unfolding delete_job
    delete_job_button-keeps r s k = delete_job-keeps K runtime rt jobs j parse r.id s k

    render_channels_error-keeps :
        (r : Request) (msg : String)
        → Keeps K (render_channels_error runtime jobs chans execs notifs parse valid_json r msg)
    unfolding render_channels_error
    render_channels_error-keeps r msg s k =
        items_or_nil-keeps (ChannelService.list runtime chans (user_id r) s)
          (list_channels-keeps K runtime rt chans c (user_id r) s k)

    channel_created-keeps :
        (r : Request) (out : Result Channel × S)
        → K out.1
        → K (channel_created runtime jobs chans execs notifs parse valid_json r out).1
    channel_created-keeps r (ok ch, s) h = h
    channel_created-keeps r (err x, s) h = render_channels_error-keeps r _ s h

    channel_with_config-keeps :
        (r : Request) (value : String → String) (cfg : Result String)
        → Keeps K (channel_with_config runtime jobs chans execs notifs parse valid_json r value cfg)
    channel_with_config-keeps r value (ok cfg) s k =
        channel_created-keeps r _
          (create_channel-keeps K runtime rt chans c (form_channel_input (user_id r) value cfg) s k)
    channel_with_config-keeps r value (err x) s k = render_channels_error-keeps r _ s k

    channel_form-keeps :
        (r : Request) (form : Result (String → String))
        → Keeps K (channel_form runtime jobs chans execs notifs parse valid_json r form)
    channel_form-keeps r (ok value) s k = channel_with_config-keeps r value _ s k
    channel_form-keeps r (err x) s k = k

    pub create_channel_form-keeps :
        HandlerKeeps K (create_channel runtime jobs chans execs notifs parse valid_json)
    unfolding create_channel
    create_channel_form-keeps r = channel_form-keeps r r.form

    toggle_found-keeps :
        (id : String) (out : Result Channel × S)
        → K out.1
        → K (toggle_found runtime jobs chans execs notifs parse valid_json id out).1
    toggle_found-keeps id (ok ch, s) h =
        update_channel-keeps K runtime rt chans c id (toggle_input ch) s h
    toggle_found-keeps id (err x, s) h = h

    pub toggle_channel-keeps :
        HandlerKeeps K (toggle_channel runtime jobs chans execs notifs parse valid_json)
    unfolding toggle_channel
    toggle_channel-keeps r s k =
        toggle_found-keeps r.id _ (get_channel-keeps K runtime rt chans c r.id s k)

    pub delete_channel_button-keeps :
        HandlerKeeps K (delete_channel runtime jobs chans execs notifs parse valid_json)
    unfolding delete_channel
    delete_channel_button-keeps r s k = delete_channel-keeps K runtime rt chans c r.id s k
