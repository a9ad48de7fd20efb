-- ===== src/Handler/Dashboard.antt =====
-- internal/handler/dashboard.go. `valid_json` is json.Valid; a log line is left out. The pages'
-- templates are the names that NewDashboardHandler parses.
pub mod Form
pub mod Laws
use signal_flow.Base.{
  ℕ, ℤ, pos, String, Bool, true, false, not, Option, none, some, List, [], ◌∷◌, ◌++◌, Result, ok,
  err, Error, M, if◌then◌else◌, ◌==◌, ◌+++◌, any, is_positive, try,
}
use signal_flow.Base.Text.{atoi}
use signal_flow.Domain.{Job, Channel, Execution, RawMessage}
use signal_flow.Domain.Ports.{
  JobRepository, ChannelRepository, ExecutionRepository, NotificationRepository, Runtime,
  CronParser,
}
use signal_flow.Service.Job
use signal_flow.Service.Job.{CreateJobInput}
use signal_flow.Service.Channel
use signal_flow.Service.Channel.{CreateChannelInput, UpdateChannelInput}
use signal_flow.Service.Execution
use signal_flow.Service.Dashboard
use signal_flow.Service.Dashboard.{DashboardStats}
use signal_flow.Handler.Http.{
  Request, Response, Handler, Value, text, stats, jobs, job, executions, channels, PageData, page,
  plain, rows, respond_json, redirect, user_id,
}
use signal_flow.Handler.Dashboard.Form.{parse_form_json, parse_csv}

abbrev pub page_names : List String
page_names = "dashboard" ∷ "jobs" ∷ "jobDetail" ∷ "channels" ∷ []

unfoldable pub render_status : String → ℕ → PageData → Response
render_status name status data_given =
    if any (λ n. n == name) page_names
    then respond_json status (page name data_given)
    else respond_json 500 (plain "template not found\n")

unfoldable pub render : String → PageData → Response
unfolding render_status
render name data_given = render_status name 200 data_given

-- The title is the page's name, as the code has it.
unfoldable pub render_error : String → String → PageData → Response
unfolding render_status
render_error name msg extra =
    render_status name 400 (("Error", text msg) ∷ ("Title", text name) ∷ extra)

-- `jobs, _, _ :=`: the zero value beside an error.
abbrev pub list_or_nil : {S A : Type 0} → Result (List A × ℕ) × S → List A × S
list_or_nil (ok p, s) = (p.0, s)
list_or_nil (err e, s) = ([], s)

abbrev pub items_or_nil : {S A : Type 0} → Result (List A) × S → List A × S
items_or_nil (ok xs, s) = (xs, s)
items_or_nil (err e, s) = ([], s)

-- A call whose error is only logged, before the redirect.
abbrev pub then_redirect : {S A : Type 0} → String → Result A × S → Response × S
then_redirect to (r, s) = (redirect to, s)

abbrev pub form_job_input : String → (String → String) → String → String → CreateJobInput
form_job_input user value cfg cond = record {
  user_id = user;
  name = value "name";
  type = value "type";
  schedule = value "schedule";
  config = some cfg;
  notify_channels = parse_csv (value "notify_channels");
  condition = some cond;
  timeout_seconds = atoi (value "timeout_seconds");
}

abbrev pub form_channel_input : String → (String → String) → String → CreateChannelInput
form_channel_input user value cfg = record {
  user_id = user;
  name = value "name";
  type = value "type";
  config = some cfg;
  enabled = true;
}

-- Only the switch is set.
abbrev pub toggle_input : Channel → UpdateChannelInput
toggle_input ch = record {
  name = none;
  type = none;
  config = none;
  enabled = some (not ch.enabled);
}

module _ {S : Type 0} (runtime : Runtime S) (job_repo : JobRepository S)
    (chan_repo : ChannelRepository S) (exec_repo : ExecutionRepository S)
    (notif_repo : NotificationRepository S) (parse : CronParser) (valid_json : String → Bool) where
  abbrev pub index_page : Result (DashboardStats × Option Error) × S → Response × S
  index_page (ok p, s) =
      (render "dashboard" (("Title", text "Dashboard") ∷ ("Stats", stats p.0) ∷ []), s)
  index_page (err e, s) = (render "dashboard" (("Title", text "Dashboard") ∷ []), s)

  -- Stats answers its counters also beside an error.
  unfoldable pub index : Handler S
  unfolding render Dashboard.stats
  index r s = index_page (Dashboard.stats runtime job_repo exec_repo notif_repo (user_id r) s)

  abbrev pub jobs_result : Result (List Job × ℕ) × S → Response × S
  jobs_result (ok p, s) = (render "jobs" (("Title", text "Jobs") ∷ ("Jobs", jobs p.0) ∷ []), s)
  jobs_result (err e, s) = (render_error "jobs" "Failed to load jobs" [], s)

  unfoldable pub jobs_page : Handler S
  unfolding render render_error Job.list
  jobs_page r s = jobs_result (Job.list runtime job_repo parse (user_id r) (pos 0) (pos 100) s)

  abbrev pub job_with : Job → List Execution × S → Response × S
  job_with j (execs, s) = (
    render "jobDetail"
        (("Title", text j.name) ∷ ("Job", job j) ∷ ("Executions", executions execs) ∷ []),
    s,
  )

  abbrev pub job_detail : String → Result Job × S → Response × S
  job_detail id (err e, s) = (respond_json 404 (plain "404 page not found\n"), s)
  job_detail id (ok j, s) =
      job_with j (list_or_nil (Execution.list_by_job exec_repo id (pos 0) (pos 50) s))

  unfoldable pub job_detail_page : Handler S
  unfolding render Job.get_by_id Execution.list_by_job
  job_detail_page r s = job_detail r.id (Job.get_by_id runtime job_repo parse r.id s)

  abbrev pub channels_result : Result (List Channel) × S → Response × S
  channels_result (ok cs, s) =
      (render "channels" (("Title", text "Channels") ∷ ("Channels", channels cs) ∷ []), s)
  channels_result (err e, s) = (render_error "channels" "Failed to load channels" [], s)

  unfoldable pub channels_page : Handler S
  unfolding render render_error Channel.list
  channels_page r s = channels_result (Channel.list runtime chan_repo (user_id r) s)

  abbrev pub recent_rows : Result (List Execution) × S → Response × S
  recent_rows (ok execs, s) = (respond_json 200 (rows execs), s)
  recent_rows (err e, s) = (respond_json 500 (plain "internal error\n"), s)

  unfoldable pub recent_executions_partial : Handler S
  unfolding Dashboard.recent_executions atoi
  recent_executions_partial r s =
      let limit = atoi (r.query "limit") in
      recent_rows (
        Dashboard.recent_executions runtime job_repo exec_repo notif_repo (user_id r)
          (if is_positive limit then limit else pos 20) s)

  abbrev pub jobs_error : String → List Job × S → Response × S
  jobs_error msg (js, s) = (render_error "jobs" msg (("Jobs", jobs js) ∷ []), s)

  unfoldable pub render_jobs_error : Request → String → S → Response × S
  unfolding render_error Job.list
  render_jobs_error r msg s =
      jobs_error msg (list_or_nil (Job.list runtime job_repo parse (user_id r) (pos 0) (pos 100) s))

  abbrev pub job_created : Request → Result Job × S → Response × S
  job_created r (err e, s) = render_jobs_error r e.text s
  job_created r (ok j, s) = (redirect "/jobs", s)

  abbrev pub job_with_condition :
      Request → (String → String) → String → Result String → S → Response × S
  job_with_condition r value cfg (err e) s =
      render_jobs_error r ("invalid condition JSON: " +++ e.text) s
  job_with_condition r value cfg (ok cond) s =
      job_created r
        (Job.create runtime job_repo parse (form_job_input (user_id r) value cfg cond) s)

  abbrev pub job_with_config : Request → (String → String) → Result String → S → Response × S
  job_with_config r value (err e) s = render_jobs_error r ("invalid config JSON: " +++ e.text) s
  job_with_config r value (ok cfg) s =
      job_with_condition r value cfg
        (parse_form_json valid_json (value "condition") "{\"on\":\"failure\"}") s

  abbrev pub job_form : Request → Result (String → String) → S → Response × S
  job_form r (err e) s = (render_error "jobs" "invalid form data" [], s)
  job_form r (ok value) s =
      job_with_config r value (parse_form_json valid_json (value "config") "{}") s

  unfoldable pub create_job : Handler S
  unfolding render_error render_jobs_error parse_form_json parse_csv atoi Job.create
  create_job r s = job_form r r.form s

  unfoldable pub run_job : Handler S
  unfolding Job.trigger_run
  run_job r s = then_redirect "/jobs" (Job.trigger_run runtime job_repo parse r.id s)

  unfoldable pub pause_job : Handler S
  unfolding Job.pause
  pause_job r s = then_redirect "/jobs" (Job.pause runtime job_repo parse r.id s)

  unfoldable pub resume_job : Handler S
  unfolding Job.resume
  resume_job r s = then_redirect "/jobs" (Job.resume runtime job_repo parse r.id s)

  unfoldable pub delete_job : Handler S
  unfolding Job.delete
  delete_job r s = then_redirect "/jobs" (Job.delete runtime job_repo parse r.id s)

  abbrev pub channels_error : String → List Channel × S → Response × S
  channels_error msg (cs, s) = (render_error "channels" msg (("Channels", channels cs) ∷ []), s)

  unfoldable pub render_channels_error : Request → String → S → Response × S
  unfolding render_error Channel.list
  render_channels_error r msg s =
      channels_error msg (items_or_nil (Channel.list runtime chan_repo (user_id r) s))

  abbrev pub channel_created : Request → Result Channel × S → Response × S
  channel_created r (err e, s) = render_channels_error r e.text s
  channel_created r (ok ch, s) = (redirect "/channels", s)

  abbrev pub channel_with_config : Request → (String → String) → Result String → S → Response × S
  channel_with_config r value (err e) s =
      render_channels_error r ("invalid config JSON: " +++ e.text) s
  channel_with_config r value (ok cfg) s =
      channel_created r
        (Channel.create runtime chan_repo (form_channel_input (user_id r) value cfg) s)

  abbrev pub channel_form : Request → Result (String → String) → S → Response × S
  channel_form r (err e) s = (render_error "channels" "invalid form data" [], s)
  channel_form r (ok value) s =
      channel_with_config r value (parse_form_json valid_json (value "config") "{}") s

  unfoldable pub create_channel : Handler S
  unfolding render_error render_channels_error parse_form_json Channel.create
  create_channel r s = channel_form r r.form s

  abbrev pub toggle_found : String → Result Channel × S → Response × S
  toggle_found id (err e, s) = (redirect "/channels", s)
  toggle_found id (ok ch, s) =
      then_redirect "/channels" (Channel.update runtime chan_repo id (toggle_input ch) s)

  unfoldable pub toggle_channel : Handler S
  unfolding Channel.get_by_id Channel.update
  toggle_channel r s = toggle_found r.id (Channel.get_by_id runtime chan_repo r.id s)

  unfoldable pub delete_channel : Handler S
  unfolding Channel.delete
  delete_channel r s = then_redirect "/channels" (Channel.delete runtime chan_repo r.id s)
