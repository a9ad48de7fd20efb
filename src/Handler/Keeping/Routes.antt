-- ===== src/Handler/Keeping/Routes.antt =====
-- What the repositories and the libraries keep, every request keeps, whatever its route.
use signal_flow.Base.{String, All, In, In-All}
use signal_flow.Base.Keeping.{Keeps}
use signal_flow.Executor.{Context}
use signal_flow.Domain.Keeping.{
  RuntimeKeeps, JobsKeep, ExecutionsKeep, ChannelsKeep, NotificationsKeep, UsersKeep,
}
use signal_flow.Service.Keeping.{register-keeps, login-keeps}
use signal_flow.Handler.Http.{Handler}
use signal_flow.Handler.Session.{show_login, logout}
use signal_flow.Handler.Health.{live}
use signal_flow.Handler.Router.{
  Parts, Route, Protection, open_to_all, by_cookie, by_bearer, routes, protect, serve,
  login_service, register_service,
}
use signal_flow.Handler.Router.Ownership.{◌&◌}
use signal_flow.Handler.Keeping.{
  HandlerKeeps, job_list-keeps, job_create-keeps, job_get-keeps, job_update-keeps, job_delete-keeps,
  job_trigger_run-keeps, job_pause-keeps, job_resume-keeps, channel_list-keeps,
  channel_create-keeps, channel_get-keeps, channel_update-keeps, channel_delete-keeps,
  execution_get-keeps, execution_list_by_job-keeps, execution_list_recent-keeps,
  notification_list-keeps, notification_recent-keeps, register_user-keeps, login_user-keeps,
  do_login-keeps, ready-keeps,
}
use signal_flow.Handler.Keeping.Guards.{auth_middleware-keeps, cookie_auth_middleware-keeps}
use signal_flow.Handler.Keeping.Pages.{
  index-keeps, jobs_page-keeps, job_detail_page-keeps, channels_page-keeps,
  recent_executions_partial-keeps, create_job_form-keeps, run_job_button-keeps, pause_job-keeps,
  resume_job-keeps, delete_job_button-keeps, create_channel_form-keeps, toggle_channel-keeps,
  delete_channel_button-keeps,
}

module _ {S : Type 0} (K : S → Type 0) where
  pub record PartsKeep (p : Parts S) : Type 0 where
    pub runtime : RuntimeKeeps K p.runtime
    pub users : UsersKeep K p.users
    pub jobs : JobsKeep K p.jobs
    pub channels : ChannelsKeep K p.channels
    pub executions : ExecutionsKeep K p.executions
    pub notifications : NotificationsKeep K p.notifications
    pub hash : (password : String) → Keeps K (p.hash password)
    pub verify : (token : String) → Keeps K (p.verify token)
    pub ping : (ctx : Context) → Keeps K (p.ping ctx)
    pub static : HandlerKeeps K p.static

  module _ (p : Parts S) (k : PartsKeep p) where
    login_service-keeps : (email password : String) → Keeps K (login_service p email password)
    login_service-keeps =
        login-keeps K p.runtime k.runtime p.users k.users p.hash k.hash p.compare p.sign

    register_service-keeps :
        (email password name : String) → Keeps K (register_service p email password name)
    register_service-keeps =
        register-keeps K p.runtime k.runtime p.users k.users p.hash k.hash p.compare p.sign

    routes-keep : All (λ (route : Route S). HandlerKeeps K route.handler) (routes p)
    unfolding routes live show_login logout
    routes-keep =
        (λ r s h. h)
        & ready-keeps K p.ping k.ping
        & (λ r s h. h)
        & k.static
        & (λ r s h. h)
        & do_login-keeps K (login_service p) login_service-keeps
        & (λ r s h. h)
        & index-keeps K p.runtime k.runtime p.jobs k.jobs p.channels k.channels p.executions
            k.executions p.notifications k.notifications p.parse p.valid_json
        & jobs_page-keeps K p.runtime k.runtime p.jobs k.jobs p.channels k.channels p.executions
            k.executions p.notifications k.notifications p.parse p.valid_json
        & job_detail_page-keeps K p.runtime k.runtime p.jobs k.jobs p.channels k.channels
            p.executions k.executions p.notifications k.notifications p.parse p.valid_json
        & channels_page-keeps K p.runtime k.runtime p.jobs k.jobs p.channels k.channels p.executions
            k.executions p.notifications k.notifications p.parse p.valid_json
        & recent_executions_partial-keeps K p.runtime k.runtime p.jobs k.jobs p.channels k.channels
            p.executions k.executions p.notifications k.notifications p.parse p.valid_json
        & create_job_form-keeps K p.runtime k.runtime p.jobs k.jobs p.channels k.channels
            p.executions k.executions p.notifications k.notifications p.parse p.valid_json
        & run_job_button-keeps K p.runtime k.runtime p.jobs k.jobs p.channels k.channels
            p.executions k.executions p.notifications k.notifications p.parse p.valid_json
        & pause_job-keeps K p.runtime k.runtime p.jobs k.jobs p.channels k.channels p.executions
            k.executions p.notifications k.notifications p.parse p.valid_json
        & resume_job-keeps K p.runtime k.runtime p.jobs k.jobs p.channels k.channels p.executions
            k.executions p.notifications k.notifications p.parse p.valid_json
        & delete_job_button-keeps K p.runtime k.runtime p.jobs k.jobs p.channels k.channels
            p.executions k.executions p.notifications k.notifications p.parse p.valid_json
        & create_channel_form-keeps K p.runtime k.runtime p.jobs k.jobs p.channels k.channels
            p.executions k.executions p.notifications k.notifications p.parse p.valid_json
        & toggle_channel-keeps K p.runtime k.runtime p.jobs k.jobs p.channels k.channels
            p.executions k.executions p.notifications k.notifications p.parse p.valid_json
        & delete_channel_button-keeps K p.runtime k.runtime p.jobs k.jobs p.channels k.channels
            p.executions k.executions p.notifications k.notifications p.parse p.valid_json
        & register_user-keeps K (register_service p) register_service-keeps p.decode_register
        & login_user-keeps K (login_service p) login_service-keeps p.decode_login
        & job_list-keeps K p.runtime k.runtime p.jobs k.jobs p.parse
        & job_create-keeps K p.runtime k.runtime p.jobs k.jobs p.parse p.decode_job
        & job_get-keeps K p.runtime k.runtime p.jobs k.jobs p.parse
        & job_update-keeps K p.runtime k.runtime p.jobs k.jobs p.parse p.decode_job_update
        & job_delete-keeps K p.runtime k.runtime p.jobs k.jobs p.parse
        & job_trigger_run-keeps K p.runtime k.runtime p.jobs k.jobs p.parse
        & job_pause-keeps K p.runtime k.runtime p.jobs k.jobs p.parse
        & job_resume-keeps K p.runtime k.runtime p.jobs k.jobs p.parse
        & execution_list_by_job-keeps K p.executions k.executions
        & channel_list-keeps K p.runtime k.runtime p.channels k.channels
        & channel_create-keeps K p.runtime k.runtime p.channels k.channels p.decode_channel
        & channel_get-keeps K p.runtime k.runtime p.channels k.channels
        & channel_update-keeps K p.runtime k.runtime p.channels k.channels p.decode_channel_update
        & channel_delete-keeps K p.runtime k.runtime p.channels k.channels
        & execution_list_recent-keeps K p.executions k.executions
        & execution_get-keeps K p.executions k.executions
        & notification_list-keeps K p.notifications k.notifications
        & notification_recent-keeps K p.notifications k.notifications
        & tt

    protect-keeps :
        (protection : Protection) (h : Handler S)
        → HandlerKeeps K h
        → HandlerKeeps K (protect p protection h)
    unfolding protect
    protect-keeps open_to_all h inner = inner
    protect-keeps by_cookie h inner = cookie_auth_middleware-keeps K p.verify k.verify h inner
    protect-keeps by_bearer h inner = auth_middleware-keeps K p.verify k.verify h inner

    pub serve-keeps : (route : Route S) → In route (routes p) → HandlerKeeps K (serve p route)
    unfolding serve
    serve-keeps route listed =
        protect-keeps route.protection route.handler
          (In-All (λ (x : Route S). HandlerKeeps K x.handler) (routes p) route routes-keep listed)
