-- ===== src/Handler/Router.antt =====
-- internal/handler/router.go: the routes, each with its guard. Matching a request to a route, and
-- the middleware of chi for logs, panics and timeouts, are the library's. `Parts` is what the
-- handlers are built from.
pub mod Laws
pub mod Ownership
use signal_flow.Base.{ℕ, String, Bool, Option, List, [], ◌∷◌, ◌++◌, Result, M}
use signal_flow.Domain.Ports.{
  JobRepository, ChannelRepository, ExecutionRepository, NotificationRepository, UserRepository,
  Runtime, CronParser,
}
use signal_flow.Executor.{Context}
use signal_flow.Domain.{User}
use signal_flow.Service.Auth as AuthService
use signal_flow.Service.Auth.{Claims}
use signal_flow.Service.Job.{UpdateJobInput}
use signal_flow.Service.Channel.{UpdateChannelInput}
use signal_flow.Handler.Http.{
  Handler, RegisterRequest, LoginRequest, CreateJobRequest, CreateChannelRequest,
}
use signal_flow.Handler.Guard.{Verified, auth_middleware, cookie_auth_middleware}
use signal_flow.Handler.Auth
use signal_flow.Handler.Job
use signal_flow.Handler.Channel
use signal_flow.Handler.Execution
use signal_flow.Handler.Notification
use signal_flow.Handler.Session
use signal_flow.Handler.Health
use signal_flow.Handler.Dashboard

pub record Parts (S : Type 0) : Type 0 where
  pub runtime : Runtime S
  pub users : UserRepository S
  pub jobs : JobRepository S
  pub channels : ChannelRepository S
  pub executions : ExecutionRepository S
  pub notifications : NotificationRepository S
  pub parse : CronParser
  pub hash : String → M S String
  pub compare : String → String → Bool
  pub sign : Claims → Result String
  pub verify : String → S → Verified × S
  pub valid_json : String → Bool
  pub ping : Context → M S (Unit {0})
  pub static : Handler S
  pub decode_register : String → Option RegisterRequest
  pub decode_login : String → Option LoginRequest
  pub decode_job : String → Option CreateJobRequest
  pub decode_job_update : String → Option UpdateJobInput
  pub decode_channel : String → Option CreateChannelRequest
  pub decode_channel_update : String → Option UpdateChannelInput

-- What stands before a handler: nothing, the session cookie or the bearer token.
pub data Protection : Type 0 where
  open_to_all by_cookie by_bearer : Protection

pub data Method : Type 0 where
  get post put delete any_method : Method

pub record Route (S : Type 0) : Type 0 where
  pub method : Method
  pub pattern : String
  pub protection : Protection
  pub handler : Handler S

module _ {S : Type 0} (p : Parts S) where
  abbrev pub login_service : String → String → M S String
  login_service = AuthService.login p.runtime p.users p.hash p.compare p.sign

  abbrev pub register_service : String → String → String → M S User
  register_service = AuthService.register p.runtime p.users p.hash p.compare p.sign

  abbrev route : Method → String → Protection → Handler S → Route S
  route m path protection h = record {
    method = m;
    pattern = path;
    protection = protection;
    handler = h;
  }

  unfoldable pub public_routes : List (Route S)
  public_routes =
      route get "/healthz" open_to_all (Health.live p.ping)
      ∷ route get "/readyz" open_to_all (Health.ready p.ping)
      ∷ route get "/health" open_to_all (Health.live p.ping)
      ∷ route any_method "/static/*" open_to_all p.static
      ∷ route get "/login" open_to_all (Session.show_login login_service)
      ∷ route post "/login" open_to_all (Session.do_login login_service)
      ∷ route post "/logout" open_to_all (Session.logout login_service)
      ∷ []

  abbrev dashboard_page :
      (Runtime S
        → JobRepository S
        → ChannelRepository S
        → ExecutionRepository S
        → NotificationRepository S
        → CronParser
        → (String → Bool)
        → Handler S)
      → Handler S
  dashboard_page h = h p.runtime p.jobs p.channels p.executions p.notifications p.parse p.valid_json

  unfoldable pub dashboard_routes : List (Route S)
  dashboard_routes =
      route get "/" by_cookie (dashboard_page Dashboard.index)
      ∷ route get "/jobs" by_cookie (dashboard_page Dashboard.jobs_page)
      ∷ route get "/jobs/{id}" by_cookie (dashboard_page Dashboard.job_detail_page)
      ∷ route get "/channels" by_cookie (dashboard_page Dashboard.channels_page)
      ∷ route get "/dashboard/partials/recent-executions" by_cookie
          (dashboard_page Dashboard.recent_executions_partial)
      ∷ route post "/dashboard/jobs" by_cookie (dashboard_page Dashboard.create_job)
      ∷ route post "/dashboard/jobs/{id}/run" by_cookie (dashboard_page Dashboard.run_job)
      ∷ route post "/dashboard/jobs/{id}/pause" by_cookie (dashboard_page Dashboard.pause_job)
      ∷ route post "/dashboard/jobs/{id}/resume" by_cookie (dashboard_page Dashboard.resume_job)
      ∷ route post "/dashboard/jobs/{id}/delete" by_cookie (dashboard_page Dashboard.delete_job)
      ∷ route post "/dashboard/channels" by_cookie (dashboard_page Dashboard.create_channel)
      ∷ route post "/dashboard/channels/{id}/toggle" by_cookie
          (dashboard_page Dashboard.toggle_channel)
      ∷ route post "/dashboard/channels/{id}/delete" by_cookie
          (dashboard_page Dashboard.delete_channel)
      ∷ []

  unfoldable pub auth_routes : List (Route S)
  auth_routes =
      route post "/api/v1/auth/register" open_to_all
        (Auth.register_user register_service p.decode_register)
      ∷ route post "/api/v1/auth/login" open_to_all (Auth.login_user login_service p.decode_login)
      ∷ []

  unfoldable pub job_routes : List (Route S)
  job_routes =
      route get "/api/v1/jobs/" by_bearer (Job.list p.runtime p.jobs p.parse)
      ∷ route post "/api/v1/jobs/" by_bearer (Job.create p.runtime p.jobs p.parse p.decode_job)
      ∷ route get "/api/v1/jobs/{id}" by_bearer (Job.get p.runtime p.jobs p.parse)
      ∷ route put "/api/v1/jobs/{id}" by_bearer
          (Job.update p.runtime p.jobs p.parse p.decode_job_update)
      ∷ route delete "/api/v1/jobs/{id}" by_bearer (Job.delete p.runtime p.jobs p.parse)
      ∷ route post "/api/v1/jobs/{id}/run" by_bearer (Job.trigger_run p.runtime p.jobs p.parse)
      ∷ route post "/api/v1/jobs/{id}/pause" by_bearer (Job.pause p.runtime p.jobs p.parse)
      ∷ route post "/api/v1/jobs/{id}/resume" by_bearer (Job.resume p.runtime p.jobs p.parse)
      ∷ route get "/api/v1/jobs/{id}/executions" by_bearer (Execution.list_by_job p.executions)
      ∷ []

  unfoldable pub channel_routes : List (Route S)
  channel_routes =
      route get "/api/v1/channels/" by_bearer (Channel.list p.runtime p.channels)
      ∷ route post "/api/v1/channels/" by_bearer
          (Channel.create p.runtime p.channels p.decode_channel)
      ∷ route get "/api/v1/channels/{id}" by_bearer (Channel.get p.runtime p.channels)
      ∷ route put "/api/v1/channels/{id}" by_bearer
          (Channel.update p.runtime p.channels p.decode_channel_update)
      ∷ route delete "/api/v1/channels/{id}" by_bearer (Channel.delete p.runtime p.channels)
      ∷ []

  unfoldable pub run_routes : List (Route S)
  run_routes =
      route get "/api/v1/executions/recent" by_bearer (Execution.list_recent p.executions)
      ∷ route get "/api/v1/executions/{id}" by_bearer (Execution.get p.executions)
      ∷ route get "/api/v1/executions/{id}/notifications" by_bearer
          (Notification.list_by_execution p.notifications)
      ∷ route get "/api/v1/notifications/recent" by_bearer
          (Notification.list_recent p.notifications)
      ∷ []

  unfoldable pub routes : List (Route S)
  unfolding public_routes dashboard_routes auth_routes job_routes channel_routes run_routes
  routes =
      public_routes ++ dashboard_routes ++ auth_routes ++ job_routes ++ channel_routes ++ run_routes

  -- A handler behind its protection.
  unfoldable pub protect : Protection → Handler S → Handler S
  unfolding auth_middleware cookie_auth_middleware
  protect open_to_all h = h
  protect by_cookie h = cookie_auth_middleware p.verify h
  protect by_bearer h = auth_middleware p.verify h

  unfoldable pub serve : Route S → Handler S
  unfolding protect
  serve r = protect r.protection r.handler
