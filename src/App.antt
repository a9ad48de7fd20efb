-- ===== src/App.antt =====
-- New of internal/app/app.go: how the repositories, the services behind the routes, the notifiers,
-- the executors and the scheduler are put together; and Config of internal/config/config.go, whose
-- reading from the environment is a library's. `Libraries` are the calls that leave the repository.
pub mod Outside
pub mod Consistency
pub mod Laws
use signal_flow.Base.{ℤ, String, Bool, Option, some, List, [], ◌∷◌, Result, Error, M, pure, ◌>>=◌}
use signal_flow.Domain.{Bytes, RawMessage, job_type_http_check, job_type_command}
use signal_flow.Domain.Ports.{CronParser}
use signal_flow.Store.{Store}
use signal_flow.Store.Statement.{store_runtime}
use signal_flow.Repository.Adapters.{
  user_repository, job_repository, channel_repository, execution_repository,
  notification_repository,
}
use signal_flow.Database.{connect}
use signal_flow.Executor.{Context}
use signal_flow.Executor.Command.{CommandConfig, execute_command}
use signal_flow.Executor.HttpCheck.{HttpCheckConfig, execute_check}
use signal_flow.Notifier.Dispatch.{Registry, Sending, register, dispatch, send}
use signal_flow.Notifier.Clients.{
  Http, Mail, WebhookConfig, HookConfig, TelegramConfig, EmailConfig, webhook_notifier,
  slack_notifier, discord_notifier, telegram_notifier, email_notifier,
}
use signal_flow.Scheduler.Execute.{Executors}
use signal_flow.Scheduler.Run.{Scheduler}
use signal_flow.Service.Auth.{Claims}
use signal_flow.Service.Job.{UpdateJobInput}
use signal_flow.Service.Channel.{UpdateChannelInput}
use signal_flow.Handler.Http.{
  Handler, RegisterRequest, LoginRequest, CreateJobRequest, CreateChannelRequest,
}
use signal_flow.Handler.Guard.{Parser, verify_with}
use signal_flow.Handler.Router.{Parts, Route, routes}

pub record Config : Type 0 where
  pub listen_addr : String
  pub database_url : String
  pub jwt_secret : String
  pub log_format : String
  pub worker_count : ℤ

-- The JSON decoders of a configuration, a condition or a request; os/exec; net/http; net/smtp; the
-- cron parser; bcrypt; the token library, with the secret; pgx's pool; the file server.
pub record Libraries (Request Pool : Type 0) : Type 0 where
  pub new_pool : String → M Store Pool
  pub ping : Context → Pool → M Store (Unit {0})
  pub parse : CronParser
  pub condition_of : RawMessage → Result String
  pub command_config : RawMessage → Result CommandConfig
  pub check_config : RawMessage → Result HttpCheckConfig
  pub webhook_config : RawMessage → Result WebhookConfig
  pub hook_config : RawMessage → Result HookConfig
  pub telegram_config : RawMessage → Result TelegramConfig
  pub email_config : RawMessage → Result EmailConfig
  pub run_process : Context → String → String → M Store (Bytes × Option Error)
  pub check_request : String → Result Request
  pub http : Http Store Request
  pub send_mail : Context → Mail → M Store (Unit {0})
  pub hash : String → M Store String
  pub compare : String → String → Bool
  pub sign : String → Claims → Result String
  pub parse_token : Parser Store
  pub valid_json : String → Bool
  pub static : Handler Store
  pub decode_register : String → Option RegisterRequest
  pub decode_login : String → Option LoginRequest
  pub decode_job : String → Option CreateJobRequest
  pub decode_job_update : String → Option UpdateJobInput
  pub decode_channel : String → Option CreateChannelRequest
  pub decode_channel_update : String → Option UpdateChannelInput

pub record App (Pool : Type 0) : Type 0 where
  pub cfg : Config
  pub pool : Pool
  pub router : List (Route Store)
  pub scheduler : Scheduler Store

module _ {Request Pool : Type 0} (lib : Libraries Request Pool) where
  -- The five notifiers, registered one after the other.
  unfoldable pub notifiers : Registry Store
  unfolding register
  notifiers =
      register
        (email_notifier lib.http.show_int lib.http.show_duration lib.email_config lib.send_mail)
        (register (telegram_notifier lib.http lib.telegram_config) (
          register (discord_notifier lib.http lib.hook_config) (
            register (slack_notifier lib.http lib.hook_config)
              (register (webhook_notifier lib.http lib.webhook_config) []))))

  unfoldable pub executors : Executors Store
  executors =
      (
        job_type_http_check,
        execute_check lib.http.show_int lib.check_config lib.check_request lib.http.send,
      )
      ∷ (job_type_command, execute_command lib.command_config lib.run_process)
      ∷ []

  -- What a goroutine of the dispatcher does.
  unfoldable pub deliver : Sending → M Store (Unit {0})
  unfolding notifiers
  deliver x = send notification_repository notifiers x

  abbrev pub new_scheduler : ℤ → Scheduler Store
  new_scheduler workers = record {
    runtime = store_runtime;
    job_repo = job_repository;
    exec_repo = execution_repository;
    executors = executors;
    unmarshal = lib.condition_of;
    dispatch =
        some (
          dispatch store_runtime channel_repository notification_repository lib.http.show_duration);
    parse = lib.parse;
    workers = workers;
  }

  abbrev pub new_parts : String → Pool → Parts Store
  new_parts secret pool = record {
    runtime = store_runtime;
    users = user_repository;
    jobs = job_repository;
    channels = channel_repository;
    executions = execution_repository;
    notifications = notification_repository;
    parse = lib.parse;
    hash = lib.hash;
    compare = lib.compare;
    sign = lib.sign secret;
    verify = verify_with lib.parse_token secret;
    valid_json = lib.valid_json;
    ping = λ ctx. lib.ping ctx pool;
    static = lib.static;
    decode_register = lib.decode_register;
    decode_login = lib.decode_login;
    decode_job = lib.decode_job;
    decode_job_update = lib.decode_job_update;
    decode_channel = lib.decode_channel;
    decode_channel_update = lib.decode_channel_update;
  }

  unfoldable pub new_app : Config → M Store (App Pool)
  unfolding connect
  new_app cfg = do
    pool ← connect lib.new_pool (lib.ping []) cfg.database_url
    pure (record {
      cfg = cfg;
      pool = pool;
      router = routes (new_parts cfg.jwt_secret pool);
      scheduler = new_scheduler cfg.worker_count;
    })
