-- ===== src/Tests/Web.antt =====
-- The routes, the sessions and the forms, on the same libraries and stores.
use signal_flow.Base.{
  pos, ◌≡◌, refl, String, true, false, none, some, [], ◌∷◌, Result, ok, In, inl, inr, ◌⊎◌, All,
  List, ◌==◌, if◌then◌else◌,
}
use signal_flow.Store.{Store}
use signal_flow.Store.Statement.{store_runtime}
use signal_flow.Repository.Adapters.{
  job_repository, channel_repository, execution_repository, notification_repository,
}
use signal_flow.Service.Auth.Laws.{Admits}
use signal_flow.Handler.Http.{Request, Response, LoginRequest, respond_json, token_data}
use signal_flow.Handler.Guard.{verify_with, with_user}
use signal_flow.Handler.Guard.Laws.{Guarded}
use signal_flow.Handler.Auth.{login_user}
use signal_flow.Handler.Job
use signal_flow.Handler.Session.{do_login}
use signal_flow.Handler.Session.Laws.{
  AcceptsSigned, CookieAdmits, BearerAdmits, session_roundtrip, bearer_roundtrip, store_login,
}
use signal_flow.Handler.Dashboard
use signal_flow.Handler.Dashboard.Form.{parse_csv}
use signal_flow.Handler.Dashboard.Form.Laws.{parse_csv-join}
use signal_flow.Handler.Dashboard.Laws.{
  IsRefused, Switched, blank_channels-IsRefused, toggle_switches,
}
use signal_flow.Handler.Router.{Parts, Route, by_cookie, by_bearer, get, routes, serve}
use signal_flow.Handler.Router.Laws.{IsRefusal, credentials_for, serve-Guarded}
use signal_flow.Handler.Router.Ownership.{handlers_ignore_user}
use signal_flow.App.{new_parts}
use signal_flow.Tests.Data.{store, ann, hook, every_hour}
use signal_flow.Tests.Program.{lib}

abbrev pub parts : Parts Store
parts = new_parts lib "secret" "pool"

-- Every field of the form holds this.
abbrev filled : String → String → String
filled text field = text

abbrev pub request : Request
request = record {
  user = none;
  id = "backup";
  query = λ k. "";
  body = "ann@example.org";
  authorization = "Bearer ann";
  cookie = some "ann";
  form = ok (filled "ann@example.org");
}

abbrev jobs_route : Route Store
jobs_route = record {
  method = get;
  pattern = "/jobs";
  protection = by_cookie;
  handler =
      Dashboard.jobs_page store_runtime job_repository channel_repository execution_repository
        notification_repository every_hour lib.valid_json;
}

jobs_route_listed : In jobs_route (routes parts)
unfolding routes
jobs_route_listed = inr (inr (inr (inr (inr (inr (inr (inr (inl refl))))))))

serve-Guarded_example :
    Guarded parts.verify
      (IsRefusal by_cookie)
      (credentials_for by_cookie request)
      jobs_route.handler
      request
      store
      (serve parts jobs_route request store)
serve-Guarded_example = serve-Guarded parts jobs_route request store jobs_route_listed refl

abbrev job_route : Route Store
job_route = record {
  method = get;
  pattern = "/api/v1/jobs/{id}";
  protection = by_bearer;
  handler = Job.get store_runtime job_repository every_hour;
}

job_route_listed : In job_route (routes parts)
unfolding routes
job_route_listed = inr (
    inr (
      inr (
        inr (
          inr (
            inr (
              inr (
                inr (
                  inr (
                    inr (
                      inr (
                        inr (
                          inr (
                            inr (
                              inr (
                                inr (
                                  inr (
                                    inr (
                                      inr (inr (inr (inr (inr (inr (inl refl))))))))))))))))))))))))

handlers_ignore_user_example :
    job_route.handler (with_user "ann" request) store
    ≡ job_route.handler (with_user "bob" request) store
handlers_ignore_user_example =
    handlers_ignore_user parts job_route "ann" "bob" request store job_route_listed refl

accepts_signed :
    AcceptsSigned lib.hash lib.compare (lib.sign "secret") (verify_with lib.parse_token "secret")
accepts_signed c token u signed early = cc

-- The login form of the user.
abbrev login_field : String → String
login_field field = if field == "email" then "ann@example.org" else ""

abbrev login_request : Request
login_request = record request { form = ok login_field }

Admits-ann : Admits lib.hash lib.compare (lib.sign "secret") "ann@example.org" "" store ann "ann"
Admits-ann = record { listed = refl; fits = refl; signed = refl }

abbrev opened : Response × Store
opened =
    do_login
      (store_login lib.hash lib.compare (lib.sign "secret") (verify_with lib.parse_token "secret"))
      login_request store

session_roundtrip_example :
    (opened.0.set_cookie ≡ some (record { value = "ann"; max_age = pos 86_400 }))
    × (opened.0.location ≡ some "/")
    × (opened.1.db ≡ store.db)
    × CookieAdmits lib.hash lib.compare
        (lib.sign "secret")
        (verify_with lib.parse_token "secret")
        "ann"
        store
        ann
session_roundtrip_example =
    session_roundtrip lib.hash lib.compare (lib.sign "secret")
      (verify_with lib.parse_token "secret") accepts_signed login_request login_field store ann
      "ann" refl refl Admits-ann

abbrev asked : LoginRequest
asked = record { email = "ann@example.org"; password = "" }

abbrev issued : Response × Store
issued =
    login_user
      (store_login lib.hash lib.compare (lib.sign "secret") (verify_with lib.parse_token "secret"))
      lib.decode_login request store

bearer_roundtrip_example :
    (issued.0 ≡ respond_json 200 (token_data "ann"))
    × (issued.1.db ≡ store.db)
    × BearerAdmits lib.hash lib.compare
        (lib.sign "secret")
        (verify_with lib.parse_token "secret")
        "ann"
        store
        ann
bearer_roundtrip_example =
    bearer_roundtrip lib.hash lib.compare (lib.sign "secret") (verify_with lib.parse_token "secret")
      accepts_signed lib.decode_login request asked store ann "ann" refl refl Admits-ann

abbrev blank_request : Request
blank_request = record request { form = ok (filled "  ") }

blank_is_blank : signal_flow.Base.Text.trim_space "  " ≡ ""
unfolding signal_flow.Base.Text.trim_space
blank_is_blank = refl

blank_channels-IsRefused_example : IsRefused every_hour lib.valid_json store (
    Dashboard.create_job store_runtime job_repository channel_repository execution_repository
      notification_repository every_hour lib.valid_json blank_request store)
blank_channels-IsRefused_example =
    blank_channels-IsRefused every_hour lib.valid_json blank_request (filled "  ") store refl
      blank_is_blank

abbrev hook_request : Request
hook_request = record request { id = "hook" }

abbrev switched : Response × Store
switched =
    (Dashboard.toggle_channel store_runtime job_repository channel_repository execution_repository
      notification_repository every_hour lib.valid_json hook_request store)

toggle_switches_example :
    Switched every_hour lib.valid_json "hook" store switched.1
    × (switched.0.location ≡ some "/channels")
toggle_switches_example =
    toggle_switches every_hour lib.valid_json hook_request store hook refl refl refl

parse_csv-join_example : parse_csv "hook,mail" ≡ some ("hook" ∷ "mail" ∷ [])
parse_csv-join_example = parse_csv-join "hook" ("mail" ∷ []) (
  (tt, (refl, refl), (refl, (refl, (refl, (refl, tt))))),
  ((tt, (refl, refl), (refl, (refl, (refl, (refl, tt))))), tt),
)
