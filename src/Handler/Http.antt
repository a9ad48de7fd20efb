-- ===== src/Handler/Http.antt =====
-- Requests, responses and internal/handler/response.go. What encoding/json and html/template
-- print of a value is left out: a response has the value. The decoders of request bodies and the
-- token library are parameters.
use signal_flow.Base.{
  ℕ, ℤ, String, Bool, Option, none, some, List, Result, ok, err, Error, ErrorKind, not_found,
  invalid_input, invalid_credentials, conflict, other,
}
use signal_flow.Domain.{
  User, Job, Channel, Execution, Notification, JobType, ChannelType, RawMessage, StringSlice,
}
use signal_flow.Service.Dashboard.{DashboardStats}

-- A request behind the router: the user that a guard has put into its context, the parameter id
-- of its path, the values of its query, its body, its Authorization header (empty if there is
-- none), its session cookie, and the values of its form, if that parses.
pub record Request : Type 0 where
  pub user : Option String
  pub id : String
  pub query : String → String
  pub body : String
  pub authorization : String
  pub cookie : Option String
  pub form : Result (String → String)

-- What a page is given under a name.
pub data Value : Type 0 where
  text : String → Value
  stats : DashboardStats → Value
  jobs : List Job → Value
  job : Job → Value
  executions : List Execution → Value
  channels : List Channel → Value

abbrev pub PageData : Type 0
PageData = List (String × Value)

pub data Payload : Type 0 where
  empty : Payload
  plain : String → Payload
  error_text : String → Payload
  user_data : User → Payload
  token_data : String → Payload
  status_text : String → Payload
  job_data : Job → Payload
  job_list : List Job → ℕ → Payload
  channel_data : Channel → Payload
  channel_list : List Channel → Payload
  execution_data : Execution → Payload
  execution_page : List Execution → ℕ → Payload
  execution_list : List Execution → Payload
  notification_list : List Notification → Payload
  page : String → PageData → Payload
  rows : List Execution → Payload

-- The session cookie that a response sets: its value and its age.
pub record Cookie : Type 0 where
  pub value : String
  pub max_age : ℤ

pub record Response : Type 0 where
  pub status : ℕ
  pub payload : Payload
  pub location : Option String
  pub set_cookie : Option Cookie

abbrev pub Handler : Type 0 → Type 0
Handler S = Request → S → Response × S

abbrev pub respond_json : ℕ → Payload → Response
respond_json status payload = record {
  status = status;
  payload = payload;
  location = none;
  set_cookie = none;
}

abbrev pub respond_error : ℕ → String → Response
respond_error status msg = respond_json status (error_text msg)

-- http.Redirect with StatusSeeOther.
abbrev pub redirect : String → Response
redirect to = record { status = 303; payload = empty; location = some to; set_cookie = none }

-- The `switch` on the sentinel that the error wraps.
abbrev error_response : ErrorKind → String → Response
error_response not_found msg = respond_error 404 msg
error_response invalid_input msg = respond_error 400 msg
error_response invalid_credentials msg = respond_error 401 msg
error_response conflict msg = respond_error 409 msg
error_response other msg = respond_error 500 "internal error"

unfoldable pub write_service_error : Error → Response
write_service_error e = error_response e.kind e.text

-- UserIDFromContext: empty where no guard has put a user there.
abbrev pub user_of : Option String → String
user_of none = ""
user_of (some id) = id

abbrev pub user_id : Request → String
user_id r = user_of r.user

module _ {S A : Type 0} where
  -- A call of a service, whose error is written and whose value is answered.
  unfoldable pub answer : (A → Response) → Result A × S → Response × S
  unfolding write_service_error
  answer f (ok a, s) = (f a, s)
  answer f (err e, s) = (write_service_error e, s)

  -- The body of a request, decoded, before the call.
  unfoldable pub with_body : Option A → (A → S → Response × S) → S → Response × S
  with_body none k s = (respond_error 400 "invalid JSON", s)
  with_body (some a) k s = k a s

pub record RegisterRequest : Type 0 where
  pub email : String
  pub password : String
  pub name : String

pub record LoginRequest : Type 0 where
  pub email : String
  pub password : String

pub record CreateJobRequest : Type 0 where
  pub name : String
  pub type : JobType
  pub schedule : String
  pub config : RawMessage
  pub notify_channels : StringSlice
  pub condition : RawMessage
  pub timeout_seconds : ℤ

pub record CreateChannelRequest : Type 0 where
  pub name : String
  pub type : ChannelType
  pub config : RawMessage
  pub enabled : Option Bool
