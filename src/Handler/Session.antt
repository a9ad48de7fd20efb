-- ===== src/Handler/Session.antt =====
-- The pages of internal/handler/session.go. `login` is the service's.
pub mod Laws
use signal_flow.Base.{
  ℤ, pos, negsuc, String, Bool, true, false, Option, none, some, [], ◌∷◌, Result, ok, err, Error,
  ErrorKind, invalid_credentials, M, if◌then◌else◌, ◌==◌, ◌+++◌,
}
use signal_flow.Handler.Http.{Request, Response, Handler, Cookie, text, empty, page, redirect}

abbrev pub session_max_age : ℤ
session_max_age = pos 86_400

unfoldable pub render_login : String → String → Response
render_login email err_msg = record {
  status = if err_msg == "" then 200 else 401;
  payload = page "login" (("Email", text email) ∷ ("Error", text err_msg) ∷ []);
  location = none;
  set_cookie = none;
}

abbrev is_invalid_credentials : ErrorKind → Bool
is_invalid_credentials invalid_credentials = true
is_invalid_credentials _ = false

abbrev pub login_message : Error → String
login_message e =
    if is_invalid_credentials e.kind
    then "invalid email or password"
    else "login failed: " +++ e.text

abbrev pub session_cookie : String → ℤ → Cookie
session_cookie value max_age = record { value = value; max_age = max_age }

module _ {S : Type 0} (login : String → String → M S String) where
  unfoldable pub show_login : Handler S
  unfolding render_login
  show_login r s = (render_login "" "", s)

  abbrev pub login_result : String → Result String × S → Response × S
  login_result email (err e, s) = (render_login email (login_message e), s)
  login_result email (ok token, s) =
      (record (redirect "/") { set_cookie = some (session_cookie token session_max_age) }, s)

  abbrev pub login_form : Result (String → String) → S → Response × S
  login_form (err e) s = (render_login "" "invalid form data", s)
  login_form (ok value) s =
      login_result (value "email") (login (value "email") (value "password") s)

  unfoldable pub do_login : Handler S
  unfolding render_login
  do_login r s = login_form r.form s

  unfoldable pub logout : Handler S
  logout r s = (record (redirect "/login") { set_cookie = some (session_cookie "" (negsuc 0)) }, s)
