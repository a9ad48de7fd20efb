-- ===== src/Handler/Session/Laws.antt =====
-- From a login to the pages and the API behind it.
use signal_flow.Base.{
  pos, subst, ◌+◌, ◌/◌, ◌<◌, String, Option, some, [], Bool, false, ◌≡◌, refl, sym, ap, Result, ok,
  M, ◌==◌, ◌+++◌,
}
use signal_flow.Base.Text.{split_pair}
use signal_flow.Base.Text.Laws.{test_of_filled, IsFilled, then_text, append-then_text}
use signal_flow.Domain.{User, Time}
use signal_flow.Store.{Store, current}
use signal_flow.Store.Statement.{store_runtime}
use signal_flow.Repository.Adapters.{user_repository}
use signal_flow.Service.Auth as AuthService
use signal_flow.Service.Auth.{Claims, token_ttl}
use signal_flow.Service.Auth.Laws.{TokenOf, Admits, login-eq-ok}
use signal_flow.Handler.Http.{
  Request, Handler, LoginRequest, token_data, answer, with_body, respond_json,
}
use signal_flow.Handler.Guard.{
  Verified, subject, with_user, auth_middleware, cookie_auth_middleware,
}
use signal_flow.Handler.Auth.{login_user}
use signal_flow.Handler.Session.{do_login}

-- The second that a time is in, as the claim `exp` counts.
abbrev pub seconds : Time → Time
seconds t = t / 1_000_000_000

-- A text behind one that is not empty is not empty.
shown : (s t : String) → IsFilled (then_text s t) → (s +++ t == "") ≡ false
shown s t filled = test_of_filled _ (subst IsFilled (sym (append-then_text s t)) filled)

module _ (hash : String → M Store String) (compare : String → String → Bool)
    (sign : Claims → Result String) (verify : String → Store → Verified × Store) where
  -- jwt.Parse of a token that was signed with the same secret, before it expires.
  abbrev pub AcceptsSigned : Type 0
  AcceptsSigned =
      (c : Claims) (token : String) (u : Store)
      → sign c ≡ ok token
      → seconds (current u) < c.exp
      → verify token u ≡ (subject c.sub, u)

  abbrev pub store_login : String → String → M Store String
  store_login = AuthService.login store_runtime user_repository hash compare sign

  -- For a day, a request with this token as its cookie reaches the page as the user.
  abbrev pub CookieAdmits : String → Store → User → Type 0
  CookieAdmits token s user =
      (next : Handler Store) (q : Request) (u : Store)
      → q.cookie ≡ some token
      → seconds (current u) < seconds (current s + token_ttl)
      → cookie_auth_middleware verify next q u ≡ next (with_user user.id q) u

  abbrev pub BearerAdmits : String → Store → User → Type 0
  BearerAdmits token s user =
      (next : Handler Store) (q : Request) (u : Store)
      → q.authorization ≡ "Bearer " +++ token
      → seconds (current u) < seconds (current s + token_ttl)
      → auth_middleware verify next q u ≡ next (with_user user.id q) u

  token-CookieAdmits :
      (accepts : AcceptsSigned) (token : String) (s : Store) (user : User)
      → TokenOf hash compare sign (current s) user token
      → CookieAdmits token s user
  unfolding cookie_auth_middleware
  token-CookieAdmits accepts token s user signed next q u e early =
      rw (e, accepts _ token u signed early) refl

  bearer_header : (token : String) → split_pair b' ' ("Bearer " +++ token) ≡ some ("Bearer", token)
  unfolding split_pair
  bearer_header token = ap (split_pair b' ') (append-then_text "Bearer " token)

  token-BearerAdmits :
      (accepts : AcceptsSigned) (token : String) (s : Store) (user : User)
      → TokenOf hash compare sign (current s) user token
      → BearerAdmits token s user
  unfolding auth_middleware
  token-BearerAdmits accepts token s user signed next q u e early =
      rw (e, shown "Bearer " token tt, bearer_header token, accepts _ token u signed early) refl

  -- Posting the login form with the address and the password of a stored user, when no failure of
  -- the database is to come and the library signs the token, leads to the first page and sets the
  -- token as the cookie, to be kept for 86,400 seconds; for a day every page behind the guard is
  -- reached with that cookie as that user. No table changes. `accepts` is that the token library
  -- accepts what it signed, before it expires.
  pub session_roundtrip :
      (accepts : AcceptsSigned) (r : Request) (value : String → String) (s : Store) (user : User)
      (token : String)
      → r.form ≡ ok value
      → s.faults ≡ []
      → Admits hash compare sign (value "email") (value "password") s user token
      → let out = do_login store_login r s in
        (out.0.set_cookie ≡ some (record { value = token; max_age = pos 86_400 }))
        × (out.0.location ≡ some "/")
        × (out.1.db ≡ s.db)
        × CookieAdmits token s user
  unfolding do_login
  session_roundtrip accepts r value s user token filled calm admits =
      rw
        (
          filled,
          login-eq-ok hash compare sign (value "email") (value "password") s user token calm admits,
        )
        (refl, refl, refl, token-CookieAdmits accepts token s user admits.signed)

  -- The login of the API on a body with the address and the password of a stored user, when no
  -- failure of the database is to come and the library signs the token, answers 200 with the token;
  -- for a day, behind `Bearer ` in the header, it brings every request to the handler as that user.
  -- No table changes. `accepts` is that the token library accepts what it signed, before it expires.
  pub bearer_roundtrip :
      (accepts : AcceptsSigned) (decode : String → Option LoginRequest) (r : Request)
      (req : LoginRequest) (s : Store) (user : User) (token : String)
      → decode r.body ≡ some req
      → s.faults ≡ []
      → Admits hash compare sign req.email req.password s user token
      → let out = login_user store_login decode r s in
        (out.0 ≡ respond_json 200 (token_data token))
        × (out.1.db ≡ s.db)
        × BearerAdmits token s user
  unfolding login_user with_body answer
  bearer_roundtrip accepts decode r req s user token decodes calm admits =
      rw (decodes, login-eq-ok hash compare sign req.email req.password s user token calm admits)
        (refl, refl, token-BearerAdmits accepts token s user admits.signed)
