-- ===== src/Handler/Guard.antt =====
-- The two guards: AuthMiddleware and UserIDFromContext of internal/handler/middleware.go, and
-- CookieAuthMiddleware of session.go. `verify` is jwt.Parse with the function that it asks for the
-- key: the claim `sub` of a valid token's claims, if it is a text.
pub mod Laws
use signal_flow.Base.{
  String, Option, none, some, Result, ok, err, Error, other, if◌then◌else◌, ◌==◌,
}
use signal_flow.Base.Text.{split_pair}
use signal_flow.Handler.Http.{Request, Response, Handler, respond_error, redirect}

-- jwt.ErrSignatureInvalid.
abbrev pub signature_invalid : Error
signature_invalid = record { kind = other; text = "signature is invalid" }

-- The method in a token's header, of which the code tells one family from the others.
pub data SigningMethod : Type 0 where
  hmac other_method : SigningMethod

-- The function handed to jwt.Parse: the secret, for a token signed with an HMAC only.
abbrev pub key_for : String → SigningMethod → Result String
key_for secret hmac = ok secret
key_for secret other_method = err signature_invalid

-- What jwt.Parse and the assertions on its claims give, in the order of the code's tests.
pub data Verified : Type 0 where
  invalid_token invalid_claims invalid_subject : Verified
  subject : String → Verified

-- The request with the user in its context.
abbrev pub with_user : String → Request → Request
with_user id r = record r { user = some id }

-- jwt.Parse, which asks for the key of a token's method.
abbrev pub Parser : Type 0 → Type 0
Parser S = (SigningMethod → Result String) → String → S → Verified × S

-- The verification of the two guards.
abbrev pub verify_with : {S : Type 0} → Parser S → String → String → S → Verified × S
verify_with parse_token secret = parse_token (key_for secret)

module _ {S : Type 0} (verify : String → S → Verified × S) (next : Handler S) where
  abbrev pub bearer_result : Request → Verified × S → Response × S
  bearer_result r (invalid_token, s) = (respond_error 401 "invalid token", s)
  bearer_result r (invalid_claims, s) = (respond_error 401 "invalid token claims", s)
  bearer_result r (invalid_subject, s) = (respond_error 401 "invalid token subject", s)
  bearer_result r (subject id, s) = next (with_user id r) s

  -- The two parts of the header, if it has two.
  abbrev pub bearer_parts : Request → Option (String × String) → S → Response × S
  bearer_parts r none s = (respond_error 401 "invalid authorization header", s)
  bearer_parts r (some (scheme, credentials)) s =
      if scheme == "Bearer"
      then bearer_result r (verify credentials s)
      else (respond_error 401 "invalid authorization header", s)

  unfoldable pub auth_middleware : Handler S
  unfolding split_pair
  auth_middleware r s =
      if r.authorization == ""
      then (respond_error 401 "missing authorization header", s)
      else bearer_parts r (split_pair b' ' r.authorization) s

  abbrev pub cookie_result : Request → Verified × S → Response × S
  cookie_result r (invalid_token, s) = (redirect "/login", s)
  cookie_result r (invalid_claims, s) = (redirect "/login", s)
  cookie_result r (invalid_subject, s) = (redirect "/login", s)
  cookie_result r (subject id, s) = next (with_user id r) s

  abbrev pub cookie_value : Request → Option String → S → Response × S
  cookie_value r none s = (redirect "/login", s)
  cookie_value r (some value) s = cookie_result r (verify value s)

  unfoldable pub cookie_auth_middleware : Handler S
  cookie_auth_middleware r s = cookie_value r r.cookie s
