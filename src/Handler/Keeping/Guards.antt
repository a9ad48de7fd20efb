-- ===== src/Handler/Keeping/Guards.antt =====
-- What a handler and the verification of tokens keep, the handler behind a guard keeps.
use signal_flow.Base.{String, Option, none, some, Bool-cases, inl, inr, ◌==◌, if◌then◌else◌}
use signal_flow.Base.Text.{split_pair}
use signal_flow.Base.Keeping.{Keeps}
use signal_flow.Handler.Http.{Request, Handler}
use signal_flow.Handler.Guard.{
  Verified, invalid_token, invalid_claims, invalid_subject, subject, auth_middleware, bearer_parts,
  bearer_result, cookie_auth_middleware, cookie_value, cookie_result,
}
use signal_flow.Handler.Keeping.{HandlerKeeps}

module _ {S : Type 0} (K : S → Type 0) where
  module _ (verify : String → S → Verified × S) (keeps : (token : String) → Keeps K (verify token))
      (next : Handler S) (inner : HandlerKeeps K next) where
    bearer_result-keeps :
        (r : Request) (out : Verified × S) → K out.1 → K (bearer_result verify next r out).1
    bearer_result-keeps r (invalid_token, s) h = h
    bearer_result-keeps r (invalid_claims, s) h = h
    bearer_result-keeps r (invalid_subject, s) h = h
    bearer_result-keeps r (subject id, s) h = inner _ s h

    bearer_parts-keeps :
        (r : Request) (parts : Option (String × String))
        → Keeps K (bearer_parts verify next r parts)
    bearer_parts-keeps r none s k = k
    bearer_parts-keeps r (some (scheme, token)) s k = elim (Bool-cases (scheme == "Bearer")) [
      | inl e ↦ rw (e, if◌then◌else◌) (bearer_result-keeps r (verify token s) (keeps token s k))
      | inr e ↦ rw (e, if◌then◌else◌) k
    ]

    pub auth_middleware-keeps : HandlerKeeps K (auth_middleware verify next)
    unfolding auth_middleware
    auth_middleware-keeps r s k = elim (Bool-cases (r.authorization == "")) [
      | inl e ↦ rw (e, if◌then◌else◌) k
      | inr e ↦ rw (e, if◌then◌else◌) (bearer_parts-keeps r (split_pair b' ' r.authorization) s k)
    ]

    cookie_result-keeps :
        (r : Request) (out : Verified × S) → K out.1 → K (cookie_result verify next r out).1
    cookie_result-keeps r (invalid_token, s) h = h
    cookie_result-keeps r (invalid_claims, s) h = h
    cookie_result-keeps r (invalid_subject, s) h = h
    cookie_result-keeps r (subject id, s) h = inner _ s h

    cookie_value-keeps :
        (r : Request) (value : Option String) → Keeps K (cookie_value verify next r value)
    cookie_value-keeps r none s k = k
    cookie_value-keeps r (some token) s k = cookie_result-keeps r (verify token s) (keeps token s k)

    pub cookie_auth_middleware-keeps : HandlerKeeps K (cookie_auth_middleware verify next)
    unfolding cookie_auth_middleware
    cookie_auth_middleware-keeps r = cookie_value-keeps r r.cookie
