-- ===== src/Handler/Router/Laws.antt =====
-- Which routes are guarded, and the way from a login to the pages behind it.
use signal_flow.Base.{
  arith, String, Option, none, Bool, true, false, ◌||◌, ◌&&◌, ◌≡◌, refl, ap, ◌∙◌, inl, inr, ◌==◌,
  List, [], ◌∷◌, any, In,
}
use signal_flow.Handler.Http.{Request, Response, Handler}
use signal_flow.Handler.Guard.Laws.{
  bearer_credentials, Guarded, IsUnauthorized, IsSentToLogin, auth_middleware-Guarded,
  cookie_auth_middleware-Guarded,
}
use signal_flow.Handler.Router.{
  Parts, Route, Protection, open_to_all, by_cookie, by_bearer, routes, protect, serve,
}

-- The patterns of the routes that need no credentials.
abbrev pub open_patterns : List String
open_patterns =
    "/healthz" ∷ "/readyz" ∷ "/health" ∷ "/static/*" ∷ "/login" ∷ "/logout"
    ∷ "/api/v1/auth/register" ∷ "/api/v1/auth/login" ∷ []

abbrev pub is_open_pattern : String → Bool
is_open_pattern pattern = any (λ o. o == pattern) open_patterns

abbrev is_guarded : Protection → Bool
is_guarded open_to_all = false
is_guarded _ = true

abbrev pub credentials_for : Protection → Request → Option String
credentials_for open_to_all r = none
credentials_for by_cookie r = r.cookie
credentials_for by_bearer r = bearer_credentials r

abbrev pub IsRefusal : Protection → Response → Type 0
IsRefusal open_to_all response = ⊥
IsRefusal by_cookie response = IsSentToLogin response
IsRefusal by_bearer response = IsUnauthorized response

abbrev all_pass : {A : Type 0} → (A → Bool) → List A → Bool
all_pass p [] = true
all_pass p (x ∷ xs) = p x && all_pass p xs

of_all_pass :
    {A : Type 0} (p : A → Bool) (xs : List A) (a : A) → all_pass p xs ≡ true → In a xs → p a ≡ true
of_all_pass p [] a h m = elim m [ ]
of_all_pass p (x ∷ xs) a h (inl e) = ap p e ∙ ground arith
of_all_pass p (x ∷ xs) a h (inr m) = of_all_pass p xs a (ground arith) m

module _ {S : Type 0} (p : Parts S) where
  abbrev is_covered : Route S → Bool
  is_covered r = is_open_pattern r.pattern || is_guarded r.protection

  routes_are_covered : all_pass is_covered (routes p) ≡ true
  unfolding routes
  routes_are_covered = refl

  protect-Guarded :
      (protection : Protection) (h : Handler S) (req : Request) (s : S)
      → is_guarded protection ≡ true
      → Guarded p.verify
          (IsRefusal protection)
          (credentials_for protection req)
          h
          req
          s
          (protect p protection h req s)
  unfolding protect
  protect-Guarded open_to_all h req s e = cc
  protect-Guarded by_cookie h req s e = cookie_auth_middleware-Guarded p.verify h req s
  protect-Guarded by_bearer h req s e = auth_middleware-Guarded p.verify h req s

  -- Every route of the router but those of the eight open patterns runs its handler only for a
  -- request whose credentials (the session cookie for a page, the bearer token under /api/v1) the
  -- token library accepts, and runs it as the user that they name. Any other request is sent to the
  -- login page or answered with 401, and nothing but the verification touches the state.
  pub serve-Guarded :
      (route : Route S) (req : Request) (s : S)
      → In route (routes p)
      → is_open_pattern route.pattern ≡ false
      → Guarded p.verify
          (IsRefusal route.protection)
          (credentials_for route.protection req)
          route.handler
          req
          s
          (serve p route req s)
  unfolding serve
  serve-Guarded route req s listed closed =
      let covered : is_covered route ≡ true =
        of_all_pass is_covered (routes p) route routes_are_covered listed in
      protect-Guarded route.protection route.handler req s (ground (arith, closed, covered))
