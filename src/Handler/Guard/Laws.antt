-- ===== src/Handler/Guard/Laws.antt =====
-- Who gets behind a guard.
use signal_flow.Base.{
  String, Option, none, some, ◌≡◌, ◌≢◌, refl, sym, ap, ◌∙◌, ◌⊎◌, inl, inr, Bool-cases,
  if◌then◌else◌, ◌==◌, eq_iff,
}
use signal_flow.Base.Text.{split_pair}
use signal_flow.Handler.Http.{Request, Response, Handler}
use signal_flow.Handler.Guard.{
  Verified, invalid_token, invalid_claims, invalid_subject, subject, with_user, auth_middleware,
  cookie_auth_middleware, bearer_result, bearer_parts, cookie_result, cookie_value,
}

abbrev pub bearer_of : Option (String × String) → Option String
bearer_of none = none
bearer_of (some (scheme, credentials)) = if scheme == "Bearer" then some credentials else none

-- The credentials behind `Bearer ` in the header.
abbrev pub bearer_credentials : Request → Option String
bearer_credentials r = bearer_of (split_pair b' ' r.authorization)

abbrev pub IsUnauthorized : Response → Type 0
IsUnauthorized response = response.status ≡ 401

abbrev pub IsSentToLogin : Response → Type 0
IsSentToLogin response = (response.status ≡ 303) × (response.location ≡ some "/login")

module _ {S : Type 0} (verify : String → S → Verified × S) where
  -- The credentials are those of this user.
  abbrev pub Admitted : Option String → S → String → S → Type 0
  Admitted none s id t = ⊥
  Admitted (some c) s id t = verify c s ≡ (subject id, t)

  -- There are no credentials, or they are no user's.
  abbrev pub Denied : Option String → S → S → Type 0
  Denied none s t = t ≡ s
  Denied (some c) s t = ((id : String) → (verify c s).0 ≢ subject id) × (t ≡ (verify c s).1)

  -- The handler ran, as the user of the credentials; or it did not, the answer is a refusal, and
  -- nothing but the verification touched the state.
  abbrev pub Guarded :
      (Response → Type 0) → Option String → Handler S → Request → S → Response × S → Type 0
  Guarded Refusal credentials next r s out =
      ((id : String) × (t : S) × Admitted credentials s id t × (out ≡ next (with_user id r) t))
      ⊎ (Refusal out.0 × Denied credentials s out.1)

  not_subject :
      {c : String} {s t : S} {v : Verified}
      → verify c s ≡ (v, t)
      → ((id : String) → v ≢ subject id)
      → Denied (some c) s t
  not_subject e h = (
    (λ id same. h id (sym (ap (λ (p : Verified × S). p.0) e) ∙ same)),
    sym (ap (λ (p : Verified × S). p.1) e),
  )

  module _ (next : Handler S) (r : Request) where
    bearer_result-Guarded :
        (c : String) (s : S) (v : Verified × S)
        → verify c s ≡ v
        → Guarded IsUnauthorized (some c) next r s (bearer_result verify next r v)
    bearer_result-Guarded c s (invalid_token, t) e = inr (refl, not_subject e (λ id same. cc))
    bearer_result-Guarded c s (invalid_claims, t) e = inr (refl, not_subject e (λ id same. cc))
    bearer_result-Guarded c s (invalid_subject, t) e = inr (refl, not_subject e (λ id same. cc))
    bearer_result-Guarded c s (subject id, t) e = inl (id, t, e, refl)

    bearer_parts-Guarded :
        (parts : Option (String × String)) (s : S)
        → Guarded IsUnauthorized (bearer_of parts) next r s (bearer_parts verify next r parts s)
    bearer_parts-Guarded none s = inr (refl, refl)
    bearer_parts-Guarded (some (scheme, c)) s = elim (Bool-cases (scheme == "Bearer")) [
      | inl e ↦ rw (e, if◌then◌else◌) (bearer_result-Guarded c s (verify c s) refl)
      | inr e ↦ rw (e, if◌then◌else◌) (inr (refl, refl))
    ]

    no_parts : r.authorization ≡ "" → bearer_credentials r ≡ none
    unfolding split_pair
    no_parts e = ap (λ text. bearer_of (split_pair b' ' text)) e

    pub auth_middleware-Guarded :
        (s : S)
        → Guarded IsUnauthorized (bearer_credentials r) next r s (auth_middleware verify next r s)
    unfolding auth_middleware
    auth_middleware-Guarded s = elim (Bool-cases (r.authorization == "")) [
      | inl e ↦ rw (e, if◌then◌else◌, no_parts ((eq_iff r.authorization "").0 e)) (inr (refl, refl))
      | inr e ↦ rw (e, if◌then◌else◌) (bearer_parts-Guarded (split_pair b' ' r.authorization) s)
    ]

    cookie_result-Guarded :
        (c : String) (s : S) (v : Verified × S)
        → verify c s ≡ v
        → Guarded IsSentToLogin (some c) next r s (cookie_result verify next r v)
    cookie_result-Guarded c s (invalid_token, t) e =
        inr ((refl, refl), not_subject e (λ id same. cc))
    cookie_result-Guarded c s (invalid_claims, t) e =
        inr ((refl, refl), not_subject e (λ id same. cc))
    cookie_result-Guarded c s (invalid_subject, t) e =
        inr ((refl, refl), not_subject e (λ id same. cc))
    cookie_result-Guarded c s (subject id, t) e = inl (id, t, e, refl)

    cookie_value-Guarded :
        (cookie : Option String) (s : S)
        → Guarded IsSentToLogin cookie next r s (cookie_value verify next r cookie s)
    cookie_value-Guarded none s = inr ((refl, refl), refl)
    cookie_value-Guarded (some c) s = cookie_result-Guarded c s (verify c s) refl

    pub cookie_auth_middleware-Guarded :
        (s : S) → Guarded IsSentToLogin r.cookie next r s (cookie_auth_middleware verify next r s)
    unfolding cookie_auth_middleware
    cookie_auth_middleware-Guarded s = cookie_value-Guarded r.cookie s
