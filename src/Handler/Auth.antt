-- ===== src/Handler/Auth.antt =====
-- internal/handler/auth.go. `register` and `login` are the service's.
use signal_flow.Base.{String, Option, M}
use signal_flow.Domain.{User}
use signal_flow.Handler.Http.{
  Handler, respond_json, user_data, token_data, answer, with_body, RegisterRequest, LoginRequest,
}

module _ {S : Type 0} (register : String → String → String → M S User)
    (decode : String → Option RegisterRequest) where
  unfoldable pub register_user : Handler S
  unfolding answer with_body
  register_user r = with_body (decode r.body) λ req s.
      answer (λ user. respond_json 201 (user_data user))
        (register req.email req.password req.name s)

module _ {S : Type 0} (login : String → String → M S String)
    (decode : String → Option LoginRequest) where
  unfoldable pub login_user : Handler S
  unfolding answer with_body
  login_user r =
      with_body (decode r.body)
        λ req s. answer (λ t. respond_json 200 (token_data t)) (login req.email req.password s)
