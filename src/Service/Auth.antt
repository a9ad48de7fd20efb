-- ===== src/Service/Auth.antt =====
-- internal/service/auth.go. bcrypt and the JWT library are parameters: `hash` and `compare` are
-- GenerateFromPassword and CompareHashAndPassword, `sign` the signing of a token's claims.
pub mod Laws
pub mod Return
use signal_flow.Base.{
  ℕ, ◌+◌, String, Bool, ◌||◌, Result, ok, err, Error, invalid_input, invalid_credentials, conflict,
  M, pure, throw, try, lift, map_err, ◌>>=◌, ◌>>◌, if◌then◌else◌, ◌==◌, ◌/◌,
}
use signal_flow.Domain.{User}
use signal_flow.Domain.Ports.{UserRepository, Runtime}
use signal_flow.Service.Job.{wrap_error}

-- The claims `sub` and `exp`, the second in seconds.
pub record Claims : Type 0 where
  pub sub : String
  pub exp : ℕ

abbrev pub token_ttl : ℕ
token_ttl = 86_400_000_000_000

abbrev pub credentials_error : Error
credentials_error = record { kind = invalid_credentials; text = "invalid credentials" }

abbrev pub new_user : String → String → String → String → User
new_user id email hashed name = record {
  id = id;
  email = email;
  password_hash = hashed;
  name = name;
  created_at = 0;
  updated_at = 0;
}

module _ {S : Type 0} (runtime : Runtime S) (repo : UserRepository S) (hash : String → M S String)
    (compare : String → String → Bool) (sign : Claims → Result String) where
  -- The part of Register behind its guard.
  unfoldable pub store_user : String → String → String → M S User
  store_user email password name = do
    hashed ← hash password
    id ← runtime.new_uuid
    map_err (wrap_error conflict "conflict") (repo.create (new_user id email hashed name))
    pure (new_user id email hashed name)

  unfoldable pub register : String → String → String → M S User
  unfolding store_user
  register email password name =
      if email == "" || password == ""
      then throw
          (record { kind = invalid_input; text = "invalid input: email and password required" })
      else store_user email password name

  -- The token for a user whose password fits.
  unfoldable pub issue_token : User → M S String
  issue_token user = do
    now ← runtime.now
    lift (sign (record { sub = user.id; exp = (now + token_ttl) / 1_000_000_000 }))

  unfoldable pub check_password : String → User → M S String
  unfolding issue_token
  check_password password user =
      if compare user.password_hash password then issue_token user else throw credentials_error

  abbrev pub found_user : String → Result User → M S String
  found_user password (err _) = throw credentials_error
  found_user password (ok user) = check_password password user

  unfoldable pub login : String → String → M S String
  login email password = do r ← try (repo.get_by_email email); found_user password r
