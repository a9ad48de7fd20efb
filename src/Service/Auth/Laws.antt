-- ===== src/Service/Auth/Laws.antt =====
-- Who gets a token, and what a registration adds.
use signal_flow.Base.{
  ◌+◌, ◌/◌, ◌≡◌, ◌≢◌, refl, sym, ap, subst, ◌∙◌, ◌⊎◌, inl, inr, String, Bool, true, false, not, [],
  some, ◌∷◌, ◌++◌, Result, ok, err, Error, M, Ensures, returns, fails, Ensures-mono, Ensures-self,
  Ensures-run_next, Ensures-map_err, Ensures-try, Outcome, Bool-cases, Result-cases, run_next,
  arith, eq_iff, ◌==◌, In, ne_of_test,
}
use signal_flow.Domain.{Time, User}
use signal_flow.Store.{Db, Store, current}
use signal_flow.Store.Rows.{first_where, first_where-In}
use signal_flow.Store.Statement.{
  store_runtime, query-eq-ok, query-Ensures, statement-Ensures, settle-Ensures, new_uuid-Ensures,
}
use signal_flow.Repository.Constraints.{require-Ensures}
use signal_flow.Repository.Job.{found}
use signal_flow.Repository.Job.Laws.{found-ok}
use signal_flow.Repository.User
use signal_flow.Repository.User.{has_email, insert_user}
use signal_flow.Repository.Adapters.{user_repository}
use signal_flow.Service.Auth.{
  Claims, token_ttl, credentials_error, new_user, store_user, register, issue_token, check_password,
  found_user, login,
}

-- The row of a user with this address.
abbrev pub HasAddress : String → Store → User → Type 0
HasAddress email s user = In user s.users × (user.email ≡ email)

-- The rows and the clock are as before.
abbrev IsSame : Store → Store → Type 0
IsSame s t = (t.db ≡ s.db) × (current t ≡ current s)

get_by_email-Ensures :
    (email : String) (s : Store)
    → Ensures
        (λ user t. HasAddress email s user × IsSame s t)
        (λ _ t. t.db ≡ s.db)
        (User.get_by_email email s)
unfolding User.get_by_email
get_by_email-Ensures email s =
    query-Ensures _ s
      (λ gs user e.
        let hit = first_where-In (λ u. u.email == email) s.users user (found-ok _ user e) in
        ((hit.0, (eq_iff user.email email).0 hit.1), (refl, refl)))
      (λ _ _. refl)

-- An INSERT of a user adds the row of a new address, or fails and adds none.
abbrev pub AddedUser : User → Store → Store → Type 0
AddedUser user s t =
    (has_email user.email s.users ≡ false)
    × ((now : Time) × (t.db ≡ record s.db {
      users = s.users ++ record user { created_at = now; updated_at = now } ∷ [];
    }))

false_of_not : (b : Bool) → not b ≡ true → b ≡ false
false_of_not b h = ground arith

create-AddedUser :
    (user : User) (s : Store)
    → Ensures (λ _ t. AddedUser user s t) (λ _ t. t.db ≡ s.db) (User.create user s)
unfolding User.create insert_user
create-AddedUser user s =
    statement-Ensures _ s
      (λ gs.
        require-Ensures _ _ _ _
          (λ _.
            require-Ensures _ _ _ _
              (λ free. settle-Ensures _ _ _ (false_of_not _ free, (current s, refl))) refl)
          refl)
      (λ _ _. refl)

module _ (hash : String → M Store String) (compare : String → String → Bool)
    (sign : Claims → Result String) where
  -- A token is the signed claims of this user, to end a day from now.
  abbrev pub TokenOf : Time → User → String → Type 0
  TokenOf now user token =
      sign (record { sub = user.id; exp = (now + token_ttl) / 1_000_000_000 }) ≡ ok token

  -- What a failed login reports: the one credentials error, or the error of the signing.
  abbrev pub LoginError : Error → Type 0
  LoginError e = (e ≡ credentials_error) ⊎ ((c : Claims) × (sign c ≡ err e))

  abbrev pub Granted : String → String → Store → String → Store → Type 0
  Granted email password s token t =
      ((user : User) × HasAddress email s user
        × (compare user.password_hash password ≡ true)
        × TokenOf (current s) user token)
      × (t.db ≡ s.db)

  signed : (c : Claims) (r : Result String) → sign c ≡ r → (e : Error) → r ≡ err e → LoginError e
  signed c r h e failed_with = inr (c, h ∙ failed_with)

  issue_token-Granted :
      (email password : String) (user : User) (s t : Store)
      → HasAddress email s user
      → compare user.password_hash password ≡ true
      → IsSame s t
      → Ensures
          (Granted email password s)
          (λ e t. LoginError e × (t.db ≡ s.db))
          (issue_token store_runtime user_repository hash compare sign user t)
  unfolding issue_token run_next
  issue_token-Granted email password user s t found fits same =
      elim (Result-cases
        (sign (record { sub = user.id; exp = (current t + token_ttl) / 1_000_000_000 }))) [
          | inl (token, e) ↦
              rw (e, issue_token)
                (returns
                  ((user, found, fits, subst (λ now. TokenOf now user token) same.1 e), same.0))
          | inr (x, e) ↦ rw (e, issue_token) (fails (inr (_, e), same.0))
        ]

  check_password-Granted :
      (email password : String) (user : User) (s t : Store)
      → HasAddress email s user
      → IsSame s t
      → Ensures
          (Granted email password s)
          (λ e t. LoginError e × (t.db ≡ s.db))
          (check_password store_runtime user_repository hash compare sign password user t)
  unfolding check_password
  check_password-Granted email password user s t found same =
      elim (Bool-cases (compare user.password_hash password)) [
        | inl e ↦ rw (e, check_password) (issue_token-Granted email password user s t found e same)
        | inr e ↦ rw (e, check_password) (fails (inl refl, same.0))
      ]

  looked_up-Granted :
      (email password : String) (s t : Store) (r : Result User)
      → Outcome (λ user t. HasAddress email s user × IsSame s t) (λ _ t. t.db ≡ s.db) r t
      → Ensures
          (Granted email password s)
          (λ e t. LoginError e × (t.db ≡ s.db))
          (found_user store_runtime user_repository hash compare sign password r t)
  looked_up-Granted email password s t (err x) same = fails (inl refl, same)
  looked_up-Granted email password s t (ok user) (found, same) =
      check_password-Granted email password user s t found same

  -- The password of the first user with the address fits, and the library signs this token for it.
  pub record Admits (email password : String) (s : Store) (user : User) (token : String)
      : Type 0 where
    pub listed : first_where (λ u. u.email == email) s.users ≡ some user
    pub fits : compare user.password_hash password ≡ true
    pub signed : TokenOf (current s) user token

  -- Without a failure of the database, such a login gives the token.
  pub login-eq-ok :
      (email password : String) (s : Store) (user : User) (token : String)
      → s.faults ≡ []
      → Admits email password s user token
      → login store_runtime user_repository hash compare sign email password s
        ≡ (ok token, (store_runtime.now s).1)
  unfolding login User.get_by_email check_password issue_token run_next
  login-eq-ok email password s user token calm admits =
      rw (query-eq-ok _ s user calm (ap found admits.listed), admits.fits, admits.signed) refl

  -- A login that succeeds returns the token of a stored user with that address, whose password
  -- compares, signed to end a day after the time of the login; one that fails returns the same error
  -- for an unknown address as for a wrong password, or the error of the signing. Neither writes a
  -- table.
  pub login_sound :
      (email password : String) (s : Store)
      → Ensures
          (Granted email password s)
          (λ e t. LoginError e × (t.db ≡ s.db))
          (login store_runtime user_repository hash compare sign email password s)
  unfolding login
  login_sound email password s =
      Ensures-run_next _ (Ensures-try (User.get_by_email email) s (get_by_email-Ensures email s))
        λ r t h. looked_up-Granted email password s t r h

  -- What a registration has added.
  abbrev pub Registered : String → String → String → Store → User → Store → Type 0
  Registered email password name s user t =
      (has_email email s.users ≡ false)
      × ((row : User) × (t.users ≡ s.users ++ row ∷ [])
          × (row.id ≡ user.id)
          × (row.email ≡ email)
          × (row.name ≡ name)
          × ((u : Store) × ((hash password u).0 ≡ ok row.password_hash)))

  store_user-Registered :
      (email password name : String) (s : Store)
      → ((text : String) (u : Store) → (hash text u).1.db ≡ u.db)
      → Ensures
          (Registered email password name s)
          (λ _ t. t.db ≡ s.db)
          (store_user store_runtime user_repository hash compare sign email password name s)
  unfolding store_user
  store_user-Registered email password name s outside =
      Ensures-run_next _
        (Ensures-mono {P' = λ h u. ((hash password s).0 ≡ ok h) × (u.db ≡ s.db)}
          {Q' = λ _ u. u.db ≡ s.db} (Ensures-self (hash password s))
          (λ h u e. (
            ap (λ (p : Result String × Store). p.0) e,
            sym (ap (λ (p : Result String × Store). p.1.db) e) ∙ outside password s,
          ))
          (λ _ u e. sym (ap (λ (p : Result String × Store). p.1.db) e) ∙ outside password s))
        λ hashed u (made, kept). Ensures-run_next _ (new_uuid-Ensures u) λ id v drew.
          let same = drew.1 ∙ kept in
          Ensures-run_next _
            (Ensures-map_err _ (
              Ensures-mono (create-AddedUser (new_user id email hashed name) v) (λ _ t h. h)
                (λ _ t h. h ∙ same)))
            λ _ t (free, (now, added)).
              let row = record (new_user id email hashed name) {
                created_at = now;
                updated_at = now;
              } in
              returns (
                subst (λ (d : Db). has_email email d.users ≡ false) same free,
                (
                  row,
                  ap (λ (d : Db). d.users) added ∙ ap (λ (d : Db). d.users ++ row ∷ []) same,
                  refl,
                  refl,
                  refl,
                  (s, made),
                ),
              )

  -- With a hash that writes no table, a registration that succeeds is for an address and a password
  -- that are not empty and adds one row, of an address that no row had, with a hash of the password;
  -- one that fails adds none.
  pub register_adds :
      (email password name : String) (s : Store)
      → ((text : String) (u : Store) → (hash text u).1.db ≡ u.db)
      → Ensures
          (λ user t. (email ≢ "") × (password ≢ "") × Registered email password name s user t)
          (λ _ t. t.db ≡ s.db)
          (register store_runtime user_repository hash compare sign email password name s)
  unfolding register
  register_adds email password name s outside = elim (Bool-cases (email == "")) [
    | inl e ↦ rw (e, register) (fails refl)
    | inr e ↦ elim (Bool-cases (password == "")) [
      | inl p ↦ rw (e, p, register) (fails refl)
      | inr p ↦
          rw (e, p, register)
            (Ensures-mono (store_user-Registered email password name s outside)
              (λ user t h. (ne_of_test email "" e, ne_of_test password "" p, h)) (λ _ _ h. h))
    ]
  ]
