-- ===== src/Service/Auth/Return.antt =====
-- From a registration to a login.
use signal_flow.Base.{
  ◌+◌, ◌/◌, String, Bool, true, false, some, List, [], ◌∷◌, ◌++◌, Result, ok, M, ◌≡◌, refl, sym, ap,
  subst, ◌∙◌, any, if◌then◌else◌, arith, Ensures-eq-ok, eq_iff, ◌==◌,
}
use signal_flow.Domain.{User}
use signal_flow.Store.{Store, current}
use signal_flow.Store.Rows.{first_where}
use signal_flow.Store.Statement.{store_runtime}
use signal_flow.Repository.Adapters.{user_repository}
use signal_flow.Service.Auth.{Claims, token_ttl, register, login}
use signal_flow.Service.Auth.Laws.{TokenOf, login-eq-ok, register_adds}

first_where-append :
    {R : Type 0} (p : R → Bool) (rs : List R) (r : R)
    → any p rs ≡ false
    → p r ≡ true
    → first_where p (rs ++ r ∷ []) ≡ some r
first_where-append p [] r h hit = rw (hit, if◌then◌else◌) refl
first_where-append p (x ∷ rs) r h hit =
    let miss : p x ≡ false = ground arith in
    rw (miss, if◌then◌else◌) (first_where-append p rs r (ground arith) hit)

module _ (hash : String → M Store String) (compare : String → String → Bool)
    (sign : Claims → Result String) where
  -- Whoever has registered can log in with that address and password, at any later time at which the
  -- users are as the registration left them and no failure of the database is to come, and gets the
  -- token that the library signs for the identifier of the new user. The hash writes no table, and
  -- compares with the password that it was made of.
  pub registered_logs_in :
      (email password name : String) (s t u : Store) (user : User) (token : String)
      → ((text : String) (v : Store) → (hash text v).1.db ≡ v.db)
      → ((hashed : String) (v : Store)
          → (hash password v).0 ≡ ok hashed
          → compare hashed password ≡ true)
      → register store_runtime user_repository hash compare sign email password name s
        ≡ (ok user, t)
      → u.users ≡ t.users
      → u.faults ≡ []
      → TokenOf hash compare sign (current u) user token
      → login store_runtime user_repository hash compare sign email password u
        ≡ (ok token, (store_runtime.now u).1)
  registered_logs_in email password name s t u user token outside fits registered same calm signed =
      let (_, _, (free, (row, added, id, mail, _, (v, made)))) =
        Ensures-eq-ok (register_adds hash compare sign email password name s outside) registered in
      login-eq-ok hash compare sign email password u row token calm (record {
        listed =
            ap (first_where (λ (x : User). x.email == email)) (same ∙ added)
            ∙ first_where-append (λ (x : User). x.email == email) s.users row free
                ((eq_iff row.email email).1 mail);
        fits = fits row.password_hash v made;
        signed =
            subst
              (λ x.
                sign (record { sub = x; exp = (current u + token_ttl) / 1_000_000_000 }) ≡ ok token)
              (sym id) signed;
      })
