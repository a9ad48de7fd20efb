-- ===== src/Repository/User.antt =====
-- internal/repository/postgres/user.go, and migrations/000001.
use signal_flow.Base.{String, not, List, [], ◌∷◌, ◌++◌, Result, ok, M, ◌==◌, ◌&&◌, any, Bool}
use signal_flow.Domain.{Time, User}
use signal_flow.Store.{Db, Store, current}
use signal_flow.Store.Rows.{update_where, delete_where, first_where}
use signal_flow.Store.Statement.{statement, query}
use signal_flow.Repository.Constraints.{require, has_user, cascade_users}
use signal_flow.Repository.Job.{found}

-- users.email is UNIQUE.
abbrev pub has_email : String → List User → Bool
has_email email users = any (λ u. u.email == email) users

unfoldable pub insert_user : Time → User → Db → Result (Unit {0} × Db)
insert_user now user db = require (not (has_user user.id db.users)) "duplicate key in users" (
    require (not (has_email user.email db.users)) "users_email_key" (
      ok (
        tt,
        record db { users = db.users ++ record user { created_at = now; updated_at = now } ∷ [] },
      )))

unfoldable pub create : User → M Store (Unit {0})
unfolding insert_user
create user = statement (λ s. insert_user (current s) user s.db)

unfoldable pub get_by_id : String → M Store User
get_by_id id = query (λ s. found (first_where (λ u. u.id == id) s.users))

unfoldable pub get_by_email : String → M Store User
get_by_email email = query (λ s. found (first_where (λ u. u.email == email) s.users))

-- Another user's row has the address.
abbrev pub email_taken : User → List User → Bool
email_taken user users =
    has_user user.id users && any (λ u. not (u.id == user.id) && u.email == user.email) users

-- The columns that the UPDATE sets.
abbrev pub updated_user : Time → User → User → User
updated_user now user row = record row {
  email = user.email;
  password_hash = user.password_hash;
  name = user.name;
  updated_at = now;
}

unfoldable pub set_user : Time → User → Db → Result (Unit {0} × Db)
set_user now user db = require (not (email_taken user db.users)) "users_email_key" (
    ok (
      tt,
      record db { users = update_where (λ u. u.id == user.id) (updated_user now user) db.users },
    ))

unfoldable pub update : User → M Store (Unit {0})
unfolding set_user
update user = statement (λ s. set_user (current s) user s.db)

unfoldable pub delete : String → M Store (Unit {0})
unfolding cascade_users
delete id =
    statement
      λ s. ok (tt, cascade_users (record s.db { users = delete_where (λ u. u.id == id) s.users }))
