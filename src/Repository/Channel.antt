-- ===== src/Repository/Channel.antt =====
-- internal/repository/postgres/channel.go, and migrations/000004.
pub mod Laws
use signal_flow.Base.{String, not, ◌||◌, List, [], ◌∷◌, ◌++◌, Result, ok, M, ◌==◌, leb, any, pure}
use signal_flow.Domain.{Time, Channel}
use signal_flow.Store.{Db, Store, current}
use signal_flow.Store.Rows.{select_where, update_where, delete_where, first_where, sort_by}
use signal_flow.Store.Statement.{statement, query}
use signal_flow.Repository.Constraints.{
  require, has_user, has_channel, channel_row_allowed, cascade_notifications,
}
use signal_flow.Repository.Job.{found}

unfoldable pub insert_channel : Time → Channel → Db → Result (Unit {0} × Db)
insert_channel now ch db =
    require (not (has_channel ch.id db.channels)) "duplicate key in channels" (
      require (has_user ch.user_id db.users) "no such user" (
        require (channel_row_allowed ch) "channels_type_check" (
          ok (
            tt,
            record db {
              channels = db.channels ++ record ch { created_at = now; updated_at = now } ∷ [];
            },
          ))))

unfoldable pub create : Channel → M Store (Unit {0})
unfolding insert_channel
create ch = statement (λ s. insert_channel (current s) ch s.db)

unfoldable pub get_by_id : String → M Store Channel
get_by_id id = query (λ s. found (first_where (λ c. c.id == id) s.channels))

-- WHERE id = ANY(ids).
abbrev pub channels_of : List String → Store → List Channel
channels_of ids s = select_where (λ c. any (λ id. id == c.id) ids) s.channels

unfoldable pub get_by_ids : List String → M Store (List Channel)
get_by_ids [] = pure []
get_by_ids (id ∷ ids) = query (λ s. ok (channels_of (id ∷ ids) s))

unfoldable pub list : String → M Store (List Channel)
list user_id = query λ s. ok (
    sort_by (λ a b. leb b.created_at a.created_at)
      (select_where (λ c. c.user_id == user_id) s.channels))

-- The columns that the UPDATE sets.
abbrev pub updated_channel : Time → Channel → Channel → Channel
updated_channel now ch row = record row {
  name = ch.name;
  type = ch.type;
  config = ch.config;
  enabled = ch.enabled;
  updated_at = now;
}

unfoldable pub set_channel : Time → Channel → Db → Result (Unit {0} × Db)
set_channel now ch db =
    require (not (has_channel ch.id db.channels) || channel_row_allowed ch) "channels_type_check" (
      ok (
        tt,
        record db {
          channels = update_where (λ c. c.id == ch.id) (updated_channel now ch) db.channels;
        },
      ))

unfoldable pub update : Channel → M Store (Unit {0})
unfolding set_channel
update ch = statement (λ s. set_channel (current s) ch s.db)

unfoldable pub delete : String → M Store (Unit {0})
unfolding cascade_notifications
delete id = statement λ s. ok (
  tt,
  cascade_notifications (record s.db { channels = delete_where (λ c. c.id == id) s.channels }),
)
