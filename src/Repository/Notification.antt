-- ===== src/Repository/Notification.antt =====
-- internal/repository/postgres/notification.go, and migrations/000005.
use signal_flow.Base.{
  ℕ, ℤ, String, Bool, false, not, ◌&&◌, ◌||◌, Option, none, some, List, [], ◌∷◌, ◌++◌, Result, ok,
  M, ◌==◌, leb, ◌>>=◌, suc,
}
use signal_flow.Domain.{Time, Execution, Job, Notification, NotificationStatus, is_sent, sent}
use signal_flow.Store.{Db, Store, current}
use signal_flow.Store.Rows.{select_where, update_where, count_where, sort_by, limit_rows}
use signal_flow.Store.Statement.{statement, query}
use signal_flow.Repository.Constraints.{require, has_execution, has_channel, has_notification}
use signal_flow.Repository.Execution.{is_owned_by}

unfoldable pub insert_notification : Time → Notification → Store → Result (Unit {0} × Db)
insert_notification now n s =
    require (s.text_ok n.payload) "invalid byte sequence for encoding UTF8" (
      require (not (has_notification n.id s.notifications)) "duplicate key in notifications" (
        require (has_execution n.execution_id s.executions) "no such execution" (
          require (has_channel n.channel_id s.channels) "no such channel" (
            ok (
              tt,
              record s.db { notifications = s.notifications ++ record n { created_at = now } ∷ [] },
            )))))

unfoldable pub create : Notification → M Store (Unit {0})
unfolding insert_notification
create n = statement (λ s. insert_notification (current s) n s)

abbrev newest_first : Notification → Notification → Bool
newest_first a b = leb b.created_at a.created_at

unfoldable pub list_by_execution : String → M Store (List Notification)
list_by_execution execution_id = query λ s.
    ok (sort_by newest_first (select_where (λ n. n.execution_id == execution_id) s.notifications))

unfoldable pub list_recent : ℤ → M Store (List Notification)
list_recent limit = query (λ s. limit_rows limit (sort_by newest_first s.notifications))

-- The two joins: the notification's execution belongs to a job of the user.
abbrev pub is_for_user : String → String → List Execution → List Job → Bool
is_for_user user_id execution_id [] jobs = false
is_for_user user_id execution_id (e ∷ es) jobs =
    (e.id == execution_id && is_owned_by user_id e.job_id jobs)
    || is_for_user user_id execution_id es jobs

unfoldable pub count_sent_by_user_since : String → Time → M Store ℕ
count_sent_by_user_since user_id since = query λ s. ok (
    count_where
      (λ n.
        is_for_user user_id n.execution_id s.executions s.jobs
        && is_sent n.status
        && leb since n.created_at)
      s.notifications)

-- `sentAt`: the clock is read only for a sent notification.
abbrev pub sent_time : NotificationStatus → M Store (Option Time)
sent_time sent s = (ok (some (s.clock s.reads)), record s { reads = suc s.reads })
sent_time _ s = (ok none, s)

abbrev pub with_status : NotificationStatus → String → Option Time → Notification → Notification
with_status status err_msg sent_at n = record n {
  status = status;
  error = err_msg;
  sent_at = sent_at;
}

unfoldable pub update_status : String → NotificationStatus → String → M Store (Unit {0})
update_status id status err_msg = do
  sent_at ← sent_time status
  statement λ s. ok (
    tt,
    record s.db {
      notifications =
          update_where (λ n. n.id == id) (with_status status err_msg sent_at) s.notifications;
    },
  )
