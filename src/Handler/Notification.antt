-- ===== src/Handler/Notification.antt =====
-- internal/handler/notification.go.
use signal_flow.Base.Text.{atoi}
use signal_flow.Domain.Ports.{NotificationRepository}
use signal_flow.Service.Notification
use signal_flow.Handler.Http.{Handler, respond_json, notification_list, answer}

module _ {S : Type 0} (repo : NotificationRepository S) where
  unfoldable pub list_by_execution : Handler S
  unfolding answer Notification.list_by_execution
  list_by_execution r s =
      answer (λ notifs. respond_json 200 (notification_list notifs))
        (Notification.list_by_execution repo r.id s)

  unfoldable pub list_recent : Handler S
  unfolding answer Notification.list_recent atoi
  list_recent r s =
      answer (λ notifs. respond_json 200 (notification_list notifs))
        (Notification.list_recent repo (atoi (r.query "limit")) s)
