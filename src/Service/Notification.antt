-- ===== src/Service/Notification.antt =====
-- internal/service/notification.go.
use signal_flow.Base.{ℤ, pos, String, List, M, if◌then◌else◌, is_positive}
use signal_flow.Domain.{Notification}
use signal_flow.Domain.Ports.{NotificationRepository}

module _ {S : Type 0} (repo : NotificationRepository S) where
  unfoldable pub list_by_execution : String → M S (List Notification)
  list_by_execution execution_id = repo.list_by_execution execution_id

  unfoldable pub list_recent : ℤ → M S (List Notification)
  list_recent limit = repo.list_recent (if is_positive limit then limit else pos 50)
