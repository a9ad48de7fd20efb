-- ===== src/Service/Execution.antt =====
-- internal/service/execution.go.
use signal_flow.Base.{ℕ, ℤ, pos, String, List, not_found, M, map_err, if◌then◌else◌, is_positive}
use signal_flow.Domain.{Execution}
use signal_flow.Domain.Ports.{ExecutionRepository}
use signal_flow.Service.Job.{wrap_error}

module _ {S : Type 0} (repo : ExecutionRepository S) where
  unfoldable pub get_by_id : String → M S Execution
  get_by_id id = map_err (wrap_error not_found "not found") (repo.get_by_id id)

  unfoldable pub list_by_job : String → ℤ → ℤ → M S (List Execution × ℕ)
  list_by_job job_id offset limit =
      repo.list_by_job job_id offset (if is_positive limit then limit else pos 20)

  unfoldable pub list_recent : ℤ → M S (List Execution)
  list_recent limit = repo.list_recent (if is_positive limit then limit else pos 50)
