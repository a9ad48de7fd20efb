-- ===== src/Handler/Execution.antt =====
-- internal/handler/execution.go.
use signal_flow.Base.Text.{atoi}
use signal_flow.Domain.Ports.{ExecutionRepository}
use signal_flow.Service.Execution
use signal_flow.Handler.Http.{
  Handler, respond_json, execution_data, execution_page, execution_list, answer,
}

module _ {S : Type 0} (repo : ExecutionRepository S) where
  unfoldable pub get : Handler S
  unfolding answer Execution.get_by_id
  get r s =
      answer (λ exec. respond_json 200 (execution_data exec)) (Execution.get_by_id repo r.id s)

  unfoldable pub list_by_job : Handler S
  unfolding answer Execution.list_by_job atoi
  list_by_job r s =
      answer (λ p. respond_json 200 (execution_page p.0 p.1))
        (Execution.list_by_job repo r.id (atoi (r.query "offset")) (atoi (r.query "limit")) s)

  unfoldable pub list_recent : Handler S
  unfolding answer Execution.list_recent atoi
  list_recent r s =
      answer (λ execs. respond_json 200 (execution_list execs))
        (Execution.list_recent repo (atoi (r.query "limit")) s)
