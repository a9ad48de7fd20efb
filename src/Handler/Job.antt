-- ===== src/Handler/Job.antt =====
-- internal/handler/job.go.
use signal_flow.Base.{String, Option}
use signal_flow.Base.Text.{atoi}
use signal_flow.Domain.Ports.{JobRepository, Runtime, CronParser}
use signal_flow.Service.Job
use signal_flow.Service.Job.{CreateJobInput, UpdateJobInput}
use signal_flow.Handler.Http.{
  Handler, respond_json, empty, job_data, job_list, status_text, answer, with_body, user_id,
  CreateJobRequest,
}

abbrev pub create_job_input : String → CreateJobRequest → CreateJobInput
create_job_input user req = record {
  user_id = user;
  name = req.name;
  type = req.type;
  schedule = req.schedule;
  config = req.config;
  notify_channels = req.notify_channels;
  condition = req.condition;
  timeout_seconds = req.timeout_seconds;
}

module _ {S : Type 0} (runtime : Runtime S) (repo : JobRepository S) (parse : CronParser) where
  unfoldable pub list : Handler S
  unfolding answer Job.list atoi
  list r s =
      answer (λ p. respond_json 200 (job_list p.0 p.1))
        (Job.list runtime repo parse (user_id r) (atoi (r.query "offset")) (atoi (r.query "limit"))
          s)

  unfoldable pub create : (String → Option CreateJobRequest) → Handler S
  unfolding answer with_body Job.create
  create decode r = with_body (decode r.body) λ req s.
      answer (λ job. respond_json 201 (job_data job))
        (Job.create runtime repo parse (create_job_input (user_id r) req) s)

  unfoldable pub get : Handler S
  unfolding answer Job.get_by_id
  get r s =
      answer (λ job. respond_json 200 (job_data job)) (Job.get_by_id runtime repo parse r.id s)

  -- The request's fields are those of the service's input.
  unfoldable pub update : (String → Option UpdateJobInput) → Handler S
  unfolding answer with_body Job.update
  update decode r = with_body (decode r.body) λ req s.
      answer (λ job. respond_json 200 (job_data job)) (Job.update runtime repo parse r.id req s)

  unfoldable pub delete : Handler S
  unfolding answer Job.delete
  delete r s = answer (λ _. respond_json 204 empty) (Job.delete runtime repo parse r.id s)

  unfoldable pub trigger_run : Handler S
  unfolding answer Job.trigger_run
  trigger_run r s =
      answer (λ _. respond_json 200 (status_text "triggered"))
        (Job.trigger_run runtime repo parse r.id s)

  unfoldable pub pause : Handler S
  unfolding answer Job.pause
  pause r s = answer (λ job. respond_json 200 (job_data job)) (Job.pause runtime repo parse r.id s)

  unfoldable pub resume : Handler S
  unfolding answer Job.resume
  resume r s =
      answer (λ job. respond_json 200 (job_data job)) (Job.resume runtime repo parse r.id s)
