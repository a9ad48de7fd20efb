-- ===== src/Tests/Running.antt =====
-- Runs of jobs: a command that answers, its record in the tables, and the notification it asks for.
use signal_flow.Base.{
  subst, bytes_of, pure, ℤ, pos, ◌+◌, ◌≤◌, ◌<◌, ◌≡◌, ◌≢◌, ◌↔◌, ◌⊎◌, refl, String, Bool, true, false,
  Option, none, some, List, [], ◌∷◌, ◌++◌, Result, ok, err, Error, run_next, M, Ensures, arith, In,
  inl, inr, length, if◌then◌else◌, is_positive, scale, take,
}
use signal_flow.Domain.{
  Time, Bytes, RawMessage, Job, Execution, success, running, job_type_command, paused,
}
use signal_flow.Store.{Store}
use signal_flow.Store.Statement.{store_runtime}
use signal_flow.Store.Statement.{statement, settle, query}
use signal_flow.Repository.Constraints.{require}
use signal_flow.Repository.Job
use signal_flow.Repository.Channel
use signal_flow.Repository.Notification
use signal_flow.Repository.Execution
use signal_flow.Repository.Adapters.{
  job_repository, execution_repository, channel_repository, notification_repository,
}
use signal_flow.Executor.{ExecResult, Context}
use signal_flow.Executor.Command.{
  CommandConfig, execute_command, truncate, max_output_bytes, truncation_mark,
}
use signal_flow.Executor.HttpCheck.{HttpCheckConfig, execute_check, context_of}
use signal_flow.Executor.Laws.{truncate_keeps, execute_command_lem, IsVerdict, execute_check_lem}
use signal_flow.Notifier.Dispatch.{Sending, dispatch}
use signal_flow.Notifier.Dispatch.Laws.{Kept}
use signal_flow.Notifier.Dispatch.Named.{NamedSends, dispatch-NamedSends, dispatch-Kept}
use signal_flow.Scheduler.Policy.{should_notify}
use signal_flow.Scheduler.Policy.Laws.{Wanted, should_notify_iff}
use signal_flow.Repository.Execution.{takes_texts}
use signal_flow.Scheduler.Execute.{
  run_job, executor_for, Executors, notify, job_timeout, default_job_timeout, execute_job,
}
use signal_flow.Scheduler.Execute.Laws.{IsFinal, AreSound, KeepsRuns}
use signal_flow.Scheduler.Execute.Rows.{TakesOutcome, execute_job_finishes, execute_job_overwrites}
use signal_flow.Scheduler.Execute.Timeout.{job_timeout_lem}
use signal_flow.Tests.Data.{of_ok, store, backup, report, run_row}
use signal_flow.Tests.Claiming.{claim_at, store_after}

-- Every command succeeds and prints one byte; the clock moves by one reading.
abbrev printed : Bytes
printed = 120 ∷ []

abbrev run_ok : Context → String → String → M Store (Bytes × Option Error)
run_ok ctx shell command s = (ok (printed, none), record s { reads = s.reads + 1 })

abbrev config_ok : RawMessage → Result CommandConfig
config_ok m = ok (record { command = "echo x"; shell = "" })

abbrev executors : Executors Store
executors = (job_type_command, execute_command config_ok run_ok) ∷ []

executors_sound : AreSound executors
unfolding execute_command run_next
executors_sound = ((λ ctx config s. (s.reads + 1, refl), λ ctx config s r e. λ clash. cc), tt)

abbrev unmarshal_on : RawMessage → Result String
unmarshal_on m = ok "always"

abbrev show_nothing : ℤ → String
show_nothing n = ""

-- The dispatcher of the program, as the scheduler is given it.
abbrev dispatcher : Option (Job → Execution → M Store (List Sending))
dispatcher = some (dispatch store_runtime channel_repository notification_repository show_nothing)

notify-Kept :
    (b : Bool) (job : Job) (exec : Execution) (s : Store)
    → Kept s
        ((if b
            then dispatch store_runtime channel_repository notification_repository show_nothing job
                exec
            else pure [])
          s).1
notify-Kept true job exec s = dispatch-Kept show_nothing job exec s
notify-Kept false job exec s = (refl, refl)

dispatcher_keeps : KeepsRuns executors unmarshal_on dispatcher
unfolding notify
dispatcher_keeps job exec s = notify-Kept (should_notify unmarshal_on job exec) job exec s

-- The claimed run of the job, carried out.
abbrev after : Store
after =
    (execute_job store_runtime job_repository execution_repository executors unmarshal_on dispatcher
      (claim_at 100) (store_after 100)).1

abbrev finished_run : Execution
finished_run = record (run_row "fresh" "backup" 10) {
  status = success;
  output = printed;
  finished_at = some 13;
}

finished_listed : In finished_run after.executions
unfolding execute_job run_next execute_command Job.update statement Execution.update settle require
    dispatch Channel.get_by_ids query Notification.create bytes_of
finished_listed = inr (inl refl)

-- What the command of this run printed, TEXT takes.
run_storable : TakesOutcome executors unmarshal_on dispatcher (claim_at 100) (store_after 100)
unfolding run_job execute_command run_next executor_for bytes_of
run_storable x e = subst (λ y. takes_texts y (store_after 100) ≡ true) (of_ok e) refl

execute_job_finishes_example :
    ((finished_run.id ≡ "fresh")
      × IsFinal finished_run.status
      × ((f : Time) × (finished_run.finished_at ≡ some f)))
    ⊎ ((finished_run.id ≢ (claim_at 100).execution_id)
        × In finished_run (store_after 100).executions)
execute_job_finishes_example =
    execute_job_finishes executors unmarshal_on dispatcher executors_sound dispatcher_keeps
      (claim_at 100) (store_after 100) refl finished_run run_storable finished_listed

-- The same run, where the job was paused after it had been claimed.
abbrev store_paused : Store
store_paused = record (store_after 100) {
  db = record (store_after 100).db {
    jobs = record backup { status = paused; next_run_at = none } ∷ report ∷ [];
  };
}

abbrev after_paused : Store
after_paused =
    (execute_job store_runtime job_repository execution_repository executors unmarshal_on dispatcher
      (claim_at 100) store_paused).1

abbrev unpaused : Job
unpaused = record backup { next_run_at = some 100; last_run_at = some 13; updated_at = 14 }

unpaused_listed : In unpaused after_paused.jobs
unfolding execute_job run_next execute_command Job.update statement Execution.update settle require
    dispatch Channel.get_by_ids query Notification.create bytes_of
unpaused_listed = inl refl

execute_job_overwrites_example :
    (unpaused.status ≡ (claim_at 100).job.status)
    × (unpaused.schedule ≡ backup.schedule)
    × (unpaused.next_run_at ≡ some 100)
execute_job_overwrites_example =
    execute_job_overwrites executors unmarshal_on dispatcher executors_sound dispatcher_keeps
      (claim_at 100) store_paused refl unpaused refl unpaused_listed refl

should_notify_iff_example :
    (should_notify unmarshal_on backup finished_run ≡ true) ↔ Wanted unmarshal_on backup success
should_notify_iff_example = should_notify_iff unmarshal_on backup finished_run

job_timeout_lem_example :
    job_timeout (pos 30)
    ≡ (if is_positive (pos 30) then scale (pos 30) 1_000_000_000 else default_job_timeout)
job_timeout_lem_example = job_timeout_lem (pos 30) (omega arith)

truncate_keeps_example :
    ((length printed ≤ max_output_bytes) × (truncate printed ≡ printed))
    ⊎ ((max_output_bytes < length printed)
        × (truncate printed ≡ take max_output_bytes printed ++ truncation_mark)
        × (length (truncate printed) ≡ 10256))
truncate_keeps_example = truncate_keeps printed

abbrev no_error : Option Error
no_error = none

abbrev echo : CommandConfig
echo = record { command = "echo x"; shell = "" }

execute_command_lem_example :
    (r : ExecResult) × (execute_command config_ok run_ok [] none store
      ≡ (ok r, record store { reads = 1 }))
    × (r.status ≢ running)
    × ((r.status ≡ success) ↔ (no_error ≡ none))
    × (r.output ≡ truncate printed)
execute_command_lem_example =
    execute_command_lem config_ok run_ok [] none echo store (record store { reads = 1 }) printed
      none refl refl

abbrev health : HttpCheckConfig
health = record { url = "http://localhost/"; expected_status = pos 0; timeout_seconds = pos 5 }

abbrev check_config : RawMessage → Result HttpCheckConfig
check_config m = ok health

abbrev request_to : String → Result String
request_to url = ok url

abbrev answer_200 : Context → String → M Store ℤ
answer_200 ctx url s = (ok (pos 200), s)

execute_check_lem_example :
    Ensures
      (λ r t.
        (cfg : HttpCheckConfig) × (check_config none ≡ ok cfg)
        × ((req : String) × (request_to cfg.url ≡ ok req)
            × (t ≡ (answer_200 (context_of [] cfg) req store).1)
            × IsVerdict show_nothing check_config request_to answer_200 cfg
                (answer_200 (context_of [] cfg) req store).0
                r))
      (λ e t.
        (t ≡ store)
        × (((x : Error) × (check_config none ≡ err x))
            ⊎ ((cfg : HttpCheckConfig) × (check_config none ≡ ok cfg)
                × (request_to cfg.url ≡ err e))))
      (execute_check show_nothing check_config request_to answer_200 [] none store)
execute_check_lem_example =
    execute_check_lem show_nothing check_config request_to answer_200 [] none store

dispatch-NamedSends_example :
    Ensures
      (λ xs t. NamedSends ("hook" ∷ []) finished_run xs (store_after 100) t)
      (λ _ t. Kept (store_after 100) t)
      (dispatch store_runtime channel_repository notification_repository show_nothing backup
        finished_run
        (store_after 100))
dispatch-NamedSends_example = dispatch-NamedSends show_nothing backup finished_run (store_after 100)
