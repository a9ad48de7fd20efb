-- ===== src/Tests/Program.antt =====
-- The program over libraries that do next to nothing, and a run of its scheduler: a tick claims the
-- due job, a worker runs it, the context is done, and the drain ends.
use signal_flow.Base.{
  subst, bytes_of, ℤ, pos, negsuc, ◌+◌, ◌<◌, ◌≤◌, ◌≡◌, refl, inl, inr, ◌⊎◌, String, Bool, true,
  Option, none, some, List, [], ◌∷◌, Result, ok, err, Error, M, In, arith, length, run_next, ◌==◌,
}
use mathlib.Core.WellFounded.{Acc}
use signal_flow.Domain.{Bytes, JobClaim, Execution}
use signal_flow.Store.{Store}
use signal_flow.Store.Statement.{store_runtime, transaction, settle, query, statement}
use signal_flow.Repository.Constraints.{require}
use signal_flow.Repository.Claim.{claim_due}
use signal_flow.Repository.Job
use signal_flow.Repository.Execution
use signal_flow.Executor.{Context}
use signal_flow.Executor.Command.{execute_command}
use signal_flow.Scheduler.Tick.{next_run, recover_stale}
use signal_flow.Repository.Execution.{takes_texts}
use signal_flow.Repository.Adapters.{channel_repository, notification_repository}
use signal_flow.Notifier.Dispatch.{dispatch}
use signal_flow.Scheduler.Execute.{execute_job, run_job, executor_for}
use signal_flow.Scheduler.Execute.Rows.{TakesOutcome}
use signal_flow.Scheduler.Run.{
  Scheduler, RunState, draining, returned, Step, stop, claim, enqueue, take, finish, close, drained,
  notified, Steps, rest, then_step, start, claim_next, execute, worker_count, capacity,
}
use signal_flow.Scheduler.Run.Invariant.{tally}
use signal_flow.Scheduler.Run.Drain.{Next, drain_terminates, claims_accounted, returned_accounted}
use signal_flow.Scheduler.Run.Settled.{IsUnderWay}
use signal_flow.App.{Libraries, executors, deliver, new_scheduler}
use signal_flow.App.Outside.{AreOutside}
use signal_flow.App.Laws.{running_under_way, run_leaves_none_running, IsUntroubled}
use signal_flow.Handler.Http.{respond_json, plain}
use signal_flow.Handler.Guard.{Verified, subject, invalid_token, hmac}
use signal_flow.Tests.Data.{of_ok, store, backup, run_row, every_hour}

abbrev run_ok : Context → String → String → M Store (Bytes × Option Error)
run_ok ctx shell command s = (ok ([], none), record s { reads = s.reads + 1 })

abbrev nothing_sent : Error
nothing_sent = record { kind = signal_flow.Base.other; text = "" }

-- Every token is signed with an HMAC, and names its user.
abbrev pub parsed_by : Result String → String → Store → Verified × Store
parsed_by (ok secret) token s = (subject token, s)
parsed_by (err e) token s = (invalid_token, s)

abbrev pub lib : Libraries String String
lib = record {
  new_pool = λ url s. (ok url, s);
  ping = λ ctx pool s. (ok tt, s);
  parse = every_hour;
  condition_of = λ m. ok "failure";
  command_config = λ m. ok (record { command = "echo x"; shell = "" });
  check_config = λ m. ok (record { url = ""; expected_status = pos 0; timeout_seconds = pos 0 });
  webhook_config = λ m. ok (record { url = ""; headers = [] });
  hook_config = λ m. ok (record { webhook_url = "" });
  telegram_config = λ m. ok (record { bot_token = ""; chat_id = "" });
  email_config = λ m. ok (record {
    smtp_host = "";
    smtp_port = pos 0;
    username = "";
    password = "";
    from = "";
    to = "";
  });
  run_process = run_ok;
  check_request = λ url. ok url;
  http = record {
    marshal = λ fields. ok [];
    new_request = λ url body. ok url;
    set_header = λ req k v. req;
    send = λ ctx req s. (ok (pos 200), s);
    show_int = λ n. "";
    show_duration = λ n. "";
  };
  send_mail = λ ctx m s. (ok tt, s);
  hash = λ password s. (ok password, s);
  compare = λ hashed password. hashed == password;
  sign = λ secret c. ok c.sub;
  parse_token = λ key token s. parsed_by (key hmac) token s;
  valid_json = λ text. true;
  static = λ r s. (respond_json 200 (plain ""), s);
  decode_register = λ body. none;
  decode_login = λ body. some (record { email = body; password = "" });
  decode_job = λ body. none;
  decode_job_update = λ body. none;
  decode_channel = λ body. none;
  decode_channel_update = λ body. none;
}

pub lib_outside : AreOutside lib
lib_outside = record {
  process = λ ctx shell command s. (s.reads + 1, refl);
  request = λ ctx req s. (s.reads, refl);
  mail = λ ctx m s. (s.reads, refl);
}

abbrev pub program : Scheduler Store
program = new_scheduler lib (pos 1)

abbrev pub begun : RunState Store
begun = start program (deliver lib) store

-- What the tick claims.
abbrev pub x : JobClaim
x = record { job = record backup { next_run_at = some 3612 }; execution_id = "fresh" }

abbrev pub store_claimed : Store
store_claimed = (claim_next program (deliver lib) begun.store).1

abbrev pub claimed : RunState Store
claimed = record begun { pending = x ∷ []; claimed = x ∷ []; store = store_claimed }

-- The claim went through the channel to the worker.
abbrev busy : RunState Store
busy = record claimed { pending = []; busy = x ∷ [] }

pub tick_claims : claim_next program (deliver lib) begun.store ≡ (ok (x ∷ []), store_claimed)
unfolding claim_due transaction run_next settle query require next_run recover_stale
    Execution.recover_stale_running statement
tick_claims = refl

steps_busy : Steps program (deliver lib) begun busy
steps_busy =
    then_step (claim refl refl tick_claims)
      (then_step (enqueue refl (omega arith)) (then_step (take refl (omega arith)) rest))

abbrev done : RunState Store
done = record busy {
  busy = [];
  sends = [];
  executed = x ∷ [];
  store = (execute program (deliver lib) x store_claimed).1;
}

-- The context is done and the channel is closed, while the worker runs the job.
abbrev closed : RunState Store
closed = record busy { stopping = true; phase = draining }

abbrev over : RunState Store
over = record done { stopping = true; phase = returned }

steps_closed : Steps program (deliver lib) begun closed
steps_closed = then_step (claim refl refl tick_claims) (
    then_step (enqueue refl (omega arith)) (
      then_step (take refl (omega arith))
        (then_step (stop refl) (then_step (close refl refl refl) rest))))

runs_command : Step program (deliver lib) busy done
unfolding bytes_of execute_job executors execute_command run_next Job.update statement
    Execution.update settle require claim_due transaction query next_run recover_stale
    Execution.recover_stale_running
runs_command = finish [] x [] refl

steps_over : Steps program (deliver lib) begun over
steps_over = then_step (claim refl refl tick_claims) (
    then_step (enqueue refl (omega arith)) (
      then_step (take refl (omega arith)) (
        then_step runs_command (
          then_step (stop refl) (
            then_step (close refl refl refl)
              (then_step (drained (inl refl) refl refl) (then_step (notified refl refl) rest)))))))

claims_accounted_example :
    (length busy.queue ≤ capacity program (deliver lib))
    × (length busy.busy ≤ worker_count program (deliver lib))
    × ((p : JobClaim → Bool)
        → tally p busy.claimed
          ≡ tally p busy.pending
            + tally p busy.queue
            + tally p busy.busy
            + tally p busy.executed
            + tally p busy.refused)
claims_accounted_example = claims_accounted program (deliver lib) store busy steps_busy

returned_accounted_example :
    ((p : JobClaim → Bool) → tally p over.claimed ≡ tally p over.executed + tally p over.refused)
    × (over.sends ≡ [])
returned_accounted_example = returned_accounted program (deliver lib) store over steps_over refl

drain_terminates_example :
    Acc (Next program (deliver lib)) closed
    × ((closed.phase ≡ returned) ⊎ ((t : RunState Store) × Step program (deliver lib) closed t))
drain_terminates_example =
    drain_terminates program (deliver lib) store closed (omega arith) steps_closed refl

abbrev running_x : Execution
running_x = run_row "fresh" "backup" 11

x_listed : In running_x busy.store.executions
unfolding bytes_of claim_due transaction run_next settle query require next_run recover_stale
    Execution.recover_stale_running statement
x_listed = inr (inl refl)

busy-IsUntroubled : IsUntroubled lib lib_outside (pos 1) store busy steps_busy
unfolding bytes_of steps_busy claim_due transaction run_next settle query require next_run
    recover_stale Execution.recover_stale_running statement
busy-IsUntroubled = (refl, tt, (refl, tt, (refl, tt, tt)))

running_under_way_example :
    ((y : JobClaim) × IsUnderWay [] [] (x ∷ []) y × (y.execution_id ≡ "fresh"))
    ⊎ In running_x begun.store.executions
running_under_way_example =
    running_under_way lib lib_outside (pos 1) store busy steps_busy running_x busy-IsUntroubled
      x_listed refl

abbrev old_run : Execution
old_run = run_row "old" "backup" 2

old_listed : In old_run over.store.executions
unfolding bytes_of execute_job executors execute_command run_next Job.update statement
    Execution.update settle require claim_due transaction query next_run recover_stale
    Execution.recover_stale_running
old_listed = inl refl

-- TEXT takes what the command of this run printed.
x_storable :
    TakesOutcome
      (executors lib)
      lib.condition_of
      (some
        (dispatch store_runtime channel_repository notification_repository lib.http.show_duration))
      x
      store_claimed
unfolding executors run_job execute_command run_next executor_for bytes_of claim_due transaction
    settle query require next_run recover_stale Execution.recover_stale_running statement
x_storable y e = subst (λ z. takes_texts z store_claimed ≡ true) (of_ok e) refl

over-IsUntroubled : IsUntroubled lib lib_outside (pos 1) store over steps_over
unfolding bytes_of steps_over runs_command execute_job executors execute_command run_next Job.update
    statement Execution.update settle require claim_due transaction query next_run recover_stale
    Execution.recover_stale_running
over-IsUntroubled = (
  refl,
  tt,
  (refl, tt, (refl, tt, (refl, x_storable, (refl, tt, (refl, tt, (refl, tt, (refl, tt, tt))))))),
)

run_leaves_none_running_example : In old_run begun.store.executions
run_leaves_none_running_example =
    run_leaves_none_running lib lib_outside (pos 1) store over steps_over old_run over-IsUntroubled
      refl old_listed refl
