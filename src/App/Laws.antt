-- ===== src/App/Laws.antt =====
-- The program as New puts it together: what a run of its scheduler leaves in the tables.
use signal_flow.Base.{
  ℤ, ◌≡◌, refl, ap, subst, ◌⊎◌, inl, inr, Bool, true, false, some, [], Result, if◌then◌else◌, pure,
  In,
}
use signal_flow.Domain.{Job, JobClaim, Execution, running}
use signal_flow.Store.{Store}
use signal_flow.Store.Statement.{store_runtime}
use signal_flow.Repository.Adapters.{channel_repository, notification_repository}
use signal_flow.Notifier.Dispatch.{Sending, dispatch}
use signal_flow.Notifier.Dispatch.Laws.{Kept}
use signal_flow.Notifier.Dispatch.Named.{dispatch-Kept}
use signal_flow.Notifier.Dispatch.Delivery.{send-SettledBy}
use signal_flow.Scheduler.Policy.{should_notify}
use signal_flow.Scheduler.Execute.{notify}
use signal_flow.Scheduler.Execute.Laws.{KeepsRuns}
use signal_flow.Scheduler.Run.{RunState, Steps, start, returned}
use signal_flow.Scheduler.Run.Invariant.{start-Invariant, Steps-Invariant, is_closed, is_drained}
use signal_flow.Scheduler.Run.Settled.{Calm, AllCalm, IsUnderWay, Steps-RowsOk}
use signal_flow.App.{Libraries, executors, notifiers, deliver, new_scheduler}
use signal_flow.App.Outside.{AreOutside, executors-AreSound, notifiers-AllSendOutside}

module _ {Request Pool : Type 0} (lib : Libraries Request Pool) where
  asked-Kept :
      (b : Bool) (job : Job) (exec : Execution) (s : Store)
      → Kept s
          ((if b
              then dispatch store_runtime channel_repository notification_repository
                  lib.http.show_duration job exec
              else pure [])
            s).1
  asked-Kept true job exec s = dispatch-Kept lib.http.show_duration job exec s
  asked-Kept false job exec s = (refl, refl)

  dispatcher-KeepsRuns : KeepsRuns (executors lib) lib.condition_of (
      some
        (dispatch store_runtime channel_repository notification_repository lib.http.show_duration))
  unfolding notify
  dispatcher-KeepsRuns job exec s = asked-Kept (should_notify lib.condition_of job exec) job exec s

  module _ (outside : AreOutside lib) where
    deliver-keeps :
        (x : Sending) (s : Store) → Calm s → (deliver lib x s).1.executions ≡ s.executions
    unfolding deliver
    deliver-keeps x s calm =
        let (_, settled, _) =
          send-SettledBy (notifiers lib) (notifiers-AllSendOutside lib outside) x s calm in
        ap (λ (p : Result (Unit {0}) × Store). p.1.executions) settled.answered

    module _ (workers : ℤ) (s : Store) (r : RunState Store) where
      abbrev pub started : RunState Store
      started = start (new_scheduler lib workers) (deliver lib) s

      abbrev pub Run : Type 0
      Run = Steps (new_scheduler lib workers) (deliver lib) started r

      -- In no state that the run passes is a failure of the database to come; TEXT columns take the
      -- output and the error of each execution that ends and the mark of each refused claim; and no
      -- claim is marked through a context that is done.
      abbrev pub IsUntroubled : Run → Type 0
      IsUntroubled steps =
          AllCalm (executors lib) lib.condition_of
            (some (
              dispatch store_runtime channel_repository notification_repository
                lib.http.show_duration))
            lib.parse workers (deliver lib) steps

      -- In every state that is reached by a run of the scheduler in which no failure of the database
      -- is to come, TEXT columns take the output and the error of each execution that ends and the
      -- mark of each refused claim, and no claim is marked through a context that is done, an
      -- execution that is running is the one of a claim that is being offered, in the channel or with
      -- a worker, unless its row stood there when the run began, after the sweep. `outside` is that
      -- commands, requests and mails write no table.
      pub running_under_way :
          (steps : Run) (e : Execution)
          → IsUntroubled steps
          → In e r.store.executions
          → e.status ≡ running
          → ((x : JobClaim) × IsUnderWay r.pending r.queue r.busy x × (x.execution_id ≡ e.id))
            ⊎ In e started.store.executions
      running_under_way steps e calm =
          Steps-RowsOk (executors lib) lib.condition_of _ lib.parse workers (deliver lib)
            (executors-AreSound lib outside) dispatcher-KeepsRuns deliver-keeps
            started.store.executions _ r steps calm (λ e m runs. inr m) e

      -- When the scheduler's Run has returned, from a run in which no failure of the database is to
      -- come, TEXT columns take the output and the error of each execution that ends and the mark of
      -- each refused claim, and no claim is marked through a context that is done, no execution is
      -- left running but those whose rows stood there when the run began, after the sweep. `outside`
      -- is that commands, requests and mails write no table.
      pub run_leaves_none_running :
          (steps : Run) (e : Execution)
          → IsUntroubled steps
          → r.phase ≡ returned
          → In e r.store.executions
          → e.status ≡ running
          → In e started.store.executions
      run_leaves_none_running steps e calm at m runs =
          let i =
            Steps-Invariant (new_scheduler lib workers) (deliver lib) _ r steps
              (start-Invariant (new_scheduler lib workers) (deliver lib) s) in
          let idle = i.no_work_left (ap is_drained at) in
          elim (running_under_way steps e calm m runs) [
            | inr listed ↦ listed
            | inl (x, inl offered, _) ↦
                absurd (subst (In x) (i.no_tick_left (ap is_closed at)) offered)
            | inl (x, inr (inl queued), _) ↦ absurd (subst (In x) idle.0 queued)
            | inl (x, inr (inr busy), _) ↦ absurd (subst (In x) idle.1 busy)
          ]
