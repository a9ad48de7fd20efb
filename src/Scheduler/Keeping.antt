-- ===== src/Scheduler/Keeping.antt =====
-- What the repositories, the executors and the notifiers keep, every step of the scheduler keeps.
use signal_flow.Base.{
  ℤ, String, Option, none, some, List, [], ◌∷◌, Result, ok, err, M, All, Bool, true, false, pure,
  Bool-cases, ◌≡◌, refl, subst, arith, inl, inr, ◌==◌, if◌then◌else◌,
}
use signal_flow.Base.Keeping.{Keeps, run_next-keeps}
use signal_flow.Domain.{
  Time, Notification, sent, failed, Job, JobClaim, Execution, Channel, RawMessage,
}
use signal_flow.Domain.Ports.{
  Runtime, ChannelRepository, NotificationRepository, JobRepository, ExecutionRepository,
}
use signal_flow.Executor.{Context, Executor}
use signal_flow.Domain.Keeping.{
  RuntimeKeeps, JobsKeep, ExecutionsKeep, ChannelsKeep, NotificationsKeep,
}
use signal_flow.Notifier.Message.{Message, execution_message}
use signal_flow.Notifier.Dispatch.{
  Notifier, Registry, Sending, notifier_for, start_send, start_sends, dispatch_to, dispatch_all,
  dispatch, report, send_with, send,
}
use signal_flow.Scheduler.Policy.{should_notify}
use signal_flow.Scheduler.Execute.{
  Executors, executor_for, run_with, run_job, record_run, notify_with, notify, execute_job,
}

module _ {S : Type 0} (K : S → Type 0) where
  abbrev pub ExecutorKeeps : Executor S → Type 0
  ExecutorKeeps e = (ctx : Context) (config : RawMessage) → Keeps K (e ctx config)

  abbrev pub NotifierKeeps : Notifier S → Type 0
  NotifierKeeps n = (ctx : Context) (ch : Channel) (msg : Message) → Keeps K (n.send ctx ch msg)

  module _ (runtime : Runtime S) (rt : RuntimeKeeps K runtime) where
    module _ (chans : ChannelRepository S) (c : ChannelsKeep K chans)
        (notifs : NotificationRepository S) (n : NotificationsKeep K notifs)
        (show_duration : ℤ → String) where
      start_send-keeps :
          (exec : Execution) (msg : Message) (ch : Channel)
          → Keeps K (start_send runtime chans notifs show_duration exec msg ch)
      unfolding start_send
      start_send-keeps exec msg ch s k = run_next-keeps K _ _ (rt.new_uuid s k) λ id t h.
          run_next-keeps K _ _ (rt.now t h)
            λ now u g. run_next-keeps K _ _ (n.create _ u g) λ r v i. i

      round-keeps :
          (exec : Execution) (msg : Message) (ch : Channel) (enabled : Bool)
          → Keeps K (
              if enabled
              then start_send runtime chans notifs show_duration exec msg ch
              else pure [])
      round-keeps exec msg ch true s k = start_send-keeps exec msg ch s k
      round-keeps exec msg ch false s k = k

      start_sends-keeps :
          (exec : Execution) (msg : Message) (chs : List Channel)
          → Keeps K (start_sends runtime chans notifs show_duration exec msg chs)
      unfolding start_sends
      start_sends-keeps exec msg [] s k = k
      start_sends-keeps exec msg (ch ∷ chs) s k =
          run_next-keeps K _ _ (round-keeps exec msg ch ch.enabled s k)
            λ xs t h. run_next-keeps K _ _ (start_sends-keeps exec msg chs t h) λ ys u g. g

      dispatch_to-keeps :
          (job : Job) (exec : Execution) (r : Result (List Channel))
          → Keeps K (dispatch_to runtime chans notifs show_duration job exec r)
      unfolding dispatch_to execution_message
      dispatch_to-keeps job exec (err e) s k = k
      dispatch_to-keeps job exec (ok chs) s k =
          run_next-keeps K _ _ (run_next-keeps K _ _ (rt.now s k) λ now t h. h)
            λ msg t h. start_sends-keeps exec msg chs t h

      dispatch_all-keeps :
          (ids : List String) (job : Job) (exec : Execution)
          → Keeps K (dispatch_all runtime chans notifs show_duration ids job exec)
      unfolding dispatch_all
      dispatch_all-keeps [] job exec s k = k
      dispatch_all-keeps (id ∷ ids) job exec s k =
          run_next-keeps K _ _ (c.get_by_ids (id ∷ ids) s k)
            λ r t h. dispatch_to-keeps job exec r t h

      pub dispatch-keeps :
          (job : Job) (exec : Execution)
          → Keeps K (dispatch runtime chans notifs show_duration job exec)
      unfolding dispatch
      dispatch-keeps job exec = dispatch_all-keeps _ job exec

    executor_for-keeps :
        (type : String) (executors : Executors S) (e : Executor S)
        → All (λ p. ExecutorKeeps p.1) executors
        → executor_for type executors ≡ some e
        → ExecutorKeeps e
    unfolding executor_for
    executor_for-keeps type [] e h found = cc
    executor_for-keeps type ((u, x) ∷ es) e (keeps, h) found = elim (Bool-cases (u == type)) [
      | inl hit ↦ let same : x ≡ e = ground arith in subst ExecutorKeeps same keeps
      | inr miss ↦ executor_for-keeps type es e h (ground arith)
    ]

    module _ (jobs : JobRepository S) (j : JobsKeep K jobs) (execs : ExecutionRepository S)
        (x : ExecutionsKeep K execs) (executors : Executors S)
        (ex : All (λ p. ExecutorKeeps p.1) executors) (unmarshal : RawMessage → Result String)
        (dispatch : Option (Job → Execution → M S (List Sending)))
        (d : (start : Job → Execution → M S (List Sending))
          → dispatch ≡ some start
          → (job : Job) (exec : Execution) → Keeps K (start job exec)) where
      run_with-keeps :
          (e : Option (Executor S)) (job : Job) (exec : Execution)
          → ((f : Executor S) → e ≡ some f → ExecutorKeeps f)
          → Keeps K (run_with runtime jobs execs executors unmarshal dispatch e job exec)
      run_with-keeps none job exec h s k = k
      run_with-keeps (some e) job exec h s k =
          run_next-keeps K _ _ (h e refl _ job.config s k) λ r t g. g

      run_job-keeps :
          (job : Job) (exec : Execution)
          → Keeps K (run_job runtime jobs execs executors unmarshal dispatch job exec)
      unfolding run_job
      run_job-keeps job exec =
          run_with-keeps (executor_for job.type executors) job exec
            λ f found. executor_for-keeps job.type executors f ex found

      record_run-keeps :
          (job : Job) (exec : Execution) (t : Time)
          → Keeps K (record_run runtime jobs execs executors unmarshal dispatch job exec t)
      unfolding record_run
      record_run-keeps job exec at s k =
          run_next-keeps K _ _ (x.update exec s k)
            λ saved t h. run_next-keeps K _ _ (j.update _ t h) λ moved u g. g

      notify_with-keeps :
          (o : Option (Job → Execution → M S (List Sending))) (job : Job) (exec : Execution)
          → ((start : Job → Execution → M S (List Sending))
              → o ≡ some start
              → (job : Job) (exec : Execution) → Keeps K (start job exec))
          → Keeps K (notify_with runtime jobs execs executors unmarshal dispatch o job exec)
      notify_with-keeps none job exec h s k = k
      notify_with-keeps (some start) job exec h s k =
          elim (Bool-cases (should_notify unmarshal job exec)) [
            | inl e ↦ rw (e, if◌then◌else◌) (h start refl job exec s k)
            | inr e ↦ rw (e, if◌then◌else◌) k
          ]

      pub execute_job-keeps :
          (taken : JobClaim)
          → Keeps K (execute_job runtime jobs execs executors unmarshal dispatch taken)
      unfolding execute_job notify
      execute_job-keeps taken s k = run_next-keeps K _ _ (rt.now s k) λ start t h.
          run_next-keeps K _ _ (run_job-keeps taken.job _ t h) λ ran u g.
            run_next-keeps K _ _ (rt.now u g) λ finished v i.
              run_next-keeps K _ _ (record_run-keeps taken.job _ finished v i)
                λ _ w l. notify_with-keeps dispatch _ _ d w l

  module _ (notifs : NotificationRepository S) (n : NotificationsKeep K notifs)
      (registry : Registry S) (all : All (λ p. NotifierKeeps p.1) registry) where
    notifier_for-keeps :
        (type : String) (reg : Registry S) (f : Notifier S)
        → All (λ p. NotifierKeeps p.1) reg
        → notifier_for type reg ≡ some f
        → NotifierKeeps f
    unfolding notifier_for
    notifier_for-keeps type [] f h found = cc
    notifier_for-keeps type ((u, x) ∷ reg) f (keeps, h) found = elim (Bool-cases (u == type)) [
      | inl hit ↦ let same : x ≡ f = ground arith in subst NotifierKeeps same keeps
      | inr miss ↦ notifier_for-keeps type reg f h (ground arith)
    ]

    report-keeps :
        (notif : Notification) (r : Result (Unit {0})) → Keeps K (report notifs registry notif r)
    report-keeps notif (ok _) s k =
        run_next-keeps K _ _ (n.update_status notif.id sent "" s k) λ _ t h. h
    report-keeps notif (err e) s k =
        run_next-keeps K _ _ (n.update_status notif.id failed e.text s k) λ _ t h. h

    send_with-keeps :
        (o : Option (Notifier S)) (x : Sending)
        → ((f : Notifier S) → o ≡ some f → NotifierKeeps f)
        → Keeps K (send_with notifs registry o x)
    send_with-keeps none x h s k = run_next-keeps K _ _ (n.update_status _ failed _ s k) λ _ t g. g
    send_with-keeps (some f) x h s k =
        run_next-keeps K _ _ (h f refl _ x.channel x.message s k)
          λ r t g. report-keeps x.notification r t g

    pub send-keeps : (x : Sending) → Keeps K (send notifs registry x)
    unfolding send
    send-keeps x =
        send_with-keeps (notifier_for x.channel.type registry) x
          λ f found. notifier_for-keeps x.channel.type registry f all found
