-- ===== src/App/Consistency.antt =====
-- The program at work: the steps of its scheduler and the requests that its router serves, in any
-- order, on one store.
use signal_flow.Base.{Result, ℤ, String, ◌≡◌, subst, ap, some, All, All-mono, In}
use signal_flow.Base.Keeping.{Keeps, run_next-keeps}
use signal_flow.Domain.{JobClaim}
use signal_flow.Store.{Store}
use signal_flow.Store.Statement.{store_runtime}
use signal_flow.Executor.{Context}
use signal_flow.Repository.Adapters.{
  job_repository, execution_repository, channel_repository, notification_repository,
}
use signal_flow.Repository.Integrity.{IsConsistent, claim_due}
use signal_flow.Repository.Integrity.Laws.{after-IsConsistent}
use signal_flow.Repository.Integrity.Keeping.{
  HasConsistent, of_same, runtime-Keeps, users-Keep, jobs-Keep, executions-Keep, channels-Keep,
  notifications-Keep,
}
use signal_flow.Notifier.Dispatch.{Sending}
use signal_flow.Notifier.Dispatch.Delivery.{SendsOutside}
use signal_flow.Scheduler.Execute.Laws.{ActsOutside, AnswersFinal}
use signal_flow.Scheduler.Tick.{mark_failed, recover_stale}
use signal_flow.Scheduler.Tick.Laws.{next_run-OnlyReads, planned_run}
use signal_flow.Scheduler.Keeping.{
  ExecutorKeeps, NotifierKeeps, dispatch-keeps, execute_job-keeps, send-keeps,
}
use signal_flow.Scheduler.Run.{
  RunState, Step, stop, claim, claim_fails, enqueue, refuse_stopping, refuse_saturated,
  claim_cut_off, refuse_cut_off, take, finish, send_ends, close, cancel, drained, notified, start,
  no_offer, limit, fail_claim, claim_next, execute,
}
use signal_flow.Handler.Http.{Request}
use signal_flow.Handler.Guard.{SigningMethod, key_for}
use signal_flow.Handler.Router.{Route, routes, serve}
use signal_flow.Handler.Keeping.Routes.{PartsKeep, serve-keeps}
use signal_flow.App.{Libraries, executors, notifiers, deliver, new_scheduler, new_parts}
use signal_flow.App.Outside.{AreOutside, executors-AreSound, notifiers-AllSendOutside}

-- The libraries that hash a password, parse a token, ping the pool and serve a file write no table.
pub record LeaveTables {R Pool : Type 0} (lib : Libraries R Pool) : Type 0 where
  pub hash : (password : String) (s : Store) → (lib.hash password s).1.db ≡ s.db
  pub parse_token :
      (key : SigningMethod → Result String) (token : String) (s : Store)
      → (lib.parse_token key token s).1.db ≡ s.db
  pub ping : (ctx : Context) (pool : Pool) (s : Store) → (lib.ping ctx pool s).1.db ≡ s.db
  pub static : (r : Request) (s : Store) → (lib.static r s).1.db ≡ s.db

of_some : {A : Type 0} {a b : A} → some a ≡ some b → a ≡ b
of_some e = cc

module _ {R Pool : Type 0} (lib : Libraries R Pool) (workers : ℤ) (secret : String)
    (pool : Pool) where
  -- A step of the scheduler, or a request that the router serves between two of them.
  pub data Change : RunState Store → RunState Store → Type 0 where
    scheduled :
        {r t : RunState Store} → Step (new_scheduler lib workers) (deliver lib) r t → Change r t
    served :
        {r : RunState Store} (route : Route Store) (req : Request)
        → In route (routes (new_parts lib secret pool))
        → Change r (record r { store = (serve (new_parts lib secret pool) route req r.store).1 })

  pub data Changes : RunState Store → RunState Store → Type 0 where
    none_yet : {r : RunState Store} → Changes r r
    then_change : {r t u : RunState Store} → Change r t → Changes t u → Changes r u

  module _ (outside : AreOutside lib) (leave : LeaveTables lib) where
    parts-Keep : PartsKeep HasConsistent (new_parts lib secret pool)
    parts-Keep = record {
      runtime = runtime-Keeps;
      users = users-Keep;
      jobs = jobs-Keep;
      channels = channels-Keep;
      executions = executions-Keep;
      notifications = notifications-Keep;
      hash = λ password s c. of_same (leave.hash password s) c;
      verify = λ token s c. of_same (leave.parse_token (key_for secret) token s) c;
      ping = λ ctx s c. of_same (leave.ping ctx pool s) c;
      static = λ r s c. of_same (leave.static r s) c;
    }

    executors-Keep : All (λ p. ExecutorKeeps HasConsistent p.1) (executors lib)
    executors-Keep =
        All-mono (λ p. ActsOutside p.1 × AnswersFinal p.1) (λ p. ExecutorKeeps HasConsistent p.1)
          (executors lib)
          (λ p sound ctx config s c. of_same (ap (λ (t : Store). t.db) (sound.0 ctx config s).1) c)
          (executors-AreSound lib outside)

    notifiers-Keep : All (λ p. NotifierKeeps HasConsistent p.1) (notifiers lib)
    notifiers-Keep =
        All-mono (λ p. SendsOutside p.1) (λ p. NotifierKeeps HasConsistent p.1) (notifiers lib)
          (λ p sound ctx ch msg s c. of_same (ap (λ (t : Store). t.db) (sound ctx ch msg s).1) c)
          (notifiers-AllSendOutside lib outside)

    fail_claim-Keeps :
        (x : JobClaim) (reason : String)
        → Keeps HasConsistent (fail_claim (new_scheduler lib workers) (deliver lib) x reason)
    unfolding mark_failed
    fail_claim-Keeps x reason s c =
        run_next-keeps HasConsistent _ _ (runtime-Keeps.now s c)
          λ now t k. run_next-keeps HasConsistent _ _ (executions-Keep.update _ t k) λ r u h. h

    claims-Keep :
        (s : Store)
        → IsConsistent s.db
        → IsConsistent (claim_next (new_scheduler lib workers) (deliver lib) s).1.db
    claims-Keep s c =
        after-IsConsistent
          (claim_due (limit (new_scheduler lib workers) (deliver lib))
            (planned_run lib.parse (no_offer (new_scheduler lib workers) (deliver lib)) workers))
          s
          (next_run-OnlyReads lib.parse (no_offer (new_scheduler lib workers) (deliver lib))
            workers)
          c

    execute-Keeps :
        (x : JobClaim) → Keeps HasConsistent (execute (new_scheduler lib workers) (deliver lib) x)
    execute-Keeps x =
        execute_job-keeps HasConsistent store_runtime runtime-Keeps job_repository jobs-Keep
          execution_repository executions-Keep (executors lib) executors-Keep lib.condition_of _
          (λ start is job exec.
            subst (λ d. Keeps HasConsistent (d job exec)) (of_some is)
              (dispatch-keeps HasConsistent store_runtime runtime-Keeps channel_repository
                channels-Keep notification_repository notifications-Keep lib.http.show_duration job
                exec))
          x

    deliver-Keeps : (x : Sending) → Keeps HasConsistent (deliver lib x)
    unfolding deliver
    deliver-Keeps x =
        send-keeps HasConsistent notification_repository notifications-Keep (notifiers lib)
          notifiers-Keep x

    start-Keeps :
        (s : Store)
        → IsConsistent s.db
        → IsConsistent (start (new_scheduler lib workers) (deliver lib) s).store.db
    unfolding recover_stale
    start-Keeps s c = run_next-keeps HasConsistent _ _ (runtime-Keeps.now s c) λ now t k.
        run_next-keeps HasConsistent _ _ (executions-Keep.recover_stale_running _ t k) λ r u h. h

    -- The state of a call that has answered.
    answered :
        {A : Type 0} {out : A × Store} {a : A} {t : Store}
        → out ≡ (a, t)
        → HasConsistent out.1
        → HasConsistent t
    answered e c = subst (λ (p : _ × Store). HasConsistent p.1) e c

    Step-Keeps :
        (r t : RunState Store)
        → Step (new_scheduler lib workers) (deliver lib) r t
        → HasConsistent r.store
        → HasConsistent t.store
    Step-Keeps r t (stop _) c = c
    Step-Keeps r t (claim _ _ is) c = answered is (claims-Keep r.store c)
    Step-Keeps r t (claim_fails _ _ is) c = answered is (claims-Keep r.store c)
    Step-Keeps r t (enqueue _ _) c = c
    Step-Keeps r t (refuse_stopping {x = x} _ _) c = fail_claim-Keeps x _ r.store c
    Step-Keeps r t (refuse_saturated {x = x} _) c = fail_claim-Keeps x _ r.store c
    Step-Keeps r t (claim_cut_off _ _ _) c = c
    Step-Keeps r t (refuse_cut_off _ _) c = c
    Step-Keeps r t (take _ _) c = c
    Step-Keeps r t (finish _ x _ _) c = execute-Keeps x r.store c
    Step-Keeps r t (send_ends _ x _ _) c = deliver-Keeps x r.store c
    Step-Keeps r t (close _ _ _) c = c
    Step-Keeps r t (cancel _) c = c
    Step-Keeps r t (drained _ _ _) c = c
    Step-Keeps r t (notified _ _) c = c

    Changes-Keep :
        (r t : RunState Store) → Changes r t → HasConsistent r.store → HasConsistent t.store
    Changes-Keep r t none_yet c = c
    Changes-Keep r t (then_change (scheduled step) changes) c =
        Changes-Keep _ t changes (Step-Keeps r _ step c)
    Changes-Keep r t (then_change (served route req listed) changes) c = Changes-Keep _ t changes (
        serve-keeps HasConsistent (new_parts lib secret pool) parts-Keep route listed req r.store c)

    -- Whatever the program does, any interleaving of the steps of its scheduler, its workers and its
    -- sends with requests on any of its routes, and whatever fails, tables that were consistent when
    -- it started are consistent: identifiers and addresses unique, every reference to a stored row,
    -- every CHECK and NOT NULL of the jobs and channels met. Commands, requests to others, mails and
    -- the libraries for passwords, tokens, the pool and the files write no table.
    pub program-IsConsistent :
        (s : Store) (r : RunState Store)
        → IsConsistent s.db
        → Changes (start (new_scheduler lib workers) (deliver lib) s) r
        → IsConsistent r.store.db
    program-IsConsistent s r c changes = Changes-Keep _ r changes (start-Keeps s c)
