-- ===== src/Scheduler/Run.antt =====
-- Run of internal/scheduler/scheduler.go, as steps between its goroutines: the loop of ticks, the
-- channel of claims, the workers, and the drain after the context is done. A worker's executeJob
-- and a send of the Dispatcher are one step each; which step comes next is the environment's. The
-- claims of a tick and the mark of a claim that waited too long go through the context of Run, so
-- that they fail once it is done; so does the sweep at the start, before which the context is not
-- done. The other writes go through a context that never ends.
pub mod Invariant
pub mod Drain
pub mod Settled
use signal_flow.Base.{
  ℕ, ℤ, pos, negsuc, ◌<◌, ◌≡◌, ◌⊎◌, String, Bool, true, false, Option, List, [], ◌∷◌, ◌++◌, Result,
  ok, err, Error, M, length,
}
use signal_flow.Domain.{RawMessage, Job, JobClaim, Execution}
use signal_flow.Domain.Ports.{Runtime, JobRepository, ExecutionRepository, CronParser}
use signal_flow.Notifier.Dispatch.{Sending}
use signal_flow.Scheduler.Execute.{Executors, execute_job}
use signal_flow.Scheduler.Tick.{Offer, saturated, claim_limit, next_run, mark_failed, recover_stale}

-- The struct Scheduler, with what `shouldNotify` and `time.Now` take from the libraries.
pub record Scheduler (S : Type 0) : Type 0 where
  pub runtime : Runtime S
  pub job_repo : JobRepository S
  pub exec_repo : ExecutionRepository S
  pub executors : Executors S
  pub unmarshal : RawMessage → Result String
  pub dispatch : Option (Job → Execution → M S (List Sending))
  pub parse : CronParser
  pub workers : ℤ

-- A count that Go's `make` or `for` takes; `make` panics on one below zero.
abbrev pub count_of : ℤ → ℕ
count_of (pos n) = n
count_of (negsuc n) = 0

-- The loop of ticks; the drain, before and after its grace period; the wait for notifications.
pub data Phase : Type 0 where
  dispatching draining cancelled notifying returned : Phase

-- `stopping` is that the context is done. `pending` are the claims of the tick under way that are
-- not settled, `queue` what the channel holds, `busy` the claims that workers run, `sends` the
-- notifications on their way. The last three fields record what was claimed so far and what has
-- become of it.
pub record RunState (S : Type 0) : Type 0 where
  pub phase : Phase
  pub stopping : Bool
  pub pending : List JobClaim
  pub queue : List JobClaim
  pub busy : List JobClaim
  pub sends : List Sending
  pub store : S
  pub claimed : List JobClaim
  pub executed : List JobClaim
  pub refused : List JobClaim

-- The sends that an executed job has started.
abbrev pub sends_of : Result (List Sending) → List Sending
sends_of (ok xs) = xs
sends_of (err e) = []

module _ {S : Type 0} (c : Scheduler S) (deliver : Sending → M S (Unit {0})) where
  abbrev pub no_offer : JobClaim → M S Offer
  no_offer claim s = (ok saturated, s)

  abbrev pub worker_count : ℕ
  worker_count = count_of c.workers

  -- `s.workers*2`, the capacity of the channel and the limit of a claim.
  abbrev pub limit : ℤ
  limit = claim_limit c.runtime c.job_repo c.exec_repo c.parse no_offer c.workers

  abbrev pub capacity : ℕ
  capacity = count_of limit

  abbrev pub claim_next : M S (List JobClaim)
  claim_next =
      c.job_repo.claim_due limit
        (next_run c.runtime c.job_repo c.exec_repo c.parse no_offer c.workers)

  abbrev pub fail_claim : JobClaim → String → M S (Unit {0})
  fail_claim claim reason =
      mark_failed c.runtime c.job_repo c.exec_repo c.parse no_offer c.workers claim.execution_id
        reason

  abbrev pub execute : JobClaim → M S (List Sending)
  execute claim =
      execute_job c.runtime c.job_repo c.exec_repo c.executors c.unmarshal c.dispatch claim

  -- What Run does before its loop, with the workers started.
  abbrev pub start : S → RunState S
  start s = record {
    phase = dispatching;
    stopping = false;
    pending = [];
    queue = [];
    busy = [];
    sends = [];
    store = (recover_stale c.runtime c.job_repo c.exec_repo c.parse no_offer c.workers s).1;
    claimed = [];
    executed = [];
    refused = [];
  }

  pub data Step : RunState S → RunState S → Type 0 where
    -- The context is done, once.
    stop : {r : RunState S} → r.stopping ≡ false → Step r (record r { stopping = true })
    -- The ticker fires and ClaimDue answers.
    claim :
        {r : RunState S} {claims : List JobClaim} {s : S}
        → r.phase ≡ dispatching
        → r.pending ≡ []
        → claim_next r.store ≡ (ok claims, s)
        → Step r (record r { pending = claims; claimed = claims ++ r.claimed; store = s })
    claim_fails :
        {r : RunState S} {e : Error} {s : S}
        → r.phase ≡ dispatching
        → r.pending ≡ []
        → claim_next r.store ≡ (err e, s)
        → Step r (record r { store = s })
    -- The three cases of the select for a claim.
    enqueue :
        {r : RunState S} {x : JobClaim} {xs : List JobClaim}
        → r.pending ≡ x ∷ xs
        → length r.queue < capacity
        → Step r (record r { pending = xs; queue = r.queue ++ x ∷ [] })
    refuse_stopping :
        {r : RunState S} {x : JobClaim} {xs : List JobClaim}
        → r.pending ≡ x ∷ xs
        → r.stopping ≡ true
        → Step r (record r {
          pending = xs;
          refused = x ∷ r.refused;
          store = (fail_claim x "scheduler shutting down" r.store).1;
        })
    refuse_saturated :
        {r : RunState S} {x : JobClaim} {xs : List JobClaim}
        → r.pending ≡ x ∷ xs
        → Step r (record r {
          pending = xs;
          refused = x ∷ r.refused;
          store = (fail_claim x "worker pool saturated" r.store).1;
        })
    -- The same two calls through the context when it is done: pgx refuses the statement.
    claim_cut_off :
        {r : RunState S} → r.phase ≡ dispatching → r.pending ≡ [] → r.stopping ≡ true → Step r r
    refuse_cut_off :
        {r : RunState S} {x : JobClaim} {xs : List JobClaim}
        → r.pending ≡ x ∷ xs
        → r.stopping ≡ true
        → Step r
            (record r { pending = xs; refused = x ∷ r.refused; store = (c.runtime.now r.store).1 })
    -- A worker that is idle takes a claim off the channel, and is done with one.
    take :
        {r : RunState S} {x : JobClaim} {xs : List JobClaim}
        → r.queue ≡ x ∷ xs
        → length r.busy < worker_count
        → Step r (record r { queue = xs; busy = x ∷ r.busy })
    finish :
        {r : RunState S} (before : List JobClaim) (x : JobClaim) (after : List JobClaim)
        → r.busy ≡ before ++ x ∷ after
        → Step r (record r {
          busy = before ++ after;
          sends = sends_of (execute x r.store).0 ++ r.sends;
          executed = x ∷ r.executed;
          store = (execute x r.store).1;
        })
    -- A goroutine of the Dispatcher ends.
    send_ends :
        {r : RunState S} (before : List Sending) (x : Sending) (after : List Sending)
        → r.sends ≡ before ++ x ∷ after
        → Step r (record r { sends = before ++ after; store = (deliver x r.store).1 })
    -- Between two ticks the loop sees that the context is done, and closes the channel.
    close :
        {r : RunState S}
        → r.phase ≡ dispatching
        → r.stopping ≡ true
        → r.pending ≡ []
        → Step r (record r { phase = draining })
    -- The grace period is over, and the context of the runs is cancelled.
    cancel : {r : RunState S} → r.phase ≡ draining → Step r (record r { phase = cancelled })
    -- All workers are done.
    drained :
        {r : RunState S}
        → (r.phase ≡ draining) ⊎ (r.phase ≡ cancelled)
        → r.queue ≡ []
        → r.busy ≡ []
        → Step r (record r { phase = notifying })
    -- `dispatcher.Wait` returns.
    notified :
        {r : RunState S}
        → r.phase ≡ notifying
        → r.sends ≡ []
        → Step r (record r { phase = returned })

  pub data Steps : RunState S → RunState S → Type 0 where
    rest : {r : RunState S} → Steps r r
    then_step : {r t u : RunState S} → Step r t → Steps t u → Steps r u
