-- ===== src/Scheduler/Run/Settled.antt =====
-- What a run leaves in the table of executions: a step at a time, over the PostgreSQL repositories.
use signal_flow.Base.{
  ℤ, ◌≡◌, sym, ap, subst, ◌∙◌, ◌⊎◌, inl, inr, String, Option, List, [], ◌∷◌, ◌++◌, Result, ok, M,
  In, Ensures-eq-ok, Ensures-eq-err, In-append, In-middle, In-map, In-append_left, In-append_right,
}
use signal_flow.Domain.{RawMessage, Job, JobClaim, Execution, running}
use signal_flow.Domain.Ports.{CronParser}
use signal_flow.Store.{Db, Store}
use signal_flow.Store.Statement.{store_runtime}
use signal_flow.Repository.Adapters.{job_repository, execution_repository}
use signal_flow.Repository.Claim.Effect.{claimed_execution}
use signal_flow.Repository.Claim.Laws.{claim_due-ClaimStep}
use signal_flow.Notifier.Dispatch.{Sending}
use signal_flow.Scheduler.Execute.{Executors}
use signal_flow.Scheduler.Execute.Laws.{AreSound, KeepsRuns}
use signal_flow.Scheduler.Execute.Rows.{TakesOutcome, execute_job_finishes}
use signal_flow.Scheduler.Tick.Laws.{
  TakesReason, Marked, Marked-row, mark_failed-Marked, next_run-OnlyReads, planned_run,
}
use signal_flow.Scheduler.Run.{
  Scheduler, RunState, Step, stop, claim, claim_fails, enqueue, refuse_stopping, refuse_saturated,
  claim_cut_off, refuse_cut_off, take, finish, send_ends, close, cancel, drained, notified, Steps,
  rest, then_step, no_offer, limit, execute, fail_claim,
}

-- No failure of the database is to come.
abbrev pub Calm : Store → Type 0
Calm s = s.faults ≡ []

-- The claim is offered, in the channel or with a worker.
abbrev pub IsUnderWay : List JobClaim → List JobClaim → List JobClaim → JobClaim → Type 0
IsUnderWay pending queue busy x = In x pending ⊎ (In x queue ⊎ In x busy)

-- A row that is running belongs to a claim that is under way, or stood there before.
abbrev pub Covered :
    List Execution → List JobClaim → List JobClaim → List JobClaim → Execution → Type 0
Covered before pending queue busy e =
    e.status ≡ running
    → ((x : JobClaim) × IsUnderWay pending queue busy x × (x.execution_id ≡ e.id)) ⊎ In e before

abbrev pub AllCovered :
    List Execution → List JobClaim → List JobClaim → List JobClaim → Store → Type 0
AllCovered before pending queue busy s =
    (e : Execution) → In e s.executions → Covered before pending queue busy e

-- The claims of a row go from places to places.
moves :
    (before : List Execution) (ps qs bs ps' qs' bs' : List JobClaim) (e : Execution)
    → ((x : JobClaim) → IsUnderWay ps qs bs x → x.execution_id ≡ e.id → IsUnderWay ps' qs' bs' x)
    → Covered before ps qs bs e
    → Covered before ps' qs' bs' e
moves before ps qs bs ps' qs' bs' e go old runs = elim (old runs) [
  | inl (x, at, same) ↦ inl (x, go x at same, same)
  | inr listed ↦ inr listed
]

module _ (executors : Executors Store) (unmarshal : RawMessage → Result String)
    (dispatch : Option (Job → Execution → M Store (List Sending))) (parse : CronParser)
    (workers : ℤ) (deliver : Sending → M Store (Unit {0})) where
  abbrev pub scheduler : Scheduler Store
  scheduler = record {
    runtime = store_runtime;
    job_repo = job_repository;
    exec_repo = execution_repository;
    executors = executors;
    unmarshal = unmarshal;
    dispatch = dispatch;
    parse = parse;
    workers = workers;
  }

  -- What the step writes to the table of executions reaches it: TEXT columns take the output and
  -- the error of the execution that ends, or the mark of a refused claim; and the step is not the
  -- mark of a claim through the context when it is done.
  abbrev IsHeeded : {r t : RunState Store} → Step scheduler deliver r t → Type 0
  IsHeeded (refuse_cut_off _ _) = ⊥
  IsHeeded {r} (refuse_stopping _ _) = TakesReason "scheduler shutting down" r.store
  IsHeeded {r} (refuse_saturated _) = TakesReason "worker pool saturated" r.store
  IsHeeded {r} (finish _ x _ _) = TakesOutcome executors unmarshal dispatch x r.store
  IsHeeded _ = Unit {0}

  -- Each step of the run is taken on a calm store, and what it writes reaches it.
  abbrev pub AllCalm : {r t : RunState Store} → Steps scheduler deliver r t → Type 0
  AllCalm rest = Unit {0}
  AllCalm {r} (then_step step steps) = Calm r.store × IsHeeded step × AllCalm steps

  abbrev pub KeepsExecutions : Type 0
  KeepsExecutions = (x : Sending) (s : Store) → Calm s → (deliver x s).1.executions ≡ s.executions

  module _ (sound : AreSound executors) (keeps : KeepsRuns executors unmarshal dispatch)
      (outside : KeepsExecutions) (before : List Execution) where
    claimed_rows :
        (qs bs claims : List JobClaim) (s u : Store)
        → job_repository.claim_due
            (limit scheduler deliver)
            (planned_run parse (no_offer scheduler deliver) workers)
            s
          ≡ (ok claims, u)
        → AllCovered before [] qs bs s
        → AllCovered before claims qs bs u
    claimed_rows qs bs claims s u done old e m =
        let step =
          Ensures-eq-ok
            (claim_due-ClaimStep (limit scheduler deliver)
              (planned_run parse (no_offer scheduler deliver) workers)
              (next_run-OnlyReads parse (no_offer scheduler deliver) workers) s)
            done in
        elim (In-append e s.executions _ (subst (In e) step.effect.started m)) [
          | inl listed ↦
              moves before [] qs bs claims qs bs e
                (λ x at same. elim at [
                  | inl none_left ↦ elim none_left [ ]
                  | inr working ↦ inr working
                ])
                (old e listed)
          | inr added ↦ λ runs.
              let (x, listed, is) = In-map (claimed_execution step.started_at) claims e added in
              inl (x, inl listed, sym (ap (λ (y : Execution). y.id) is))
        ]

    refused_rows :
        (qs bs xs : List JobClaim) (x : JobClaim) (s : Store) (out : Result (Unit {0}) × Store)
        → Marked x.execution_id s out
        → AllCovered before (x ∷ xs) qs bs s
        → AllCovered before xs qs bs out.1
    refused_rows qs bs xs x s out marked old e m =
        elim (Marked-row x.execution_id s out e marked m) [
          | inl (is, _) ↦ λ runs. cc
          | inr (listed, other) ↦
              moves before (x ∷ xs) qs bs xs qs bs e
                (λ y at same. elim at [
                  | inl (inl it) ↦
                      absurd (other (sym same ∙ ap (λ (z : JobClaim). z.execution_id) it))
                  | inl (inr later) ↦ inl later
                  | inr working ↦ inr working
                ])
                (old e listed)
        ]

    finished_rows :
        (ps qs first others : List JobClaim) (x : JobClaim) (s : Store)
        → Calm s
        → TakesOutcome executors unmarshal dispatch x s
        → AllCovered before ps qs (first ++ x ∷ others) s
        → AllCovered before ps qs (first ++ others) (execute scheduler deliver x s).1
    finished_rows ps qs first others x s calm takes old e m =
        elim (execute_job_finishes executors unmarshal dispatch sound keeps x s calm e takes m) [
          | inl (_, final, _) ↦ λ runs. absurd (final runs)
          | inr (other, listed) ↦
              moves before ps qs (first ++ x ∷ others) ps qs (first ++ others) e
                (λ y at same. elim at [
                  | inl offered ↦ inl offered
                  | inr (inl queued) ↦ inr (inl queued)
                  | inr (inr busy) ↦ elim (In-middle y x first others busy) [
                    | inl it ↦ absurd (other (sym same ∙ ap (λ (z : JobClaim). z.execution_id) it))
                    | inr there ↦ inr (inr there)
                  ]
                ])
                (old e listed)
        ]

    -- A claim that changes its place.
    enqueued :
        (qs bs xs : List JobClaim) (x y : JobClaim)
        → IsUnderWay (x ∷ xs) qs bs y
        → IsUnderWay xs (qs ++ x ∷ []) bs y
    enqueued qs bs xs x y (inl (inl e)) = inr (inl (In-append_right y qs (x ∷ []) (inl e)))
    enqueued qs bs xs x y (inl (inr m)) = inl m
    enqueued qs bs xs x y (inr (inl m)) = inr (inl (In-append_left y qs (x ∷ []) m))
    enqueued qs bs xs x y (inr (inr m)) = inr (inr m)

    taken :
        (ps bs xs : List JobClaim) (x y : JobClaim)
        → IsUnderWay ps (x ∷ xs) bs y
        → IsUnderWay ps xs (x ∷ bs) y
    taken ps bs xs x y (inl m) = inl m
    taken ps bs xs x y (inr (inl (inl e))) = inr (inr (inl e))
    taken ps bs xs x y (inr (inl (inr m))) = inr (inl m)
    taken ps bs xs x y (inr (inr m)) = inr (inr (inr m))

    abbrev RowsOk : RunState Store → Type 0
    RowsOk r = AllCovered before r.pending r.queue r.busy r.store

    refused_RowsOk :
        (r : RunState Store) (x : JobClaim) (xs : List JobClaim) (reason : String)
        → r.pending ≡ x ∷ xs
        → Calm r.store
        → TakesReason reason r.store
        → RowsOk r
        → AllCovered before xs r.queue r.busy (fail_claim scheduler deliver x reason r.store).1
    refused_RowsOk r x xs reason was calm takes old =
        refused_rows r.queue r.busy xs x r.store _
          (mark_failed-Marked parse (no_offer scheduler deliver) workers x.execution_id reason
            r.store calm takes)
          (subst (λ ps. AllCovered before ps r.queue r.busy r.store) was old)

    Step-RowsOk :
        (r t : RunState Store) (step : Step scheduler deliver r t)
        → Calm r.store
        → IsHeeded step
        → RowsOk r
        → RowsOk t
    Step-RowsOk r t (stop _) calm heeded old = old
    Step-RowsOk r t (claim {claims = claims} {s = s} at none_pending done) calm heeded old =
        claimed_rows r.queue r.busy claims r.store s done
          (subst (λ ps. AllCovered before ps r.queue r.busy r.store) none_pending old)
    Step-RowsOk r t (claim_fails {e = x} {s = s} at none_pending done) calm heeded old = λ e m.
        old e (
          subst (λ (d : Db). In e d.executions)
            (Ensures-eq-err
              (claim_due-ClaimStep (limit scheduler deliver)
                (planned_run parse (no_offer scheduler deliver) workers)
                (next_run-OnlyReads parse (no_offer scheduler deliver) workers) r.store)
              done)
            m)
    Step-RowsOk r t (enqueue {x = x} {xs = xs} was _) calm heeded old = λ e m.
        moves before (x ∷ xs) r.queue r.busy xs (r.queue ++ x ∷ []) r.busy e
          (λ y at _. enqueued r.queue r.busy xs x y at)
          (subst (λ ps. Covered before ps r.queue r.busy e) was (old e m))
    Step-RowsOk r t (refuse_stopping {x = x} {xs = xs} was _) calm heeded old =
        refused_RowsOk r x xs "scheduler shutting down" was calm heeded old
    Step-RowsOk r t (refuse_saturated {x = x} {xs = xs} was) calm heeded old =
        refused_RowsOk r x xs "worker pool saturated" was calm heeded old
    Step-RowsOk r t (claim_cut_off _ _ _) calm heeded old = old
    Step-RowsOk r t (refuse_cut_off _ _) calm heeded old = absurd heeded
    Step-RowsOk r t (take {x = x} {xs = xs} was _) calm heeded old = λ e m.
        moves before r.pending (x ∷ xs) r.busy r.pending xs (x ∷ r.busy) e
          (λ y at _. taken r.pending r.busy xs x y at)
          (subst (λ qs. Covered before r.pending qs r.busy e) was (old e m))
    Step-RowsOk r t (finish first x others was) calm heeded old =
        finished_rows r.pending r.queue first others x r.store calm heeded
          (subst (λ bs. AllCovered before r.pending r.queue bs r.store) was old)
    Step-RowsOk r t (send_ends first x others was) calm heeded old =
        λ e m. old e (subst (In e) (outside x r.store calm) m)
    Step-RowsOk r t (close _ _ _) calm heeded old = old
    Step-RowsOk r t (cancel _) calm heeded old = old
    Step-RowsOk r t (drained _ _ _) calm heeded old = old
    Step-RowsOk r t (notified _ _) calm heeded old = old

    pub Steps-RowsOk :
        (r t : RunState Store) (steps : Steps scheduler deliver r t)
        → AllCalm steps
        → RowsOk r
        → RowsOk t
    Steps-RowsOk r t rest calm old = old
    Steps-RowsOk r t (then_step step steps) calm old =
        Steps-RowsOk _ t steps calm.2 (Step-RowsOk r _ step calm.0 calm.1 old)
