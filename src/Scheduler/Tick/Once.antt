-- ===== src/Scheduler/Tick/Once.antt =====
-- When the program, which computes next runs with nextRun, may claim a claimed job again.
use signal_flow.Base.{
  ℕ, ℤ, ◌≡◌, ◌<◌, ◌≤◌, refl, ap, subst, ◌∙◌, ◌⊎◌, inl, inr, String, false, some, Option, List, [],
  ◌∷◌, Result, ok, err, Error, M, In, In-All, All, All-mono, Ensures, returns, Ensures-mono,
  Ensures-run_next, Ensures-eq-ok, Result-cases, run_next, arith, suc,
}
use signal_flow.Domain.{Time, Job, JobClaim}
use signal_flow.Domain.Ports.{CronParser}
use signal_flow.Store.{Store, current}
use signal_flow.Store.Statement.{statement-Ensures, settle-Ensures, transaction-Ensures}
use signal_flow.Repository.Constraints.{require-Ensures}
use signal_flow.Repository.Claim.{
  is_claimable, insert_running, claim_job, claim_one, claim_jobs, claim_due,
}
use signal_flow.Repository.Claim.Selection.{Locked, select_for_update-Locked}
use signal_flow.Repository.Claim.Laws.{claim_due-ClaimStep, claimed_row, unlock-Ensures}
use signal_flow.Scheduler.Tick.{Offer, next_run}
use signal_flow.Scheduler.Tick.Laws.{planned_run, next_run-OnlyReads}

-- The clock has neither changed nor been read.
abbrev Still : Store → Store → Type 0
Still s t = (t.clock ≡ s.clock) × (t.reads ≡ s.reads)

claim_job-Still :
    (began now : Time) (job : Job) (at : Time) (s : Store)
    → Ensures
        (λ c u. (c.job ≡ record job { next_run_at = some at }) × Still s u)
        (λ _ _. Unit {0})
        (claim_job began now job at s)
unfolding claim_job run_next insert_running
claim_job-Still began now job at s =
    Ensures-run_next _
      (statement-Ensures {P = λ _ u. Still s u} _ s (λ gs. settle-Ensures _ _ _ (refl, refl))
        (λ _ _. tt))
      λ _ u h.
        Ensures-run_next _
          (statement-Ensures {P = λ _ v. Still s v} _ (record u { drawn = suc u.drawn })
            (λ gs.
              require-Ensures _ _ _ _
                (λ _. require-Ensures _ _ _ _ (λ _. settle-Ensures _ _ _ h) tt) tt)
            (λ _ _. tt))
          λ _ v k. returns (refl, k)

module _ (parse : CronParser) (offer : JobClaim → M Store Offer) (workers : ℤ) where
  -- The claim's next run is what its schedule gives for a reading of the clock between two counts.
  abbrev pub IsTimed : (ℕ → Time) → ℕ → ℕ → JobClaim → Type 0
  IsTimed clock first end c =
      (next : Time → Time) × (parse c.job.schedule ≡ ok next)
      × ((n : ℕ) × (first ≤ n) × ((n < end) × (c.job.next_run_at ≡ some (next (clock n)))))

  record Timed (s t : Store) (cs : List JobClaim) : Type 0 where
    same_clock : t.clock ≡ s.clock
    forward : s.reads ≤ t.reads
    each : All (IsTimed s.clock s.reads t.reads) cs

  abbrev PlannedTime : Job → Store → Result Time → Store → Type 0
  PlannedTime job s r t =
      ((next : Time → Time) × (parse job.schedule ≡ ok next)
        × ((r ≡ ok (next (s.clock s.reads))) × (t ≡ record s { reads = suc s.reads })))
      ⊎ ((e : Error) × (r ≡ err e) × (t ≡ s))

  planned_run-PlannedTime :
      (job : Job) (s : Store)
      → PlannedTime job s
          (planned_run parse offer workers job.schedule s).0
          (planned_run parse offer workers job.schedule s).1
  unfolding next_run run_next
  planned_run-PlannedTime job s = elim (Result-cases (parse job.schedule)) [
    | inl (next, e) ↦ inl (next, e, (rw (e, next_run) refl, rw (e, next_run) refl))
    | inr (x, e) ↦ inr (x, rw (e, next_run) refl, rw (e, next_run) refl)
  ]

  claim_one-Timed :
      (began now : Time) (job : Job) (rest : M Store (List JobClaim)) (s t : Store)
      (r : Result Time)
      → ((u : Store) → Ensures (λ cs v. Timed u v cs) (λ _ _. Unit {0}) (rest u))
      → PlannedTime job s r t
      → Ensures (λ cs v. Timed s v cs) (λ _ _. Unit {0}) (claim_one began now job rest r t)
  unfolding claim_one run_next
  claim_one-Timed began now job rest s t r ih (inr (e, failed, same)) = rw (failed, same) (ih s)
  claim_one-Timed began now job rest s t r ih (inl (next, parsed, (gave, moved))) =
      rw (gave, moved)
        (Ensures-run_next _
          (claim_job-Still began now job (next (s.clock s.reads))
            (record s { reads = suc s.reads }))
          λ c u one. Ensures-run_next _ (ih u) λ cs v more.
            let same : v.clock ≡ s.clock = more.same_clock ∙ one.1.0 in
            let later : suc s.reads ≤ v.reads = subst (λ k. k ≤ v.reads) one.1.1 more.forward in
            returns (record {
              same_clock = same;
              forward = omega arith;
              each = (
                (
                  next,
                  rw one.0 parsed,
                  (s.reads, omega arith, (later, ap (λ (k : Job). k.next_run_at) one.0)),
                ),
                All-mono (IsTimed u.clock u.reads v.reads) (IsTimed s.clock s.reads v.reads) cs
                    (λ d timed.
                      let (f, p, (n, low, (high, at))) = timed in
                      (
                        f,
                        p,
                        (
                          n,
                          (let from : suc s.reads ≤ n = subst (λ k. k ≤ n) one.1.1 low in
                              omega arith),
                          (high, at ∙ ap (λ (k : ℕ → Time). some (f (k n))) one.1.0),
                        ),
                      ))
                    more.each,
              );
            }))

  claim_jobs-Timed :
      (began now : Time) (jobs : List Job) (s : Store)
      → Ensures
          (λ cs t. Timed s t cs)
          (λ _ _. Unit {0})
          (claim_jobs (planned_run parse offer workers) began now jobs s)
  unfolding claim_jobs run_next
  claim_jobs-Timed began now [] s =
      returns (record { same_clock = refl; forward = omega arith; each = tt })
  claim_jobs-Timed began now (job ∷ jobs) s =
      claim_one-Timed began now job (claim_jobs (planned_run parse offer workers) began now jobs) s
        _ _ (claim_jobs-Timed began now jobs) (planned_run-PlannedTime job s)

  -- The schedules are cron expressions as the library reads them: the next date is after the time
  -- given, or the zero time where there is none.
  abbrev pub IsCron : Type 0
  IsCron =
      (schedule : String) (next : Time → Time) (now : Time)
      → parse schedule ≡ ok next
      → (next now ≡ 0) ⊎ (now < next now)

  claim_due-Timed :
      (limit : ℤ) (s : Store)
      → Ensures
          (λ cs t. Timed s t cs)
          (λ _ _. Unit {0})
          (claim_due limit (planned_run parse offer workers) s)
  unfolding claim_due run_next
  claim_due-Timed limit s = unlock-Ensures s.locked _ (
      transaction-Ensures _ s
        (λ gs.
          Ensures-run_next _
            (Ensures-mono (select_for_update-Locked limit (record s { faults = gs })) (λ _ _ h. h)
              (λ _ _ _. tt))
            λ jobs u h.
              Ensures-mono
                (claim_jobs-Timed (current s) (u.clock u.reads) jobs
                  (record u { reads = suc u.reads }))
                (λ cs t timed. (λ hs. from_start gs hs jobs u t cs h timed, λ e hs. tt))
                (λ _ _ _. tt))
        (λ _ _. tt))
    where
      from_start :
          (gs hs : List (Option String)) (jobs : List Job) (u t : Store) (cs : List JobClaim)
          → Locked limit (record s { faults = gs }) jobs u
          → Timed (record u { reads = suc u.reads }) t cs
          → Timed s (record t { faults = hs; locked = s.locked }) cs
      from_start gs hs jobs u t cs h timed =
          let forward : suc u.reads ≤ t.reads = timed.forward in
          let low : s.reads ≤ u.reads = rw h.same_reads (omega arith) in
          record {
            same_clock = timed.same_clock ∙ h.same_clock;
            forward = omega arith;
            each =
                All-mono (IsTimed u.clock (suc u.reads) t.reads) (IsTimed s.clock s.reads t.reads)
                  cs
                  (λ d it.
                    let (f, p, (n, from, (high, at))) = it in
                    (
                      f,
                      p,
                      (
                        n,
                        omega arith,
                        (high, at ∙ ap (λ (k : ℕ → Time). some (f (k n))) h.same_clock),
                      ),
                    ))
                  timed.each;
          }

  -- Where the cron library gives, for a schedule and a time, a later time or the zero time:
  -- after a ClaimDue of the program that succeeded, a row of a claimed job carries the date that
  -- the schedule of a claim of that job gives for a reading of the clock which this ClaimDue
  -- took; the row, as it is, is not claimable before that date, from whatever tables and at
  -- whatever locks; and the date is after that reading, or the zero time.
  pub claim_due_once :
      (limit : ℤ) (s t : Store) (claims : List JobClaim) (c : JobClaim) (j : Job)
      → IsCron
      → claim_due limit (planned_run parse offer workers) s ≡ (ok claims, t)
      → In c claims
      → In j t.jobs
      → c.job.id ≡ j.id
      → (d : JobClaim) × In d claims
        × ((d.job.id ≡ j.id)
            × ((next : Time → Time) × (parse d.job.schedule ≡ ok next)
                × ((n : ℕ) × ((s.reads ≤ n) × (n < t.reads))
                    × ((j.next_run_at ≡ some (next (s.clock n)))
                        × ((next (s.clock n) ≡ 0) ⊎ (s.clock n < next (s.clock n)))
                        × ((v : Store)
                            → current v < next (s.clock n)
                            → is_claimable v j ≡ false)))))
  unfolding is_claimable
  claim_due_once limit s t claims c j cron done m listed same =
      let timed = Ensures-eq-ok (claim_due-Timed limit s) done in
      let step =
        Ensures-eq-ok
          (claim_due-ClaimStep limit (planned_run parse offer workers)
            (next_run-OnlyReads parse offer workers) s)
          done in
      let (d, found, named, at) = claimed_row c j step m listed same in
      let (next, parsed, (n, low, (high, gave))) =
        In-All (IsTimed s.clock s.reads t.reads) claims d timed.each found in
      (
        d,
        found,
        (
          named,
          (
            next,
            parsed,
            (
              n,
              (low, high),
              (
                at ∙ gave,
                cron d.job.schedule next (s.clock n) parsed,
                λ v early. rw (at ∙ gave) (ground arith),
              ),
            ),
          ),
        ),
      )
