-- ===== src/Tests/Claiming.antt =====
-- Claims on a store with one due job.
use signal_flow.Base.{
  subst, ℕ, ◌≤◌, ◌⊎◌, inr, pos, ◌<◌, ◌≡◌, ◌≢◌, refl, true, false, some, [], ◌∷◌, Ensures, ok, arith,
  run_next, In, inl,
}
use signal_flow.Domain.{Job, JobClaim, Time}
use signal_flow.Store.{Store, current}
use signal_flow.Store.Statement.{transaction, settle, query, statement}
use signal_flow.Repository.Constraints.{require}
use signal_flow.Repository.Claim.{is_claimable, select_for_update, claim_due}
use signal_flow.Repository.Claim.Selection.{select_for_update-disjoint}
use signal_flow.Repository.Claim.Laws.{ClaimStep, claim_due-ClaimStep, claim_due_again}
use signal_flow.Domain.Ports.{NextRunFunc}
use signal_flow.Scheduler.Tick.{next_run, saturated}
use signal_flow.Scheduler.Tick.Laws.{planned_run}
use signal_flow.Scheduler.Tick.Once.{IsCron, claim_due_once}
use signal_flow.Tests.Data.{
  of_ok, every_hour, store, backup, report, at_time, at_time-OnlyReads, run_row,
}

-- What the claim of the due job leaves.
abbrev pub claim_at : Time → JobClaim
claim_at t = record { job = record backup { next_run_at = some t }; execution_id = "fresh" }

abbrev pub claimed_backup : Time → Job
claimed_backup t = record backup { next_run_at = some t; updated_at = 10 }

abbrev pub store_after : Time → Store
store_after t = record store {
  db = record store.db {
    jobs = claimed_backup t ∷ report ∷ [];
    executions = run_row "old" "backup" 2 ∷ run_row "fresh" "backup" 10 ∷ [];
  };
  reads = 1;
  drawn = 1;
}

-- The same after a claim that reads the clock for the next run too.
abbrev hourly_store : Store
hourly_store = record (store_after 3611) { reads = 2 }

claim_due_backup :
    (t : Time) → claim_due (pos 2) (at_time t) store ≡ (ok (claim_at t ∷ []), store_after t)
unfolding claim_due transaction run_next settle query require
claim_due_backup t = refl

-- The claim is the step, on this store.
claim_due-ClaimStep_example :
    Ensures
      (λ cs t. ClaimStep (at_time 100) (pos 2) cs store t.db)
      (λ _ t. t.db ≡ store.db)
      (claim_due (pos 2) (at_time 100) store)
claim_due-ClaimStep_example =
    claim_due-ClaimStep (pos 2) (at_time 100) (at_time-OnlyReads 100) store

at_time-zero :
    (d : JobClaim)
    → In d (claim_at 0 ∷ [])
    → d.job.id ≡ "backup"
    → (u : Store) (at : Time) → (at_time 0 d.job.schedule u).0 ≡ ok at
    → at ≡ 0
at_time-zero d m same u at e = ground arith

-- The program's own next run, by a schedule of every hour: the due job is moved on to an hour
-- after the second reading of the clock.
abbrev hourly : NextRunFunc Store
hourly = planned_run every_hour (λ c s. (ok saturated, s)) (pos 1)

hourly_claims : claim_due (pos 2) hourly store ≡ (ok (claim_at 3611 ∷ []), hourly_store)
unfolding claim_due transaction run_next settle query require next_run
hourly_claims = refl

every_hour-IsCron : IsCron every_hour (λ c s. (ok saturated, s)) (pos 1)
every_hour-IsCron schedule next now e = inr (subst (λ f. now < f now) (of_ok e) (omega arith))

claim_due_once_example :
    (d : JobClaim) × In d (claim_at 3611 ∷ [])
    × ((d.job.id ≡ "backup")
        × ((next : Time → Time) × (every_hour d.job.schedule ≡ ok next)
            × ((n : ℕ) × ((store.reads ≤ n) × (n < hourly_store.reads))
                × (((claimed_backup 3611).next_run_at ≡ some (next (store.clock n)))
                    × ((next (store.clock n) ≡ 0) ⊎ (store.clock n < next (store.clock n)))
                    × ((v : Store)
                        → current v < next (store.clock n)
                        → is_claimable v (claimed_backup 3611) ≡ false)))))
claim_due_once_example =
    claim_due_once every_hour (λ c s. (ok saturated, s)) (pos 1) (pos 2) store hourly_store
      (claim_at 3611 ∷ []) (claim_at 3611) (claimed_backup 3611) every_hour-IsCron hourly_claims
      (inl refl) (inl refl) refl

claim_due_again_example : is_claimable (store_after 0) (claimed_backup 0) ≡ true
claim_due_again_example =
    claim_due_again (pos 2) (at_time 0) (at_time-OnlyReads 0) store (claim_at 0 ∷ [])
      (store_after 0) (claim_due_backup 0) (claim_at 0) (claimed_backup 0) at_time-zero (inl refl)
      (inl refl) refl refl refl

abbrev spare : Job
spare = record backup { id = "spare" }

-- The first transaction holds the row that it selected.
abbrev held_store : Store
held_store = record store { locked = "backup" ∷ [] }

-- By now another job is due as well.
abbrev later_store : Store
later_store = record held_store { db = record store.db { jobs = backup ∷ spare ∷ [] } }

abbrev both_held : Store
both_held = record later_store { locked = "spare" ∷ "backup" ∷ [] }

selects_backup : select_for_update (pos 2) store ≡ (ok (backup ∷ []), held_store)
unfolding select_for_update run_next query settle statement
selects_backup = refl

selects_spare : select_for_update (pos 2) later_store ≡ (ok (spare ∷ []), both_held)
unfolding select_for_update run_next query settle statement
selects_spare = refl

select_for_update-disjoint_example : backup.id ≢ spare.id
select_for_update-disjoint_example =
    select_for_update-disjoint (pos 2) (pos 2) store held_store later_store both_held (backup ∷ [])
      (spare ∷ []) backup spare selects_backup (λ id m. m) selects_spare (inl refl) (inl refl)
