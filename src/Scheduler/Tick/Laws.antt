-- ===== src/Scheduler/Tick/Laws.antt =====
-- What becomes of the claims of a tick: each goes on the channel, or its execution is an error.
use signal_flow.Base.{
  Ensures-eq-ok, Result-cases, ℕ, ℤ, ◌≡◌, ◌≢◌, refl, sym, ap, subst, ◌∙◌, ◌⊎◌, inl, inr, String,
  true, some, List, [], ◌∷◌, ◌++◌, Result, ok, M, run_next, ne_of_test, ◌==◌, In, All, All-mono,
  All-append, In-append_left, In-append_right, suc, bytes_of,
}
use signal_flow.Domain.{Time, Execution, JobClaim, error}
use signal_flow.Domain.Ports.{CronParser, NextRunFunc}
use signal_flow.Store.{Store}
use signal_flow.Store.Rows.{update_where, In-update_where}
use signal_flow.Store.Statement.{store_runtime, statement-written}
use signal_flow.Repository.Constraints.{require}
use signal_flow.Repository.Execution
use signal_flow.Repository.Execution.{set_execution, updated_execution}
use signal_flow.Repository.Adapters.{job_repository, execution_repository}
use signal_flow.Repository.Claim.Effect.{OnlyReads}
use signal_flow.Repository.Claim.Laws.{ClaimStep, claim_due-ClaimStep}
use signal_flow.Scheduler.Tick.{
  Offer, accepted, shutting_down, saturated, failed_execution, mark_failed, settle_offer, offer_all,
  tick, claim_limit, next_run,
}

-- The row is an error that came to an end.
abbrev pub IsMarked : Execution → Type 0
IsMarked e = (e.status ≡ error) × ((f : Time) × (e.finished_at ≡ some f))

-- The rows of a claim's execution are.
abbrev pub IsMarkedIn : Store → JobClaim → Type 0
IsMarkedIn t c = (e : Execution) → In e t.executions → e.id ≡ c.execution_id → IsMarked e

-- Where the claims of a tick went: on the channel or into an error; every other row was there.
pub record Accounted (claims taken : List JobClaim) (s t : Store) : Type 0 where
  pub each : All (λ c. In c taken ⊎ IsMarkedIn t c) claims
  pub rows : (e : Execution) → In e t.executions → IsMarked e ⊎ In e s.executions
  pub no_others : All (λ c. In c claims) taken

-- A choice of the select statement, which takes time only.
abbrev pub Offers : (JobClaim → M Store Offer) → Type 0
Offers offer =
    (c : JobClaim) (s : Store)
    → (o : Offer) × ((r : ℕ) × (offer c s ≡ (ok o, record s { reads = r })))

-- The store after a failure mark.
pub record Marked (id : String) (s : Store) (r : Result (Unit {0}) × Store) : Type 0 where
  pub reason : String
  pub at : Time
  pub reads : ℕ
  pub answered : r ≡ (
    ok tt,
    record s {
      reads = reads;
      db = record s.db {
        executions =
            update_where
              (λ e. e.id == id)
              (updated_execution (failed_execution id reason at))
              s.executions;
      };
    },
  )

-- A row after a failure mark.
pub Marked-row :
    (id : String) (s : Store) (r : Result (Unit {0}) × Store) (e : Execution)
    → Marked id s r
    → In e r.1.executions
    → IsMarked e ⊎ (In e s.executions × (e.id ≢ id))
unfolding updated_execution
Marked-row id s r e marked m =
    let rows =
      subst (λ (u : Store). In e u.executions)
        (ap (λ (p : Result (Unit {0}) × Store). p.1) marked.answered) m in
    let (o, old, how) =
      In-update_where (λ e. e.id == id)
        (updated_execution (failed_execution id marked.reason marked.at)) s.executions e rows in
    elim how [
      | inl (hit, is) ↦ inl (
        ap (λ (x : Execution). x.status) is,
        (marked.at, ap (λ (x : Execution). x.finished_at) is),
      )
      | inr (miss, is) ↦ inr (
        subst (λ x. In x s.executions) (sym is) old,
        λ clash. ne_of_test o.id id miss (sym (ap (λ (x : Execution). x.id) is) ∙ clash),
      )
    ]

-- TEXT columns take the record of such a mark, an empty output and the reason.
abbrev pub TakesReason : String → Store → Type 0
TakesReason reason s = (s.text_ok [] ≡ true) × (s.text_ok (bytes_of reason) ≡ true)

-- A store on which a failure can be marked: no failure is to come, and TEXT columns take the marks.
abbrev pub Writable : Store → Type 0
Writable s =
    (s.faults ≡ [])
    × TakesReason "scheduler shutting down" s
    × TakesReason "worker pool saturated" s

-- Claims that were offered: what was taken, and the store at the end.
pub record Offered (claims : List JobClaim) (s : Store) (r : Result (List JobClaim) × Store)
    : Type 0 where
  pub taken : List JobClaim
  pub store : Store
  pub answered : r ≡ (ok taken, store)
  pub accounted : Accounted claims taken s store
  pub writable : Writable store

refused :
    (c : JobClaim) (s : Store) (r : Result (Unit {0}) × Store)
    → Marked c.execution_id s r
    → Writable s
    → Offered (c ∷ []) s (run_next (λ _ t. (ok [], t)) r)
unfolding run_next
refused c s r marked ready = record {
  taken = [];
  store = r.1;
  answered =
      ap (λ (x : Result (Unit {0})). run_next (λ _ t. (ok [], t)) (x, r.1))
        (ap (λ (p : Result (Unit {0}) × Store). p.0) marked.answered);
  accounted = record {
    each = (
      inr λ e m same. elim (Marked-row c.execution_id s r e marked m) [
        | inl is ↦ is
        | inr (_, other) ↦ absurd (other same)
      ],
      tt,
    );
    rows = λ e m. elim (Marked-row c.execution_id s r e marked m) [
      | inl is ↦ inl is
      | inr (old, _) ↦ inr old
    ];
    no_others = tt;
  };
  writable = rw (ap (λ (p : Result (Unit {0}) × Store). p.1) marked.answered) ready;
}

Accounted-append :
    (c : JobClaim) (claims xs ys : List JobClaim) (s t v : Store)
    → Accounted (c ∷ []) xs s t
    → Accounted claims ys t v
    → Accounted (c ∷ claims) (xs ++ ys) s v
Accounted-append c claims xs ys s t v one more = record {
  each = (
    elim one.each.0 [
      | inl listed ↦ inl (In-append_left c xs ys listed)
      | inr marked ↦
          inr λ e m same. elim (more.rows e m) [ inl is ↦ is | inr old ↦ marked e old same ]
    ],
    All-mono (λ d. In d ys ⊎ IsMarkedIn v d) (λ d. In d (xs ++ ys) ⊎ IsMarkedIn v d) claims
        (λ d how. elim how [ inl listed ↦ inl (In-append_right d xs ys listed) | inr is ↦ inr is ])
        more.each,
  );
  rows = λ e m. elim (more.rows e m) [ inl is ↦ inl is | inr old ↦ one.rows e old ];
  no_others =
      All-append (λ d. In d (c ∷ claims)) xs ys
        (All-mono (λ d. In d (c ∷ [])) (λ d. In d (c ∷ claims)) xs
          (λ d m. elim m [ inl same ↦ inl same | inr none_left ↦ elim none_left [ ] ])
          one.no_others)
        (All-mono (λ d. In d claims) (λ d. In d (c ∷ claims)) ys (λ d m. inr m) more.no_others);
}

module _ (parse : CronParser) (offer : JobClaim → M Store Offer) (workers : ℤ) where
  pub mark_failed-Marked :
      (id reason : String) (s : Store)
      → s.faults ≡ []
      → TakesReason reason s
      → Marked id s (
          mark_failed store_runtime job_repository execution_repository parse offer workers id
            reason s)
  unfolding mark_failed Execution.update set_execution run_next require
  mark_failed-Marked id reason s calm takes = record {
    reason = reason;
    at = s.clock s.reads;
    reads = suc s.reads;
    answered =
        ap (λ u. (ok tt, u))
          (statement-written (set_execution (failed_execution id reason (s.clock s.reads)))
              (record s { reads = suc s.reads }) calm
            ∙ rw (takes.0, takes.1, require) refl);
  }

  settle_offer-Offered :
      (c : JobClaim) (o : Offer) (s : Store)
      → Writable s
      → Offered
          (c ∷ [])
          s
          (settle_offer store_runtime job_repository execution_repository parse offer workers c o s)
  unfolding settle_offer
  settle_offer-Offered c accepted s ready = record {
    taken = c ∷ [];
    store = s;
    answered = refl;
    accounted = record {
      each = (inl (inl refl), tt);
      rows = λ e m. inr m;
      no_others = (inl refl, tt);
    };
    writable = ready;
  }
  settle_offer-Offered c shutting_down s ready =
      refused c s _ (mark_failed-Marked c.execution_id "scheduler shutting down" s ready.0 ready.1)
        ready
  settle_offer-Offered c saturated s ready =
      refused c s _ (mark_failed-Marked c.execution_id "worker pool saturated" s ready.0 ready.2)
        ready

  offer_all-Offered :
      (claims : List JobClaim) (s : Store)
      → Offers offer
      → Writable s
      → Offered claims s
          (offer_all store_runtime job_repository execution_repository parse offer workers claims s)
  unfolding offer_all run_next
  offer_all-Offered [] s offers ready = record {
    taken = [];
    store = s;
    answered = refl;
    accounted = record { each = tt; rows = λ e m. inr m; no_others = tt };
    writable = ready;
  }
  offer_all-Offered (c ∷ claims) s offers ready =
      let (o, (k, chose)) = offers c s in
      let one = settle_offer-Offered c o (record s { reads = k }) ready in
      let more = offer_all-Offered claims one.store offers one.writable in
      let first : Accounted (c ∷ []) one.taken s one.store = record {
        each = one.accounted.each;
        rows = one.accounted.rows;
        no_others = one.accounted.no_others;
      } in
      record {
        taken = one.taken ++ more.taken;
        store = more.store;
        answered = rw (chose, one.answered, more.answered) refl;
        accounted =
            Accounted-append c claims one.taken more.taken s one.store more.store first
              more.accounted;
        writable = more.writable;
      }

  -- The schedules of the program read the clock only.
  abbrev pub planned_run : NextRunFunc Store
  planned_run = next_run store_runtime job_repository execution_repository parse offer workers

  pub next_run-OnlyReads : OnlyReads planned_run
  unfolding next_run run_next
  next_run-OnlyReads schedule s = elim (Result-cases (parse schedule)) [
    | inl (next, e) ↦ (suc s.reads, rw (e, next_run) refl)
    | inr (x, e) ↦ (s.reads, rw (e, next_run) refl)
  ]

  abbrev pub tick_limit : ℤ
  tick_limit = claim_limit store_runtime job_repository execution_repository parse offer workers

  -- When ClaimDue has answered claims, and no failure is to come and TEXT columns take the
  -- marks, an empty output and the two reasons, the claims are a step of the abstract claiming, and a tick accounts for each of them: the
  -- claim is put on the channel, or every row of its execution is an error with a time of finish;
  -- every other execution was there, and nothing else is put on the channel.
  pub tick_accounts :
      (claims : List JobClaim) (s t : Store)
      → Offers offer
      → job_repository.claim_due tick_limit planned_run s ≡ (ok claims, t)
      → Writable t
      → ClaimStep planned_run tick_limit claims s t.db
        × ((taken : List JobClaim) × (u : Store) × (tick store_runtime job_repository
                execution_repository parse offer workers s
              ≡ (ok taken, u))
            × Accounted claims taken t u)
  unfolding tick run_next
  tick_accounts claims s t offers claimed ready =
      let all = offer_all-Offered claims t offers ready in
      (
        Ensures-eq-ok (claim_due-ClaimStep tick_limit planned_run next_run-OnlyReads s) claimed,
        (all.taken, all.store, rw (claimed, all.answered) refl, all.accounted),
      )
