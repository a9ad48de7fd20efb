-- ===== src/Repository/Claim/Effect.antt =====
-- What a successful ClaimDue has done to the tables, against an abstract description: the due
-- times of the claimed jobs are moved on and one running execution stands for each claim.
use signal_flow.Base.{
  ℕ, ◌≤◌, ◌≡◌, refl, sym, ap, ◌∙◌, String, some, List, [], ◌∷◌, ◌++◌, map, arith, Result, ok, err,
  M, Ensures, returns, Ensures-mono, Ensures-run_next, ◌==◌, suc, subst, run_next, length, All-mono,
  All, In, inl, inr,
}
use mathlib.Core.List.{append-nil, append_assoc}
use signal_flow.Domain.{Time, Job, JobClaim, Execution}
use signal_flow.Domain.Ports.{NextRunFunc}
use signal_flow.Store.{Db, Store}
use signal_flow.Store.Rows.{update_where}
use signal_flow.Store.Statement.{statement, statement-Ensures, settle-Ensures}
use signal_flow.Repository.Constraints.{require-Ensures}
use signal_flow.Repository.Claim.{
  draw, running_execution, advance_job, insert_running, claim_job, claim_one, claim_jobs,
}

-- `next` reads the clock and changes nothing else.
abbrev pub OnlyReads : NextRunFunc Store → Type 0
OnlyReads next =
    (schedule : String) (s : Store) → (r : ℕ) × ((next schedule s).1 ≡ record s { reads = r })

-- A row without its time of update.
abbrev pub untimed : Job → Job
untimed j = record j { updated_at = 0 }

abbrev pub move_row : JobClaim → Job → Job
move_row c j = record j { next_run_at = c.job.next_run_at }

-- The abstract effect of the claims on the jobs, in their order.
unfoldable pub move_rows : List JobClaim → List Job → List Job
move_rows [] rows = rows
move_rows (c ∷ cs) rows = move_rows cs (update_where (λ j. j.id == c.job.id) (move_row c) rows)

abbrev pub claimed_execution : Time → JobClaim → Execution
claimed_execution now c = running_execution c.execution_id c.job.id now

claim_of : Job → Time → String → JobClaim
claim_of job next_at id = record {
  job = record job { next_run_at = some next_at };
  execution_id = id;
}

-- A claim carries a selected job, with the next run that its schedule gives.
abbrev pub IsClaimOf : NextRunFunc Store → List Job → JobClaim → Type 0
IsClaimOf next jobs c =
    (j : Job) × (at : Time) × In j jobs
    × (c.job ≡ record j { next_run_at = some at })
    × ((u : Store) × ((next j.schedule u).0 ≡ ok at))

-- The schedule has a next run, whenever it is asked for.
abbrev pub Parses : NextRunFunc Store → Job → Type 0
Parses next j = (u : Store) → (at : Time) × ((next j.schedule u).0 ≡ ok at)

abbrev pub HasClaim : List JobClaim → Job → Type 0
HasClaim claims j = (c : JobClaim) × In c claims × (c.job.id ≡ j.id)

pub record Claimed (next : NextRunFunc Store) (now : Time) (jobs : List Job)
    (claims : List JobClaim) (s t : Db) : Type 0 where
  pub moved : map untimed t.jobs ≡ move_rows claims (map untimed s.jobs)
  pub started : t.executions ≡ s.executions ++ map (claimed_execution now) claims
  pub from_selected : All (IsClaimOf next jobs) claims
  pub at_most : length claims ≤ length jobs
  pub all_claimed : (j : Job) → In j jobs → Parses next j → HasClaim claims j
  pub kept_users : t.users ≡ s.users
  pub kept_channels : t.channels ≡ s.channels
  pub kept_notifications : t.notifications ≡ s.notifications

untimed-update_where :
    (now next_at : Time) (c : JobClaim) (rows : List Job)
    → c.job.next_run_at ≡ some next_at
    → map untimed (
        update_where
          (λ j. j.id == c.job.id)
          (λ j. record j { next_run_at = some next_at; updated_at = now })
          rows)
      ≡ update_where (λ j. j.id == c.job.id) (move_row c) (map untimed rows)
untimed-update_where now next_at c [] h = refl
untimed-update_where now next_at c (j ∷ rows) h =
    ground (arith, untimed-update_where now next_at c rows h)

-- The two statements of a round, one after the other.
abbrev Advanced : Job → Time → Store → Store → Type 0
Advanced job next_at s t = (u : Time) × (t.db ≡ advance_job u next_at job.id s.db)

abbrev Inserted : String → Time → Store → String → Store → Type 0
Inserted job_id now s id t =
    t.db ≡ record s.db { executions = s.executions ++ running_execution id job_id now ∷ [] }

advance-Ensures :
    (began : Time) (job : Job) (next_at : Time) (s : Store)
    → Ensures
        (λ _ t. Advanced job next_at s t)
        (λ _ _. Unit {0})
        (statement (λ s. ok (tt, advance_job began next_at job.id s.db)) s)
advance-Ensures began job next_at s =
    statement-Ensures _ s (λ gs. settle-Ensures _ _ _ (began, refl)) (λ _ _. tt)

insert_running-Ensures :
    (id job_id : String) (now : Time) (s : Store)
    → Ensures
        (λ i t. Inserted job_id now s i t)
        (λ _ _. Unit {0})
        (statement (λ s. insert_running id job_id now s.db) s)
unfolding insert_running
insert_running-Ensures id job_id now s =
    statement-Ensures _ s
      (λ gs.
        require-Ensures _ _ _ _ (λ _. require-Ensures _ _ _ _ (λ _. settle-Ensures _ _ _ refl) tt)
          tt)
      (λ _ _. tt)

draw-Ensures :
    (s : Store) → Ensures (λ _ t. t ≡ record s { drawn = suc s.drawn }) (λ _ _. Unit {0}) (draw s)
draw-Ensures s = returns refl

only_claim : {c d : JobClaim} → In c (d ∷ []) → c ≡ d
only_claim (inl e) = e
only_claim (inr m) = elim m [ ]

only : {j job : Job} → In j (job ∷ []) → j ≡ job
only (inl e) = e
only (inr m) = elim m [ ]

-- The two states between the three steps of a round determine the last.
round-Claimed :
    (next : NextRunFunc Store) (now next_at : Time) (job : Job) (id : String) (s t u v : Store)
    → (w : Store) × ((next job.schedule w).0 ≡ ok next_at)
    → Advanced job next_at s t
    → u ≡ record t { drawn = suc t.drawn }
    → Inserted job.id now u id v
    → Claimed next now (job ∷ []) (claim_of job next_at id ∷ []) s.db v.db
unfolding advance_job claim_of move_rows
round-Claimed next now next_at job id s t u v why (w, adv) drawn ins = record {
  moved =
      let e : v.jobs ≡ (advance_job w next_at job.id s.db).jobs = cc in
      rw e (untimed-update_where w next_at (claim_of job next_at id) s.jobs refl);
  started = cc;
  from_selected = ((job, next_at, inl refl, refl, why), tt);
  at_most = omega arith;
  all_claimed = λ j m _. (claim_of job next_at id, inl refl, sym (ap (λ (k : Job). k.id) (only m)));
  kept_users = cc;
  kept_channels = cc;
  kept_notifications = cc;
}

claim_job-Claimed :
    (next : NextRunFunc Store) (began now : Time) (job : Job) (next_at : Time) (s : Store)
    → (w : Store) × ((next job.schedule w).0 ≡ ok next_at)
    → Ensures
        (λ c t. Claimed next now (job ∷ []) (c ∷ []) s.db t.db)
        (λ _ _. Unit {0})
        (claim_job began now job next_at s)
unfolding claim_job claim_of
claim_job-Claimed next began now job next_at s why =
    Ensures-run_next _ (advance-Ensures began job next_at s) λ _ t adv.
      Ensures-run_next _ (draw-Ensures t) λ _ u drawn.
        Ensures-run_next _ (insert_running-Ensures _ job.id now u)
          λ id v ins. returns (round-Claimed next now next_at job id s t u v why adv drawn ins)

In-one : {j job : Job} (jobs : List Job) → In j (job ∷ []) → In j (job ∷ jobs)
In-one jobs (inl e) = inl e
In-one jobs (inr m) = elim m [ ]

-- A job that is passed over.
Claimed-skip :
    {next : NextRunFunc Store} {now : Time} {job : Job} {jobs : List Job} {cs : List JobClaim}
    {s t : Db}
    → ((j : Job) → j ≡ job → Parses next j → ⊥)
    → Claimed next now jobs cs s t
    → Claimed next now (job ∷ jobs) cs s t
Claimed-skip {next} {job} {jobs} {cs} unparsed c = record {
  moved = c.moved;
  started = c.started;
  from_selected =
      All-mono (IsClaimOf next jobs) (IsClaimOf next (job ∷ jobs)) cs
        (λ x m. (m.0, m.1, inr m.2, m.3, m.4)) c.from_selected;
  at_most = omega (arith, c.at_most);
  all_claimed =
      λ j m p. elim m [ inl e ↦ absurd (unparsed j e p) | inr rest ↦ c.all_claimed j rest p ];
  kept_users = c.kept_users;
  kept_channels = c.kept_channels;
  kept_notifications = c.kept_notifications;
}

module _ {next : NextRunFunc Store} {now : Time} {job : Job} {jobs : List Job} {cs : List JobClaim}
    {s t v : Db} where
  -- A job that is claimed, before the rest.
  Claimed-cons :
      (c : JobClaim)
      → Claimed next now (job ∷ []) (c ∷ []) s t
      → Claimed next now jobs cs t v
      → Claimed next now (job ∷ jobs) (c ∷ cs) s v
  unfolding move_rows
  Claimed-cons c x y = record {
    moved = y.moved ∙ ap (move_rows cs) x.moved;
    started =
        y.started
        ∙ ap (λ es. es ++ map (claimed_execution now) cs) x.started
        ∙ append_assoc s.executions _ _;
    from_selected = (
      (
        x.from_selected.0.0,
        x.from_selected.0.1,
        In-one jobs x.from_selected.0.2,
        x.from_selected.0.3,
        x.from_selected.0.4,
      ),
      All-mono (IsClaimOf next jobs) (IsClaimOf next (job ∷ jobs)) cs
          (λ x m. (m.0, m.1, inr m.2, m.3, m.4)) y.from_selected,
    );
    at_most = omega (arith, y.at_most);
    all_claimed = λ j m p. elim m [
      | inl e ↦
          let (d, listed, same) = x.all_claimed j (inl e) p in
          (c, inl refl, ap (λ (k : JobClaim). k.job.id) (sym (only_claim listed)) ∙ same)
      | inr rest ↦ let (d, listed, same) = y.all_claimed j rest p in (d, inr listed, same)
    ];
    kept_users = y.kept_users ∙ x.kept_users;
    kept_channels = y.kept_channels ∙ x.kept_channels;
    kept_notifications = y.kept_notifications ∙ x.kept_notifications;
  }

claim_one-Claimed :
    (next : NextRunFunc Store) (began now : Time) (job : Job) (jobs : List Job)
    (rest : M Store (List JobClaim)) (s : Store) (r : Result Time) (t : Store)
    → ((u : Store)
        → Ensures (λ cs v. Claimed next now jobs cs u.db v.db) (λ _ _. Unit {0}) (rest u))
    → t.db ≡ s.db
    → (w : Store) × ((next job.schedule w).0 ≡ r)
    → Ensures
        (λ cs v. Claimed next now (job ∷ jobs) cs s.db v.db)
        (λ _ _. Unit {0})
        (claim_one began now job rest r t)
unfolding claim_one
claim_one-Claimed next began now job jobs rest s (err e) t ih same why =
    Ensures-mono (ih t)
      (λ cs v c.
        subst (λ d. Claimed next now (job ∷ jobs) cs d v.db) same (Claimed-skip unparsed c))
      (λ _ _ _. tt)
  where
    unparsed : (j : Job) → j ≡ job → Parses next j → ⊥
    unparsed j e p =
        let (w, failed_here) = why in
        let (at, parsed) = p w in
        cc (ap (λ (k : Job). (next k.schedule w).0) e, failed_here, parsed)
claim_one-Claimed next began now job jobs rest s (ok next_at) t ih same why =
    Ensures-run_next _ (claim_job-Claimed next began now job next_at t why) λ c u one.
      Ensures-run_next _ (ih u) λ cs v more.
        returns (
          subst (λ d. Claimed next now (job ∷ jobs) (c ∷ cs) d v.db) same (Claimed-cons c one more))

module _ (next : NextRunFunc Store) (reads : OnlyReads next) (began now : Time) where
  pub claim_jobs-Claimed :
      (jobs : List Job) (s : Store)
      → Ensures
          (λ cs t. Claimed next now jobs cs s.db t.db)
          (λ _ _. Unit {0})
          (claim_jobs next began now jobs s)
  unfolding claim_jobs run_next move_rows
  claim_jobs-Claimed [] s = returns (record {
    all_claimed = λ j m _. elim m [ ];
    moved = refl;
    started = sym (append-nil _);
    from_selected = tt;
    at_most = omega arith;
    kept_users = refl;
    kept_channels = refl;
    kept_notifications = refl;
  })
  claim_jobs-Claimed (job ∷ jobs) s =
      claim_one-Claimed next began now job jobs (claim_jobs next began now jobs) s _ _
        (claim_jobs-Claimed jobs) (ap (λ (u : Store). u.db) (reads job.schedule s).1) (s, refl)
