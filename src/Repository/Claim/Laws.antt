-- ===== src/Repository/Claim/Laws.antt =====
-- ClaimDue as one step: all of it or nothing, only due jobs, and when a claimed job is due again.
use signal_flow.Base.{
  returns, fails, Ensures-ok, Ensures-err, Result, err, ◌∙◌, suc, ℤ, pos, ◌≡◌, ◌≢◌, refl, ap, subst,
  true, false, Option, some, String, List, [], ◌∷◌, map, arith, ok, Error, Ensures, Ensures-mono,
  Ensures-run_next, Ensures-eq-ok, run_next, length, All, In, In-All, any, ◌==◌, eq_iff, inl, inr,
  Bool-cases, ◌⊎◌,
}
use signal_flow.Domain.{Time, Job, JobClaim, active}
use signal_flow.Domain.Ports.{NextRunFunc}
use signal_flow.Store.{Db, Store, current}
use signal_flow.Store.Rows.{update_where}
use signal_flow.Store.Statement.{transaction-Ensures}
use signal_flow.Repository.Claim.{is_claimable, select_due, claim_jobs, claim_due, unlock}
use signal_flow.Repository.Claim.Selection.{
  IsDue, AtMost, select_due-IsDue, select_due_complete, select_for_update-Locked,
}
use signal_flow.Repository.Claim.Effect.{
  OnlyReads, untimed, move_row, move_rows, Claimed, claim_jobs-Claimed,
}

-- The abstract step: a selection of jobs that are due, which leaves out a claimable job only at
-- the limit, and the effect of their claims.
pub record ClaimStep (next : NextRunFunc Store) (limit : ℤ) (claims : List JobClaim) (s : Store)
    (t : Db) : Type 0 where
  pub started_at : Time
  pub selected : List Job
  pub all_due : All (IsDue s) selected
  pub none_left :
      (j : Job)
      → In j s.jobs
      → is_claimable s j ≡ true
      → In j selected ⊎ (limit ≡ pos (length selected))
  pub within : AtMost limit (length selected)
  pub effect : Claimed next started_at selected claims s.db t

-- What holds once the locks are given up, holds at the end of the transaction.
pub unlock-Ensures :
    {A : Type 0} {P : A → Store → Type 0} {Q : Error → Store → Type 0} (held : List String)
    (out : Result A × Store)
    → Ensures
        (λ a t. P a (record t { locked = held }))
        (λ e t. Q e (record t { locked = held }))
        out
    → Ensures P Q (unlock held out)
unlock-Ensures held (ok a, s) h = returns (Ensures-ok h)
unlock-Ensures held (err e, s) h = fails (Ensures-err h)

module _ (limit : ℤ) (next : NextRunFunc Store) (reads : OnlyReads next) (s : Store) where
  body-ClaimStep :
      (began now : Time) (u : Store) (jobs : List Job)
      → select_due limit s ≡ ok jobs
      → u.db ≡ s.db
      → Ensures
          (λ cs t.
            ((gs : List (Option String)) → ClaimStep next limit cs s t.db)
            × ((e : Error) (gs : List (Option String)) → s.db ≡ s.db))
          (λ _ _. s.db ≡ s.db)
          (claim_jobs next began now jobs u)
  body-ClaimStep began now u jobs e same =
      let (due, within) = select_due-IsDue limit s jobs e in
      Ensures-mono (claim_jobs-Claimed next reads began now jobs u)
        (λ cs t c. (
          λ gs. record {
            started_at = now;
            selected = jobs;
            all_due = due;
            within = within;
            none_left = λ j m h. select_due_complete limit s jobs j e m h;
            effect = subst (λ d. Claimed next now jobs cs d t.db) same c;
          },
          λ _ _. refl,
        ))
        (λ _ _ _. refl)

  -- For a `next` that only reads the clock, a ClaimDue that succeeds has selected due jobs, at most
  -- its limit of them, leaving out a claimable one only at the limit; it has claimed each of them
  -- whose schedule always has a next run, moved the next run of the claimed jobs on to what their
  -- schedules gave, and added one running execution for each claim, and has written nothing else
  -- but times of update. One that fails, at whichever of its statements, has left every table as it
  -- was.
  pub claim_due-ClaimStep :
      Ensures (λ cs t. ClaimStep next limit cs s t.db) (λ _ t. t.db ≡ s.db) (claim_due limit next s)
  unfolding claim_due run_next select_due is_claimable
  claim_due-ClaimStep = unlock-Ensures s.locked _ (
      transaction-Ensures _ s
        (λ gs.
          Ensures-run_next _
            (Ensures-mono (select_for_update-Locked limit (record s { faults = gs })) (λ _ _ h. h)
              (λ _ _ _. refl))
            λ jobs u h.
              body-ClaimStep (current s) (u.clock u.reads) (record u { reads = suc u.reads }) jobs
                h.selected h.same_rows)
        (λ _ _. refl))

-- A row's next run is the one of a claim of that job.
abbrev pub NextRunOf : List JobClaim → Job → Type 0
NextRunOf cs j = (c : JobClaim) × In c cs × (c.job.id ≡ j.id) × (j.next_run_at ≡ c.job.next_run_at)

-- It is, or the row was there before and no claim is of that job.
abbrev FromClaim : List JobClaim → List Job → Job → Type 0
FromClaim cs rows j = NextRunOf cs j ⊎ (In j rows × All (λ c. c.job.id ≢ j.id) cs)

moved_row :
    (c : JobClaim) (rows : List Job) (j : Job)
    → In j (update_where (λ r. r.id == c.job.id) (move_row c) rows)
    → ((c.job.id ≡ j.id) × (j.next_run_at ≡ c.job.next_run_at)) ⊎ (In j rows × (c.job.id ≢ j.id))
moved_row c [] j m = elim m [ ]
moved_row c (r ∷ rows) j (inl e) = elim (Bool-cases (r.id == c.job.id)) [
  | inl same ↦ inl (ground (arith, eq_iff r.id c.job.id), ground arith)
  | inr other ↦ inr (inl (ground arith), λ clash. ground (arith, eq_iff r.id c.job.id))
]
moved_row c (r ∷ rows) j (inr m) = elim (moved_row c rows j m) [
  | inl hit ↦ inl hit
  | inr (old, miss) ↦ inr (inr old, miss)
]

move_rows-FromClaim :
    (cs : List JobClaim) (rows : List Job) (j : Job)
    → In j (move_rows cs rows)
    → FromClaim cs rows j
unfolding move_rows
move_rows-FromClaim [] rows j m = inr (m, tt)
move_rows-FromClaim (c ∷ cs) rows j m = elim (move_rows-FromClaim cs _ j m) [
  | inl (d, listed, same, at) ↦ inl (d, inr listed, same, at)
  | inr (old, misses) ↦ elim (moved_row c rows j old) [
    | inl (same, at) ↦ inl (c, inl refl, same, at)
    | inr (before, miss) ↦ inr (before, (miss, misses))
  ]
]

In-untimed : (j : Job) (rows : List Job) → In j rows → In (untimed j) (map untimed rows)
In-untimed j [] m = elim m [ ]
In-untimed j (r ∷ rows) (inl e) = inl (ap untimed e)
In-untimed j (r ∷ rows) (inr m) = inr (In-untimed j rows m)

-- After a ClaimDue that succeeded the row of a claimed job has the next run of a claim of it.
pub claimed_row :
    {next : NextRunFunc Store} {limit : ℤ} {cs : List JobClaim} {s : Store} {t : Db} (c : JobClaim)
    (j : Job)
    → ClaimStep next limit cs s t
    → In c cs
    → In j t.jobs
    → c.job.id ≡ j.id
    → NextRunOf cs j
claimed_row {cs} {s} {t} c j step m listed same =
    let row : In (untimed j) (move_rows cs (map untimed s.jobs)) =
      subst (In (untimed j)) step.effect.moved (In-untimed j t.jobs listed) in
    elim (move_rows-FromClaim cs _ _ row) [
      | inl found ↦ found
      | inr (_, misses) ↦ absurd (In-All (λ d. d.job.id ≢ j.id) cs c misses m same)
    ]

module _ (limit : ℤ) (next : NextRunFunc Store) (reads : OnlyReads next) (s : Store)
    (claims : List JobClaim) (t : Store) (done : claim_due limit next s ≡ (ok claims, t)) where
  step_done : ClaimStep next limit claims s t.db
  step_done = Ensures-eq-ok (claim_due-ClaimStep limit next reads s) done

  -- The schedule of every claim of this job has no date to come, and so gives the zero time.
  abbrev HasNoDate : String → Type 0
  HasNoDate id =
      (d : JobClaim)
      → In d claims
      → d.job.id ≡ id
      → (u : Store) (at : Time) → (next d.job.schedule u).0 ≡ ok at
      → at ≡ 0

  -- After a ClaimDue that succeeded, for a `next` that only reads the clock, every row of a claimed
  -- job whose schedule has no date to come, so that `next` gives the zero time, is claimable again
  -- at once, if it is active and not locked.
  pub claim_due_again :
      (c : JobClaim) (j : Job)
      → HasNoDate j.id
      → In c claims
      → In j t.jobs
      → c.job.id ≡ j.id
      → j.status ≡ active
      → any (λ id. id == j.id) t.locked ≡ false
      → is_claimable t j ≡ true
  unfolding is_claimable
  claim_due_again c j dateless m listed same live free =
      let (d, found, ours, at) = claimed_row c j step_done m listed same in
      let (k, when, _, copied, (u, gave)) =
        In-All _ claims d step_done.effect.from_selected found in
      let plan : d.job.schedule ≡ k.schedule = ap (λ (x : Job). x.schedule) copied in
      let zero_time : when ≡ 0 = dateless d found ours u when (rw plan gave) in
      let due : j.next_run_at ≡ some 0 =
        at ∙ ap (λ (x : Job). x.next_run_at) copied ∙ ap some zero_time in
      rw (due, live, free) (ground arith)
