-- ===== src/Service/Job/Laws.antt =====
-- What the job operations do to the stored jobs: what is created, and what pausing, resuming and
-- triggering mean for the scheduler that claims due jobs.
use signal_flow.Base.{
  ℤ, pos, negsuc, ◌≡◌, ◌≢◌, refl, sym, ap, subst, ◌∙◌, String, true, false, none, some, [], ◌∷◌,
  ◌++◌, ok, Error, Ensures, returns, fails, Ensures-mono, Ensures-run_next, Ensures-map_err,
  Result-cases, run_next, arith, eq_iff, ne_of_test, ◌==◌, In, inl, inr, ◌⊎◌, is_positive,
}
use signal_flow.Domain.{Time, RawMessage, Job, active, paused, is_active}
use signal_flow.Domain.Ports.{CronParser}
use signal_flow.Store.{Db, Store, current}
use signal_flow.Store.Rows.{update_where, In-update_where, first_where-In}
use signal_flow.Store.Statement.{store_runtime, now-Ensures, new_uuid-Ensures, query-Ensures}
use signal_flow.Repository.Job as Row
use signal_flow.Repository.Job.{updated_job, inserted_job}
use signal_flow.Repository.Job.Laws.{
  Looked, found-ok, get_by_id-Looked, Saved, update-Saved, create-Added, create_needs_channels,
}
use signal_flow.Repository.Claim.{is_claimable}
use signal_flow.Repository.Adapters.{job_repository}
use signal_flow.Service.Job.{
  or_default_timeout, or_default_condition, CreateJobInput, new_job, next_run_of, create, get_by_id,
  pause, resume, trigger_run, save,
}

-- The row that a write of `job` leaves, among all rows: with its identifier every row carries its
-- status, next run and schedule; the other rows are as they were.
pub record Replaced (job : Job) (s t : Store) : Type 0 where
  pub ours :
      (j : Job)
      → In j t.jobs
      → j.id ≡ job.id
      → (j.status ≡ job.status) × (j.next_run_at ≡ job.next_run_at) × (j.schedule ≡ job.schedule)
  pub others : (j : Job) → In j t.jobs → j.id ≢ job.id → In j s.jobs
  pub same_executions : t.executions ≡ s.executions

Replaced-of_Saved : (job : Job) (s t : Store) → Saved job s t → Replaced job s t
unfolding updated_job
Replaced-of_Saved job s t (now, e) = record {
  ours = λ j m same.
      let (o, _, how) = row j m in
      elim how [
        | inl (_, is) ↦ (
          ap (λ (x : Job). x.status) is,
          ap (λ (x : Job). x.next_run_at) is,
          ap (λ (x : Job). x.schedule) is,
        )
        | inr (miss, is) ↦
            absurd (ne_of_test o.id job.id miss (sym (ap (λ (x : Job). x.id) is) ∙ same))
      ];
  others = λ j m other.
      let (o, listed, how) = row j m in
      elim how [
        | inl (hit, is) ↦ absurd (other (ap (λ (x : Job). x.id) is ∙ (eq_iff o.id job.id).0 hit))
        | inr (_, is) ↦ subst (λ x. In x s.jobs) (sym is) listed
      ];
  same_executions = ap (λ (d : Db). d.executions) e;
}
  where
    row :
        (j : Job)
        → In j t.jobs
        → (o : Job) × In o s.jobs
          × ((((o.id == job.id) ≡ true) × (j ≡ updated_job now job o))
              ⊎ (((o.id == job.id) ≡ false) × (j ≡ o)))
    row j m =
        In-update_where (λ o. o.id == job.id) (updated_job now job) s.jobs j
          (subst (λ (d : Db). In j d.jobs) e m)

or_default_timeout-positive : (t : ℤ) → is_positive (or_default_timeout t) ≡ true
or_default_timeout-positive (pos n) = ground arith
or_default_timeout-positive (negsuc n) = refl

or_default_condition-ne-none : (c : RawMessage) → or_default_condition c ≢ none
or_default_condition-ne-none none = λ e. cc
or_default_condition-ne-none (some c) = λ e. cc

get_by_id-Timed_row :
    (id : String) (s : Store)
    → Ensures
        (λ job t. Looked id s job t × (current t ≡ current s))
        (λ _ t. t.db ≡ s.db)
        (job_repository.get_by_id id s)
unfolding Row.get_by_id
get_by_id-Timed_row id s =
    query-Ensures _ s
      (λ gs j e.
        let hit = first_where-In (λ j. j.id == id) s.jobs j (found-ok _ j e) in
        ((hit.0, (eq_iff j.id id).0 hit.1, refl), refl))
      (λ _ _. refl)

module _ (parse : CronParser) where
  -- Reading a job by its identifier changes no table.
  get_by_id-Ensures :
      (id : String) (s : Store)
      → Ensures
          (Looked id s)
          (λ _ t. t.db ≡ s.db)
          (get_by_id store_runtime job_repository parse id s)
  unfolding get_by_id
  get_by_id-Ensures id s = Ensures-map_err _ (get_by_id-Looked id s)

  -- It reads no clock either.
  get_by_id-Timed :
      (id : String) (s : Store)
      → Ensures
          (λ job t. Looked id s job t × (current t ≡ current s))
          (λ _ t. t.db ≡ s.db)
          (get_by_id store_runtime job_repository parse id s)
  unfolding get_by_id
  get_by_id-Timed id s = Ensures-map_err _ (get_by_id-Timed_row id s)

  save-Replaced :
      (job : Job) (s u : Store)
      → u.db ≡ s.db
      → Ensures
          (λ j t. (j ≡ job) × Replaced job s t)
          (λ _ t. t.db ≡ s.db)
          (save store_runtime job_repository parse job u)
  save-Replaced job s u same =
      Ensures-run_next _ (Ensures-mono (update-Saved job u) (λ _ t h. h) (λ _ t h. h ∙ same))
        λ _ t h. returns (
          refl,
          Replaced-of_Saved job s t (
            h.0,
            subst
                (λ (d : Db). t.db ≡ record d {
                  jobs = update_where (λ j. j.id == job.id) (updated_job h.0 job) d.jobs;
                })
                same h.1,
          ),
        )

  -- After a pause that succeeds no row of that job is claimable, at whatever time, and every row of
  -- another job is one that was there; a pause that fails changes nothing.
  pub pause_stops :
      (id : String) (s : Store)
      → Ensures
          (λ job t.
            (job.status ≡ paused)
            × ((j : Job) (u : Store) → In j t.jobs → j.id ≡ id → is_claimable u j ≡ false)
            × ((j : Job) → In j t.jobs → j.id ≢ id → In j s.jobs))
          (λ _ t. t.db ≡ s.db)
          (pause store_runtime job_repository parse id s)
  unfolding pause is_claimable
  pause_stops id s = Ensures-run_next _ (get_by_id-Ensures id s) λ job u found.
      Ensures-mono (save-Replaced (record job { status = paused; next_run_at = none }) s u found.2)
        (λ saved t h. (
          ap (λ (j : Job). j.status) h.0,
          λ j v m same.
              let stopped : j.status ≡ paused = (h.1.ours j m (same ∙ sym found.1)).0 in
              rw stopped (ground arith),
          λ j m other. h.1.others j m (λ e. other (e ∙ found.1)),
        ))
        (λ _ _ h. h)

  -- A run that is triggered for a job whose rows are not active leaves the job not claimable, at
  -- whatever time, when it succeeds, and changes nothing when it fails.
  pub trigger_run_inactive :
      (id : String) (s : Store)
      → ((j : Job) → In j s.jobs → j.id ≡ id → is_active j.status ≡ false)
      → Ensures
          (λ job t. (j : Job) (u : Store) → In j t.jobs → j.id ≡ id → is_claimable u j ≡ false)
          (λ _ t. t.db ≡ s.db)
          (trigger_run store_runtime job_repository parse id s)
  unfolding trigger_run is_claimable
  trigger_run_inactive id s idle = Ensures-run_next _ (get_by_id-Ensures id s) λ job u found.
      Ensures-run_next _ (now-Ensures u) λ now v read.
        Ensures-mono (save-Replaced (record job { next_run_at = some now }) s v (read.1 ∙ found.2))
          (λ saved t h j w m same.
            let kept : j.status ≡ job.status = (h.1.ours j m (same ∙ sym found.1)).0 in
            rw (kept, idle job found.0 found.1))
          (λ _ _ h. h)

  next_run_of-Ensures :
      (wrap : Error → Error) (schedule : String) (s : Store)
      → Ensures
          (λ at t.
            ((next : Time → Time) × (parse schedule ≡ ok next) × (at ≡ next (s.clock s.reads)))
            × (t.db ≡ s.db))
          (λ _ t. t.db ≡ s.db)
          (next_run_of store_runtime job_repository parse wrap schedule s)
  unfolding next_run_of run_next
  next_run_of-Ensures wrap schedule s = elim (Result-cases (parse schedule)) [
    | inl (next, e) ↦ rw (e, next_run_of) (returns ((next, refl, refl), refl))
    | inr (x, e) ↦ rw (e, next_run_of) (fails refl)
  ]

  -- The rows of a resumed job: active, to run when its stored schedule says.
  abbrev pub Resumed : String → Store → Store → Type 0
  Resumed id s t =
      (k : Job) × In k s.jobs
      × (k.id ≡ id)
      × ((next : Time → Time) × (parse k.schedule ≡ ok next)
          × ((j : Job)
              → In j t.jobs
              → j.id ≡ id
              → (j.status ≡ active) × (j.next_run_at ≡ some (next (current s)))))

  -- After a resume that succeeds every row of that job is active and its next run is the one that
  -- the job's stored schedule gives for the time at which the resume began, and every row of another job is one that was there; a resume
  -- that fails, also on a stored schedule that does not parse, changes nothing.
  pub resume_plans :
      (id : String) (s : Store)
      → Ensures
          (λ job t. Resumed id s t × ((j : Job) → In j t.jobs → j.id ≢ id → In j s.jobs))
          (λ _ t. t.db ≡ s.db)
          (resume store_runtime job_repository parse id s)
  unfolding resume
  resume_plans id s = Ensures-run_next _ (get_by_id-Timed id s) λ job u (found, time).
      Ensures-run_next _
        (Ensures-mono (next_run_of-Ensures _ job.schedule u) (λ _ _ h. h) (λ _ _ h. h ∙ found.2))
        λ at v planned.
          Ensures-mono
            (save-Replaced (record job { status = active; next_run_at = some at }) s v
              (planned.1 ∙ found.2))
            (λ saved t h. (
              (
                job,
                found.0,
                found.1,
                (
                  planned.0.0,
                  planned.0.1,
                  λ j m same.
                      let ours = h.1.ours j m (same ∙ sym found.1) in
                      (ours.0, ours.1 ∙ ap some (planned.0.2 ∙ ap planned.0.0 time)),
                ),
              ),
              λ j m other. h.1.others j m (λ e. other (e ∙ found.1)),
            ))
            (λ _ _ h. h)

  -- Creating a job adds one active row with a positive timeout and a condition, due at the time
  -- that the schedule gives; a creation that fails adds none.
  pub create_adds :
      (input : CreateJobInput) (s : Store)
      → Ensures
          (λ job t.
            (row : Job) × (t.jobs ≡ s.jobs ++ row ∷ [])
            × (row.id ≡ job.id)
            × (row.status ≡ active)
            × (is_positive row.timeout_seconds ≡ true)
            × (row.condition ≢ none)
            × ((next : Time → Time) × (parse input.schedule ≡ ok next)
                × (row.next_run_at ≡ some (next (s.clock s.reads)))))
          (λ _ t. t.db ≡ s.db)
          (create store_runtime job_repository parse input s)
  unfolding create new_job inserted_job
  create_adds input s = Ensures-run_next _ (next_run_of-Ensures _ input.schedule s) λ at u planned.
      Ensures-run_next _ (new_uuid-Ensures u) λ id v drew.
        Ensures-run_next _
          (Ensures-mono (create-Added (new_job input id at) v) (λ _ t h. h)
            (λ _ t h. h ∙ drew.1 ∙ planned.1))
          λ _ t added.
            let same = drew.1 ∙ planned.1 in
            let row = inserted_job added.0 (new_job input id at) in
            returns (
              row,
              ap (λ (d : Db). d.jobs) added.1 ∙ ap (λ (d : Db). d.jobs ++ row ∷ []) same,
              refl,
              refl,
              or_default_timeout-positive input.timeout_seconds,
              or_default_condition-ne-none input.condition,
              (planned.0.0, planned.0.1, ap some planned.0.2),
            )

  -- A job without a slice of channels, which the driver writes as NULL, is never created.
  pub create_without_channels :
      (input : CreateJobInput) (s : Store)
      → input.notify_channels ≡ none
      → Ensures (λ _ _. ⊥) (λ _ t. t.db ≡ s.db) (create store_runtime job_repository parse input s)
  unfolding create new_job
  create_without_channels input s missing =
      Ensures-run_next _ (next_run_of-Ensures _ input.schedule s) λ at u planned.
        Ensures-run_next _ (new_uuid-Ensures u) λ id v drew.
          Ensures-run_next _
            (Ensures-mono (create_needs_channels (new_job input id at) v missing) (λ _ t h. h)
              (λ _ t h. h ∙ drew.1 ∙ planned.1))
            λ _ t h. absurd h
