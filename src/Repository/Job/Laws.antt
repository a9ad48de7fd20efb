-- ===== src/Repository/Job/Laws.antt =====
-- What the statements on the jobs table ensure.
use signal_flow.Base.{
  sym, ◌∙◌, ◌≢◌, true, false, ℤ, Ensures-run_next, returns, ◌≡◌, refl, String, Option, none, some,
  ok, Ensures, ◌==◌, eq_iff, In, arith, ◌++◌, ◌∷◌, [], ap,
}
use signal_flow.Domain.{Time, Job}
use signal_flow.Store.{Store, current}
use signal_flow.Store.Rows.{first_where-In, update_where}
use signal_flow.Store.Statement.{query-Ensures, statement-Ensures, settle-Ensures}
use signal_flow.Repository.Constraints.{require-Ensures, is_given, job_row_allowed}
use signal_flow.Repository.Job.{
  found, get_by_id, insert_job, inserted_job, set_job, updated_job, create, update, list,
}

-- A lookup answers a row with that identifier and leaves the tables alone.
abbrev pub Looked : String → Store → Job → Store → Type 0
Looked id s j t = In j s.jobs × (j.id ≡ id) × (t.db ≡ s.db)

pub found-ok : {R : Type 0} (o : Option R) (r : R) → found o ≡ ok r → o ≡ some r
found-ok none r e = cc
found-ok (some x) r e = ap some (ground arith)

pub get_by_id-Looked :
    (id : String) (s : Store) → Ensures (Looked id s) (λ _ t. t.db ≡ s.db) (get_by_id id s)
unfolding get_by_id
get_by_id-Looked id s =
    query-Ensures _ s
      (λ gs j e.
        let hit = first_where-In (λ j. j.id == id) s.jobs j (found-ok _ j e) in
        (hit.0, (eq_iff j.id id).0 hit.1, refl))
      (λ _ _. refl)

-- An UPDATE changes the rows with the record's identifier, or fails and changes none.
abbrev pub Saved : Job → Store → Store → Type 0
Saved job s t =
    (now : Time) × (t.db
      ≡ record s.db { jobs = update_where (λ j. j.id == job.id) (updated_job now job) s.jobs })

pub update-Saved :
    (job : Job) (s : Store) → Ensures (λ _ t. Saved job s t) (λ _ t. t.db ≡ s.db) (update job s)
unfolding update set_job
update-Saved job s =
    statement-Ensures _ s
      (λ gs. require-Ensures _ _ _ _ (λ _. settle-Ensures _ _ _ (current s, refl)) refl)
      (λ _ _. refl)

-- An INSERT adds the row, or fails and adds none.
abbrev pub Added : Job → Store → Store → Type 0
Added job s t = (now : Time) × (t.db ≡ record s.db { jobs = s.jobs ++ inserted_job now job ∷ [] })

pub create-Added :
    (job : Job) (s : Store) → Ensures (λ _ t. Added job s t) (λ _ t. t.db ≡ s.db) (create job s)
unfolding create insert_job
create-Added job s =
    statement-Ensures _ s
      (λ gs.
        require-Ensures _ _ _ _
          (λ _.
            require-Ensures _ _ _ _
              (λ _. require-Ensures _ _ _ _ (λ _. settle-Ensures _ _ _ (current s, refl)) refl)
              refl)
          refl)
      (λ _ _. refl)

row_refused : (job : Job) → job.notify_channels ≡ none → job_row_allowed job ≢ true
row_refused job missing allowed =
    let given : is_given job.notify_channels ≡ true = ground (arith, allowed) in
    let denied : false ≡ true = ap is_given (sym missing) ∙ given in cc

-- A row without the slice of channels breaks a NOT NULL.
pub create_needs_channels :
    (job : Job) (s : Store)
    → job.notify_channels ≡ none
    → Ensures (λ _ t. ⊥) (λ _ t. t.db ≡ s.db) (create job s)
unfolding create insert_job
create_needs_channels job s missing =
    statement-Ensures _ s
      (λ gs.
        require-Ensures _ _ _ _
          (λ _.
            require-Ensures _ _ _ _
              (λ _.
                require-Ensures _ _ _ _ (λ allowed. absurd (row_refused job missing allowed)) refl)
              refl)
          refl)
      (λ _ _. refl)

pub list-keeps :
    (user_id : String) (offset limit : ℤ) (s : Store)
    → Ensures (λ _ t. t.db ≡ s.db) (λ _ t. t.db ≡ s.db) (list user_id offset limit s)
unfolding list
list-keeps user_id offset limit s =
    Ensures-run_next _ (query-Ensures _ s (λ _ _ _. refl) (λ _ _. refl)) λ _ u same.
      Ensures-run_next _ (query-Ensures _ u (λ _ _ _. same) (λ _ _. same)) λ _ _ h. returns h
