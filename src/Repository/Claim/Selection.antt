-- ===== src/Repository/Claim/Selection.antt =====
-- Which jobs a ClaimDue selects.
use signal_flow.Base.{
  run_next, ◌++◌, Ensures, returns, Ensures-run_next, Ensures-eq-ok, In-append_left, take, subst,
  ap, ℕ, ℤ, pos, negsuc, ◌≤◌, ◌≡◌, ◌≢◌, refl, Bool, true, false, ◌&&◌, Option, none, some, String,
  List, [], ◌∷◌, map, arith, ok, length, length-take-le, All, All-take, All-mono, In, In-All, any,
  ◌==◌, inl, inr, eq_iff, ◌⊎◌,
}
use signal_flow.Domain.{Time, Job, active, is_active}
use signal_flow.Store.{Store, current}
use signal_flow.Store.Rows.{
  select_where, limit_rows, select_where-All, sort_by-All, In-limit_rows, In-sort_by,
  In-select_where,
}
use signal_flow.Store.Statement.{query-Ensures}
use signal_flow.Repository.Claim.{is_due_at, is_claimable, select_due, lock_rows, select_for_update}

-- The job is in the table, is active, its next run is not after now, and nobody else holds it.
pub record IsDue (s : Store) (j : Job) : Type 0 where
  pub listed : In j s.jobs
  pub live : j.status ≡ active
  pub planned : Time
  pub planned_lem : j.next_run_at ≡ some planned
  pub passed : planned ≤ current s
  pub free : any (λ id. id == j.id) s.locked ≡ false

-- At most `limit` rows, for a limit that is no negative number.
abbrev pub AtMost : ℤ → ℕ → Type 0
AtMost (pos n) k = k ≤ n
AtMost (negsuc n) k = ⊥

planned_of :
    (now : Time) (o : Option Time) → is_due_at now o ≡ true → (t : Time) × (o ≡ some t) × (t ≤ now)
planned_of now none h = cc
planned_of now (some t) h = (t, refl, ground arith)

and-eq-true : (a b : Bool) → (a && b) ≡ true → (a ≡ true) × (b ≡ true)
and-eq-true a b h = ground arith

IsDue-of_claimable : (s : Store) (j : Job) → In j s.jobs × (is_claimable s j ≡ true) → IsDue s j
unfolding is_claimable
IsDue-of_claimable s j h =
    let first = and-eq-true (is_active j.status && is_due_at (current s) j.next_run_at) _ h.1 in
    let second = and-eq-true (is_active j.status) _ first.0 in
    let due = planned_of (current s) j.next_run_at second.1 in
    record {
      listed = h.0;
      live = ground arith;
      planned = due.0;
      planned_lem = due.1;
      passed = due.2;
      free = ground arith;
    }

limit_rows-All :
    (P : Job → Type 0) (limit : ℤ) (rows jobs : List Job)
    → All P rows
    → limit_rows limit rows ≡ ok jobs
    → All P jobs × AtMost limit (length jobs)
limit_rows-All P (pos n) rows jobs h e =
    let same : take n rows ≡ jobs = ground arith in
    (
      subst (All P) same (All-take P n rows h),
      subst (λ xs. length xs ≤ n) same (length-take-le n rows),
    )
limit_rows-All P (negsuc n) rows jobs h e = cc

-- A ClaimDue selects due jobs only, and no more than its limit.
pub select_due-IsDue :
    (limit : ℤ) (s : Store) (jobs : List Job)
    → select_due limit s ≡ ok jobs
    → All (IsDue s) jobs × AtMost limit (length jobs)
unfolding select_due
select_due-IsDue limit s jobs = limit_rows-All (IsDue s) limit _ jobs (
    sort_by-All (IsDue s) _ _ (
      All-mono _ (IsDue s) (select_where (is_claimable s) s.jobs) (IsDue-of_claimable s)
        (select_where-All (is_claimable s) s.jobs)))

-- A ClaimDue passes over no claimable job unless its limit is reached.
pub select_due_complete :
    (limit : ℤ) (s : Store) (jobs : List Job) (j : Job)
    → select_due limit s ≡ ok jobs
    → In j s.jobs
    → is_claimable s j ≡ true
    → In j jobs ⊎ (limit ≡ pos (length jobs))
unfolding select_due
select_due_complete limit s jobs j e m h =
    In-limit_rows limit _ jobs j e
      (In-sort_by _ _ j (In-select_where (is_claimable s) s.jobs j m h))

-- Transactions that overlap: what one has selected and locked, the other passes over.
any_of_In : (id : String) (ids : List String) → In id ids → any (λ x. x == id) ids ≡ true
any_of_In id [] m = elim m [ ]
any_of_In id (x ∷ ids) (inl e) = ground (arith, eq_iff x id)
any_of_In id (x ∷ ids) (inr m) = ground (arith, any_of_In id ids m)

In-map : (j : Job) (jobs : List Job) → In j jobs → In j.id (map (λ j. j.id) jobs)
In-map j [] m = elim m [ ]
In-map j (x ∷ jobs) (inl e) = inl (ap (λ (k : Job). k.id) e)
In-map j (x ∷ jobs) (inr m) = inr (In-map j jobs m)

-- What the query with FOR UPDATE leaves: its rows are locked beside those that were, and the tables
-- and the clock are untouched.
pub record Locked (limit : ℤ) (s : Store) (jobs : List Job) (t : Store) : Type 0 where
  pub selected : select_due limit s ≡ ok jobs
  pub locks : t.locked ≡ map (λ j. j.id) jobs ++ s.locked
  pub same_rows : t.db ≡ s.db
  pub same_clock : t.clock ≡ s.clock
  pub same_reads : t.reads ≡ s.reads

pub select_for_update-Locked :
    (limit : ℤ) (s : Store)
    → Ensures (Locked limit s) (λ _ t. t.db ≡ s.db) (select_for_update limit s)
unfolding select_for_update lock_rows select_due is_claimable run_next
select_for_update-Locked limit s =
    Ensures-run_next _
      (query-Ensures
        {P = λ jobs u.
          (select_due limit s ≡ ok jobs)
          × (u.locked ≡ s.locked)
          × (u.db ≡ s.db)
          × (u.clock ≡ s.clock)
          × (u.reads ≡ s.reads)}
        {Q = λ _ u. u.db ≡ s.db} _ s (λ hs jobs e. (e, refl, refl, refl, refl)) (λ _ _. refl))
      λ jobs u h. returns (record {
        selected = h.0;
        locks = ap (λ held. map (λ j. j.id) jobs ++ held) h.1;
        same_rows = h.2;
        same_clock = h.3;
        same_reads = h.4;
      })

-- Two transactions that claim at the same time never select the same job: while every lock that
-- the first query took is still held, a second query, on whatever tables, selects jobs with other
-- identifiers only.
pub select_for_update-disjoint :
    (limit limit' : ℤ) (s t u v : Store) (jobs jobs' : List Job) (j j' : Job)
    → select_for_update limit s ≡ (ok jobs, t)
    → ((id : String) → In id t.locked → In id u.locked)
    → select_for_update limit' u ≡ (ok jobs', v)
    → In j jobs
    → In j' jobs'
    → j.id ≢ j'.id
select_for_update-disjoint limit limit' s t u v jobs jobs' j j' first held second m m' same =
    let took = Ensures-eq-ok (select_for_update-Locked limit s) first in
    let found = Ensures-eq-ok (select_for_update-Locked limit' u) second in
    let due = In-All (IsDue u) jobs' j' (select_due-IsDue limit' u jobs' found.selected).0 m' in
    let mine : In j.id t.locked =
      rw took.locks (In-append_left j.id _ s.locked (In-map j jobs m)) in
    let hit : any (λ id. id == j'.id) u.locked ≡ true =
      rw (← same) (any_of_In j.id u.locked (held j.id mine)) in
    cc (hit, due.free)
