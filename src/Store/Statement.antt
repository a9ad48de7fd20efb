-- ===== src/Store/Statement.antt =====
-- Running a statement and a transaction (pgx): a failure is an error value and leaves the rows as
-- they were.
use signal_flow.Base.{
  ap, ◌∙◌, suc, String, Option, none, some, List, [], ◌∷◌, Result, ok, err, Error, other, M,
  Ensures, returns, fails, Ensures-ok, Ensures-err, ◌≡◌, refl, sym, subst,
}
use signal_flow.Domain.{Time}
use signal_flow.Domain.Ports.{Runtime}
use signal_flow.Store.{Db, Store}

abbrev pub driver_error : String → Error
driver_error text = record { kind = other; text = text }

module _ {A : Type 0} where
  unfoldable pub settle : Store → Result (A × Db) → Result A × Store
  settle s (ok (a, db)) = (ok a, record s { db = db })
  settle s (err e) = (err e, s)

  unfoldable run_statement : List (Option String) → (Store → Result (A × Db)) → M Store A
  run_statement [] body s = settle s (body s)
  run_statement (none ∷ fs) body s =
      settle (record s { faults = fs }) (body (record s { faults = fs }))
  run_statement (some text ∷ fs) body s = (err (driver_error text), record s { faults = fs })

  -- One statement outside or inside a transaction.
  unfoldable pub statement : (Store → Result (A × Db)) → M Store A
  unfolding run_statement
  statement body s = run_statement s.faults body s

abbrev roll_back : Db → Store → Store
roll_back db s = record s { db = db }

-- A statement that only reads.
module _ {A : Type 0} where
  abbrev with_rows : Store → Result A → Result (A × Db)
  with_rows s (ok a) = ok (a, s.db)
  with_rows s (err e) = err e

  unfoldable pub query : (Store → Result A) → M Store A
  unfolding statement
  query body = statement (λ s. with_rows s (body s))

  unfoldable finish_commit : Db → A → Result (Unit {0}) × Store → Result A × Store
  finish_commit db a (ok _, s) = (ok a, s)
  finish_commit db a (err e, s) = (err e, roll_back db s)

  -- COMMIT, with the rows as they stood at BEGIN.
  unfoldable close : Db → Result A × Store → Result A × Store
  unfolding finish_commit statement
  close db (ok a, s) = finish_commit db a (statement (λ t. ok (tt, t.db)) s)
  close db (err e, s) = (err e, roll_back db s)

  unfoldable begin : M Store A → Db → Result (Unit {0}) × Store → Result A × Store
  unfolding close
  begin m db (ok _, s) = close db (m s)
  begin m db (err e, s) = (err e, s)

  -- BEGIN, the body, COMMIT; ROLLBACK where any of them fails.
  unfoldable pub transaction : M Store A → M Store A
  unfolding begin statement
  transaction m s = begin m s.db (statement (λ t. ok (tt, t.db)) s)

abbrev read_clock : M Store Time
read_clock s = (ok (s.clock s.reads), record s { reads = suc s.reads })

abbrev draw_uuid : M Store String
draw_uuid s = (ok (s.uuid s.drawn), record s { drawn = suc s.drawn })

abbrev pub store_runtime : Runtime Store
store_runtime = record { now = read_clock; new_uuid = draw_uuid }

-- A statement ensures what its body ensures, whatever failures are still to come, and a failed
-- one has changed no row.
module _ {ℓ} {A : Type 0} {P : A → Store → Type ℓ} {Q : Error → Store → Type ℓ} where
  pub settle-Ensures :
      (s : Store) (a : A) (db : Db)
      → P a (record s { db = db })
      → Ensures P Q (settle s (ok (a, db)))
  unfolding settle
  settle-Ensures s a db h = returns h

  run_statement-Ensures :
      (fs : List (Option String)) (body : Store → Result (A × Db)) (s : Store)
      → ((gs : List (Option String))
          → Ensures P Q (settle (record s { faults = gs }) (body (record s { faults = gs }))))
      → ((text : String) (gs : List (Option String))
          → Q (driver_error text) (record s { faults = gs }))
      → Ensures P Q (run_statement fs body s)
  unfolding run_statement
  run_statement-Ensures [] body s h k = h s.faults
  run_statement-Ensures (none ∷ fs) body s h k = h fs
  run_statement-Ensures (some text ∷ fs) body s h k = fails (k text fs)

  pub statement-Ensures :
      (body : Store → Result (A × Db)) (s : Store)
      → ((gs : List (Option String))
          → Ensures P Q (settle (record s { faults = gs }) (body (record s { faults = gs }))))
      → ((text : String) (gs : List (Option String))
          → Q (driver_error text) (record s { faults = gs }))
      → Ensures P Q (statement body s)
  unfolding statement
  statement-Ensures body s h k = run_statement-Ensures s.faults body s h k

  with_rows-Ensures :
      (s : Store) (r : Result A)
      → ((a : A) → r ≡ ok a → P a s)
      → ((e : Error) → Q e s)
      → Ensures P Q (settle s (with_rows s r))
  unfolding settle
  with_rows-Ensures s (ok a) h k = returns (h a refl)
  with_rows-Ensures s (err e) h k = fails (k e)

  pub query-Ensures :
      (body : Store → Result A) (s : Store)
      → ((gs : List (Option String)) (a : A)
          → body (record s { faults = gs }) ≡ ok a
          → P a (record s { faults = gs }))
      → ((e : Error) (gs : List (Option String)) → Q e (record s { faults = gs }))
      → Ensures P Q (query body s)
  unfolding query
  query-Ensures body s h k =
      statement-Ensures _ s (λ gs. with_rows-Ensures _ _ (h gs) (λ e. k e gs)) (λ text gs. k _ gs)

module _ {ℓ} {A : Type 0} {P : A → Store → Type ℓ} {Q : Error → Store → Type ℓ} where
  commit-Ensures :
      (db : Db) (a : A) (t : Store)
      → ((gs : List (Option String)) → P a (record t { faults = gs }))
      → ((e : Error) (gs : List (Option String)) → Q e (record t { db = db; faults = gs }))
      → (r : Result (Unit {0}) × Store)
      → Ensures
          (λ _ u. (gs : List (Option String)) × (u ≡ record t { faults = gs }))
          (λ _ u. (gs : List (Option String)) × (u ≡ record t { faults = gs }))
          r
      → Ensures P Q (finish_commit db a r)
  unfolding finish_commit
  commit-Ensures db a t h k (ok _, u) g =
      let (gs, e) = Ensures-ok g in returns (subst (P a) (sym e) (h gs))
  commit-Ensures db a t h k (err x, u) g =
      let (gs, e) = Ensures-err g in fails (subst (λ v. Q x (roll_back db v)) (sym e) (k x gs))

  close-Ensures :
      (db : Db) (r : Result A × Store)
      → Ensures
          (λ a t.
            ((gs : List (Option String)) → P a (record t { faults = gs }))
            × ((e : Error) (gs : List (Option String)) → Q e (record t { db = db; faults = gs })))
          (λ e t. Q e (roll_back db t))
          r
      → Ensures P Q (close db r)
  unfolding close
  close-Ensures db (err e, t) h = fails (Ensures-err h)
  close-Ensures db (ok a, t) h =
      let (p, q) = Ensures-ok h in
      commit-Ensures db a t p q _
        (statement-Ensures _ t (λ gs. settle-Ensures _ _ _ (gs, refl)) (λ _ gs. (gs, refl)))

  begin-Ensures :
      (m : M Store A) (s : Store) (r : Result (Unit {0}) × Store)
      → Ensures
          (λ _ u. (gs : List (Option String)) × (u ≡ record s { faults = gs }))
          (λ _ u. (gs : List (Option String)) × (u ≡ record s { faults = gs }))
          r
      → ((gs : List (Option String)) → Ensures P Q (close s.db (m (record s { faults = gs }))))
      → ((e : Error) (gs : List (Option String)) → Q e (record s { faults = gs }))
      → Ensures P Q (begin m s.db r)
  unfolding begin
  begin-Ensures m s (ok _, u) g h k =
      let (gs, e) = Ensures-ok g in subst (λ v. Ensures P Q (close s.db (m v))) (sym e) (h gs)
  begin-Ensures m s (err x, u) g h k =
      let (gs, e) = Ensures-err g in fails (subst (Q x) (sym e) (k x gs))

  -- A transaction ensures what its body does, also after COMMIT; on an error, also a failed
  -- BEGIN or COMMIT, the rows are those of its beginning.
  pub transaction-Ensures :
      (m : M Store A) (s : Store)
      → ((gs : List (Option String))
          → Ensures
              (λ a t.
                ((hs : List (Option String)) → P a (record t { faults = hs }))
                × ((e : Error) (hs : List (Option String))
                    → Q e (record t { db = s.db; faults = hs })))
              (λ e t. Q e (record t { db = s.db }))
              (m (record s { faults = gs })))
      → ((e : Error) (gs : List (Option String)) → Q e (record s { faults = gs }))
      → Ensures P Q (transaction m s)
  unfolding transaction
  transaction-Ensures m s h k =
      begin-Ensures m s _
        (statement-Ensures _ s (λ gs. settle-Ensures _ _ _ (gs, refl)) (λ _ gs. (gs, refl)))
        (λ gs. close-Ensures s.db _ (h gs)) k

-- The tables after a statement that met no failure of the driver.
abbrev pub written : {A : Type 0} → Result (A × Db) → Db → Db
written (ok (a, db)) old = db
written (err e) old = old

module _ {A : Type 0} where
  settle-written :
      (s : Store) (r : Result (A × Db)) → (settle s r).1 ≡ record s { db = written r s.db }
  unfolding settle
  settle-written s (ok (a, db)) = refl
  settle-written s (err e) = refl

  pub statement-written :
      (body : Store → Result (A × Db)) (s : Store)
      → s.faults ≡ []
      → (statement body s).1 ≡ record s { db = written (body s) s.db }
  unfolding statement run_statement
  statement-written body s calm =
      ap (λ fs. (run_statement fs body s).1) calm ∙ settle-written s (body s)

-- A statement that meets no failure and whose constraints hold.
module _ {A : Type 0} where
  pub statement-eq-ok :
      (body : Store → Result (A × Db)) (s : Store) (a : A) (db : Db)
      → s.faults ≡ []
      → body s ≡ ok (a, db)
      → statement body s ≡ (ok a, record s { db = db })
  unfolding statement run_statement settle
  statement-eq-ok body s a db calm e = ap (λ fs. run_statement fs body s) calm ∙ ap (settle s) e

  pub query-eq-ok :
      (body : Store → Result A) (s : Store) (a : A)
      → s.faults ≡ []
      → body s ≡ ok a
      → query body s ≡ (ok a, s)
  unfolding query
  query-eq-ok body s a calm e = statement-eq-ok _ s a s.db calm (ap (with_rows s) e)

-- Reading the clock and drawing an identifier never fail and change no row.
module _ {Q : Error → Store → Type 0} where
  pub now-Ensures :
      (s : Store) → Ensures (λ a t. (a ≡ s.clock s.reads) × (t.db ≡ s.db)) Q (store_runtime.now s)
  now-Ensures s = returns (refl, refl)

  pub new_uuid-Ensures :
      (s : Store)
      → Ensures (λ a t. (a ≡ s.uuid s.drawn) × (t.db ≡ s.db)) Q (store_runtime.new_uuid s)
  new_uuid-Ensures s = returns (refl, refl)
