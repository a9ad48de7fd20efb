-- ===== src/Repository/Integrity/Laws.antt =====
-- The tables stay consistent, whatever is called and whatever fails.
use signal_flow.Base.{
  ℤ, String, List, [], ◌∷◌, Result, ok, err, refl, sym, ap, subst, Ensures, returns, fails,
  Ensures-mono, Ensures-run_next, Ensures-state, run_next, All, Result-cases, try, inl, inr,
}
use signal_flow.Domain.{Time, Job, NotificationStatus, pending, sent, failed}
use signal_flow.Domain.Ports.{NextRunFunc}
use signal_flow.Store.{Db, Store, current}
use signal_flow.Store.Statement.{statement, statement-Ensures, settle, transaction-Ensures}
use signal_flow.Repository.User
use signal_flow.Repository.Job
use signal_flow.Repository.Claim
use signal_flow.Repository.Claim.{claim_job, claim_one, claim_jobs, claim_within, select_due}
use signal_flow.Repository.Claim.Selection.{select_for_update-Locked}
use signal_flow.Repository.Claim.Laws.{unlock-Ensures}
use signal_flow.Repository.Claim.Effect.{OnlyReads}
use signal_flow.Repository.Execution
use signal_flow.Repository.Execution.{recovered}
use signal_flow.Repository.Channel
use signal_flow.Repository.Notification
use signal_flow.Repository.Notification.{sent_time}
use signal_flow.Repository.Integrity.{
  IsConsistent, Write, create_user, update_user, delete_user, create_job, update_job, delete_job,
  claim_due, create_execution, update_execution, recover_stale, delete_older, create_channel,
  update_channel, delete_channel, create_notification, update_status, after, after_all,
}
use signal_flow.Repository.Integrity.Tables.{Keeps}
use signal_flow.Repository.Integrity.Inserts.{
  insert_user-Keeps, insert_job-Keeps, insert_channel-Keeps, insert_execution-Keeps,
  insert_running-Keeps, insert_notification-Keeps,
}
use signal_flow.Repository.Integrity.Updates.{
  set_user-Keeps, set_job-Keeps, set_channel-Keeps, set_execution-Keeps, change_executions,
  advance_job-keeps, set_status-keeps,
}
use signal_flow.Repository.Integrity.Deletes.{
  delete_user-keeps, delete_job-keeps, delete_channel-keeps, delete_executions-keeps,
}

-- On both outcomes of a call.
abbrev Safe : {A : Type 0} → Result A × Store → Type 0
Safe out = Ensures (λ _ t. IsConsistent t.db) (λ _ t. IsConsistent t.db) out

settle-Safe :
    {A : Type 0} (s : Store) (r : Result (A × Db)) → IsConsistent s.db → Keeps r → Safe (settle s r)
unfolding settle
settle-Safe s (ok (a, db)) c k = returns k
settle-Safe s (err e) c k = fails c

-- A statement that keeps the tables it acts on.
statement-Safe :
    {A : Type 0} (body : Store → Result (A × Db)) (s : Store)
    → IsConsistent s.db
    → ((u : Store) → IsConsistent u.db → Keeps (body u))
    → Safe (statement body s)
statement-Safe body s c keeps =
    statement-Ensures body s (λ gs. settle-Safe _ _ c (keeps _ c)) (λ text gs. c)

claim_job-Safe :
    (began now : Time) (job : Job) (next_at : Time) (s : Store)
    → IsConsistent s.db
    → Safe (claim_job began now job next_at s)
unfolding claim_job run_next
claim_job-Safe began now job next_at s c =
    Ensures-run_next _ (statement-Safe _ s c (λ u k. advance_job-keeps began next_at job.id u.db k))
      λ _ t k.
        Ensures-run_next _ (statement-Safe _ _ k (λ u k. insert_running-Keeps _ job.id now u.db k))
          λ id u k. returns k

module _ (next : NextRunFunc Store) (reads : OnlyReads next) where
  try_next-Safe : (schedule : String) (s : Store) → IsConsistent s.db → Safe (try (next schedule) s)
  try_next-Safe schedule s c =
      returns (subst IsConsistent (sym (ap (λ (t : Store). t.db) (reads schedule s).1)) c)

  claim_jobs-Safe :
      (began now : Time) (jobs : List Job) (s : Store)
      → IsConsistent s.db
      → Safe (claim_jobs next began now jobs s)
  unfolding claim_jobs claim_one
  claim_jobs-Safe began now [] s c = returns c
  claim_jobs-Safe began now (job ∷ jobs) s c =
      Ensures-run_next _ (try_next-Safe job.schedule s c) λ r t k. elim (Result-cases r) [
        | inr (x, e) ↦ rw e (claim_jobs-Safe began now jobs t k)
        | inl (at, e) ↦ rw e (
            Ensures-run_next _ (claim_job-Safe began now job at t k) λ claim u k.
              Ensures-run_next _ (claim_jobs-Safe began now jobs u k) λ claims v k. returns k)
      ]

  claim_within-Safe :
      (limit : ℤ) (began : Time) (s : Store)
      → IsConsistent s.db
      → Safe (claim_within limit next began s)
  unfolding claim_within run_next
  claim_within-Safe limit began s c =
      Ensures-run_next _
        (Ensures-mono (select_for_update-Locked limit s)
          (λ _ t h. subst IsConsistent (sym h.same_rows) c) (λ _ t h. subst IsConsistent (sym h) c))
        λ jobs t k. claim_jobs-Safe began _ jobs _ k

  claim_due-Safe : (limit : ℤ) (s : Store) → IsConsistent s.db → Safe (Claim.claim_due limit next s)
  unfolding Claim.claim_due
  claim_due-Safe limit s c = unlock-Ensures s.locked _ (
      transaction-Ensures _ s
        (λ gs.
          Ensures-mono (claim_within-Safe limit (current s) _ c) (λ _ t k. ((λ hs. k), (λ e hs. c)))
            (λ _ t _. c))
        (λ _ _. c))

sent_time-Safe :
    (status : NotificationStatus) (s : Store) → IsConsistent s.db → Safe (sent_time status s)
sent_time-Safe pending s c = returns c
sent_time-Safe sent s c = returns c
sent_time-Safe failed s c = returns c

-- The schedule function of a claim only reads the clock; the other calls ask nothing.
abbrev pub IsFair : Write → Type 0
IsFair (claim_due limit next) = OnlyReads next
IsFair _ = Unit {0}

pub after-IsConsistent :
    (w : Write) (s : Store) → IsFair w → IsConsistent s.db → IsConsistent (after w s).db
unfolding User.create User.update User.delete Job.create Job.update Job.delete Execution.create
    Execution.update Execution.recover_stale_running Execution.delete_older_than Channel.create
    Channel.update Channel.delete Notification.create Notification.update_status
after-IsConsistent (create_user u) s _ c =
    Ensures-state (statement-Safe _ s c (λ t k. insert_user-Keeps _ u t.db k))
after-IsConsistent (update_user u) s _ c =
    Ensures-state (statement-Safe _ s c (λ t k. set_user-Keeps _ u t.db k))
after-IsConsistent (delete_user id) s _ c =
    Ensures-state (statement-Safe _ s c (λ t k. delete_user-keeps id t.db k))
after-IsConsistent (create_job j) s _ c =
    Ensures-state (statement-Safe _ s c (λ t k. insert_job-Keeps _ j t.db k))
after-IsConsistent (update_job j) s _ c =
    Ensures-state (statement-Safe _ s c (λ t k. set_job-Keeps _ j t.db k))
after-IsConsistent (delete_job id) s _ c =
    Ensures-state (statement-Safe _ s c (λ t k. delete_job-keeps id t.db k))
after-IsConsistent (claim_due limit next) s reads c =
    Ensures-state (claim_due-Safe next reads limit s c)
after-IsConsistent (create_execution e) s _ c =
    Ensures-state (statement-Safe _ s c (insert_execution-Keeps e))
after-IsConsistent (update_execution e) s _ c =
    Ensures-state (statement-Safe _ s c (set_execution-Keeps e))
after-IsConsistent (recover_stale at) s _ c = Ensures-state (
    statement-Safe _ s c
      (λ t k. change_executions _ (recovered (current t)) t.db k (λ _. (refl, refl))))
after-IsConsistent (delete_older at) s _ c =
    Ensures-state (statement-Safe _ s c (λ t k. delete_executions-keeps _ t.db k))
after-IsConsistent (create_channel ch) s _ c =
    Ensures-state (statement-Safe _ s c (λ t k. insert_channel-Keeps _ ch t.db k))
after-IsConsistent (update_channel ch) s _ c =
    Ensures-state (statement-Safe _ s c (λ t k. set_channel-Keeps _ ch t.db k))
after-IsConsistent (delete_channel id) s _ c =
    Ensures-state (statement-Safe _ s c (λ t k. delete_channel-keeps id t.db k))
after-IsConsistent (create_notification n) s _ c =
    Ensures-state (statement-Safe _ s c (λ t k. insert_notification-Keeps _ n t k))
after-IsConsistent (update_status id status text) s _ c = Ensures-state (
    Ensures-run_next _ (sent_time-Safe status s c)
      λ at u k. statement-Safe _ u k (λ t k. set_status-keeps id status text at t.db k))

-- Any sequence of calls of the repository methods that write, each of which succeeds or fails on a
-- constraint, on the driver or within its transaction, leaves tables that are consistent if they
-- were: identifiers and addresses unique, every reference to a stored row, every CHECK and NOT NULL
-- of the jobs and channels met. The schedule functions of the claims only read the clock.
pub after_all-IsConsistent :
    (ws : List Write) (s : Store)
    → All IsFair ws
    → IsConsistent s.db
    → IsConsistent (after_all ws s).db
after_all-IsConsistent [] s h c = c
after_all-IsConsistent (w ∷ ws) s (fair, h) c =
    after_all-IsConsistent ws (after w s) h (after-IsConsistent w s fair c)
