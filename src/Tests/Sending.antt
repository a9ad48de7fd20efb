-- ===== src/Tests/Sending.antt =====
-- Sends with a notifier that delivers, and a tick whose claim meets a saturated pool.
use signal_flow.Base.{
  bytes_of, pos, ◌≡◌, ◌≢◌, ◌⊎◌, refl, none, some, List, [], ◌∷◌, ok, M, In, inl, run_next,
}
use signal_flow.Domain.{
  Channel, Notification, JobClaim, pending, sent, failed, success, channel_type_webhook,
}
use signal_flow.Store.{Store}
use signal_flow.Store.Statement.{store_runtime, statement, settle, transaction, query}
use signal_flow.Repository.Constraints.{require}
use signal_flow.Repository.Notification
use signal_flow.Repository.Claim.{claim_due}
use signal_flow.Repository.Adapters.{job_repository, execution_repository, notification_repository}
use signal_flow.Executor.{Context}
use signal_flow.Notifier.Message.{Message}
use signal_flow.Notifier.Dispatch.{Registry, Sending, send, run_sends}
use signal_flow.Notifier.Dispatch.Delivery.{
  AllSendOutside, Delivers, send_settles, run_sends_settle,
}
use signal_flow.Scheduler.Tick.{Offer, saturated, tick, next_run}
use signal_flow.Scheduler.Tick.Laws.{Writable, Accounted, Offers, planned_run, tick_accounts}
use signal_flow.Repository.Claim.Laws.{ClaimStep}
use signal_flow.Tests.Data.{store, backup, report, hook, run_row, every_hour}

abbrev deliver : Context → Channel → Message → M Store (Unit {0})
deliver ctx ch msg s = (ok tt, s)

abbrev registry : Registry Store
registry = (channel_type_webhook, record { type = channel_type_webhook; send = deliver }) ∷ []

registry_outside : AllSendOutside registry
registry_outside = ((λ ctx ch msg s. (s.reads, refl)), tt)

abbrev note : Notification
note = record {
  id = "note";
  execution_id = "old";
  channel_id = "hook";
  status = pending;
  payload = [];
  error = "";
  sent_at = none;
  created_at = 3;
}

abbrev sending : Sending
sending = record {
  channel = hook;
  notification = note;
  message = record {
    job_name = "backup";
    status = success;
    output = [];
    error = "";
    duration = pos 0;
    timestamp = 3;
  };
}

abbrev store_pending : Store
store_pending = record store { db = record store.db { notifications = note ∷ [] } }

abbrev sent_note : Notification
sent_note = record note { status = sent; sent_at = some 10 }

send_listed :
    In sent_note (send notification_repository registry sending store_pending).1.notifications
unfolding send run_next Notification.update_status statement settle
send_listed = inl refl

run_sends_listed :
    In sent_note
      (run_sends notification_repository registry (sending ∷ []) store_pending).1.notifications
unfolding run_sends run_next Notification.update_status statement settle
run_sends_listed = inl refl

send_settles_example :
    ((sent_note.id ≡ note.id)
      × (((sent_note.status ≡ sent) × Delivers registry sending store_pending)
          ⊎ ((sent_note.status ≡ failed) × (Delivers registry sending store_pending → ⊥))))
    ⊎ ((sent_note.id ≢ note.id) × In sent_note store_pending.notifications)
send_settles_example =
    send_settles registry registry_outside sending store_pending sent_note refl send_listed

run_sends_settle_example :
    (In sent_note.id (note.id ∷ []) × (sent_note.status ≢ pending))
    ⊎ ((In sent_note.id (note.id ∷ []) → ⊥) × In sent_note store_pending.notifications)
run_sends_settle_example =
    run_sends_settle registry registry_outside (sending ∷ []) store_pending sent_note refl
      run_sends_listed

-- No worker takes the claim in time.
abbrev busy : JobClaim → M Store Offer
busy c s = (ok saturated, s)

busy-Offers : Offers busy
busy-Offers c s = (saturated, (s.reads, refl))

abbrev claim : JobClaim
claim = record { job = record backup { next_run_at = some 3611 }; execution_id = "fresh" }

abbrev store_claimed : Store
store_claimed = record store {
  db = record store.db {
    jobs = record backup { next_run_at = some 3611; updated_at = 10 } ∷ report ∷ [];
    executions = run_row "old" "backup" 2 ∷ run_row "fresh" "backup" 10 ∷ [];
  };
  reads = 2;
  drawn = 1;
}

claims_backup :
    claim_due
      (pos 2)
      (next_run store_runtime job_repository execution_repository every_hour busy (pos 1))
      store
    ≡ (ok (claim ∷ []), store_claimed)
unfolding claim_due transaction run_next settle query require next_run
claims_backup = refl

-- TEXT takes the marks.
marks_fit : Writable store_claimed
unfolding bytes_of
marks_fit = (refl, (refl, refl), (refl, refl))

tick_accounts_example :
    ClaimStep (planned_run every_hour busy (pos 1)) (pos 2) (claim ∷ []) store store_claimed.db
    × ((taken : List JobClaim) × (u : Store) × (tick store_runtime job_repository
            execution_repository every_hour busy
            (pos 1)
            store
          ≡ (ok taken, u))
        × Accounted (claim ∷ []) taken store_claimed u)
tick_accounts_example =
    tick_accounts every_hour busy (pos 1) (claim ∷ []) store store_claimed busy-Offers claims_backup
      marks_fit
