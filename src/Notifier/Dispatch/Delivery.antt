-- ===== src/Notifier/Dispatch/Delivery.antt =====
-- What the goroutines of a dispatch leave: the status that each send records, in any order.
use signal_flow.Base.{
  ℕ, ◌≡◌, ◌≢◌, refl, sym, ap, subst, ◌∙◌, ◌⊎◌, inl, inr, String, Option, none, some, List, [], ◌∷◌,
  Result, ok, err, run_next, arith, eq_iff, ne_of_test, ◌==◌, In, All, map, Bool-cases, suc,
}
use signal_flow.Domain.{
  Time, ChannelType, Channel, Notification, NotificationStatus, pending, sent, failed,
}
use signal_flow.Store.{Store}
use signal_flow.Store.Rows.{update_where, In-update_where}
use signal_flow.Store.Statement.{statement-written}
use signal_flow.Repository.Notification
use signal_flow.Repository.Notification.{with_status}
use signal_flow.Repository.Adapters.{notification_repository}
use signal_flow.Executor.{Context}
use signal_flow.Notifier.Message.{Message}
use signal_flow.Notifier.Dispatch.{
  Notifier, Registry, Sending, notifier_for, send_timeout, logged, report, send_with, send,
  run_sends,
}

-- A notifier acts outside the database: of the store it moves the clock only.
abbrev pub SendsOutside : Notifier Store → Type 0
SendsOutside n =
    (ctx : Context) (ch : Channel) (msg : Message) (s : Store)
    → (r : ℕ) × ((n.send ctx ch msg s).1 ≡ record s { reads = r })

abbrev pub AllSendOutside : Registry Store → Type 0
AllSendOutside registry = All (λ p. SendsOutside p.1) registry

notifier_for-SendsOutside :
    (t : ChannelType) (registry : Registry Store) (n : Notifier Store)
    → AllSendOutside registry
    → notifier_for t registry ≡ some n
    → SendsOutside n
unfolding notifier_for
notifier_for-SendsOutside t [] n h found = cc
notifier_for-SendsOutside t ((u, m) ∷ registry) n (outside, h) found = elim (Bool-cases (u == t)) [
  | inl hit ↦ let same : m ≡ n = ground arith in subst SendsOutside same outside
  | inr miss ↦ notifier_for-SendsOutside t registry n h (ground arith)
]

-- The row of the notification got the status, and nothing else moved but the clock.
pub record Settled (id : String) (status : NotificationStatus) (s : Store)
    (r : Result (Unit {0}) × Store) : Type 0 where
  pub text : String
  pub at : Option Time
  pub reads : ℕ
  pub answered : r ≡ (
    ok tt,
    record s {
      reads = reads;
      db = record s.db {
        notifications = update_where (λ n. n.id == id) (with_status status text at) s.notifications;
      };
    },
  )

logged-Settled :
    (id : String) (status : NotificationStatus) (text : String) (s : Store)
    → s.faults ≡ []
    → Settled id status s
        (logged notification_repository [] (notification_repository.update_status id status text) s)
unfolding Notification.update_status run_next
logged-Settled id sent text s calm = record {
  text = text;
  at = some (s.clock s.reads);
  reads = suc s.reads;
  answered = ap (λ u. (ok tt, u)) (statement-written _ (record s { reads = suc s.reads }) calm);
}
logged-Settled id failed text s calm = record {
  text = text;
  at = none;
  reads = s.reads;
  answered = ap (λ u. (ok tt, u)) (statement-written _ s calm);
}
logged-Settled id pending text s calm = record {
  text = text;
  at = none;
  reads = s.reads;
  answered = ap (λ u. (ok tt, u)) (statement-written _ s calm);
}

-- The send has a notifier, and the notifier reports no error.
abbrev pub Delivers : Registry Store → Sending → Store → Type 0
Delivers registry x s =
    (n : Notifier Store) × (notifier_for x.channel.type registry ≡ some n)
    × ((n.send (send_timeout ∷ []) x.channel x.message s).0 ≡ ok tt)

-- What one send does: its status is sent exactly if it delivers.
abbrev pub SettledBy : Type 0 → String → Store → Result (Unit {0}) × Store → Type 0
SettledBy delivers id s r =
    (status : NotificationStatus) × Settled id status s r
    × (((status ≡ sent) × delivers) ⊎ ((status ≡ failed) × (delivers → ⊥)))

report-SettledBy :
    (n : Notification) (r : Result (Unit {0})) (s : Store)
    → s.faults ≡ []
    → SettledBy (r ≡ ok tt) n.id s (report notification_repository [] n r s)
report-SettledBy n (err e) s calm =
    (failed, logged-Settled n.id failed e.text s calm, inr (refl, λ clash. cc))
report-SettledBy n (ok u) s calm = (sent, logged-Settled n.id sent "" s calm, inl (refl, refl))

module _ (registry : Registry Store) (outside : AllSendOutside registry) where
  send_with-SettledBy :
      (o : Option (Notifier Store)) (x : Sending) (s : Store)
      → notifier_for x.channel.type registry ≡ o
      → s.faults ≡ []
      → SettledBy
          (Delivers registry x s)
          x.notification.id
          s
          (send_with notification_repository registry o x s)
  unfolding run_next
  send_with-SettledBy none x s e calm =
      (failed, logged-Settled x.notification.id failed _ s calm, inr (refl, λ (n, found, _). cc))
  send_with-SettledBy (some n) x s e calm =
      let (k, moved) =
        notifier_for-SendsOutside x.channel.type registry n outside e (send_timeout ∷ []) x.channel
          x.message s in
      let (status, settled, why) =
        report-SettledBy x.notification (n.send (send_timeout ∷ []) x.channel x.message s).0
          (record s { reads = k }) calm in
      (
        status,
        record {
          text = settled.text;
          at = settled.at;
          reads = settled.reads;
          answered = rw moved settled.answered;
        },
        elim why [
          | inl (is, won) ↦ inl (is, (n, e, won))
          | inr (is, lost) ↦ inr (
            is,
            λ (m, found, won).
                let same : m ≡ n = cc in
                lost (
                  subst
                    (λ (k : Notifier Store).
                      (k.send (send_timeout ∷ []) x.channel x.message s).0 ≡ ok tt)
                    same won),
          )
        ],
      )

  pub send-SettledBy :
      (x : Sending) (s : Store)
      → s.faults ≡ []
      → SettledBy
          (Delivers registry x s)
          x.notification.id
          s
          (send notification_repository registry x s)
  unfolding send
  send-SettledBy x s calm = send_with-SettledBy (notifier_for x.channel.type registry) x s refl calm

-- A row after the send of a notification: the notification's own, or one that was there.
Settled-row :
    (id : String) (status : NotificationStatus) (s : Store) (r : Result (Unit {0}) × Store)
    (n : Notification)
    → Settled id status s r
    → In n r.1.notifications
    → ((n.id ≡ id) × (n.status ≡ status)) ⊎ ((n.id ≢ id) × In n s.notifications)
Settled-row id status s r n settled m =
    let listed =
      subst (λ (u : Store). In n u.notifications)
        (ap (λ (p : Result (Unit {0}) × Store). p.1) settled.answered) m in
    let (o, old, how) =
      In-update_where (λ n. n.id == id) (with_status status settled.text settled.at) s.notifications
        n listed in
    elim how [
      | inl (hit, is) ↦ inl (
        ap (λ (k : Notification). k.id) is ∙ (eq_iff o.id id).0 hit,
        ap (λ (k : Notification). k.status) is,
      )
      | inr (miss, is) ↦ inr (
        λ clash. ne_of_test o.id id miss (sym (ap (λ (k : Notification). k.id) is) ∙ clash),
        subst (λ k. In k s.notifications) (sym is) old,
      )
    ]

module _ (registry : Registry Store) (outside : AllSendOutside registry) where
  -- With notifiers that act outside the database and no failures to come, the row of a send's
  -- notification ends as sent if its channel's notifier reports no error, and otherwise as failed;
  -- every row of another notification is one that was there.
  pub send_settles :
      (x : Sending) (s : Store) (n : Notification)
      → s.faults ≡ []
      → In n (send notification_repository registry x s).1.notifications
      → ((n.id ≡ x.notification.id)
          × (((n.status ≡ sent) × Delivers registry x s)
              ⊎ ((n.status ≡ failed) × (Delivers registry x s → ⊥))))
        ⊎ ((n.id ≢ x.notification.id) × In n s.notifications)
  send_settles x s n calm m =
      let (status, settled, why) = send-SettledBy registry outside x s calm in
      elim (Settled-row x.notification.id status s _ n settled m) [
        | inl (ours, is) ↦ inl (
          ours,
          elim why [ inl (won, d) ↦ inl (is ∙ won, d) | inr (lost, d) ↦ inr (is ∙ lost, d) ],
        )
        | inr other ↦ inr other
      ]

  abbrev ids_of : List Sending → List String
  ids_of xs = map (λ x. x.notification.id) xs

  final_status :
      (status : NotificationStatus) → (status ≡ sent) ⊎ (status ≡ failed) → status ≢ pending
  final_status status (inl e) = λ clash. cc
  final_status status (inr e) = λ clash. cc

  -- With notifiers that act outside the database and no failures to come, after the sends of any
  -- list no notification of theirs is pending; every row of another notification is one that was there.
  pub run_sends_settle :
      (xs : List Sending) (s : Store) (n : Notification)
      → s.faults ≡ []
      → In n (run_sends notification_repository registry xs s).1.notifications
      → (In n.id (ids_of xs) × (n.status ≢ pending))
        ⊎ ((In n.id (ids_of xs) → ⊥) × In n s.notifications)
  unfolding run_sends run_next
  run_sends_settle [] s n calm m = inr (λ none_left. elim none_left [ ], m)
  run_sends_settle (x ∷ xs) s n calm m =
      let (status, settled, why) = send-SettledBy registry outside x s calm in
      let t = (send notification_repository registry x s).1 in
      let quiet : t.faults ≡ [] =
        ap (λ (p : Result (Unit {0}) × Store). p.1.faults) settled.answered ∙ calm in
      let goes : (run_sends notification_repository registry (x ∷ xs) s)
          ≡ run_sends notification_repository registry xs t =
        ap
          (λ (r : Result (Unit {0})).
            run_next (λ _. run_sends notification_repository registry xs) (r, t))
          (ap (λ (p : Result (Unit {0}) × Store). p.0) settled.answered) in
      let later = subst (λ (p : Result (Unit {0}) × Store). In n p.1.notifications) goes m in
      elim (run_sends_settle xs t n quiet later) [
        | inl (listed, done) ↦ inl (inr listed, done)
        | inr (unlisted, here) ↦ elim (Settled-row x.notification.id status s _ n settled here) [
          | inl (ours, is) ↦ inl (
            inl ours,
            final_status n.status
                (elim why [ inl (won, _) ↦ inl (is ∙ won) | inr (lost, _) ↦ inr (is ∙ lost) ]),
          )
          | inr (other, old) ↦ inr (λ l. elim l [ inl e ↦ other e | inr rest ↦ unlisted rest ], old)
        ]
      ]
