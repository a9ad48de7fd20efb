-- ===== src/Notifier/Dispatch/Laws.antt =====
-- Which sends a dispatch starts, and the status that a send records.
use signal_flow.Base.{
  In-append_left, All-append, pure, ◌++◌, Outcome, Ensures-try, ℤ, ◌≡◌, refl, sym, ap, subst, ◌∙◌,
  inl, inr, String, Bool, true, false, List, [], ◌∷◌, Result, ok, err, Error, M, Ensures, returns,
  Ensures-mono, Ensures-run_next, if◌then◌else◌, All, All-mono, In,
}
use signal_flow.Domain.{Time, Job, Channel, Execution, Notification, pending}
use signal_flow.Store.{Db, Store, current}
use signal_flow.Store.Statement.{
  store_runtime, now-Ensures, new_uuid-Ensures, statement-Ensures, settle-Ensures,
}
use signal_flow.Repository.Constraints.{require-Ensures}
use signal_flow.Repository.Notification
use signal_flow.Repository.Notification.{insert_notification}
use signal_flow.Repository.Adapters.{channel_repository, notification_repository}
use signal_flow.Notifier.Message.{Message, execution_message}
use signal_flow.Notifier.Dispatch.{
  Sending, new_notification, start_send, started_of, start_sends, dispatch_to,
}

-- A send that was started is for an enabled channel of the list, with a pending notification of
-- this execution and that channel.
abbrev pub IsSendOf : Execution → List Channel → Sending → Type 0
IsSendOf exec chs x =
    In x.channel chs
    × (x.channel.enabled ≡ true)
    × (x.notification.status ≡ pending)
    × (x.notification.execution_id ≡ exec.id)
    × (x.notification.channel_id ≡ x.channel.id)

-- Only the notifications table is written.
abbrev pub Kept : Store → Store → Type 0
Kept s t = (t.executions ≡ s.executions) × (t.jobs ≡ s.jobs)

-- The row of the send's notification stands in the table.
abbrev pub HasRow : Store → Sending → Type 0
HasRow t x =
    (row : Notification) × In row t.notifications
    × (row.id ≡ x.notification.id)
    × (row.status ≡ pending)

pub record Dispatched (exec : Execution) (chs : List Channel) (xs : List Sending) (s t : Store)
    : Type 0 where
  pub sends : All (IsSendOf exec chs) xs
  pub rows : All (HasRow t) xs
  pub kept : Kept s t
  pub older : (n : Notification) → In n s.notifications → In n t.notifications

create-Ensures :
    (n : Notification) (s : Store)
    → Ensures
        (λ _ t.
          (now : Time) × (t.db ≡ record s.db {
            notifications = s.notifications ++ record n { created_at = now } ∷ [];
          }))
        (λ _ t. t.db ≡ s.db)
        (Notification.create n s)
unfolding Notification.create insert_notification
create-Ensures n s =
    statement-Ensures _ s
      (λ gs.
        require-Ensures _ _ _ _
          (λ _.
            require-Ensures _ _ _ _
              (λ _.
                require-Ensures _ _ _ _
                  (λ _. require-Ensures _ _ _ _ (λ _. settle-Ensures _ _ _ (current s, refl)) refl)
                  refl)
              refl)
          refl)
      (λ _ _. refl)

In-append_last : {A : Type 0} (a : A) (xs : List A) → In a (xs ++ a ∷ [])
In-append_last a [] = inl refl
In-append_last a (x ∷ xs) = inr (In-append_last a xs)

pub from_db : (s t v : Store) → t.db ≡ s.db → Kept t v → Kept s v
from_db s t v e k = (k.0 ∙ ap (λ (d : Db). d.executions) e, k.1 ∙ ap (λ (d : Db). d.jobs) e)

choose-Ensures :
    {A : Type 0} {P : A → Store → Type 0} {Q : Error → Store → Type 0} (b : Bool) (m m' : M Store A)
    (s : Store)
    → (b ≡ true → Ensures P Q (m s))
    → (b ≡ false → Ensures P Q (m' s))
    → Ensures P Q ((if b then m else m') s)
choose-Ensures true m m' s h k = h refl
choose-Ensures false m m' s h k = k refl

In-one : {A : Type 0} {a x : A} (xs : List A) → In a (x ∷ []) → In a (x ∷ xs)
In-one xs (inl e) = inl e
In-one xs (inr m) = elim m [ ]

module _ (show_duration : ℤ → String) where
  -- One enabled channel.
  started-Dispatched :
      (exec : Execution) (ch : Channel) (msg : Message) (n : Notification) (s u t : Store)
      (r : Result (Unit {0}))
      → ch.enabled ≡ true
      → n.status ≡ pending
      → n.execution_id ≡ exec.id
      → n.channel_id ≡ ch.id
      → u.db ≡ s.db
      → Outcome
          (λ _ t.
            (now : Time) × (t.db ≡ record u.db {
              notifications = u.notifications ++ record n { created_at = now } ∷ [];
            }))
          (λ _ t. t.db ≡ u.db)
          r
          t
      → Dispatched exec (ch ∷ []) (started_of ch n msg r) s t
  started-Dispatched exec ch msg n s u t (err e) on p q o same h =
      let all : t.db ≡ s.db = h ∙ same in
      record {
        sends = tt;
        rows = tt;
        kept = (ap (λ (d : Db). d.executions) all, ap (λ (d : Db). d.jobs) all);
        older = λ m listed. subst (λ (d : Db). In m d.notifications) (sym all) listed;
      }
  started-Dispatched exec ch msg n s u t (ok v) on p q o same (now, h) =
      let row = record n { created_at = now } in
      let all : t.db ≡ record s.db { notifications = s.notifications ++ row ∷ [] } =
        h ∙ ap (λ (d : Db). record d { notifications = d.notifications ++ row ∷ [] }) same in
      record {
        sends = ((inl refl, on, p, q, o), tt);
        rows = (
          (
            row,
            subst (λ (d : Db). In row d.notifications) (sym all)
                (In-append_last row s.notifications),
            refl,
            p,
          ),
          tt,
        );
        kept = (ap (λ (d : Db). d.executions) all, ap (λ (d : Db). d.jobs) all);
        older = λ m listed.
            subst (λ (d : Db). In m d.notifications) (sym all)
              (In-append_left m s.notifications _ listed);
      }

  start_send-Dispatched :
      (exec : Execution) (msg : Message) (ch : Channel) (s : Store)
      → ch.enabled ≡ true
      → Ensures
          (λ xs t. Dispatched exec (ch ∷ []) xs s t)
          (λ _ t. Kept s t)
          (start_send store_runtime channel_repository notification_repository show_duration exec
            msg ch s)
  unfolding start_send new_notification
  start_send-Dispatched exec msg ch s on = Ensures-run_next _ (new_uuid-Ensures s) λ id u drew.
      Ensures-run_next _ (now-Ensures u) λ now v read.
        let n =
          new_notification store_runtime channel_repository notification_repository show_duration id
            now exec ch msg in
        Ensures-run_next _ (Ensures-try (notification_repository.create n) v (create-Ensures n v))
          λ r t h.
            returns (started-Dispatched exec ch msg n s v t r on refl refl refl (read.1 ∙ drew.1) h)

  Dispatched-append :
      (exec : Execution) (ch : Channel) (chs : List Channel) (xs ys : List Sending) (s t v : Store)
      → Dispatched exec (ch ∷ []) xs s t
      → Dispatched exec chs ys t v
      → Dispatched exec (ch ∷ chs) (xs ++ ys) s v
  Dispatched-append exec ch chs xs ys s t v one more = record {
    sends =
        All-append (IsSendOf exec (ch ∷ chs)) xs ys
          (All-mono (IsSendOf exec (ch ∷ [])) (IsSendOf exec (ch ∷ chs)) xs
            (λ x m. (In-one chs m.0, m.1, m.2, m.3, m.4)) one.sends)
          (All-mono (IsSendOf exec chs) (IsSendOf exec (ch ∷ chs)) ys
            (λ x m. (inr m.0, m.1, m.2, m.3, m.4)) more.sends);
    rows =
        All-append (HasRow v) xs ys
          (All-mono (HasRow t) (HasRow v) xs (λ x m. (m.0, more.older m.0 m.1, m.2, m.3)) one.rows)
          more.rows;
    kept = (more.kept.0 ∙ one.kept.0, more.kept.1 ∙ one.kept.1);
    older = λ n m. more.older n (one.older n m);
  }

  first-Dispatched :
      (exec : Execution) (msg : Message) (ch : Channel) (s : Store)
      → Ensures
          (λ xs t. Dispatched exec (ch ∷ []) xs s t)
          (λ _ t. Kept s t)
          ((if ch.enabled
              then start_send store_runtime channel_repository notification_repository show_duration
                  exec msg ch
              else pure [])
            s)
  first-Dispatched exec msg ch s =
      choose-Ensures ch.enabled _ _ s (λ on. start_send-Dispatched exec msg ch s on)
        (λ _. returns (record { sends = tt; rows = tt; kept = (refl, refl); older = λ n m. m }))

  start_sends-Dispatched :
      (exec : Execution) (msg : Message) (chs : List Channel) (s : Store)
      → Ensures
          (λ xs t. Dispatched exec chs xs s t)
          (λ _ t. Kept s t)
          (start_sends store_runtime channel_repository notification_repository show_duration exec
            msg chs s)
  unfolding start_sends
  start_sends-Dispatched exec msg [] s =
      returns (record { sends = tt; rows = tt; kept = (refl, refl); older = λ n m. m })
  start_sends-Dispatched exec msg (ch ∷ chs) s =
      Ensures-run_next _ (first-Dispatched exec msg ch s) λ xs t one.
        Ensures-run_next _
          (Ensures-mono (start_sends-Dispatched exec msg chs t) (λ _ _ h. h)
            (λ _ _ h. (h.0 ∙ one.kept.0, h.1 ∙ one.kept.1)))
          λ ys v more. returns (Dispatched-append exec ch chs xs ys s t v one more)

  -- The sends that a dispatch starts: each for an enabled channel, with its pending row in the
  -- table; neither jobs nor executions are written, on an error neither.
  pub dispatch_to-Dispatched :
      (job : Job) (exec : Execution) (chs : List Channel) (s : Store)
      → Ensures
          (λ xs t. Dispatched exec chs xs s t)
          (λ _ t. Kept s t)
          (dispatch_to store_runtime channel_repository notification_repository show_duration job
            exec
            (ok chs)
            s)
  unfolding dispatch_to execution_message
  dispatch_to-Dispatched job exec chs s =
      Ensures-run_next _
        (Ensures-run_next {P' = λ _ t. t.db ≡ s.db} _ (now-Ensures s) (λ now u h. returns h.1))
        λ msg t h.
          Ensures-mono (start_sends-Dispatched exec msg chs t)
            (λ xs v d. record {
              sends = d.sends;
              rows = d.rows;
              kept = from_db s t v h d.kept;
              older = λ n m. d.older n (subst (λ (x : Db). In n x.notifications) (sym h) m);
            })
            (λ _ v k. from_db s t v h k)
