-- ===== src/Notifier/Dispatch.antt =====
-- The Dispatcher of internal/notifier/notifier.go. Dispatch answers the sends that it starts, one
-- goroutine each; `send` is what such a goroutine does, and `run_sends` runs them in an order.
pub mod Laws
pub mod Named
pub mod Delivery
use signal_flow.Base.{
  ◌++◌, ℤ, pos, String, Option, none, some, List, [], ◌∷◌, Result, ok, err, M, pure, try, ◌>>=◌,
  ◌>>◌, ◌+++◌, if◌then◌else◌, ◌==◌,
}
use signal_flow.Domain.{
  elements, Time, Job, Channel, ChannelType, Execution, Notification, pending, sent, failed,
}
use signal_flow.Domain.Ports.{Runtime, ChannelRepository, NotificationRepository}
use signal_flow.Executor.{Context}
use signal_flow.Notifier.Message.{Message, message_string, execution_message}

-- The interface `Notifier`.
pub record Notifier (S : Type 0) : Type 0 where
  pub type : ChannelType
  pub send : Context → Channel → Message → M S (Unit {0})

-- The map `notifiers`.
abbrev pub Registry : Type 0 → Type 0
Registry S = List (ChannelType × Notifier S)

-- A send in flight.
pub record Sending : Type 0 where
  pub channel : Channel
  pub notification : Notification
  pub message : Message

-- `d.notifiers[n.Type()] = n`.
unfoldable pub register : {S : Type 0} → Notifier S → Registry S → Registry S
register n [] = (n.type, n) ∷ []
register n ((t, m) ∷ reg) = if t == n.type then (t, n) ∷ reg else (t, m) ∷ register n reg

unfoldable pub notifier_for : {S : Type 0} → ChannelType → Registry S → Option (Notifier S)
notifier_for t [] = none
notifier_for t ((u, n) ∷ reg) = if u == t then some n else notifier_for t reg

abbrev pub send_timeout : ℤ
send_timeout = pos 15_000_000_000

abbrev pub no_notifier : ChannelType → String
no_notifier t = "no notifier registered for channel type " +++ t

-- The send that a round starts, if the notification's row could be created.
abbrev pub started_of : Channel → Notification → Message → Result (Unit {0}) → List Sending
started_of ch notif msg (err e) = []
started_of ch notif msg (ok u) = record { channel = ch; notification = notif; message = msg } ∷ []

module _ {S : Type 0} (runtime : Runtime S) (chan_repo : ChannelRepository S)
    (notif_repo : NotificationRepository S) (show_duration : ℤ → String) where
  unfoldable pub new_notification : String → Time → Execution → Channel → Message → Notification
  unfolding message_string
  new_notification id now exec ch msg = record {
    id = id;
    execution_id = exec.id;
    channel_id = ch.id;
    status = pending;
    payload = message_string show_duration msg;
    error = "";
    sent_at = none;
    created_at = now;
  }

  -- One round of Dispatch's loop, for an enabled channel.
  unfoldable pub start_send : Execution → Message → Channel → M S (List Sending)
  unfolding new_notification
  start_send exec msg ch = do
    id ← runtime.new_uuid
    now ← runtime.now
    let notif = new_notification id now exec ch msg
    r ← try (notif_repo.create notif)
    pure (started_of ch notif msg r)

  unfoldable pub start_sends : Execution → Message → List Channel → M S (List Sending)
  unfolding start_send
  start_sends exec msg [] = pure []
  start_sends exec msg (ch ∷ chs) = do
    xs ← if ch.enabled then start_send exec msg ch else pure []
    ys ← start_sends exec msg chs
    pure (xs ++ ys)

  unfoldable pub dispatch_to : Job → Execution → Result (List Channel) → M S (List Sending)
  unfolding start_sends execution_message
  dispatch_to job exec (err _) = pure []
  dispatch_to job exec (ok channels) = do
    msg ← execution_message runtime job exec
    start_sends exec msg channels

  unfoldable pub dispatch_all : List String → Job → Execution → M S (List Sending)
  unfolding dispatch_to
  dispatch_all [] job exec = pure []
  dispatch_all (id ∷ ids) job exec = do
    r ← try (chan_repo.get_by_ids (id ∷ ids))
    dispatch_to job exec r

  unfoldable pub dispatch : Job → Execution → M S (List Sending)
  unfolding dispatch_all
  dispatch job exec = dispatch_all (elements job.notify_channels) job exec

module _ {S : Type 0} (notif_repo : NotificationRepository S) (registry : Registry S) where
  -- A write whose error is only logged.
  abbrev pub logged : M S (Unit {0}) → M S (Unit {0})
  logged m = do r ← try m; pure tt

  abbrev pub report : Notification → Result (Unit {0}) → M S (Unit {0})
  report notif (err e) = logged (notif_repo.update_status notif.id failed e.text)
  report notif (ok _) = logged (notif_repo.update_status notif.id sent "")

  abbrev pub send_with : Option (Notifier S) → Sending → M S (Unit {0})
  send_with none x =
      logged (notif_repo.update_status x.notification.id failed (no_notifier x.channel.type))
  send_with (some n) x = do
    r ← try (n.send (send_timeout ∷ []) x.channel x.message)
    report x.notification r

  unfoldable pub send : Sending → M S (Unit {0})
  unfolding notifier_for
  send x = send_with (notifier_for x.channel.type registry) x

  unfoldable pub run_sends : List Sending → M S (Unit {0})
  unfolding send
  run_sends [] = pure tt
  run_sends (x ∷ xs) = do send x; run_sends xs
