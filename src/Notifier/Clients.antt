-- ===== src/Notifier/Clients.antt =====
-- internal/notifier/webhook.go, slack.go, discord.go, telegram.go and email.go. encoding/json,
-- net/http and net/smtp are parameters.
use signal_flow.Base.{
  ℤ, pos, negsuc, String, Bool, false, ◌||◌, not, Option, none, some, List, [], ◌∷◌, ◌++◌, Result,
  ok, err, Error, other, M, pure, throw, lift, ◌>>=◌, ◌+++◌, if◌then◌else◌, ◌==◌, leb, bytes_of,
}
use signal_flow.Domain.{
  Time, Bytes, RawMessage, Channel, channel_type_webhook, channel_type_slack, channel_type_discord,
  channel_type_telegram, channel_type_email,
}
use signal_flow.Executor.{Context}
use signal_flow.Executor.HttpCheck.{int_eq}
use signal_flow.Notifier.Message.{Message, message_string, status_text}
use signal_flow.Notifier.Dispatch.{Notifier}

abbrev pub plain_error : String → Error
plain_error text = record { kind = other; text = text }

abbrev invalid_channel_config : String → Error → Error
invalid_channel_config name e = record e { text = "invalid " +++ name +++ " config: " +++ e.text }

-- The value that a JSON body is made of.
pub data Field : Type 0 where
  text : String → Field
  bytes : Bytes → Field
  time : Time → Field

abbrev pub Headers : Type 0
Headers = List (String × String)

-- `code >= 400` and `code != 200`, the two tests of an answer.
abbrev pub is_refusal : ℤ → Bool
is_refusal (pos n) = leb 400 n
is_refusal (negsuc n) = false

abbrev pub is_not_ok : ℤ → Bool
is_not_ok code = not (int_eq code (pos 200))

-- net/http, encoding/json and fmt, as the four HTTP notifiers use them.
pub record Http (S Request : Type 0) : Type 0 where
  pub marshal : List (String × Field) → Result Bytes
  pub new_request : String → Bytes → Result Request
  pub set_header : Request → String → String → Request
  pub send : Context → Request → M S ℤ
  pub show_int : ℤ → String
  pub show_duration : ℤ → String

pub record WebhookConfig : Type 0 where
  pub url : String
  pub headers : Headers

pub record HookConfig : Type 0 where
  pub webhook_url : String

pub record TelegramConfig : Type 0 where
  pub bot_token : String
  pub chat_id : String

module _ {S Request : Type 0} (http : Http S Request) where
  unfoldable pub with_headers : Request → Headers → Request
  with_headers req [] = req
  with_headers req ((k, v) ∷ hs) = with_headers (http.set_header req k v) hs

  abbrev answer : String → (ℤ → Bool) → ℤ → M S (Unit {0})
  answer name refused code =
      if refused code
      then throw (plain_error (name +++ " returned HTTP " +++ http.show_int code))
      else pure tt

  -- From the body of the request to the test of the answer's status.
  unfoldable pub post :
      String → (ℤ → Bool) → Context → String → List (String × Field) → Headers → M S (Unit {0})
  unfolding with_headers
  post name refused ctx url fields headers = do
    body ← lift (http.marshal fields)
    req ← lift (http.new_request url body)
    code ←
        http.send ctx (with_headers (http.set_header req "Content-Type" "application/json") headers)
    answer name refused code

  abbrev message_text : Message → Field
  message_text msg = bytes (message_string http.show_duration msg)

  abbrev webhook_fields : Message → List (String × Field)
  webhook_fields msg =
      ("job_name", text msg.job_name)
      ∷ ("status", text (status_text msg.status))
      ∷ ("output", bytes msg.output)
      ∷ ("error", text msg.error)
      ∷ ("duration", text (http.show_duration msg.duration))
      ∷ ("timestamp", time msg.timestamp)
      ∷ []

  unfoldable pub send_webhook :
      (RawMessage → Result WebhookConfig) → Context → Channel → Message → M S (Unit {0})
  unfolding post
  send_webhook unmarshal ctx ch msg = elim (unmarshal ch.config) [
    | err e ↦ throw (invalid_channel_config "webhook" e)
    | ok cfg ↦
        if cfg.url == ""
        then throw (plain_error "webhook config missing url")
        else post "webhook" is_refusal ctx cfg.url (webhook_fields msg) cfg.headers
  ]

  unfoldable pub send_slack :
      (RawMessage → Result HookConfig) → Context → Channel → Message → M S (Unit {0})
  unfolding post
  send_slack unmarshal ctx ch msg = elim (unmarshal ch.config) [
    | err e ↦ throw (invalid_channel_config "slack" e)
    | ok cfg ↦
        if cfg.webhook_url == ""
        then throw (plain_error "slack config missing webhook_url")
        else post "slack" is_not_ok ctx cfg.webhook_url (("text", message_text msg) ∷ []) []
  ]

  unfoldable pub send_discord :
      (RawMessage → Result HookConfig) → Context → Channel → Message → M S (Unit {0})
  unfolding post
  send_discord unmarshal ctx ch msg = elim (unmarshal ch.config) [
    | err e ↦ throw (invalid_channel_config "discord" e)
    | ok cfg ↦
        if cfg.webhook_url == ""
        then throw (plain_error "discord config missing webhook_url")
        else post "discord" is_refusal ctx cfg.webhook_url (("content", message_text msg) ∷ []) []
  ]

  unfoldable pub send_telegram :
      (RawMessage → Result TelegramConfig) → Context → Channel → Message → M S (Unit {0})
  unfolding post
  send_telegram unmarshal ctx ch msg = elim (unmarshal ch.config) [
    | err e ↦ throw (invalid_channel_config "telegram" e)
    | ok cfg ↦
        if cfg.bot_token == "" || cfg.chat_id == ""
        then throw (plain_error "telegram config missing bot_token or chat_id")
        else post "telegram" is_not_ok ctx
            ("https://api.telegram.org/bot" +++ cfg.bot_token +++ "/sendMessage")
            (("chat_id", text cfg.chat_id)
              ∷ ("text", message_text msg)
              ∷ ("parse_mode", text "Markdown")
              ∷ [])
            []
  ]

  unfoldable pub webhook_notifier : (RawMessage → Result WebhookConfig) → Notifier S
  unfolding send_webhook
  webhook_notifier unmarshal = record { type = channel_type_webhook; send = send_webhook unmarshal }

  unfoldable pub slack_notifier : (RawMessage → Result HookConfig) → Notifier S
  unfolding send_slack
  slack_notifier unmarshal = record { type = channel_type_slack; send = send_slack unmarshal }

  unfoldable pub discord_notifier : (RawMessage → Result HookConfig) → Notifier S
  unfolding send_discord
  discord_notifier unmarshal = record { type = channel_type_discord; send = send_discord unmarshal }

  unfoldable pub telegram_notifier : (RawMessage → Result TelegramConfig) → Notifier S
  unfolding send_telegram
  telegram_notifier unmarshal = record {
    type = channel_type_telegram;
    send = send_telegram unmarshal;
  }

pub record EmailConfig : Type 0 where
  pub smtp_host : String
  pub smtp_port : ℤ
  pub username : String
  pub password : String
  pub from : String
  pub to : String

-- A mail for smtp.SendMail: the address, the user and password of PlainAuth if there is a user,
-- the sender, the recipient and the text. The call ends with it or with its context.
pub record Mail : Type 0 where
  pub addr : String
  pub auth : Option (String × String × String)
  pub from : String
  pub to : String
  pub body : Bytes

module _ {S : Type 0} (show_int show_duration : ℤ → String)
    (unmarshal : RawMessage → Result EmailConfig)
    (send_mail : Context → Mail → M S (Unit {0})) where
  abbrev is_incomplete : EmailConfig → Bool
  is_incomplete cfg =
      cfg.smtp_host == "" || int_eq cfg.smtp_port (pos 0) || cfg.from == "" || cfg.to == ""

  unfoldable pub mail_of : EmailConfig → Message → Mail
  mail_of cfg msg = record {
    addr = cfg.smtp_host +++ ":" +++ show_int cfg.smtp_port;
    auth = if cfg.username == "" then none else some (cfg.username, cfg.password, cfg.smtp_host);
    from = cfg.from;
    to = cfg.to;
    body =
        bytes_of (
          "From: "
          +++ cfg.from
          +++ "\r\nTo: "
          +++ cfg.to
          +++ "\r\nSubject: [SignalFlow] "
          +++ msg.job_name
          +++ " - "
          +++ status_text msg.status
          +++ "\r\n\r\n")
        ++ message_string show_duration msg;
  }

  unfoldable pub send_email : Context → Channel → Message → M S (Unit {0})
  unfolding mail_of
  send_email ctx ch msg = elim (unmarshal ch.config) [
    | err e ↦ throw (invalid_channel_config "email" e)
    | ok cfg ↦
        if is_incomplete cfg
        then throw (plain_error "email config missing required fields")
        else send_mail ctx (mail_of cfg msg)
  ]

  unfoldable pub email_notifier : Notifier S
  unfolding send_email
  email_notifier = record { type = channel_type_email; send = send_email }
