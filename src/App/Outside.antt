-- ===== src/App/Outside.antt =====
-- What the executors and the notifiers do to the store, where the libraries do nothing to it.
use signal_flow.Base.{
  ℕ, ◌≡◌, ◌≢◌, refl, ap, ◌∙◌, inl, inr, String, ◌||◌, List, [], Result, ok, err, M, ℤ, run_next,
  Result-cases, Bool-cases, if◌then◌else◌, ◌==◌, Bool, pos,
}
use signal_flow.Domain.{running}
use signal_flow.Store.{Store}
use signal_flow.Executor.{Context, ExecResult}
use signal_flow.Executor.Command.{execute_command}
use signal_flow.Executor.HttpCheck.{execute_check, int_eq, expected_of, context_of, checked}
use signal_flow.Executor.Laws.{status_of-final, verdict}
use signal_flow.Notifier.Dispatch.{register}
use signal_flow.Notifier.Dispatch.Delivery.{SendsOutside, AllSendOutside}
use signal_flow.Notifier.Clients.{
  Mail, Field, Headers, post, webhook_notifier, slack_notifier, discord_notifier, telegram_notifier,
  email_notifier, send_webhook, send_slack, send_discord, send_telegram, send_email,
}
use signal_flow.Scheduler.Execute.Laws.{ActsOutside, AnswersFinal, AreSound}
use signal_flow.App.{Libraries, executors, notifiers}

-- Of the store only the clock has moved.
abbrev pub OnlyClock : Store → Store → Type 0
OnlyClock s t = (r : ℕ) × (t ≡ record s { reads = r })

-- The libraries that run commands, send requests and send mails write no table.
pub record AreOutside {Request Pool : Type 0} (lib : Libraries Request Pool) : Type 0 where
  pub process :
      (ctx : Context) (shell command : String) (s : Store)
      → OnlyClock s (lib.run_process ctx shell command s).1
  pub request :
      (ctx : Context) (req : Request) (s : Store) → OnlyClock s (lib.http.send ctx req s).1
  pub mail : (ctx : Context) (m : Mail) (s : Store) → OnlyClock s (lib.send_mail ctx m s).1

run_next-OnlyClock :
    {A B : Type 0} (f : A → M Store B) (s : Store) (out : Result A × Store)
    → OnlyClock s out.1
    → ((a : A) (t : Store) → OnlyClock t (f a t).1)
    → OnlyClock s (run_next f out).1
unfolding run_next
run_next-OnlyClock f s (ok a, t) (r, e) k =
    let (q, moved) = k a t in (q, moved ∙ ap (λ (u : Store). record u { reads = q }) e)
run_next-OnlyClock f s (err x, t) h k = h

-- The result of a call, where only its value matters.
run_next-final :
    {A : Type 0} (f : A → ExecResult) (out : Result A × Store) (r : ExecResult)
    → ((a : A) → (f a).status ≢ running)
    → (run_next (λ a t. (ok (f a), t)) out).0 ≡ ok r
    → r.status ≢ running
unfolding run_next
run_next-final f (ok a, t) r final e = λ runs. final a (same ∙ runs)
  where
    same : (f a).status ≡ r.status
    same = cc
run_next-final f (err x, t) r final e = cc

module _ {Request Pool : Type 0} (lib : Libraries Request Pool) (outside : AreOutside lib) where
  command_sound :
      ActsOutside (execute_command lib.command_config lib.run_process)
      × AnswersFinal (execute_command lib.command_config lib.run_process)
  unfolding execute_command
  command_sound = (
    λ ctx config s. elim (Result-cases (lib.command_config config)) [
      | inl (cfg, e) ↦
          rw (e, execute_command)
            (run_next-OnlyClock _ s _ (outside.process ctx _ cfg.command s)
              (λ a t. (t.reads, refl)))
      | inr (x, e) ↦ rw (e, execute_command) (s.reads, refl)
    ],
    λ ctx config s r. elim (Result-cases (lib.command_config config)) [
      | inl (cfg, e) ↦
          rw (e, execute_command)
            (run_next-final _ (lib.run_process ctx _ cfg.command s) r
              (λ out. status_of-final out.1))
      | inr (x, e) ↦ rw (e, execute_command) (λ clash. cc)
    ],
  )

  checked-final :
      (expected : ℤ) (out : Result ℤ)
      → (checked lib.http.show_int lib.check_config lib.check_request lib.http.send expected
          out).status
        ≢ running
  checked-final expected (ok code) = (verdict (int_eq code expected)).0
  checked-final expected (err e) = λ h. cc

  check_sound :
      ActsOutside (execute_check lib.http.show_int lib.check_config lib.check_request lib.http.send)
      × AnswersFinal
          (execute_check lib.http.show_int lib.check_config lib.check_request lib.http.send)
  unfolding execute_check run_next
  check_sound = (
    λ ctx config s. elim (Result-cases (lib.check_config config)) [
      | inl (cfg, e) ↦
          rw (e, execute_check)
            (elim (Result-cases (lib.check_request cfg.url)) [
              | inl (req, f) ↦ rw f (outside.request (context_of ctx cfg) req s)
              | inr (x, f) ↦ rw f (s.reads, refl)
            ])
      | inr (x, e) ↦ rw (e, execute_check) (s.reads, refl)
    ],
    λ ctx config s r. elim (Result-cases (lib.check_config config)) [
      | inl (cfg, e) ↦
          rw (e, execute_check)
            (elim (Result-cases (lib.check_request cfg.url)) [
              | inl (req, f) ↦ rw f (λ same runs.
                  let answered = (lib.http.send (context_of ctx cfg) req s).0 in
                  let is : checked lib.http.show_int lib.check_config lib.check_request
                        lib.http.send (expected_of cfg) answered
                      ≡ r =
                    cc in
                  checked-final (expected_of cfg) answered
                    (ap (λ (x : ExecResult). x.status) is ∙ runs))
              | inr (x, f) ↦ rw f (λ clash. cc)
            ])
      | inr (x, e) ↦ rw (e, execute_check) (λ clash. cc)
    ],
  )

  pub executors-AreSound : AreSound (executors lib)
  unfolding executors
  executors-AreSound = (check_sound, (command_sound, tt))

  post-OnlyClock :
      (name : String) (refused : ℤ → Bool) (ctx : Context) (url : String)
      (fields : List (String × Field)) (headers : Headers) (s : Store)
      → OnlyClock s (post lib.http name refused ctx url fields headers s).1
  unfolding post
  post-OnlyClock name refused ctx url fields headers s =
      run_next-OnlyClock _ s _ (s.reads, refl)
        λ body t.
          run_next-OnlyClock _ t _ (t.reads, refl)
            λ req u. run_next-OnlyClock _ u _ (outside.request ctx _ u) λ code v.
              elim (Bool-cases (refused code)) [
                | inl e ↦ rw (e, if◌then◌else◌) (v.reads, refl)
                | inr e ↦ rw (e, if◌then◌else◌) (v.reads, refl)
              ]

  webhook-SendsOutside : SendsOutside (webhook_notifier lib.http lib.webhook_config)
  unfolding webhook_notifier send_webhook
  webhook-SendsOutside ctx ch msg s = elim (Result-cases (lib.webhook_config ch.config)) [
    | inr (x, e) ↦ rw (e, send_webhook) (s.reads, refl)
    | inl (cfg, e) ↦
        rw (e, send_webhook)
          (elim (Bool-cases (cfg.url == "")) [
            | inl b ↦ rw (b, if◌then◌else◌) (s.reads, refl)
            | inr b ↦ rw (b, if◌then◌else◌) (post-OnlyClock _ _ _ _ _ cfg.headers s)
          ])
  ]

  slack-SendsOutside : SendsOutside (slack_notifier lib.http lib.hook_config)
  unfolding slack_notifier send_slack
  slack-SendsOutside ctx ch msg s = elim (Result-cases (lib.hook_config ch.config)) [
    | inr (x, e) ↦ rw (e, send_slack) (s.reads, refl)
    | inl (cfg, e) ↦
        rw (e, send_slack)
          (elim (Bool-cases (cfg.webhook_url == "")) [
            | inl b ↦ rw (b, if◌then◌else◌) (s.reads, refl)
            | inr b ↦ rw (b, if◌then◌else◌) (post-OnlyClock _ _ _ _ _ [] s)
          ])
  ]

  discord-SendsOutside : SendsOutside (discord_notifier lib.http lib.hook_config)
  unfolding discord_notifier send_discord
  discord-SendsOutside ctx ch msg s = elim (Result-cases (lib.hook_config ch.config)) [
    | inr (x, e) ↦ rw (e, send_discord) (s.reads, refl)
    | inl (cfg, e) ↦
        rw (e, send_discord)
          (elim (Bool-cases (cfg.webhook_url == "")) [
            | inl b ↦ rw (b, if◌then◌else◌) (s.reads, refl)
            | inr b ↦ rw (b, if◌then◌else◌) (post-OnlyClock _ _ _ _ _ [] s)
          ])
  ]

  telegram-SendsOutside : SendsOutside (telegram_notifier lib.http lib.telegram_config)
  unfolding telegram_notifier send_telegram
  telegram-SendsOutside ctx ch msg s = elim (Result-cases (lib.telegram_config ch.config)) [
    | inr (x, e) ↦ rw (e, send_telegram) (s.reads, refl)
    | inl (cfg, e) ↦
        rw (e, send_telegram)
          (elim (Bool-cases (cfg.bot_token == "" || cfg.chat_id == "")) [
            | inl b ↦ rw (b, if◌then◌else◌) (s.reads, refl)
            | inr b ↦ rw (b, if◌then◌else◌) (post-OnlyClock _ _ _ _ _ [] s)
          ])
  ]

  email-SendsOutside :
      SendsOutside
        (email_notifier lib.http.show_int lib.http.show_duration lib.email_config lib.send_mail)
  unfolding email_notifier send_email
  email-SendsOutside ctx ch msg s = elim (Result-cases (lib.email_config ch.config)) [
    | inr (x, e) ↦ rw (e, send_email) (s.reads, refl)
    | inl (cfg, e) ↦
        rw (e, send_email)
          (elim (Bool-cases (
            cfg.smtp_host == ""
            || int_eq cfg.smtp_port (pos 0)
            || cfg.from == ""
            || cfg.to == "")) [
              | inl b ↦ rw (b, if◌then◌else◌) (s.reads, refl)
              | inr b ↦ rw (b, if◌then◌else◌) (outside.mail ctx _ s)
            ])
  ]

  pub notifiers-AllSendOutside : AllSendOutside (notifiers lib)
  unfolding notifiers webhook_notifier slack_notifier discord_notifier telegram_notifier
      email_notifier register
  notifiers-AllSendOutside = (
    webhook-SendsOutside,
    (slack-SendsOutside, (discord-SendsOutside, (telegram-SendsOutside, (email-SendsOutside, tt)))),
  )
