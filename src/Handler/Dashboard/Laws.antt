-- ===== src/Handler/Dashboard/Laws.antt =====
-- What the forms of the dashboard do to the tables.
use signal_flow.Base.{
  ◌↔◌, subst, Ensures-eq-ok, true, some, [], ℕ, pos, String, Bool, not, List, Result, ok, err, ◌≡◌,
  ◌≢◌, refl, sym, ap, ◌∙◌, inl, inr, Ensures, Ensures-ok, Ensures-err, Ensures-mono, In, ◌+++◌,
  Result-cases,
}
use signal_flow.Base.Text.{trim_space}
use signal_flow.Domain.{Job, Channel}
use signal_flow.Domain.Ports.{CronParser}
use signal_flow.Store.{Store}
use signal_flow.Store.Statement.{store_runtime}
use signal_flow.Repository.Adapters.{
  job_repository, channel_repository, execution_repository, notification_repository,
}
use signal_flow.Repository.Job.Laws.{list-keeps}
use signal_flow.Service.Job as JobService
use signal_flow.Service.Job.Laws.{create_without_channels}
use signal_flow.Handler.Http.{Request, Response, user_id}
use signal_flow.Handler.Dashboard.{
  create_job, render_jobs_error, jobs_error, list_or_nil, job_created, form_job_input, render_error,
  render_status, toggle_channel, toggle_input,
}
use signal_flow.Repository.Constraints.{channel_row_allowed}
use signal_flow.Repository.Channel.Laws.{Has, IsFirst, IsFirst-In}
use signal_flow.Service.Channel.{with_channel_fields}
use signal_flow.Service.Channel.Laws.{Updated, update-Updated, get_by_id-eq-ok, update-eq-ok}
use signal_flow.Handler.Dashboard.Form.{parse_form_json}
use signal_flow.Handler.Dashboard.Form.Laws.{parse_csv-IsPart}

module _ (parse : CronParser) (valid_json : String → Bool) where
  -- The answer is a page with an error, and no table changed.
  abbrev pub IsRefused : Store → Response × Store → Type 0
  IsRefused s out = (out.0.status ≡ 400) × (out.1.db ≡ s.db)

  listed-IsRefused :
      (msg : String) (s : Store) (out : Result (List Job × ℕ) × Store)
      → Ensures (λ _ t. t.db ≡ s.db) (λ _ t. t.db ≡ s.db) out
      → IsRefused s (
          jobs_error store_runtime job_repository channel_repository execution_repository
            notification_repository parse valid_json msg
            (list_or_nil out))
  unfolding render_error render_status
  listed-IsRefused msg s (ok p, t) h = (refl, Ensures-ok h)
  listed-IsRefused msg s (err e, t) h = (refl, Ensures-err h)

  render_jobs_error-IsRefused :
      (r : Request) (msg : String) (s u : Store)
      → u.db ≡ s.db
      → IsRefused s (
          render_jobs_error store_runtime job_repository channel_repository execution_repository
            notification_repository parse valid_json r msg u)
  unfolding render_jobs_error JobService.list
  render_jobs_error-IsRefused r msg s u same = listed-IsRefused msg s _ (
      Ensures-mono (list-keeps (user_id r) (pos 0) (pos 100) u) (λ _ t h. h ∙ same)
        (λ _ t h. h ∙ same))

  job_created-IsRefused :
      (r : Request) (s : Store) (out : Result Job × Store)
      → Ensures (λ _ _. ⊥) (λ _ t. t.db ≡ s.db) out
      → IsRefused s (
          job_created store_runtime job_repository channel_repository execution_repository
            notification_repository parse valid_json r out)
  job_created-IsRefused r s (ok j, t) h = absurd (Ensures-ok h)
  job_created-IsRefused r s (err e, t) h = render_jobs_error-IsRefused r e.text s t (Ensures-err h)

  -- The form for a new job answers 400 and adds no job whenever its field of channels is blank:
  -- the field is read as a nil slice, which the driver writes as NULL into a column that is NOT NULL.
  pub blank_channels-IsRefused :
      (r : Request) (value : String → String) (s : Store)
      → r.form ≡ ok value
      → trim_space (value "notify_channels") ≡ ""
      → IsRefused s (
          create_job store_runtime job_repository channel_repository execution_repository
            notification_repository parse valid_json r s)
  unfolding create_job
  blank_channels-IsRefused r value s filled blank =
      rw filled (elim (Result-cases (parse_form_json valid_json (value "config") "{}")) [
        | inr (e, bad) ↦
            rw bad (render_jobs_error-IsRefused r ("invalid config JSON: " +++ e.text) s s refl)
        | inl (cfg, good) ↦
            rw good
              (elim (Result-cases
                (parse_form_json valid_json (value "condition") "{\"on\":\"failure\"}")) [
                  | inr (e, bad) ↦ rw bad (
                      render_jobs_error-IsRefused r ("invalid condition JSON: " +++ e.text) s s
                        refl)
                  | inl (cond, fine) ↦ rw fine (
                      job_created-IsRefused r s _ (
                        create_without_channels parse (form_job_input (user_id r) value cfg cond) s
                          ((parse_csv-IsPart (value "notify_channels")).1.1 blank)))
                ])
      ])

  -- The channel is still there and every row of it is switched, its other columns as they were;
  -- the other channels are the same ones, and so are the other tables.
  abbrev pub Switched : String → Store → Store → Type 0
  Switched id s t =
      (ch : Channel) × In ch s.channels
      × (ch.id ≡ id)
      × ((c : Channel)
          → In c t.channels
          → c.id ≡ id
          → (c.name ≡ ch.name)
            × (c.type ≡ ch.type)
            × (c.config ≡ ch.config)
            × (c.enabled ≡ not ch.enabled))
      × Has t id
      × ((c : Channel) → c.id ≢ id → In c t.channels ↔ In c s.channels)
      × (t.users ≡ s.users)
      × (t.jobs ≡ s.jobs)
      × (t.executions ≡ s.executions)
      × (t.notifications ≡ s.notifications)

  switched :
      (id : String) (ch saved : Channel) (s t : Store)
      → IsFirst id s ch
      → Updated id (toggle_input ch) s saved t
      → Switched id s t
  switched id ch saved s t first (old, again, is, replaced) =
      let same : old ≡ ch = cc in
      let (listed, named) = IsFirst-In id s ch first in
      let fields : saved ≡ record ch { enabled = not ch.enabled } =
        is ∙ ap (with_channel_fields (toggle_input ch)) same in
      let saved_id : saved.id ≡ id = ap (λ (c : Channel). c.id) fields ∙ named in
      (
        ch,
        listed,
        named,
        (λ c m own.
            let (name, type, config, enabled) = replaced.ours c m (own ∙ sym saved_id) in
            (
              name ∙ ap (λ (c : Channel). c.name) fields,
              type ∙ ap (λ (c : Channel). c.type) fields,
              config ∙ ap (λ (c : Channel). c.config) fields,
              enabled ∙ ap (λ (c : Channel). c.enabled) fields,
            )),
        subst (Has t) saved_id (replaced.there ch listed (named ∙ sym saved_id)),
        (λ c other. (
          λ m. replaced.others c m (λ e. other (e ∙ saved_id)),
          λ m. replaced.kept c m (λ e. other (e ∙ saved_id)),
        )),
        replaced.same_users,
        replaced.same_jobs,
        replaced.same_executions,
        replaced.same_notifications,
      )

  -- With no failure of the database to come, the switch of a stored channel that the constraints
  -- allow, on the dashboard, turns the rows of that identifier over, of which there is one, and
  -- leaves their name, type and configuration as they were; the other channels are the ones that
  -- were there before, and users, jobs, executions and notifications are untouched. The answer leads
  -- back to the page of channels.
  pub toggle_switches :
      (r : Request) (s : Store) (ch : Channel)
      → s.faults ≡ []
      → IsFirst r.id s ch
      → channel_row_allowed ch ≡ true
      → let out =
          toggle_channel store_runtime job_repository channel_repository execution_repository
            notification_repository parse valid_json r s in
        Switched r.id s out.1 × (out.0.location ≡ some "/channels")
  unfolding toggle_channel
  toggle_switches r s ch calm first allowed =
      let (t, wrote) = update-eq-ok r.id (toggle_input ch) s ch calm first allowed in
      rw (get_by_id-eq-ok r.id s ch calm first, wrote)
        (
          switched r.id ch (with_channel_fields (toggle_input ch) ch) s t first
              (Ensures-eq-ok (update-Updated r.id (toggle_input ch) s s refl) wrote),
          refl,
        )
