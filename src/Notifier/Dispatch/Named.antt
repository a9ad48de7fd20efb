-- ===== src/Notifier/Dispatch/Named.antt =====
-- The whole of Dispatch: the sends are for channels that the job names.
use signal_flow.Base.{
  ℤ, ◌≡◌, refl, sym, ap, subst, String, List, [], ◌∷◌, Result, ok, err, Ensures, returns,
  Ensures-mono, Ensures-run_next, Ensures-try, Outcome, All, In, In-of_any, any, ◌==◌, eq_iff,
  arith, All-mono, Ensures-state,
}
use signal_flow.Domain.{elements, Job, Channel, Execution}
use signal_flow.Store.{Db, Store}
use signal_flow.Store.Rows.{select_where-All}
use signal_flow.Store.Statement.{store_runtime, query-Ensures}
use signal_flow.Repository.Channel
use signal_flow.Repository.Channel.{channels_of}
use signal_flow.Repository.Adapters.{channel_repository, notification_repository}
use signal_flow.Notifier.Dispatch.{Sending, dispatch_to, dispatch_all, dispatch}
use signal_flow.Notifier.Dispatch.Laws.{Dispatched, Kept, from_db, dispatch_to-Dispatched}

-- The channel is in the table, and the job's list has its identifier.
abbrev pub IsNamed : List String → Store → Channel → Type 0
IsNamed ids s c = In c s.channels × In c.id ids

-- The sends that a dispatch started for channels of the list.
abbrev pub NamedSends : List String → Execution → List Sending → Store → Store → Type 0
NamedSends ids exec xs s t =
    (chs : List Channel) × All (IsNamed ids s) chs × Dispatched exec chs xs s t

channels_of-IsNamed : (ids : List String) (s : Store) → All (IsNamed ids s) (channels_of ids s)
channels_of-IsNamed ids s =
    All-mono _ (IsNamed ids s) (channels_of ids s)
      (λ c m. (
        m.0,
        In-of_any (λ b id. id == b) (λ b. b) c.id ids (λ id hit. sym ((eq_iff id c.id).0 hit)) m.1,
      ))
      (select_where-All (λ c. any (λ id. id == c.id) ids) s.channels)

get_by_ids-IsNamed :
    (id : String) (ids : List String) (s : Store)
    → Ensures
        (λ chs t. All (IsNamed (id ∷ ids) s) chs × (t.db ≡ s.db))
        (λ _ t. t.db ≡ s.db)
        (Channel.get_by_ids (id ∷ ids) s)
unfolding Channel.get_by_ids
get_by_ids-IsNamed id ids s =
    query-Ensures _ s
      (λ gs chs e.
        let same : channels_of (id ∷ ids) s ≡ chs = ground arith in
        (subst (All (IsNamed (id ∷ ids) s)) same (channels_of-IsNamed (id ∷ ids) s), refl))
      (λ _ _. refl)

no_sends :
    (ids : List String) (exec : Execution) (s t : Store) → t.db ≡ s.db → NamedSends ids exec [] s t
no_sends ids exec s t same = (
  [],
  tt,
  record {
    sends = tt;
    rows = tt;
    kept = (ap (λ (d : Db). d.executions) same, ap (λ (d : Db). d.jobs) same);
    older = λ n m. subst (λ (d : Db). In n d.notifications) (sym same) m;
  },
)

module _ (show_duration : ℤ → String) where
  -- The sends for the channels that the lookup answered.
  looked_up-NamedSends :
      (ids : List String) (job : Job) (exec : Execution) (s t : Store) (r : Result (List Channel))
      → Outcome (λ chs t. All (IsNamed ids s) chs × (t.db ≡ s.db)) (λ _ t. t.db ≡ s.db) r t
      → Ensures
          (λ xs u. NamedSends ids exec xs s u)
          (λ _ u. Kept s u)
          (dispatch_to store_runtime channel_repository notification_repository show_duration job
            exec r t)
  unfolding dispatch_to
  looked_up-NamedSends ids job exec s t (err e) same = returns (no_sends ids exec s t same)
  looked_up-NamedSends ids job exec s t (ok chs) (named, same) =
      Ensures-mono (dispatch_to-Dispatched show_duration job exec chs t)
        (λ xs u d. (
          chs,
          named,
          record {
            sends = d.sends;
            rows = d.rows;
            kept = from_db s t u same d.kept;
            older = λ n m. d.older n (subst (λ (x : Db). In n x.notifications) (sym same) m);
          },
        ))
        (λ _ u k. from_db s t u same k)

  dispatch_all-NamedSends :
      (ids : List String) (job : Job) (exec : Execution) (s : Store)
      → Ensures
          (λ xs t. NamedSends ids exec xs s t)
          (λ _ t. Kept s t)
          (dispatch_all store_runtime channel_repository notification_repository show_duration ids
            job exec s)
  unfolding dispatch_all
  dispatch_all-NamedSends [] job exec s = returns (no_sends [] exec s s refl)
  dispatch_all-NamedSends (id ∷ ids) job exec s =
      Ensures-run_next _
        (Ensures-try (Channel.get_by_ids (id ∷ ids)) s (get_by_ids-IsNamed id ids s))
        λ r t h. looked_up-NamedSends (id ∷ ids) job exec s t r h

  -- Every send that a dispatch starts is for an enabled channel that the job names, and a pending
  -- notification of this execution and channel stands in the table for it; older notifications,
  -- jobs and executions are as they were, on an error the last two.
  pub dispatch-NamedSends :
      (job : Job) (exec : Execution) (s : Store)
      → Ensures
          (λ xs t. NamedSends (elements job.notify_channels) exec xs s t)
          (λ _ t. Kept s t)
          (dispatch store_runtime channel_repository notification_repository show_duration job exec
            s)
  unfolding dispatch
  dispatch-NamedSends job exec s = dispatch_all-NamedSends (elements job.notify_channels) job exec s

  pub dispatch-Kept :
      (job : Job) (exec : Execution) (s : Store)
      → Kept s
          (dispatch store_runtime channel_repository notification_repository show_duration job exec
            s).1
  dispatch-Kept job exec s =
      Ensures-state (Ensures-mono (dispatch-NamedSends job exec s) (λ _ _ d. d.2.kept) (λ _ _ k. k))
