-- ===== src/Service/Channel/Laws.antt =====
-- What an update of a channel does to the stored channels.
use signal_flow.Base.{
  ok, true, [], run_next, map_err_of, ◌≡◌, refl, subst, ◌∙◌, String, Ensures, returns, Ensures-mono,
  Ensures-run_next, Ensures-map_err, some, ◌==◌,
}
use signal_flow.Domain.{Channel}
use signal_flow.Store.Rows.{first_where}
use signal_flow.Store.{Db, Store}
use signal_flow.Store.Statement.{store_runtime}
use signal_flow.Repository.Constraints.{channel_row_allowed}
use signal_flow.Repository.Channel.Laws as Channel
use signal_flow.Repository.Channel.Laws.{
  IsFirst, Looked, get_by_id-Looked, Replaced, update-Replaced,
}
use signal_flow.Repository.Adapters.{channel_repository}
use signal_flow.Service.Channel.{UpdateChannelInput, with_channel_fields, get_by_id, update}

pub get_by_id-Ensures :
    (id : String) (s : Store)
    → Ensures (Looked id s) (λ _ t. t.db ≡ s.db) (get_by_id store_runtime channel_repository id s)
unfolding get_by_id
get_by_id-Ensures id s = Ensures-map_err _ (get_by_id-Looked id s)

-- The row that was looked up, with the fields that are given put in, takes the place of the old.
abbrev pub Updated : String → UpdateChannelInput → Store → Channel → Store → Type 0
Updated id input s saved t =
    (ch : Channel) × IsFirst id s ch × (saved ≡ with_channel_fields input ch) × Replaced saved s t

pub update-Updated :
    (id : String) (input : UpdateChannelInput) (s u : Store)
    → u.db ≡ s.db
    → Ensures
        (Updated id input s)
        (λ _ t. t.db ≡ s.db)
        (update store_runtime channel_repository id input u)
unfolding update
update-Updated id input s u same =
    Ensures-run_next {P = Looked id s} _
      (Ensures-mono (get_by_id-Ensures id u)
        (λ ch v h. (
          subst (λ (d : Db). first_where (λ c. c.id == id) d.channels ≡ some ch) same h.0,
          h.1 ∙ same,
        ))
        (λ _ _ h. h ∙ same))
      λ ch v found.
        Ensures-run_next _ (update-Replaced (with_channel_fields input ch) s v found.1)
          λ _ t h. returns (ch, found.0, refl, h)

-- Without a failure, and where the constraints allow the row, the update is made.
pub get_by_id-eq-ok :
    (id : String) (s : Store) (c : Channel)
    → s.faults ≡ []
    → IsFirst id s c
    → get_by_id store_runtime channel_repository id s ≡ (ok c, s)
unfolding get_by_id map_err_of
get_by_id-eq-ok id s c calm first = rw (Channel.get_by_id-eq-ok id s c calm first) refl

pub update-eq-ok :
    (id : String) (input : UpdateChannelInput) (s : Store) (c : Channel)
    → s.faults ≡ []
    → IsFirst id s c
    → channel_row_allowed (with_channel_fields input c) ≡ true
    → (t : Store) × (update store_runtime channel_repository id input s
        ≡ (ok (with_channel_fields input c), t))
unfolding update run_next
update-eq-ok id input s c calm first allowed =
    let (t, wrote) = Channel.update-eq-ok (with_channel_fields input c) s calm allowed in
    (t, rw (get_by_id-eq-ok id s c calm first, wrote) refl)
