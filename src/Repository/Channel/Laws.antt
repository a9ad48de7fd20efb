-- ===== src/Repository/Channel/Laws.antt =====
-- What the statements on the channels table ensure.
use signal_flow.Base.{
  ok, Bool-cases, [], ◌≡◌, ◌≢◌, refl, sym, ap, subst, ◌∙◌, String, true, false, some, Ensures, ◌==◌,
  eq_iff, ne_of_test, In, inl, inr, ◌⊎◌, Ensures-mono,
}
use signal_flow.Domain.{Time, Channel}
use signal_flow.Store.{Db, Store, current}
use signal_flow.Store.Rows.{first_where, first_where-In, update_where, In-update_where}
use signal_flow.Store.Counting.{In-update_where_miss, In-update_where_hit}
use signal_flow.Store.Statement.{
  query-eq-ok, statement-eq-ok, query-Ensures, statement-Ensures, settle-Ensures,
}
use signal_flow.Repository.Constraints.{require, has_channel, channel_row_allowed, require-Ensures}
use signal_flow.Repository.Job.{found}
use signal_flow.Repository.Job.Laws.{found-ok}
use signal_flow.Repository.Channel.{get_by_id, set_channel, updated_channel, update}

-- The row that a lookup finds.
abbrev pub IsFirst : String → Store → Channel → Type 0
IsFirst id s c = first_where (λ c. c.id == id) s.channels ≡ some c

pub IsFirst-In :
    (id : String) (s : Store) (c : Channel) → IsFirst id s c → In c s.channels × (c.id ≡ id)
IsFirst-In id s c e =
    let hit = first_where-In (λ c. c.id == id) s.channels c e in (hit.0, (eq_iff c.id id).0 hit.1)

abbrev pub Looked : String → Store → Channel → Store → Type 0
Looked id s c t = IsFirst id s c × (t.db ≡ s.db)

pub get_by_id-Looked :
    (id : String) (s : Store) → Ensures (Looked id s) (λ _ t. t.db ≡ s.db) (get_by_id id s)
unfolding get_by_id
get_by_id-Looked id s = query-Ensures _ s (λ gs c e. (found-ok _ c e, refl)) (λ _ _. refl)

-- A channel of this identifier is stored.
abbrev pub Has : Store → String → Type 0
Has t id = (c : Channel) × In c t.channels × (c.id ≡ id)

-- The rows with the record's identifier carry its columns; the others are as they were.
pub record Replaced (ch : Channel) (s t : Store) : Type 0 where
  pub ours :
      (c : Channel)
      → In c t.channels
      → c.id ≡ ch.id
      → (c.name ≡ ch.name) × (c.type ≡ ch.type) × (c.config ≡ ch.config) × (c.enabled ≡ ch.enabled)
  pub others : (c : Channel) → In c t.channels → c.id ≢ ch.id → In c s.channels
  pub kept : (c : Channel) → In c s.channels → c.id ≢ ch.id → In c t.channels
  pub there : (c : Channel) → In c s.channels → c.id ≡ ch.id → Has t ch.id
  pub same_users : t.users ≡ s.users
  pub same_jobs : t.jobs ≡ s.jobs
  pub same_executions : t.executions ≡ s.executions
  pub same_notifications : t.notifications ≡ s.notifications

abbrev Saved : Channel → Store → Store → Type 0
Saved ch s t =
    (now : Time) × (t.db ≡ record s.db {
      channels = update_where (λ c. c.id == ch.id) (updated_channel now ch) s.channels;
    })

update-Saved :
    (ch : Channel) (s : Store) → Ensures (λ _ t. Saved ch s t) (λ _ t. t.db ≡ s.db) (update ch s)
unfolding update set_channel
update-Saved ch s =
    statement-Ensures _ s
      (λ gs. require-Ensures _ _ _ _ (λ _. settle-Ensures _ _ _ (current s, refl)) refl)
      (λ _ _. refl)

Replaced-of_Saved : (ch : Channel) (s t : Store) → Saved ch s t → Replaced ch s t
Replaced-of_Saved ch s t (now, e) = record {
  ours = λ c m same.
      let (o, _, how) = row c m in
      elim how [
        | inl (_, is) ↦ (
          ap (λ (x : Channel). x.name) is,
          ap (λ (x : Channel). x.type) is,
          ap (λ (x : Channel). x.config) is,
          ap (λ (x : Channel). x.enabled) is,
        )
        | inr (miss, is) ↦
            absurd (ne_of_test o.id ch.id miss (sym (ap (λ (x : Channel). x.id) is) ∙ same))
      ];
  others = λ c m other.
      let (o, listed, how) = row c m in
      elim how [
        | inl (hit, is) ↦ absurd (other (ap (λ (x : Channel). x.id) is ∙ (eq_iff o.id ch.id).0 hit))
        | inr (_, is) ↦ subst (λ x. In x s.channels) (sym is) listed
      ];
  kept = λ c m other. back c (
      In-update_where_miss (λ o. o.id == ch.id) (updated_channel now ch) s.channels c m
        (elim (Bool-cases (c.id == ch.id)) [
          | inl hit ↦ absurd (other ((eq_iff c.id ch.id).0 hit))
          | inr miss ↦ miss
        ]));
  there = λ c m same. (
    updated_channel now ch c,
    back _ (
        In-update_where_hit (λ o. o.id == ch.id) (updated_channel now ch) s.channels c m
          ((eq_iff c.id ch.id).1 same)),
    same,
  );
  same_users = ap (λ (d : Db). d.users) e;
  same_jobs = ap (λ (d : Db). d.jobs) e;
  same_executions = ap (λ (d : Db). d.executions) e;
  same_notifications = ap (λ (d : Db). d.notifications) e;
}
  where
    back :
        (c : Channel)
        → In c (update_where (λ o. o.id == ch.id) (updated_channel now ch) s.channels)
        → In c t.channels
    back c m = subst (λ (d : Db). In c d.channels) (sym e) m

    row :
        (c : Channel)
        → In c t.channels
        → (o : Channel) × In o s.channels
          × ((((o.id == ch.id) ≡ true) × (c ≡ updated_channel now ch o))
              ⊎ (((o.id == ch.id) ≡ false) × (c ≡ o)))
    row c m =
        In-update_where (λ o. o.id == ch.id) (updated_channel now ch) s.channels c
          (subst (λ (d : Db). In c d.channels) e m)

pub update-Replaced :
    (ch : Channel) (s u : Store)
    → u.db ≡ s.db
    → Ensures (λ _ t. Replaced ch s t) (λ _ t. t.db ≡ s.db) (update ch u)
update-Replaced ch s u same =
    Ensures-mono (update-Saved ch u)
      (λ _ t h. Replaced-of_Saved ch s t (
        h.0,
        subst
            (λ (d : Db). t.db ≡ record d {
              channels = update_where (λ c. c.id == ch.id) (updated_channel h.0 ch) d.channels;
            })
            same h.1,
      ))
      (λ _ _ h. h ∙ same)

-- Without a failure the row is found, and the UPDATE of a row that the constraints allow is made.
pub get_by_id-eq-ok :
    (id : String) (s : Store) (c : Channel)
    → s.faults ≡ []
    → IsFirst id s c
    → get_by_id id s ≡ (ok c, s)
unfolding get_by_id
get_by_id-eq-ok id s c calm first = query-eq-ok _ s c calm (ap found first)

pub update-eq-ok :
    (ch : Channel) (s : Store)
    → s.faults ≡ []
    → channel_row_allowed ch ≡ true
    → (t : Store) × (update ch s ≡ (ok tt, t))
unfolding update set_channel require
update-eq-ok ch s calm allowed = (
  _,
  statement-eq-ok _ s tt
      (record s.db {
        channels = update_where (λ c. c.id == ch.id) (updated_channel (current s) ch) s.channels;
      })
      calm
      (elim (Bool-cases (has_channel ch.id s.channels)) [
        | inl e ↦ rw (e, allowed) refl
        | inr e ↦ rw (e) refl
      ]),
)
