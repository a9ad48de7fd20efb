-- ===== src/Database/Laws.antt =====
-- How often the migrator is tried.
use signal_flow.Base.{
  ℕ, zero, suc, ◌+◌, ◌≤◌, ◌<◌, String, Option, some, Result, ok, err, Error, M, ◌≡◌, refl, ◌⊎◌, inl,
  inr, arith, nat_eq, if◌then◌else◌, true, false, run_next, map_err_of,
}
use signal_flow.Domain.{Time}
use signal_flow.Database.{
  migrate_max_attempts, migrate_retry_backoff, Applied, exhausted, open_migrator, applied, migrate,
}

module _ {S Files Source Migrator : Type 0} (show : ℕ → String) (new_source : Files → M S Source)
    (new_migrator : Source → String → M S Migrator) (sleep : Time → S → S)
    (up : Migrator → S → Applied × S) where
  -- So many failed attempts, each followed by a pause, lead from one state to the other.
  pub data Retried (src : Source) (url : String) : ℕ → S → S → Type 0 where
    at_once : {s : S} → Retried src url 0 s s
    after_failure :
        {n : ℕ} {s t u : S} {e : Error}
        → new_migrator src url s ≡ (err e, t)
        → Retried src url n (sleep migrate_retry_backoff t) u
        → Retried src url (suc n) s u

  -- The attempt behind `n` failures opened a migrator, with which the loop ends.
  abbrev pub Opened : Source → String → ℕ → S → Migrator → S → Type 0
  Opened src url n s m t = (u : S) × Retried src url n s u × (new_migrator src url u ≡ (ok m, t))

  abbrev pub GaveUp : Source → String → ℕ → S → Error → S → Type 0
  GaveUp src url n s e t = (u : S) × Retried src url n s u × (new_migrator src url u ≡ (err e, t))

  -- How the loop ends, with so many rounds left before the last.
  abbrev LoopEnds : Source → String → ℕ → S → Result (Option Migrator) × S → Type 0
  LoopEnds src url rest s out =
      ((n : ℕ) × (m : Migrator) × (t : S) × (n ≤ rest)
        × Opened src url n s m t
        × (out ≡ (ok (some m), t)))
      ⊎ ((e : Error) × (t : S) × GaveUp src url rest s e t
          × (out
              ≡ (err (exhausted show new_source new_migrator sleep up migrate_max_attempts e), t)))

  opened_or_not :
      (out : Result Migrator × S)
      → ((m : Migrator) × (t : S) × (out ≡ (ok m, t)))
        ⊎ ((e : Error) × (t : S) × (out ≡ (err e, t)))
  opened_or_not (ok m, t) = inl (m, t, refl)
  opened_or_not (err e, t) = inr (e, t, refl)

  one_more :
      (src : Source) (url : String) (rest : ℕ) (s t : S) (e : Error)
      (out : Result (Option Migrator) × S)
      → new_migrator src url s ≡ (err e, t)
      → LoopEnds src url rest (sleep migrate_retry_backoff t) out
      → LoopEnds src url (suc rest) s out
  one_more src url rest s t e out failed_with (inl (n, m, v, le, (u, tries, opened), is)) =
      inl (suc n, m, v, omega (arith, le), (u, after_failure failed_with tries, opened), is)
  one_more src url rest s t e out failed_with (inr (x, v, (u, tries, gave_up), is)) =
      inr (x, v, (u, after_failure failed_with tries, gave_up), is)

  loop_ends :
      (rest attempt : ℕ) (src : Source) (url : String) (s : S)
      → attempt + rest ≡ 30
      → LoopEnds src url rest s
          (open_migrator show new_source new_migrator sleep up (suc rest) attempt src url s)
  unfolding open_migrator run_next
  loop_ends zero attempt src url s h = elim (opened_or_not (new_migrator src url s)) [
    | inl (m, t, e) ↦ rw e (inl (0, m, t, omega arith, (s, at_once, e), refl))
    | inr (x, t, e) ↦
        let last : nat_eq attempt 30 ≡ true = ground (arith, h) in
        let which : attempt ≡ 30 = omega (arith, h) in
        rw (e, last, which, if◌then◌else◌) (inr (x, t, (s, at_once, e), refl))
  ]
  loop_ends (suc rest) attempt src url s h = elim (opened_or_not (new_migrator src url s)) [
    | inl (m, t, e) ↦ rw e (inl (0, m, t, omega arith, (s, at_once, e), refl))
    | inr (x, t, e) ↦
        let more : nat_eq attempt 30 ≡ false = ground (arith, h) in
        rw (e, more, if◌then◌else◌)
          (one_more src url rest s t x _ e
            (loop_ends rest (suc attempt) src url _ (omega (arith, h))))
  ]

  -- With a source of migration files, Migrate tries to open a migrator at most thirty times, with a
  -- pause after each failure but the last, and always ends the loop: at the first attempt that opens
  -- one, whose `Up` decides the result, and where `Up` changes nothing that is a success; or, after
  -- the thirtieth failure, with an error that wraps the last one. A nil migrator is never used.
  pub migrate_terminates :
      (files : Files) (url : String) (s s' : S) (src : Source)
      → new_source files s ≡ (ok src, s')
      → ((n : ℕ) × (m : Migrator) × (t : S) × (n < migrate_max_attempts)
          × Opened src url n s' m t
          × (migrate show new_source new_migrator sleep up files url s
              ≡ applied show new_source new_migrator sleep up (up m t)))
        ⊎ ((e : Error) × (t : S) × GaveUp src url 29 s' e t
            × (migrate show new_source new_migrator sleep up files url s ≡ (
              err (exhausted show new_source new_migrator sleep up migrate_max_attempts e),
              t,
            )))
  unfolding migrate run_next map_err_of
  migrate_terminates files url s s' src e = elim (loop_ends 29 1 src url s' refl) [
    | inl (n, m, t, le, opened, is) ↦ inl (n, m, t, omega (arith, le), opened, rw (e, is) refl)
    | inr (x, t, gave_up, is) ↦ inr (x, t, gave_up, rw (e, is) refl)
  ]
