-- ===== src/Tests/Tables.antt =====
-- The tables under a sequence of calls, and the migrator that opens at the second attempt.
use signal_flow.Base.{
  ℕ, pos, suc, ◌<◌, ◌≡◌, ◌⊎◌, refl, String, List, [], ◌∷◌, ok, err, Error, other, ne_of_test,
  if◌then◌else◌, nat_eq, M,
}
use signal_flow.Domain.{Time}
use signal_flow.Repository.Integrity.{
  IsConsistent, Write, create_job, claim_due, delete_user, recover_stale, update_status, after_all,
}
use signal_flow.Repository.Integrity.Laws.{after_all-IsConsistent}
use signal_flow.Domain.{sent}
use signal_flow.Database.{Applied, no_change, applied, exhausted, migrate, migrate_max_attempts}
use signal_flow.Database.Laws.{Opened, GaveUp, migrate_terminates}
use signal_flow.Tests.Data.{store, tables, backup, at_time, at_time-OnlyReads}

-- A claim, a job that is refused as it has its identifier already, a cleaning and two more.
abbrev calls : List Write
calls =
    claim_due (pos 4) (at_time 3610)
    ∷ create_job backup
    ∷ recover_stale 20
    ∷ update_status "none" sent ""
    ∷ delete_user "ann"
    ∷ []

pub tables-IsConsistent : IsConsistent tables
tables-IsConsistent = record {
  users_ok = record { ids = (tt, tt); emails = (tt, tt) };
  jobs_ok = record {
    ids = ((ne_of_test "backup" "report" refl, tt), (tt, tt));
    owners = (refl, (refl, tt));
    rows = (refl, (refl, tt));
  };
  channels_ok = record { ids = (tt, tt); owners = (refl, tt); rows = (refl, tt) };
  executions_ok = record { ids = (tt, tt); runs = (refl, tt) };
  notifications_ok = record { ids = tt; about = tt; through = tt };
}

after_all-IsConsistent_example : IsConsistent (after_all calls store).db
after_all-IsConsistent_example =
    after_all-IsConsistent calls store (at_time-OnlyReads 3610, (tt, (tt, (tt, (tt, tt)))))
      tables-IsConsistent

abbrev no_migrator : Error
no_migrator = record { kind = other; text = "connection refused" }

-- The state is the number of attempts.
abbrev new_source : String → M ℕ String
new_source files n = (ok files, n)

abbrev new_migrator : String → String → M ℕ String
new_migrator source url n = if nat_eq n 0 then (err no_migrator, suc n) else (ok url, suc n)

abbrev sleep : Time → ℕ → ℕ
sleep t n = n

abbrev up : String → ℕ → Applied × ℕ
up m n = (no_change, n)

abbrev show : ℕ → String
show n = ""

migrate_terminates_example :
    ((n : ℕ) × (m : String) × (t : ℕ) × (n < migrate_max_attempts)
      × Opened show new_source new_migrator sleep up "files" "url" n 0 m t
      × (migrate show new_source new_migrator sleep up "files" "url" 0
          ≡ applied show new_source new_migrator sleep up (up m t)))
    ⊎ ((e : Error) × (t : ℕ) × GaveUp show new_source new_migrator sleep up "files" "url" 29 0 e t
        × (migrate show new_source new_migrator sleep up "files" "url" 0
            ≡ (err (exhausted show new_source new_migrator sleep up migrate_max_attempts e), t)))
migrate_terminates_example =
    migrate_terminates show new_source new_migrator sleep up "files" "url" 0 0 "files" refl
