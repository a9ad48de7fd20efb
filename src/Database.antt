-- ===== src/Database.antt =====
-- internal/database/database.go. pgx and the migrate library are parameters: the pool, the source of
-- the migration files, the migrator on it, and `Up`, whose ErrNoChange is an outcome of its own. A
-- log line is left out.
pub mod Laws
use signal_flow.Base.{
  ℕ, zero, suc, String, Option, none, some, Result, ok, err, Error, other, M, pure, throw, try,
  lift, ◌>>=◌, ◌>>◌, ◌+++◌, if◌then◌else◌, nat_eq, map_err,
}
use signal_flow.Domain.{Time}

abbrev pub migrate_max_attempts : ℕ
migrate_max_attempts = 30

abbrev pub migrate_retry_backoff : Time
migrate_retry_backoff = 2_000_000_000

-- fmt.Errorf("…: %w", err).
abbrev pub wrapped : String → Error → Error
wrapped text e = record e { text = text +++ ": " +++ e.text }

module _ {S Pool : Type 0} (new_pool : String → M S Pool) (ping : Pool → M S (Unit {0})) where
  unfoldable pub connect : String → M S Pool
  connect url = do pool ← new_pool url; ping pool; pure pool

-- What `Up` reports.
pub data Applied : Type 0 where
  migrated no_change : Applied
  migration_failed : Error → Applied

module _ {S Files Source Migrator : Type 0} (show : ℕ → String) (new_source : Files → M S Source)
    (new_migrator : Source → String → M S Migrator) (sleep : Time → S → S)
    (up : Migrator → S → Applied × S) where
  abbrev pub pause : M S (Unit {0})
  pause s = (ok tt, sleep migrate_retry_backoff s)

  abbrev pub exhausted : ℕ → Error → Error
  exhausted attempt e = wrapped ("creating migrator after " +++ show attempt +++ " attempts") e

  -- The loop from an attempt on, with `fuel` rounds left; `none` is a loop that ran out of rounds.
  unfoldable pub open_migrator : ℕ → ℕ → Source → String → M S (Option Migrator)
  open_migrator zero attempt src url = pure none
  open_migrator (suc fuel) attempt src url = do
    r ← try (new_migrator src url)
    elim r [
      | ok m ↦ pure (some m)
      | err e ↦
          let again = (do pause; open_migrator fuel (suc attempt) src url) in
          if nat_eq attempt migrate_max_attempts then throw (exhausted attempt e) else again
    ]

  abbrev pub applied : Applied × S → Result (Unit {0}) × S
  applied (migrated, s) = (ok tt, s)
  applied (no_change, s) = (ok tt, s)
  applied (migration_failed e, s) = (err (wrapped "running migrations" e), s)

  -- `Up` of a nil migrator does not return.
  abbrev pub run_up : Option Migrator → M S (Unit {0})
  run_up none s = (err (record { kind = other; text = "nil pointer dereference" }), s)
  run_up (some m) s = applied (up m s)

  unfoldable pub migrate : Files → String → M S (Unit {0})
  unfolding open_migrator
  migrate files url = do
    src ← map_err (wrapped "creating iofs source") (new_source files)
    m ← open_migrator migrate_max_attempts 1 src url
    run_up m
