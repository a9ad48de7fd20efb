-- ===== src/Store.antt =====
-- The database as the repositories see it: the five tables of migrations/*.up.sql, the clock,
-- the source of fresh identifiers, and the failures of the driver and the server that are still
-- to come. A statement either fails and changes no row, or acts on the rows at once.
pub mod Rows
pub mod Keys
pub mod Statement
pub mod Counting
use signal_flow.Base.{ℕ, String, Bool, Option, List}
use signal_flow.Domain.{Time, Bytes, User, Job, Execution, Channel, Notification}

pub record Db : Type 0 where
  pub users : List User
  pub jobs : List Job
  pub executions : List Execution
  pub channels : List Channel
  pub notifications : List Notification

-- `clock n` is the n-th reading of the clock, `uuid n` the n-th identifier drawn; the head of
-- `faults` is what the next statement meets (`none` is no failure, and so is an empty list);
-- `locked` are the jobs whose rows other transactions hold; `text_ok` tells the byte sequences
-- that a TEXT column takes.
pub record Store : Type 0 where
  pub db : Db
  pub open db use *
  pub clock : ℕ → Time
  pub reads : ℕ
  pub uuid : ℕ → String
  pub drawn : ℕ
  pub faults : List (Option String)
  pub locked : List String
  pub text_ok : Bytes → Bool

-- `now()` in a statement.
abbrev pub current : Store → Time
current s = s.clock s.reads
