-- ===== src/Executor.antt =====
-- internal/executor: running a job of each type. A context is the list of the timeouts that
-- bound it; encoding/json, os/exec, net/http and fmt are parameters.
pub mod Command
pub mod HttpCheck
pub mod Laws
use signal_flow.Base.{ℤ, List, Result, M}
use signal_flow.Domain.{Bytes, RawMessage, ExecStatus}

pub record ExecResult : Type 0 where
  pub status : ExecStatus
  pub output : Bytes

-- The durations, in nanoseconds, by which contexts around a call were bounded.
abbrev pub Context : Type 0
Context = List ℤ

abbrev pub Executor : Type 0 → Type 0
Executor S = Context → RawMessage → M S ExecResult
