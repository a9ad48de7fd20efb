-- ===== src/Executor/Command.antt =====
-- internal/executor/command.go.
use signal_flow.Base.{
  ℕ, String, Option, none, some, Result, ok, err, Error, M, pure, throw, ◌>>=◌, ◌+++◌, ◌++◌,
  if◌then◌else◌, ◌==◌, ltb, length, take, bytes_of,
}
use signal_flow.Domain.{Bytes, RawMessage, ExecStatus, success, failure}
use signal_flow.Executor.{ExecResult, Context, Executor}

abbrev pub max_output_bytes : ℕ
max_output_bytes = 10240

pub record CommandConfig : Type 0 where
  pub command : String
  pub shell : String

abbrev pub truncation_mark : Bytes
truncation_mark = bytes_of "\n... (truncated)"

unfoldable pub truncate : Bytes → Bytes
truncate out =
    if ltb max_output_bytes (length out) then take max_output_bytes out ++ truncation_mark else out

abbrev pub shell_of : CommandConfig → String
shell_of cfg = if cfg.shell == "" then "/bin/sh" else cfg.shell

abbrev pub status_of : Option Error → ExecStatus
status_of none = success
status_of (some e) = failure

abbrev pub invalid_config : Error → Error
invalid_config e = record e { text = "invalid config: " +++ e.text }

-- `run ctx shell command` is CombinedOutput: what the process wrote, and the error of its exit.
module _ {S : Type 0} (unmarshal : RawMessage → Result CommandConfig)
    (run : Context → String → String → M S (Bytes × Option Error)) where
  abbrev finished : Bytes × Option Error → ExecResult
  finished (output, e) = record { status = status_of e; output = truncate output }

  unfoldable pub execute_command : Executor S
  unfolding truncate
  execute_command ctx config = elim (unmarshal config) [
    | err e ↦ throw (invalid_config e)
    | ok cfg ↦ do r ← run ctx (shell_of cfg) cfg.command; pure (finished r)
  ]
