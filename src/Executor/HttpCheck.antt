-- ===== src/Executor/HttpCheck.antt =====
-- internal/executor/http_check.go. `new_request` and `send` are net/http's NewRequest and Do, the
-- latter with the client's own timeout; `show_int` is %d.
use signal_flow.Base.{
  ℤ, pos, negsuc, String, Bool, false, ◌∷◌, Result, ok, err, M, pure, throw, ◌>>=◌, try, ◌+++◌,
  if◌then◌else◌, nat_eq, bytes_of, is_positive, scale, wrap_int64,
}
use signal_flow.Domain.{Bytes, RawMessage, success, failure}
use signal_flow.Executor.{ExecResult, Context, Executor}
use signal_flow.Executor.Command.{invalid_config}

pub record HttpCheckConfig : Type 0 where
  pub url : String
  pub expected_status : ℤ
  pub timeout_seconds : ℤ

abbrev pub int_eq : ℤ → ℤ → Bool
int_eq (pos a) (pos b) = nat_eq a b
int_eq (negsuc a) (negsuc b) = nat_eq a b
int_eq (pos a) (negsuc b) = false
int_eq (negsuc a) (pos b) = false

abbrev pub expected_of : HttpCheckConfig → ℤ
expected_of cfg = if int_eq cfg.expected_status (pos 0) then pos 200 else cfg.expected_status

-- `time.Duration(n) * time.Second`, an int64 product.
abbrev pub seconds : ℤ → ℤ
seconds n = wrap_int64 (scale n 1_000_000_000)

abbrev pub context_of : Context → HttpCheckConfig → Context
context_of ctx cfg =
    if is_positive cfg.timeout_seconds then seconds cfg.timeout_seconds ∷ ctx else ctx

module _ {S Request : Type 0} (show_int : ℤ → String)
    (unmarshal : RawMessage → Result HttpCheckConfig) (new_request : String → Result Request)
    (send : Context → Request → M S ℤ) where
  abbrev pub status_line : ℤ → ℤ → Bytes
  status_line code expected =
      bytes_of ("HTTP " +++ show_int code +++ " (expected " +++ show_int expected +++ ")")

  abbrev pub checked : ℤ → Result ℤ → ExecResult
  checked expected (err e) = record {
    status = failure;
    output = bytes_of ("request failed: " +++ e.text);
  }
  checked expected (ok code) = record {
    status = if int_eq code expected then success else failure;
    output = status_line code expected;
  }

  abbrev pub send_check : Context → HttpCheckConfig → Result Request → M S ExecResult
  send_check ctx cfg (err e) = throw e
  send_check ctx cfg (ok req) = do
    r ← try (send (context_of ctx cfg) req)
    pure (checked (expected_of cfg) r)

  unfoldable pub execute_check : Executor S
  execute_check ctx config = elim (unmarshal config) [
    | err e ↦ throw (invalid_config e)
    | ok cfg ↦ send_check ctx cfg (new_request cfg.url)
  ]
