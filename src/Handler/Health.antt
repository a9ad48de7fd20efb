-- ===== src/Handler/Health.antt =====
-- internal/handler/health.go. `ping` is the pool's, bounded by the probe's timeout.
use signal_flow.Base.{ℤ, pos, [], ◌∷◌, Result, ok, err, M, ◌+++◌}
use signal_flow.Executor.{Context}
use signal_flow.Handler.Http.{Response, Handler, respond_json, plain}

abbrev pub readyz_timeout : ℤ
readyz_timeout = pos 2_000_000_000

module _ {S : Type 0} (ping : Context → M S (Unit {0})) where
  unfoldable pub live : Handler S
  live r s = (respond_json 200 (plain "ok"), s)

  abbrev pub readiness : Result (Unit {0}) × S → Response × S
  readiness (err e, s) = (respond_json 503 (plain ("not ready: " +++ e.text)), s)
  readiness (ok _, s) = (respond_json 200 (plain "ready"), s)

  unfoldable pub ready : Handler S
  ready r s = readiness (ping (readyz_timeout ∷ []) s)
