-- ===== src/Scheduler/Policy.antt =====
-- shouldNotify and isFailure of internal/scheduler/scheduler.go. `unmarshal` is json.Unmarshal of
-- the condition: the text under "on", empty if there is none.
pub mod Laws
use signal_flow.Base.{String, Bool, true, false, none, some, Result, ok, err, if◌then◌else◌, ◌==◌}
use signal_flow.Domain.{RawMessage, ExecStatus, failure, error, is_success, Job, Execution}

unfoldable pub is_failure : ExecStatus → Bool
is_failure failure = true
is_failure error = true
is_failure _ = false

-- `len(job.Condition) == 0`.
abbrev pub is_empty_message : RawMessage → Bool
is_empty_message none = true
is_empty_message (some text) = text == ""

-- The `switch cond.On`.
unfoldable pub notify_on : String → ExecStatus → Bool
unfolding is_failure
notify_on on status =
    if on == "failure"
    then is_failure status
    else if on == "success"
    then is_success status
    else if on == "always"
    then true
    else is_failure status

abbrev notify_if : Result String → ExecStatus → Bool
notify_if (err e) status = false
notify_if (ok on) status = notify_on on status

module _ (unmarshal : RawMessage → Result String) where
  unfoldable pub should_notify : Job → Execution → Bool
  unfolding notify_on
  should_notify job exec =
      if is_empty_message job.condition
      then is_failure exec.status
      else notify_if (unmarshal job.condition) exec.status
