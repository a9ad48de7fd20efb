-- ===== src/Notifier/Message.antt =====
-- `Message` and `executionMessage` of internal/notifier/notifier.go. `show_duration` is
-- `Duration.String`.
use signal_flow.Base.{
  ℤ, String, Option, none, some, ◌++◌, M, pure, ◌>>=◌, ◌+++◌, if◌then◌else◌, ◌==◌, bytes_of, scale,
  wrap_int64,
}
use signal_flow.Domain.{Time, Bytes, Job, Execution, ExecStatus, running, success, failure, error}
use signal_flow.Domain.Ports.{Runtime}

pub record Message : Type 0 where
  pub job_name : String
  pub status : ExecStatus
  pub output : Bytes
  pub error : String
  pub duration : ℤ
  pub timestamp : Time

abbrev pub status_text : ExecStatus → String
status_text running = "running"
status_text success = "success"
status_text failure = "failure"
status_text error = "error"

module _ (show_duration : ℤ → String) where
  unfoldable pub message_string : Message → Bytes
  message_string m =
      if m.error == ""
      then bytes_of (
          "["
          +++ status_text m.status
          +++ "] Job '"
          +++ m.job_name
          +++ "' (took "
          +++ show_duration m.duration
          +++ ")\nOutput: ")
        ++ m.output
      else bytes_of (
          "["
          +++ status_text m.status
          +++ "] Job '"
          +++ m.job_name
          +++ "' - "
          +++ m.error
          +++ " (took "
          +++ show_duration m.duration
          +++ ")\nOutput: ")
        ++ m.output

abbrev finish_time : Option Time → Time → Time
finish_time none now = now
finish_time (some t) now = t

unfoldable pub message_of : Job → Execution → Time → Message
message_of job exec now = record {
  job_name = job.name;
  status = exec.status;
  output = exec.output;
  error = exec.error;
  duration = wrap_int64 (scale exec.duration_ms 1_000_000);
  timestamp = finish_time exec.finished_at now;
}

unfoldable pub execution_message : {S : Type 0} → Runtime S → Job → Execution → M S Message
unfolding message_of
execution_message runtime job exec = do now ← runtime.now; pure (message_of job exec now)
