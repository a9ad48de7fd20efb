-- ===== src/Scheduler/Execute/Timeout.antt =====
-- The bound on a run, as an int64 number of nanoseconds.
use signal_flow.Base.{ℤ, pos, negsuc, ◌<◌, ◌^◌, ◌≡◌, if◌then◌else◌, arith, is_positive, scale}
use signal_flow.Scheduler.Execute.{job_timeout, default_job_timeout}

-- The values of the INT column jobs.timeout_seconds.
abbrev pub IsInt32 : ℤ → Type 0
IsInt32 (pos n) = n < 2 ^ 31
IsInt32 (negsuc n) = n < 2 ^ 31

-- For a number of seconds that fits an INT column the product does not overflow: a positive number
-- bounds the run by as many seconds, and any other by thirty.
pub job_timeout_lem :
    (t : ℤ)
    → IsInt32 t
    → job_timeout t ≡ (if is_positive t then scale t 1_000_000_000 else default_job_timeout)
unfolding job_timeout
job_timeout_lem (pos n) h = ground arith
job_timeout_lem (negsuc n) h = ground arith
