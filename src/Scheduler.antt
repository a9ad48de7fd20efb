-- ===== src/Scheduler.antt =====
-- internal/scheduler: claiming due jobs on each tick, running them, recording the outcome and
-- asking for notifications. The parts are parameters, as the fields of the Go struct are.
pub mod Policy
pub mod Execute
pub mod Tick
pub mod Run
pub mod Keeping
