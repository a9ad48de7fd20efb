-- ===== src/Service.antt =====
-- internal/service: the operations behind the HTTP handlers, over the repository interfaces. The
-- errors of errors.go are the `ErrorKind`s.
pub mod Job
pub mod Channel
pub mod Execution
pub mod Notification
pub mod Dashboard
pub mod Auth
pub mod Keeping
