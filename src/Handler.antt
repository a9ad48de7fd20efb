-- ===== src/Handler.antt =====
-- internal/handler: requests, their guards, the JSON API, the pages, and the routes.
pub mod Http
pub mod Guard
pub mod Auth
pub mod Job
pub mod Channel
pub mod Execution
pub mod Notification
pub mod Session
pub mod Health
pub mod Dashboard
pub mod Router
pub mod Keeping
