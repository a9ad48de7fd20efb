-- ===== src/Repository.antt =====
-- internal/repository/postgres: each method as the SQL statement it sends. The constraints of
-- migrations/*.up.sql (keys, references with ON DELETE CASCADE, CHECK) are part of a statement's
-- meaning; an UPDATE or DELETE that meets no row succeeds.
pub mod Constraints
pub mod User
pub mod Job
pub mod Claim
pub mod Execution
pub mod Channel
pub mod Notification
pub mod Adapters
pub mod Integrity
